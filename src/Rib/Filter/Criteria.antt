-- ===== src/Rib/Filter/Criteria.antt =====
-- What it takes for a route to match a filter, and what an unreadable list of networks does.
use rustybmp.Base.{
  ℕ, ◌+◌, ◌*◌, ◌/◌, ◌%◌, ◌<◌, ◌≤◌, ◌≡◌, refl, sym, subst, ◌↔◌, ◌⊎◌, inl, inr, ◌++◌, Bool, true,
  false, not, ◌||◌, Option, none, some, List, [], ◌∷◌, map, arith, ◌==◌, nat_eq, is_empty, any,
  any_iff, All, Any, if◌then◌else◌,
}
use rustybmp.Base.Text.{Text, codes, decimal}
use rustybmp.Core.Net.{IpAddr, ip_beq, ip_beq_iff}
use rustybmp.Core.Ipnet.{Net, IpNet, Ipnet, network}
use rustybmp.Core.Bgp.Nlri.{Prefix, labeled, vpn}
use rustybmp.Core.Bgp.AsPath.{
  AsPathSegment, set, sequence, confed_sequence, confed_set, AsPath, asns,
}
use rustybmp.Core.Bgp.Attributes.{PathAttributes}
use rustybmp.Rib.FilterExpr.{
  Expr, RouteCtx, Holds, eval-Holds, unwrap_or, has, has_iff, has_text, has_text_iff,
}
use rustybmp.Rib.Filter.{
  RouteFilter, CompiledFilter, Parsers, filter_map, compile, inner_addr, show_community, path_asns,
  all_in, at_least, at_most, eval_on, net_contains, prefix_matches, community_matches, matches,
}

-- A list that is empty asks for nothing, any other for an element with `P`.
abbrev pub Listed {ℓ} : {A : Type ℓ} → (A → Type 0) → List A → Type 0
Listed P [] = Unit
Listed P (x ∷ xs) = Any P (x ∷ xs)

Listed-iff :
    {A : Type 0} (p : A → Bool) (P : A → Type 0) (xs : List A)
    → ((x : A) → (p x ≡ true) ↔ P x)
    → ((is_empty xs || any p xs) ≡ true) ↔ Listed P xs
Listed-iff p P [] h = ((λ e. tt), λ u. refl)
Listed-iff p P (x ∷ xs) h = any_iff p P (x ∷ xs) h

-- The network bits of the address are those of the network.
abbrev pub Inside : IpNet → IpAddr → Type 0
Inside (IpNet.v4 n) (IpAddr.v4 a) =
    (n.prefix_len ≤ 32) × (network 32 n.prefix_len a ≡ network 32 n.prefix_len n.addr)
Inside (IpNet.v6 n) (IpAddr.v6 a) =
    (n.prefix_len ≤ 128) × (network 128 n.prefix_len a ≡ network 128 n.prefix_len n.addr)
Inside _ _ = ⊥

abbrev pub AtLeast : Option ℕ → ℕ → Type 0
AtLeast none n = Unit
AtLeast (some min) n = min ≤ n

abbrev pub AtMost : Option ℕ → ℕ → Type 0
AtMost none n = Unit
AtMost (some max) n = n ≤ max

abbrev pub HoldsOn : Option Expr → Option RouteCtx → Type 0
HoldsOn (some e) (some ctx) = Holds e ctx
HoldsOn _ _ = Unit

at_least_iff : (min : Option ℕ) (n : ℕ) → (at_least min n ≡ true) ↔ AtLeast min n
at_least_iff none n = ((λ e. tt), λ u. refl)
at_least_iff (some min) n = ground arith

at_most_iff : (max : Option ℕ) (n : ℕ) → (at_most max n ≡ true) ↔ AtMost max n
at_most_iff none n = ((λ e. tt), λ u. refl)
at_most_iff (some max) n = ground arith

eval_on_iff : (e : Option Expr) (ctx : Option RouteCtx) → (eval_on e ctx ≡ true) ↔ HoldsOn e ctx
eval_on_iff (some e) (some ctx) = eval-Holds e ctx
eval_on_iff none ctx = ((λ e. tt), λ u. refl)
eval_on_iff (some e) none = ((λ e. tt), λ u. refl)

all_in_iff :
    (P : ℕ → Type 0) (want s : List ℕ)
    → ((n : ℕ) → (has s n ≡ true) ↔ P n)
    → (all_in want s ≡ true) ↔ All P want
all_in_iff P [] s h = ((λ e. tt), λ u. refl)
all_in_iff P (n ∷ want) s h = ground (arith, h n, all_in_iff P want s h)

guard_iff :
    {P Q : Type 0} (b rest : Bool)
    → (b ≡ true) ↔ P
    → (rest ≡ true) ↔ Q
    → ((if not b then false else rest) ≡ true) ↔ (P × Q)
guard_iff true rest h k = ((λ e. (h.0 refl, k.0 e)), λ pq. k.1 pq.1)
guard_iff false rest h k = ((λ e. cc), λ pq. absurd (cc (h.1 pq.0)))

-- The address of the prefix that the labels and the route distinguishers are put before.
pub data InnerAddr : Prefix → IpAddr → Type 0 where
  of_v4 : {n : Net} → InnerAddr (Prefix.v4 n) (IpAddr.v4 n.addr)
  of_v6 : {n : Net} → InnerAddr (Prefix.v6 n) (IpAddr.v6 n.addr)
  of_labeled :
      {p : Prefix} {labels : List ℕ} {a : IpAddr} → InnerAddr p a → InnerAddr (labeled p labels) a
  of_vpn :
      {rd : List ℕ} {p : Prefix} {labels : List ℕ} {a : IpAddr}
      → InnerAddr p a
      → InnerAddr (vpn rd p labels) a

inner_addr-InnerAddr : (p : Prefix) → InnerAddr p (inner_addr p)
unfolding inner_addr
inner_addr-InnerAddr (Prefix.v4 n) = of_v4
inner_addr-InnerAddr (Prefix.v6 n) = of_v6
inner_addr-InnerAddr (labeled p labels) = of_labeled (inner_addr-InnerAddr p)
inner_addr-InnerAddr (vpn rd p labels) = of_vpn (inner_addr-InnerAddr p)

InnerAddr-inner_addr : (p : Prefix) (a : IpAddr) → InnerAddr p a → inner_addr p ≡ a
unfolding inner_addr
InnerAddr-inner_addr (Prefix.v4 n) _ of_v4 = refl
InnerAddr-inner_addr (Prefix.v6 n) _ of_v6 = refl
InnerAddr-inner_addr (labeled p labels) a (of_labeled h) = InnerAddr-inner_addr p a h
InnerAddr-inner_addr (vpn rd p labels) a (of_vpn h) = InnerAddr-inner_addr p a h

-- A community is written as its two halves, the upper one first.
abbrev pub WrittenAs : ℕ → Text → Type 0
WrittenAs c t =
    (upper : ℕ) × ((lower : ℕ) × ((lower < 65536)
        × ((c ≡ upper * 65536 + lower) × (t ≡ decimal upper ++ (codes ":" ++ decimal lower)))))

show_community_iff : (c : ℕ) (t : Text) → (show_community c ≡ t) ↔ WrittenAs c t
unfolding show_community
show_community_iff c t = (
  (λ e. (c / 65536, (c % 65536, (omega arith, (omega arith, sym e))))),
  λ (u, (l, (h, (e, w)))).
      let upper : c / 65536 ≡ u = omega (arith, h, e) in
      let lower : c % 65536 ≡ l = omega (arith, h, e) in rw upper (rw lower (sym w)),
)

Any-map :
    {A B : Type 0} (f : A → B) (P : B → Type 0) (Q : A → Type 0) (xs : List A)
    → ((x : A) → P (f x) ↔ Q x)
    → Any P (map f xs) ↔ Any Q xs
Any-map f P Q [] h = ((λ e. e), λ e. e)
Any-map f P Q (x ∷ xs) h =
    let ih = Any-map f P Q xs h in
    (
      (λ e. elim e [ inl p ↦ inl ((h x).0 p) | inr r ↦ inr (ih.0 r) ]),
      λ e. elim e [ inl p ↦ inl ((h x).1 p) | inr r ↦ inr (ih.1 r) ],
    )

has_community_iff :
    (cs : List ℕ) (want : Text)
    → (has_text (map show_community cs) want ≡ true) ↔ Any (λ c. WrittenAs c want) cs
has_community_iff cs want =
    let texts = has_text_iff (map show_community cs) want in
    let each =
      Any-map show_community (λ t. t ≡ want) (λ c. WrittenAs c want) cs
        (λ c. show_community_iff c want) in
    ((λ e. each.0 (texts.0 e)), λ e. texts.1 (each.1 e))

-- The AS is in some segment of the path, of whatever type that is.
abbrev pub InSegment : ℕ → AsPathSegment → Type 0
InSegment n (set as') = Any (λ m. m ≡ n) as'
InSegment n (sequence as') = Any (λ m. m ≡ n) as'
InSegment n (confed_sequence as') = Any (λ m. m ≡ n) as'
InSegment n (confed_set as') = Any (λ m. m ≡ n) as'

abbrev pub OnPath : Option AsPath → ℕ → Type 0
OnPath none n = ⊥
OnPath (some p) n = Any (InSegment n) p

asns_iff : (n : ℕ) (s : AsPathSegment) → Any (λ m. m ≡ n) (asns s) ↔ InSegment n s
unfolding asns
asns_iff n (set v) = ((λ e. e), λ e. e)
asns_iff n (sequence v) = ((λ e. e), λ e. e)
asns_iff n (confed_sequence v) = ((λ e. e), λ e. e)
asns_iff n (confed_set v) = ((λ e. e), λ e. e)

Any-append : (P : ℕ → Type 0) (xs ys : List ℕ) → Any P (xs ++ ys) ↔ (Any P xs ⊎ Any P ys)
Any-append P [] ys = ((λ e. inr e), λ e. elim e [ inl b ↦ elim b [ ] | inr r ↦ r ])
Any-append P (x ∷ xs) ys =
    let ih = Any-append P xs ys in
    (
      (λ e. elim e [
        | inl p ↦ inl (inl p)
        | inr r ↦ elim (ih.0 r) [ inl a ↦ inl (inr a) | inr b ↦ inr b ]
      ]),
      λ e. elim e [
        | inl a ↦ elim a [ inl p ↦ inl p | inr r ↦ inr (ih.1 (inl r)) ]
        | inr b ↦ inr (ih.1 (inr b))
      ],
    )

path_asns_iff : (n : ℕ) (p : AsPath) → Any (λ m. m ≡ n) (path_asns (some p)) ↔ Any (InSegment n) p
unfolding path_asns
path_asns_iff n [] = ((λ e. e), λ e. e)
path_asns_iff n (s ∷ ss) =
    let both = Any-append (λ m. m ≡ n) (asns s) (path_asns (some ss)) in
    let here = asns_iff n s in
    let there = path_asns_iff n ss in
    (
      (λ e. elim (both.0 e) [ inl a ↦ inl (here.0 a) | inr b ↦ inr (there.0 b) ]),
      λ e. both.1 (elim e [ inl a ↦ inl (here.1 a) | inr b ↦ inr (there.1 b) ]),
    )

OnPath-iff : (o : Option AsPath) (n : ℕ) → (has (path_asns o) n ≡ true) ↔ OnPath o n
OnPath-iff none n = unfold path_asns in has_iff [] n
OnPath-iff (some p) n =
    let found = has_iff (path_asns (some p)) n in
    let there = path_asns_iff n p in ((λ e. there.0 (found.0 e)), λ e. found.1 (there.1 e))

module _ (ipnet : Ipnet) where
  net_contains_iff : (net : IpNet) (a : IpAddr) → (net_contains ipnet net a ≡ true) ↔ Inside net a
  unfolding net_contains
  net_contains_iff (IpNet.v4 n) (IpAddr.v4 a) =
      ipnet.contains_iff 32 n (record { addr = a; prefix_len = 32 })
  net_contains_iff (IpNet.v6 n) (IpAddr.v6 a) =
      ipnet.contains_iff 128 n (record { addr = a; prefix_len = 128 })
  net_contains_iff (IpNet.v4 n) (IpAddr.v6 a) = ground arith
  net_contains_iff (IpNet.v6 n) (IpAddr.v4 a) = ground arith

  contains_inner_iff :
      (net : IpNet) (prefix : Prefix)
      → (net_contains ipnet net (inner_addr prefix) ≡ true)
        ↔ ((a : IpAddr) × (InnerAddr prefix a × Inside net a))
  contains_inner_iff net prefix =
      let both = net_contains_iff net (inner_addr prefix) in
      (
        (λ e. (inner_addr prefix, (inner_addr-InnerAddr prefix, both.0 e))),
        λ (a, (h, i)). both.1 (subst (Inside net) (sym (InnerAddr-inner_addr prefix a h)) i),
      )

  module _ {Families : Type 0} where
    -- The criteria of a filter, one for each of its fields.
    abbrev pub Matches :
        CompiledFilter
        → Prefix
        → (peer_as : ℕ) (peer_addr : IpAddr) → PathAttributes Families
        → Option RouteCtx
        → Type 0
    Matches cf prefix peer_as peer_addr attrs ctx =
        Listed (λ net. (a : IpAddr) × (InnerAddr prefix a × Inside net a)) cf.nets
        × (Listed (λ n. n ≡ peer_as) cf.raw.peer_as_list
            × (Listed (λ a. a ≡ peer_addr) cf.peer_nets
                × (Listed (λ want. Any (λ c. WrittenAs c want) attrs.communities)
                      cf.raw.community_list
                    × (All (OnPath attrs.as_path) cf.raw.as_path_contains
                        × (AtLeast cf.raw.local_pref_min (unwrap_or attrs.local_pref 0)
                            × (AtMost cf.raw.local_pref_max (unwrap_or attrs.local_pref 0)
                                × (AtMost cf.raw.med_max (unwrap_or attrs.multi_exit_disc 0)
                                    × (HoldsOn cf.compiled_expr ctx))))))))

    -- A route matches a filter exactly when every criterion that the filter has is met: the address
    -- of its innermost prefix lies in a network of the list, whatever the prefix's length; the peer
    -- is listed by AS and by address; a listed community is on the route, and every listed AS on its
    -- path; LOCAL_PREF and MED, 0 where they are missing, keep the bounds; and the expression holds
    -- of the context, if both are there.
    pub matches-Matches :
        (cf : CompiledFilter) (prefix : Prefix) (peer_as : ℕ) (peer_addr : IpAddr)
        (attrs : PathAttributes Families) (ctx : Option RouteCtx)
        → (matches ipnet cf prefix peer_as peer_addr attrs ctx ≡ true)
          ↔ Matches cf prefix peer_as peer_addr attrs ctx
    unfolding matches prefix_matches community_matches
    matches-Matches cf prefix peer_as peer_addr attrs ctx =
        let route_comms = map show_community attrs.communities in
        guard_iff _ _
          (Listed-iff (λ net. net_contains ipnet net (inner_addr prefix))
            (λ net. (a : IpAddr) × (InnerAddr prefix a × Inside net a)) cf.nets
            (λ net. contains_inner_iff net prefix))
          (guard_iff _ _
            (Listed-iff (λ n. n == peer_as) (λ n. n ≡ peer_as) cf.raw.peer_as_list
              (λ n. ground arith))
            (guard_iff _ _
              (Listed-iff (λ a. ip_beq a peer_addr) (λ a. a ≡ peer_addr) cf.peer_nets
                (λ a. ip_beq_iff a peer_addr))
              (guard_iff _ _
                (Listed-iff (has_text route_comms)
                  (λ want. Any (λ c. WrittenAs c want) attrs.communities) cf.raw.community_list
                  (has_community_iff attrs.communities))
                (guard_iff _ _
                  (all_in_iff (OnPath attrs.as_path) cf.raw.as_path_contains
                    (path_asns attrs.as_path) (OnPath-iff attrs.as_path))
                  (guard_iff _ _ (at_least_iff cf.raw.local_pref_min (unwrap_or attrs.local_pref 0))
                    (guard_iff _ _
                      (at_most_iff cf.raw.local_pref_max (unwrap_or attrs.local_pref 0))
                      (guard_iff _ _
                        (at_most_iff cf.raw.med_max (unwrap_or attrs.multi_exit_disc 0))
                        (eval_on_iff cf.compiled_expr ctx))))))))

-- A list of which nothing can be read.
abbrev pub Unreadable {ℓ} : {B : Type ℓ} → (Text → Option B) → List Text → Type ℓ
Unreadable parse ts = All (λ t. parse t ≡ none) ts

filter_map-none :
    {B : Type 0} (parse : Text → Option B) (ts : List Text)
    → Unreadable parse ts
    → filter_map parse ts ≡ []
filter_map-none parse [] h = refl
filter_map-none parse (t ∷ ts) (h, hs) = rw (h, filter_map) (filter_map-none parse ts hs)

-- A filter whose prefix list, list of peer addresses and expression cannot be read at all, and which
-- has no other criterion, matches every route of every peer: what cannot be read is no criterion.
pub matches-Unreadable :
    {Families : Type 0} (ipnet : Ipnet) (parsers : Parsers) (raw : RouteFilter) (e : Text)
    (prefix : Prefix) (peer_as : ℕ) (peer_addr : IpAddr) (attrs : PathAttributes Families)
    (ctx : Option RouteCtx)
    → Unreadable parsers.parse_net raw.prefix_list
    → Unreadable parsers.parse_addr raw.peer_addr_list
    → raw.expr ≡ some e
    → parsers.parse_expr e ≡ none
    → raw.peer_as_list ≡ []
    → raw.community_list ≡ []
    → raw.as_path_contains ≡ []
    → (raw.local_pref_min ≡ none) × (raw.local_pref_max ≡ none) × (raw.med_max ≡ none)
    → matches ipnet (compile parsers raw) prefix peer_as peer_addr attrs ctx ≡ true
unfolding matches prefix_matches community_matches compile
matches-Unreadable ipnet parsers raw e prefix peer_as peer_addr attrs ctx nets addrs ex bad peers
      comms path (min, max, med) =
    rw
      (
        filter_map-none parsers.parse_net raw.prefix_list nets,
        filter_map-none parsers.parse_addr raw.peer_addr_list addrs,
        ex,
        bad,
        peers,
        comms,
        path,
        min,
        max,
        med,
      )
      refl
