-- ===== src/Rib/Filter.antt =====
-- crates/rbmp-rib/src/filter.rs: the route filters of the operator.
pub mod FirstMatch
pub mod Criteria
mod Tests
use rustybmp.Base.{
  ℕ, ◌+◌, ◌/◌, ◌%◌, Bool, true, false, not, ◌&&◌, ◌||◌, Option, none, some, List, [], ◌∷◌, ◌++◌,
  map, ltb, ◌==◌, if◌then◌else◌, nat_eq, length, is_empty, any,
}
use rustybmp.Base.Text.{Text, codes, decimal}
use rustybmp.Core.Net.{IpAddr, ip_beq}
use rustybmp.Core.Ipnet.{Net, IpNet, Ipnet}
use rustybmp.Core.Bgp.Nlri.{Prefix, labeled, vpn}
use rustybmp.Core.Bgp.AsPath.{AsPath, asns}
use rustybmp.Core.Bgp.Attributes.{PathAttributes}
use rustybmp.Rib.Manager.{FilterVerdict}
use rustybmp.Rib.FilterExpr.{Expr, RouteCtx, eval, unwrap_or, has, has_text}

pub data FilterAction : Type 0 where
  accept deny tag : FilterAction

pub record RouteFilter : Type 0 where
  pub name : Text
  pub action : FilterAction
  pub prefix_list : List Text
  pub peer_as_list : List ℕ
  pub community_list : List Text
  pub peer_addr_list : List Text
  pub as_path_contains : List ℕ
  pub local_pref_min : Option ℕ
  pub local_pref_max : Option ℕ
  pub med_max : Option ℕ
  pub expr : Option Text

pub record CompiledFilter : Type 0 where
  pub raw : RouteFilter
  pub nets : List IpNet
  pub peer_nets : List IpAddr
  pub compiled_expr : Option Expr

-- The parsers of the crates ipnet, std and pest, with errors as `none`.
pub record Parsers : Type 0 where
  pub parse_net : Text → Option IpNet
  pub parse_addr : Text → Option IpAddr
  pub parse_expr : Text → Option Expr

-- `filter_map(|s| s.parse().ok())`
abbrev pub filter_map {ℓ κ} : {A : Type ℓ} {B : Type κ} → (A → Option B) → List A → List B
filter_map f [] = []
filter_map f (a ∷ rest) = let bs = filter_map f rest in elim (f a) [ none ↦ bs | some b ↦ b ∷ bs ]

unfoldable pub compile : Parsers → RouteFilter → CompiledFilter
compile parsers raw = record {
  raw = raw;
  nets = filter_map parsers.parse_net raw.prefix_list;
  peer_nets = filter_map parsers.parse_addr raw.peer_addr_list;
  compiled_expr = elim raw.expr [ none ↦ none | some e ↦ parsers.parse_expr e ];
}

-- The address of the innermost prefix.
unfoldable pub inner_addr : Prefix → IpAddr
inner_addr (Prefix.v4 n) = IpAddr.v4 n.addr
inner_addr (Prefix.v6 n) = IpAddr.v6 n.addr
inner_addr (labeled p labels) = inner_addr p
inner_addr (vpn rd p labels) = inner_addr p

unfoldable pub inner_len : Prefix → ℕ
inner_len (Prefix.v4 n) = n.prefix_len
inner_len (Prefix.v6 n) = n.prefix_len
inner_len (labeled p labels) = inner_len p
inner_len (vpn rd p labels) = inner_len p

-- `format!("{}:{}", c.asn(), c.value())`
unfoldable pub show_community : ℕ → Text
show_community c = decimal (c / 65536) ++ (codes ":" ++ decimal (c % 65536))

-- The ASNs of all segments, one after the other.
unfoldable pub path_asns : Option AsPath → List ℕ
path_asns none = []
path_asns (some p) = flat p
  where
    flat : AsPath → List ℕ
    flat [] = []
    flat (s ∷ ss) = asns s ++ flat ss

abbrev pub has_addr : List IpAddr → IpAddr → Bool
has_addr s a = any (λ b. ip_beq b a) s

abbrev pub all_in : List ℕ → List ℕ → Bool
all_in [] s = true
all_in (n ∷ ns) s = has s n && all_in ns s

abbrev pub at_least : Option ℕ → ℕ → Bool
at_least none n = true
at_least (some min) n = not (ltb n min)

abbrev pub at_most : Option ℕ → ℕ → Bool
at_most none n = true
at_most (some max) n = not (ltb max n)

abbrev pub eval_on : Option Expr → Option RouteCtx → Bool
eval_on (some e) (some ctx) = eval e ctx
eval_on _ _ = true

-- `last().copied().unwrap_or(0)`, and `windows(2).any(|w| w[0] == w[1])`.
unfoldable pub last_or_zero : List ℕ → ℕ
last_or_zero [] = 0
last_or_zero (n ∷ []) = n
last_or_zero (n ∷ m ∷ ns) = last_or_zero (m ∷ ns)

unfoldable pub has_repeat : List ℕ → Bool
has_repeat (n ∷ m ∷ ns) = (n == m) || has_repeat (m ∷ ns)
has_repeat _ = false

unfoldable pub verdict_of : FilterAction → FilterVerdict
verdict_of deny = FilterVerdict.deny
verdict_of _ = FilterVerdict.accept

abbrev pub has_expr : CompiledFilter → Bool
has_expr cf = elim cf.compiled_expr [ none ↦ false | some e ↦ true ]

module _ (ipnet : Ipnet) where
  -- `net.contains(&addr)`: an address is contained as the network of that host.
  unfoldable pub net_contains : IpNet → IpAddr → Bool
  net_contains (IpNet.v4 n) (IpAddr.v4 a) =
      ipnet.contains 32 n (record { addr = a; prefix_len = 32 })
  net_contains (IpNet.v6 n) (IpAddr.v6 a) =
      ipnet.contains 128 n (record { addr = a; prefix_len = 128 })
  net_contains _ _ = false

  -- The block of `matches` on the prefix list.
  unfoldable pub prefix_matches : CompiledFilter → Prefix → Bool
  unfolding net_contains inner_addr
  prefix_matches cf prefix =
      is_empty cf.nets || any (λ net. net_contains net (inner_addr prefix)) cf.nets

module _ {Families : Type 0} where
  unfoldable pub build_route_ctx :
      Prefix
      → (peer_as : ℕ) (action : Text) → PathAttributes Families
      → (rpki : Option Text) → RouteCtx
  unfolding inner_len path_asns last_or_zero has_repeat show_community
  build_route_ctx prefix peer_as action attrs rpki = record {
    prefix_len = inner_len prefix;
    as_path_len = length (path_asns attrs.as_path);
    origin_asn = last_or_zero (path_asns attrs.as_path);
    has_prepend = has_repeat (path_asns attrs.as_path);
    rpki = elim rpki [ none ↦ codes "unknown" | some r ↦ r ];
    action = action;
    peer_as = peer_as;
    local_pref = attrs.local_pref;
    med = attrs.multi_exit_disc;
    community_set = map show_community attrs.communities;
  }

  -- The block of `matches` on the communities.
  unfoldable pub community_matches : CompiledFilter → PathAttributes Families → Bool
  unfolding show_community
  community_matches cf attrs =
      is_empty cf.raw.community_list
      || any (has_text (map show_community attrs.communities)) cf.raw.community_list

  module _ (ipnet : Ipnet) where
    unfoldable pub matches :
        CompiledFilter
        → Prefix
        → (peer_as : ℕ) (peer_addr : IpAddr) → PathAttributes Families
        → Option RouteCtx
        → Bool
    unfolding prefix_matches community_matches path_asns
    matches cf prefix peer_as peer_addr attrs ctx =
        if not (prefix_matches ipnet cf prefix)
        then false
        else if not (is_empty cf.raw.peer_as_list || has cf.raw.peer_as_list peer_as)
        then false
        else if not (is_empty cf.peer_nets || has_addr cf.peer_nets peer_addr)
        then false
        else if not (community_matches cf attrs)
        then false
        else if not (all_in cf.raw.as_path_contains (path_asns attrs.as_path))
        then false
        else if not (at_least cf.raw.local_pref_min (unwrap_or attrs.local_pref 0))
        then false
        else if not (at_most cf.raw.local_pref_max (unwrap_or attrs.local_pref 0))
        then false
        else if not (at_most cf.raw.med_max (unwrap_or attrs.multi_exit_disc 0))
        then false
        else eval_on cf.compiled_expr ctx

    -- A `FilterEngine` is its filters.
    unfoldable pub apply_with_ctx :
        List CompiledFilter
        → Prefix
        → (peer_as : ℕ) (peer_addr : IpAddr) → PathAttributes Families
        → Option RouteCtx
        → FilterVerdict × Option Text
    unfolding matches verdict_of
    apply_with_ctx [] prefix peer_as peer_addr attrs ctx = (FilterVerdict.default, none)
    apply_with_ctx (cf ∷ filters) prefix peer_as peer_addr attrs ctx =
        let rest = apply_with_ctx filters prefix peer_as peer_addr attrs ctx in
        if matches cf prefix peer_as peer_addr attrs ctx
        then (verdict_of cf.raw.action, some cf.raw.name)
        else rest

    -- The loop of `apply` is that of `apply_with_ctx`, with a context if a filter has an expression.
    unfoldable pub apply :
        List CompiledFilter
        → Prefix
        → (peer_as : ℕ) (peer_addr : IpAddr) → PathAttributes Families
        → FilterVerdict × Option Text
    unfolding apply_with_ctx build_route_ctx
    apply filters prefix peer_as peer_addr attrs =
        let ctx = build_route_ctx prefix peer_as (codes "announce") attrs none in
        apply_with_ctx filters prefix peer_as peer_addr attrs
          (if any has_expr filters then some ctx else none)
