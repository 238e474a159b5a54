-- ===== src/Enrichment/Aspa/Verdict.antt =====
-- The verdict of the walk over a path, what a loaded table attests, and paths with prepending.
use rustybmp.Base.{
  ℕ, ◌≡◌, refl, sym, ap, subst, ◌∙◌, ◌⊎◌, inl, inr, Bool, true, false, ◌&&◌, ◌||◌, Option, none,
  some, List, [], ◌∷◌, arith, ◌==◌, if◌then◌else◌, ==_iff, Bool-cases, nat_eq, any, All, Any,
  any_iff, ◌↔◌, Option-cases,
}
use mathlib.Core.Bool.{false≢true}
use mathlib.Core.Option.{none-ne-some, some-injective}
use rustybmp.Base.Table.{lookup, is_some, lookup-insert}
use rustybmp.Enrichment.Aspa.{
  AspaRecord, AspaTable, contains, extend, or_empty, upsert, load_loop, load, providers_of,
  AspaValidity, valid, invalid, unknown, Hop, unattested, attested, violated, hop, walk,
  validate_as_path, new, parse_u32, repeats, collapse, parse_as_path, split_whitespace,
}

-- The neighbours on a path, from the receiver towards the origin.
abbrev pub pairs : List ℕ → List (ℕ × ℕ)
pairs [] = []
pairs (a ∷ []) = []
pairs (a ∷ b ∷ rest) = (a, b) ∷ pairs (b ∷ rest)

-- What the records of a table say of a pair: the right one is the customer, the left one, which is
-- closer to the receiver, its provider. A pair is unattested if the customer has no record, else
-- attested if a record lists the provider, and violated if none does.
abbrev pub HopIs : AspaTable → Hop → ℕ × ℕ → Type 0
HopIs table unattested (provider, customer) = lookup customer table.records ≡ none
HopIs table attested (provider, customer) =
    (listed : List ℕ) × ((lookup customer table.records ≡ some listed)
      × Any (λ a. a ≡ provider) listed)
HopIs table violated (provider, customer) =
    (listed : List ℕ) × ((lookup customer table.records ≡ some listed)
      × ¬ (Any (λ a. a ≡ provider) listed))

-- No record of the customer forbids the provider.
abbrev pub Allowed : AspaTable → ℕ × ℕ → Type 0
Allowed table p = ¬ (HopIs table violated p)

contains_iff : (set : List ℕ) (a : ℕ) → (contains set a ≡ true) ↔ Any (λ x. x ≡ a) set
contains_iff set a = any_iff (λ x. x == a) (λ x. x ≡ a) set (λ x. ==_iff x a)

hop-HopIs : (table : AspaTable) (a b : ℕ) → HopIs table (hop table a b) (a, b)
unfolding hop providers_of
hop-HopIs table a b = elim (Option-cases (lookup b table.records)) [
  | inl absent ↦ rw (absent, hop) absent
  | inr (set, found) ↦ elim (Bool-cases (contains set a)) [
    | inl yes' ↦ rw (found, yes', hop) (set, (found, (contains_iff set a).0 yes'))
    | inr no' ↦
        rw (found, no', hop) (set, (found, λ q. false≢true (sym no' ∙ (contains_iff set a).1 q)))
  ]
]

unattested-Allowed : (table : AspaTable) (p : ℕ × ℕ) → HopIs table unattested p → Allowed table p
unattested-Allowed table (a, b) e (set, (found, bad)) = none-ne-some set (sym e ∙ found)

attested-Allowed : (table : AspaTable) (p : ℕ × ℕ) → HopIs table attested p → Allowed table p
attested-Allowed table (a, b) (set, (found, good)) (set', (found', bad)) =
    let same : set ≡ set' = some-injective set set' (sym found ∙ found') in
    bad (subst (λ s. Any (λ x. x ≡ a) s) same good)

-- The first violated pair of a list of pairs.
abbrev pub FirstViolated : AspaTable → List (ℕ × ℕ) → ℕ × ℕ → Type 0
FirstViolated table [] p = ⊥
FirstViolated table (q ∷ qs) p =
    ((q ≡ p) × HopIs table violated p) ⊎ (Allowed table q × FirstViolated table qs p)

-- What each answer says of the pairs, where `seen` says that an unattested pair came before.
abbrev pub Verdict : AspaTable → Bool → List (ℕ × ℕ) → AspaValidity × Option (ℕ × ℕ) → Type 0
Verdict table seen ps (valid, h) = (h ≡ none) × (seen ≡ false) × All (HopIs table attested) ps
Verdict table seen ps (unknown, h) =
    (h ≡ none) × All (Allowed table) ps × ((seen ≡ true) ⊎ Any (HopIs table unattested) ps)
Verdict table seen ps (invalid, none) = ⊥
Verdict table seen ps (invalid, some p) = FirstViolated table ps p

Hop-cases : (h : Hop) → (h ≡ unattested) ⊎ (h ≡ attested) ⊎ (h ≡ violated)
Hop-cases unattested = inl refl
Hop-cases attested = inr (inl refl)
Hop-cases violated = inr (inr refl)

Verdict-unattested :
    (table : AspaTable) (seen : Bool) (q : ℕ × ℕ) (ps : List (ℕ × ℕ))
    (r : AspaValidity × Option (ℕ × ℕ))
    → HopIs table unattested q
    → Verdict table true ps r
    → Verdict table seen (q ∷ ps) r
Verdict-unattested table seen q ps (valid, h) e v = cc (v.1)
Verdict-unattested table seen q ps (unknown, h) e v =
    (v.0, (unattested-Allowed table q e, v.1), inr (inl e))
Verdict-unattested table seen q ps (invalid, none) e v = v
Verdict-unattested table seen q ps (invalid, some p) e v = inr (unattested-Allowed table q e, v)

Verdict-attested :
    (table : AspaTable) (seen : Bool) (q : ℕ × ℕ) (ps : List (ℕ × ℕ))
    (r : AspaValidity × Option (ℕ × ℕ))
    → HopIs table attested q
    → Verdict table seen ps r
    → Verdict table seen (q ∷ ps) r
Verdict-attested table seen q ps (valid, h) e v = (v.0, v.1, (e, v.2))
Verdict-attested table seen q ps (unknown, h) e v =
    (v.0, (attested-Allowed table q e, v.1), elim (v.2) [ inl s ↦ inl s | inr a ↦ inr (inr a) ])
Verdict-attested table seen q ps (invalid, none) e v = v
Verdict-attested table seen q ps (invalid, some p) e v = inr (attested-Allowed table q e, v)

walk-Verdict :
    (table : AspaTable) (seen : Bool) (path : List ℕ)
    → Verdict table seen (pairs path) (walk table seen path)
unfolding walk
walk-Verdict table true [] = (refl, tt, inl refl)
walk-Verdict table false [] = (refl, refl, tt)
walk-Verdict table true (a ∷ []) = (refl, tt, inl refl)
walk-Verdict table false (a ∷ []) = (refl, refl, tt)
walk-Verdict table seen (a ∷ b ∷ rest) = elim (Hop-cases (hop table a b)) [
  | inl u ↦ subst (Verdict table seen (pairs (a ∷ b ∷ rest))) (sym (walk_unattested u)) (
      Verdict-unattested table seen (a, b) (pairs (b ∷ rest)) _ (hop_is u)
        (walk-Verdict table true (b ∷ rest)))
  | inr (inl t) ↦ subst (Verdict table seen (pairs (a ∷ b ∷ rest))) (sym (walk_attested t)) (
      Verdict-attested table seen (a, b) (pairs (b ∷ rest)) _ (hop_is t)
        (walk-Verdict table seen (b ∷ rest)))
  | inr (inr v) ↦
      subst (Verdict table seen (pairs (a ∷ b ∷ rest))) (sym (walk_violated v))
        (inl (refl, hop_is v))
]
  where
    hop_is : {h : Hop} → hop table a b ≡ h → HopIs table h (a, b)
    hop_is e = subst (λ h. HopIs table h (a, b)) e (hop-HopIs table a b)

    walk_unattested :
        hop table a b ≡ unattested → walk table seen (a ∷ b ∷ rest) ≡ walk table true (b ∷ rest)
    walk_unattested e = rw (e, walk)

    walk_attested :
        hop table a b ≡ attested → walk table seen (a ∷ b ∷ rest) ≡ walk table seen (b ∷ rest)
    walk_attested e = rw (e, walk)

    walk_violated :
        hop table a b ≡ violated → walk table seen (a ∷ b ∷ rest) ≡ (invalid, some (a, b))
    walk_violated e = rw (e, walk)

-- What a verdict says of the whole path: `valid` where every neighbour on a path with some AS is
-- attested; `invalid`, with the pair, where that is the first violated pair of neighbours; `unknown`
-- where none is violated, and the path is empty or some pair has no record.
abbrev pub PathVerdict : AspaTable → List ℕ → AspaValidity × Option (ℕ × ℕ) → Type 0
PathVerdict table [] r = r ≡ (unknown, none)
PathVerdict table (a ∷ path) r = Verdict table false (pairs (a ∷ path)) r

-- The verdict of `validate_as_path` on every path and table: valid only if each AS towards the
-- origin has a record that lists its neighbour, invalid exactly with the first pair whose record
-- does not list it, and unknown in the cases left, an empty path among them.
pub validate_as_path-PathVerdict :
    (as_path : List ℕ) (table : AspaTable)
    → PathVerdict table as_path (validate_as_path as_path table)
unfolding validate_as_path
validate_as_path-PathVerdict [] table = refl
validate_as_path-PathVerdict (a ∷ as_path) table = walk-Verdict table false (a ∷ as_path)

-- Whether some loaded record of the customer lists the provider.
abbrev pub lists : ℕ → ℕ → AspaRecord → Bool
lists customer provider r = (r.customer_asn == customer) && contains r.provider_asns provider

contains-extend :
    (set as' : List ℕ) (p : ℕ) → contains (extend set as') p ≡ (contains set p || contains as' p)
unfolding extend
contains-extend set [] p = ground arith
contains-extend set (a ∷ as') p =
    ground (arith, contains-extend set as' p, contains-extend (a ∷ set) as' p, ==_iff a p)

abbrev listed : AspaTable → ℕ → ℕ → Bool
listed t customer p = contains (or_empty (providers_of t customer)) p

listed-upsert :
    (t : AspaTable) (r : AspaRecord) (customer p : ℕ)
    → listed (upsert t r) customer p ≡ (listed t customer p || lists customer p r)
unfolding upsert providers_of
listed-upsert t r customer p = elim (Bool-cases (r.customer_asn == customer)) [
  | inl same ↦
      let e : r.customer_asn ≡ customer = (==_iff r.customer_asn customer).0 same in
      ground (
        arith,
        lookup-insert r.customer_asn customer grown t.records,
        ap (λ k. lookup k t.records) e,
        contains-extend (or_empty (lookup r.customer_asn t.records)) r.provider_asns p,
      )
  | inr other ↦ ground (arith, lookup-insert r.customer_asn customer grown t.records)
]
  where
    grown : List ℕ
    grown = extend (or_empty (lookup r.customer_asn t.records)) r.provider_asns

listed-load_loop :
    (t : AspaTable) (rs : List AspaRecord) (customer p : ℕ)
    → listed (load_loop t rs) customer p ≡ (listed t customer p || any (lists customer p) rs)
unfolding load_loop
listed-load_loop t [] customer p = ground arith
listed-load_loop t (r ∷ rs) customer p =
    ground (arith, listed-load_loop (upsert t r) rs customer p, listed-upsert t r customer p)

attested-upsert :
    (t : AspaTable) (r : AspaRecord) (customer : ℕ)
    → is_some (providers_of (upsert t r) customer)
      ≡ (is_some (providers_of t customer) || r.customer_asn == customer)
unfolding upsert providers_of
attested-upsert t r customer = ground (
  arith,
  lookup-insert r.customer_asn customer
      (extend (or_empty (lookup r.customer_asn t.records)) r.provider_asns) t.records,
)

attested-load_loop :
    (t : AspaTable) (rs : List AspaRecord) (customer : ℕ)
    → is_some (providers_of (load_loop t rs) customer)
      ≡ (is_some (providers_of t customer) || any (λ r. r.customer_asn == customer) rs)
unfolding load_loop
attested-load_loop t [] customer = ground arith
attested-load_loop t (r ∷ rs) customer =
    ground (arith, attested-load_loop (upsert t r) rs customer, attested-upsert t r customer)

-- After `load` a customer has a provider set exactly if some record names it, and the set holds a
-- provider exactly if some record of that customer lists it; nothing of the old table is left.
pub load_lem :
    (t : AspaTable) (rs : List AspaRecord) (customer p : ℕ)
    → (is_some (providers_of (load t rs) customer) ≡ any (λ r. r.customer_asn == customer) rs)
      × (contains (or_empty (providers_of (load t rs) customer)) p ≡ any (lists customer p) rs)
unfolding load providers_of
load_lem t rs customer p = (
  attested-load_loop new rs customer ∙ unfold lookup in refl,
  listed-load_loop new rs customer p ∙ unfold lookup in refl,
)

-- No AS stands next to itself.
abbrev pub Unprepended : Option ℕ → List ℕ → Type 0
Unprepended last [] = Unit
Unprepended last (a ∷ path) = (repeats last a ≡ false) × Unprepended (some a) path

push-Unprepended :
    (last : Option ℕ) (asn : ℕ) (skip push : List ℕ) (b : Bool)
    → repeats last asn ≡ b
    → Unprepended last skip
    → Unprepended (some asn) push
    → Unprepended last (if b then skip else asn ∷ push)
push-Unprepended last asn skip push true e h k = h
push-Unprepended last asn skip push false e h k = (e, k)

collapse-Unprepended :
    (last : Option ℕ) (tokens : List (List ℕ)) → Unprepended last (collapse last tokens)
unfolding collapse
collapse-Unprepended last [] = tt
collapse-Unprepended last (token ∷ tokens) =
    let ih = λ (l : Option ℕ). collapse-Unprepended l tokens in
    elim (parse_u32 token)
      as (λ o. Unprepended last (elim o [
        | none ↦ collapse last tokens
        | some asn ↦
            if repeats last asn then collapse last tokens else asn ∷ collapse (some asn) tokens
      ])) [
        | none ↦ ih last
        | some asn ↦ push-Unprepended last asn _ _ (repeats last asn) refl (ih last) (ih (some asn))
      ]

-- A path that was read from text holds no AS next to itself: prepending is gone.
pub parse_as_path-Unprepended : (s : List ℕ) → Unprepended none (parse_as_path s)
unfolding parse_as_path
parse_as_path-Unprepended s = collapse-Unprepended none (split_whitespace [] s)
