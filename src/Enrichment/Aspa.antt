-- ===== src/Enrichment/Aspa.antt =====
-- crates/rbmp-enrichment/src/aspa.rs: the table of ASPA records, the validation of an AS path
-- against it, and the reading of a path from text.
pub mod Verdict
use rustybmp.Base.{
  ℕ, zero, suc, ◌+◌, ◌-◌, ◌*◌, ◌/◌, ◌%◌, ◌^◌, ◌≤◌, ◌<◌, ◌≡◌, ◌≢◌, refl, sym, ap, ◌∙◌, ◌↔◌, ◌⊎◌, inl,
  inr, Bool, true, false, not, ◌&&◌, ◌||◌, Option, none, some, List, [], ◌∷◌, ◌++◌, map, arith, ltb,
  leb, ◌==◌, if◌then◌else◌, ==_iff, Bool-cases, Option-cases, Eq, beq_refl, nat_eq, length,
  get_elem?, get_or, take, drop, replicate, is_empty, any, All, Any, filter, any_iff, any-filter,
  is_empty-filter, length-append, take-append-drop, length-take, length-drop,
}
use rustybmp.Base.Table
use rustybmp.Base.Table.{Table, lookup, insert}

pub record AspaRecord : Type 0 where
  pub customer_asn : ℕ
  pub provider_asns : List ℕ

-- `HashMap<u32, HashSet<u32>>`: a set is a list of its members, of which only membership is used.
pub record AspaTable : Type 0 where
  pub records : Table ℕ (List ℕ)

abbrev pub new : AspaTable
new = record { records = [] }

-- `HashSet::contains`, and `extend` by the members that are not there.
abbrev pub contains : List ℕ → ℕ → Bool
contains set a = any (λ x. x == a) set

unfoldable pub extend : List ℕ → List ℕ → List ℕ
extend set [] = set
extend set (a ∷ as') = extend (if contains set a then set else a ∷ set) as'

-- `entry(k).or_insert_with(HashSet::new)`: the set that is extended.
abbrev pub or_empty : Option (List ℕ) → List ℕ
or_empty none = []
or_empty (some set) = set

unfoldable pub upsert : AspaTable → AspaRecord → AspaTable
upsert t r = record {
  records =
      insert r.customer_asn (extend (or_empty (lookup r.customer_asn t.records)) r.provider_asns)
        t.records;
}

-- The loop of `load` over the records, into the cleared table.
unfoldable pub load_loop : AspaTable → List AspaRecord → AspaTable
load_loop t [] = t
load_loop t (r ∷ rs) = load_loop (upsert t r) rs

unfoldable pub load : AspaTable → List AspaRecord → AspaTable
load t rs = load_loop new rs

unfoldable pub providers_of : AspaTable → ℕ → Option (List ℕ)
providers_of t customer_asn = lookup customer_asn t.records

pub data AspaValidity : Type 0 where
  valid invalid unknown : AspaValidity

-- What one step of the walk finds for the pair of a provider and a customer: the three ways
-- through the `match` on the customer's record.
pub data Hop : Type 0 where
  unattested attested violated : Hop

unfoldable pub hop : AspaTable → (closer_to_receiver closer_to_origin : ℕ) → Hop
hop table closer_to_receiver closer_to_origin = elim (providers_of table closer_to_origin) [
  | none ↦ unattested
  | some providers ↦ if contains providers closer_to_receiver then attested else violated
]

-- The loop over `as_path.windows(2)`; the list is what the walk has still to visit, its head the
-- `pair[0]` of the next pair.
unfoldable pub walk : AspaTable → Bool → List ℕ → AspaValidity × Option (ℕ × ℕ)
walk table any_unknown [] = (if any_unknown then unknown else valid, none)
walk table any_unknown (a ∷ []) = (if any_unknown then unknown else valid, none)
walk table any_unknown (a ∷ b ∷ rest) =
    let go_unknown = walk table true (b ∷ rest) in
    let go_on = walk table any_unknown (b ∷ rest) in
    elim (hop table a b) [
      | unattested ↦ go_unknown
      | violated ↦ (invalid, some (a, b))
      | attested ↦ go_on
    ]

unfoldable pub validate_as_path : List ℕ → AspaTable → AspaValidity × Option (ℕ × ℕ)
unfolding walk
validate_as_path [] table = (unknown, none)
validate_as_path (a ∷ as_path) table = walk table false (a ∷ as_path)

-- A `&str` is read by its characters here, each by its code point: `char::is_whitespace`.
is_whitespace : ℕ → Bool
is_whitespace c =
    (leb 9 c && leb c 13)
    || (c == 32)
    || (c == 133)
    || (c == 160)
    || (c == 5760)
    || (leb 8192 c && leb c 8202)
    || (c == 8232)
    || (c == 8233)
    || (c == 8239)
    || (c == 8287)
    || (c == 12288)

-- `split_whitespace`: the runs of other characters. `token` is the run read so far.
abbrev flush : List ℕ → List (List ℕ) → List (List ℕ)
flush [] tokens = tokens
flush (c ∷ token) tokens = (c ∷ token) ∷ tokens

unfoldable pub split_whitespace : (token s : List ℕ) → List (List ℕ)
unfolding is_whitespace
split_whitespace token [] = flush token []
split_whitespace token (c ∷ s) =
    let cut = flush token (split_whitespace [] s) in
    let grown = split_whitespace (token ++ (c ∷ [])) s in if is_whitespace c then cut else grown

-- `parse::<u32>`: digits, one `+` before them allowed, and no value past `u32::MAX`.
parse_digits : ℕ → List ℕ → Option ℕ
parse_digits v [] = some v
parse_digits v (c ∷ s) =
    let rest = parse_digits (v * 10 + (c - 48)) s in
    if (leb 48 c && leb c 57) && ltb (v * 10 + (c - 48)) (2 ^ 32) then rest else none

unfoldable pub parse_u32 : List ℕ → Option ℕ
unfolding parse_digits
parse_u32 [] = none
parse_u32 (c ∷ []) = if c == 43 then none else parse_digits 0 (c ∷ [])
parse_u32 (c ∷ d ∷ s) = if c == 43 then parse_digits 0 (d ∷ s) else parse_digits 0 (c ∷ d ∷ s)

-- `result.last() != Some(&asn)`, with the last element of `result` kept beside the loop.
abbrev pub repeats : Option ℕ → ℕ → Bool
repeats none asn = false
repeats (some l) asn = l == asn

-- The loop over the tokens; the list returned is what it pushes from here on.
unfoldable pub collapse : (last : Option ℕ) → List (List ℕ) → List ℕ
unfolding parse_u32
collapse last [] = []
collapse last (token ∷ tokens) =
    let skip = collapse last tokens in
    elim (parse_u32 token) [
      | none ↦ skip
      | some asn ↦
          let push = asn ∷ collapse (some asn) tokens in if repeats last asn then skip else push
    ]

unfoldable pub parse_as_path : List ℕ → List ℕ
unfolding collapse split_whitespace
parse_as_path as_path = collapse none (split_whitespace [] as_path)
