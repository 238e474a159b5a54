-- ===== src/Core/Bgp/AsPath.antt =====
-- The AS path: its type with its queries in bgp/types.rs, and its parser in bgp/attributes.rs.
pub mod Wire
use rustybmp.Base.{
  ℕ, zero, suc, ◌+◌, ◌-◌, ◌*◌, ◌/◌, ◌%◌, ◌^◌, ◌≤◌, ◌<◌, ◌≡◌, ◌≢◌, refl, sym, ap, subst, ◌∙◌, ◌↔◌,
  ◌⊎◌, inl, inr, Bool, true, false, not, ◌&&◌, ◌||◌, Option, none, some, List, [], ◌∷◌, ◌++◌, map,
  arith, ltb, leb, ◌==◌, if◌then◌else◌, ==_iff, Bool-cases, Option-cases, Eq, beq_refl, nat_eq,
  length, get_elem?, get_or, take, drop, replicate, is_empty, any, All, Any, filter, any_iff,
  any-filter, is_empty-filter, length-append, take-append-drop, length-take, length-drop,
}
use rustybmp.Base.Text.{Text, codes, decimal}
use rustybmp.Core.Error.{Error, unexpected_eof, bgp_parse, Result, ok, err, panic, stuck, ◌>>=◌}
use rustybmp.Core.Slice.{at, u16_at, u32_at, slice_from}

pub data AsPathSegment : Type 0 where
  set sequence confed_sequence confed_set : List ℕ → AsPathSegment

unfoldable pub asns : AsPathSegment → List ℕ
asns (set v) = v
asns (sequence v) = v
asns (confed_sequence v) = v
asns (confed_set v) = v

abbrev pub AsPath : Type 0
AsPath = List AsPathSegment

unfoldable pub hop_count : AsPath → ℕ
hop_count [] = 0
hop_count (sequence v ∷ segs) = length v + hop_count segs
hop_count (seg ∷ segs) = hop_count segs

-- `v.last()` and `v.first()`
abbrev pub last? : List ℕ → Option ℕ
last? [] = none
last? (a ∷ []) = some a
last? (a ∷ b ∷ v) = last? (b ∷ v)

abbrev pub first? : List ℕ → Option ℕ
first? [] = none
first? (a ∷ v) = some a

-- `find_map` takes the first segment for which the closure gives an ASN, so an empty sequence is
-- passed over.
unfoldable pub origin_asn : AsPath → Option ℕ
origin_asn [] = none
origin_asn (sequence v ∷ segs) =
    let rest = origin_asn segs in elim (last? v) [ some a ↦ some a | none ↦ rest ]
origin_asn (seg ∷ segs) = origin_asn segs

unfoldable pub first_asn : AsPath → Option ℕ
first_asn [] = none
first_asn (sequence v ∷ segs) =
    let rest = first_asn segs in elim (first? v) [ some a ↦ some a | none ↦ rest ]
first_asn (seg ∷ segs) = first_asn segs

-- The inner loop of `has_prepending`, with the ASN before the rest of the segment.
unfoldable pub repeats_in : Option ℕ → List ℕ → Bool
repeats_in prev [] = false
repeats_in none (a ∷ v) = repeats_in (some a) v
repeats_in (some p) (a ∷ v) = a == p || repeats_in (some a) v

unfoldable pub has_prepending : AsPath → Bool
unfolding repeats_in
has_prepending [] = false
has_prepending (sequence v ∷ segs) = repeats_in none v || has_prepending segs
has_prepending (seg ∷ segs) = has_prepending segs

-- `seen.insert(asn)` is false where the ASN is in the set.
unfoldable pub loop_in : (seen : List ℕ) (v : List ℕ) → Bool × List ℕ
loop_in seen [] = (false, seen)
loop_in seen (a ∷ v) =
    let go_on = loop_in (a ∷ seen) v in if any (λ s. s == a) seen then (true, seen) else go_on

unfoldable pub has_loop_from : (seen : List ℕ) → AsPath → Bool
unfolding loop_in asns
has_loop_from seen [] = false
has_loop_from seen (seg ∷ segs) =
    let (found, seen') = loop_in seen (asns seg) in
    let rest = has_loop_from seen' segs in if found then true else rest

unfoldable pub has_loop : AsPath → Bool
unfolding has_loop_from
has_loop path = has_loop_from [] path

-- `for i in 0..seg_len`: ASN number `i` stands at `i * asn_size`.
unfoldable pub read_asns : (asn_size i rounds : ℕ) → List ℕ → Result (List ℕ)
read_asns asn_size i zero buf = ok []
read_asns asn_size i (suc rounds) buf = do
  asn ← (if asn_size == 4 then u32_at buf (i * 4) else u16_at buf (i * 2))
  rest ← read_asns asn_size (i + 1) rounds buf
  ok (asn ∷ rest)

unfoldable pub segment_of : (seg_type : ℕ) → List ℕ → Result AsPathSegment
segment_of seg_type v =
    if seg_type == 1
    then ok (set v)
    else if seg_type == 2
    then ok (sequence v)
    else if seg_type == 3
    then ok (confed_sequence v)
    else if seg_type == 4
    then ok (confed_set v)
    else err (bgp_parse (codes "unknown AS_PATH segment type " ++ decimal seg_type))

-- `while buf.len() >= 2`; each round takes two bytes at least.
unfoldable pub segment_loop : (fuel asn_size : ℕ) → List ℕ → Result AsPath
segment_loop zero asn_size buf = stuck
segment_loop (suc fuel) asn_size buf =
    let body = (do
      seg_type ← at buf 0
      seg_len ← at buf 1
      buf ← slice_from buf 2
      let needed = seg_len * asn_size
      let next = (do
        v ← read_asns asn_size 0 seg_len buf
        buf ← slice_from buf needed
        seg ← segment_of seg_type v
        rest ← segment_loop fuel asn_size buf
        ok (seg ∷ rest))
      if ltb (length buf) needed then err (unexpected_eof needed (length buf)) else next) in
    if leb 2 (length buf) then body else ok []

unfoldable pub parse_as_path_with_asn_size : List ℕ → ℕ → Result AsPath
parse_as_path_with_asn_size buf asn_size = segment_loop (suc (length buf)) asn_size buf

-- `.or(Err(original_err))`
abbrev or_error {ℓ} : {A : Type ℓ} → Result A → Error → Result A
or_error (err e) original_err = err original_err
or_error m original_err = m

unfoldable pub parse_as_path : List ℕ → (four_byte : Bool) → Result AsPath
parse_as_path buf true = parse_as_path_with_asn_size buf 4
parse_as_path buf false = elim (parse_as_path_with_asn_size buf 2) [
  | ok path ↦ ok path
  | err original_err ↦ or_error (parse_as_path_with_asn_size buf 4) original_err
  | panic ↦ panic
  | stuck ↦ stuck
]
