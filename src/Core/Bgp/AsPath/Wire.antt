-- ===== src/Core/Bgp/AsPath/Wire.antt =====
-- The parser of AS paths against the wire format: it returns on every input, and reads back paths.
use rustybmp.Base.{
  ℕ, zero, suc, ◌+◌, ◌*◌, ◌/◌, ◌%◌, ◌≤◌, ◌<◌, ◌≡◌, refl, sym, ap, subst, ◌∙◌, ◌⊎◌, inl, inr, Bool,
  true, false, List, [], ◌∷◌, ◌++◌, arith, nat_eq, length, drop, All, drop-append, length-append,
  length-drop,
}
use mathlib.Core.List.{append_assoc}
use rustybmp.Core.Error.{ok, ◌>>=◌, Returns}
use rustybmp.Core.Slice.{
  at, u16_at, u32_at, slice_from, at_ok, u16_at_ok, u32_at_ok, slice_from_ok, u16_at_skip,
  u32_at_skip,
}
use rustybmp.Core.Bgp.AsPath.{
  AsPathSegment, set, sequence, confed_sequence, confed_set, asns, AsPath, read_asns, segment_of,
  segment_loop, parse_as_path_with_asn_size, parse_as_path,
}

read_asns-Returns :
    (size i rounds : ℕ) (buf : List ℕ)
    → (size ≡ 2) ⊎ (size ≡ 4)
    → (i + rounds) * size ≤ length buf
    → Returns (read_asns size i rounds buf)
unfolding read_asns
read_asns-Returns size i zero buf s h = refl
read_asns-Returns size i (suc rounds) buf (inl two) h =
    let g : (i + suc rounds) * 2 ≤ length buf =
      subst (λ t. (i + suc rounds) * t ≤ length buf) two h in
    ground (
      arith,
      u16_at_ok buf (i * 2),
      read_asns-Returns size (i + 1) rounds buf (inl two),
      ap (λ t. (i + 1 + rounds) * t) two,
    )
read_asns-Returns size i (suc rounds) buf (inr four) h =
    let g : (i + suc rounds) * 4 ≤ length buf =
      subst (λ t. (i + suc rounds) * t ≤ length buf) four h in
    ground (
      arith,
      u32_at_ok buf (i * 4),
      read_asns-Returns size (i + 1) rounds buf (inr four),
      ap (λ t. (i + 1 + rounds) * t) four,
    )

segment_loop-Returns :
    (fuel size : ℕ) (buf : List ℕ)
    → (size ≡ 2) ⊎ (size ≡ 4)
    → length buf < fuel
    → Returns (segment_loop fuel size buf)
unfolding segment_loop segment_of
segment_loop-Returns zero size buf s h = elim h [ ]
segment_loop-Returns (suc fuel) size [] s h = refl
segment_loop-Returns (suc fuel) size (x ∷ []) s h = refl
segment_loop-Returns (suc fuel) size (t ∷ n ∷ b) s h = ground (
  arith,
  at_ok (t ∷ n ∷ b) 0,
  at_ok (t ∷ n ∷ b) 1,
  slice_from_ok (t ∷ n ∷ b) 2,
  slice_from_ok b (n * size),
  length-drop (n * size) b,
  read_asns-Returns size 0 n b s,
  segment_loop-Returns fuel size (drop (n * size) b) s,
)

-- The parser of AS paths returns on every byte string and for both widths, the second attempt of a
-- two-byte path included.
pub parse_as_path-Returns :
    (buf : List ℕ) (four_byte : Bool) → Returns (parse_as_path buf four_byte)
unfolding parse_as_path parse_as_path_with_asn_size
parse_as_path-Returns buf true =
    segment_loop-Returns (suc (length buf)) 4 buf (inr refl) (omega arith)
parse_as_path-Returns buf false = ground (
  arith,
  segment_loop-Returns (suc (length buf)) 2 buf (inl refl),
  segment_loop-Returns (suc (length buf)) 4 buf (inr refl),
)

-- The wire format: the type and the number of ASNs, and each ASN in `size` bytes.
abbrev pub asn_bytes : (four_byte : Bool) → ℕ → List ℕ
asn_bytes false a = (a / 256) ∷ (a % 256) ∷ []
asn_bytes true a = (a / 16777216) ∷ (a / 65536 % 256) ∷ (a / 256 % 256) ∷ (a % 256) ∷ []

unfoldable pub asns_bytes : Bool → List ℕ → List ℕ
asns_bytes four [] = []
asns_bytes four (a ∷ v) = asn_bytes four a ++ asns_bytes four v

abbrev pub seg_type : AsPathSegment → ℕ
seg_type (set v) = 1
seg_type (sequence v) = 2
seg_type (confed_sequence v) = 3
seg_type (confed_set v) = 4

unfoldable pub path_bytes : Bool → AsPath → List ℕ
unfolding asns asns_bytes
path_bytes four [] = []
path_bytes four (seg ∷ path) =
    seg_type seg ∷ length (asns seg) ∷ (asns_bytes four (asns seg) ++ path_bytes four path)

abbrev pub width : Bool → ℕ
width false = 2
width true = 4

-- Reading one place further on in a list with one ASN more in front is reading it without.
read_asns_shift :
    (size i rounds : ℕ) (front b : List ℕ)
    → (size ≡ 2) ⊎ (size ≡ 4)
    → length front ≡ size
    → read_asns size (i + 1) rounds (front ++ b) ≡ read_asns size i rounds b
unfolding read_asns
read_asns_shift size i zero front b s h = refl
read_asns_shift size i (suc rounds) front b (inl two) h = ground (
  arith,
  u16_at_skip front b (i * 2) ((i + 1) * 2),
  read_asns_shift size (i + 1) rounds front b (inl two) h,
)
read_asns_shift size i (suc rounds) front b (inr four) h = ground (
  arith,
  u32_at_skip front b (i * 4) ((i + 1) * 4),
  read_asns_shift size (i + 1) rounds front b (inr four) h,
)

-- Values that the width holds.
abbrev pub Fits : Bool → ℕ → Type 0
Fits false a = a < 65536
Fits true a = a < 4294967296

first_asn_read :
    (four : Bool) (a : ℕ) (rest : List ℕ) (rounds : ℕ)
    → Fits four a
    → read_asns (width four) 0 (suc rounds) (asn_bytes four a ++ rest)
      ≡ (read_asns (width four) 0 rounds rest >>= λ v. ok (a ∷ v))
unfolding read_asns u16_at u32_at at
first_asn_read false a rest rounds h =
    let e : a / 256 * 256 + a % 256 ≡ a = omega arith in
    rw (read_asns_shift 2 0 rounds (asn_bytes false a) rest (inl refl) refl, e)
first_asn_read true a rest rounds h =
    let e : a / 16777216 * 16777216 + a / 65536 % 256 * 65536 + a / 256 % 256 * 256 + a % 256 ≡ a =
      omega arith in
    rw (read_asns_shift 4 0 rounds (asn_bytes true a) rest (inr refl) refl, e)

-- What follows the ASNs does not matter.
asns_read :
    (four : Bool) (v rest : List ℕ)
    → All (Fits four) v
    → read_asns (width four) 0 (length v) (asns_bytes four v ++ rest) ≡ ok v
unfolding asns_bytes
asns_read four [] rest h = unfold read_asns in refl
asns_read four (a ∷ v) rest h = rw append_assoc (
    first_asn_read four a (asns_bytes four v ++ rest) (length v) h.0
    ∙ ap (λ m. m >>= λ w. ok (a ∷ w)) (asns_read four v rest h.1))

length-asns_bytes : (four : Bool) (v : List ℕ) → length (asns_bytes four v) ≡ length v * width four
unfolding asns_bytes
length-asns_bytes four [] = omega arith
length-asns_bytes false (a ∷ v) = omega (arith, length-asns_bytes false v)
length-asns_bytes true (a ∷ v) = omega (arith, length-asns_bytes true v)

-- A path that the wire format can hold: at most 255 ASNs in a segment, of the width.
abbrev pub IsEncodable : Bool → AsPath → Type 0
IsEncodable four path = All (λ seg. (length (asns seg) < 256) × All (Fits four) (asns seg)) path

segment_loop_step :
    (fuel : ℕ) (four : Bool) (t : ℕ) (v rest : List ℕ)
    → All (Fits four) v
    → segment_loop (suc fuel) (width four) (t ∷ length v ∷ (asns_bytes four v ++ rest))
      ≡ (segment_of t v >>= λ seg. segment_loop fuel (width four) rest >>= λ path. ok (seg ∷ path))
unfolding segment_loop at slice_from
segment_loop_step fuel four t v rest h =
    let e : length v * width four ≡ length (asns_bytes four v) = sym (length-asns_bytes four v) in
    ground (
      arith,
      asns_read four v rest h,
      e,
      length-append (asns_bytes four v) rest,
      drop-append (asns_bytes four v) rest,
      ap (λ n. drop n (asns_bytes four v ++ rest)) e,
    )

segment_of-seg_type : (seg : AsPathSegment) → segment_of (seg_type seg) (asns seg) ≡ ok seg
unfolding segment_of asns
segment_of-seg_type (set v) = refl
segment_of-seg_type (sequence v) = refl
segment_of-seg_type (confed_sequence v) = refl
segment_of-seg_type (confed_set v) = refl

segment_loop-path_bytes :
    (path : AsPath) (four : Bool) (fuel : ℕ)
    → IsEncodable four path
    → length path < fuel
    → segment_loop fuel (width four) (path_bytes four path) ≡ ok path
unfolding path_bytes
segment_loop-path_bytes path four zero h k = elim k [ ]
segment_loop-path_bytes [] four (suc fuel) h k = unfold segment_loop in refl
segment_loop-path_bytes (seg ∷ path) four (suc fuel) h k =
    segment_loop_step fuel four (seg_type seg) (asns seg) (path_bytes four path) h.0.1
    ∙ rw (segment_of-seg_type seg, segment_loop-path_bytes path four fuel h.1 (omega arith))

length-path_bytes : (path : AsPath) (four : Bool) → length path ≤ length (path_bytes four path)
unfolding path_bytes
length-path_bytes [] four = omega arith
length-path_bytes (seg ∷ path) four = omega (
  arith,
  length-path_bytes path four,
  length-append (asns_bytes four (asns seg)) (path_bytes four path),
)

-- An AS path with at most 255 ASNs in a segment, each of at most four bytes, is read back from its
-- four-byte encoding by the parser with its four-byte flag set, as it is called for AS4_PATH.
pub parse_as_path-path_bytes :
    (path : AsPath) → IsEncodable true path → parse_as_path (path_bytes true path) true ≡ ok path
unfolding parse_as_path parse_as_path_with_asn_size
parse_as_path-path_bytes path h =
    segment_loop-path_bytes path true _ h (omega (arith, length-path_bytes path true))

-- An AS path with at most 255 ASNs in a segment, each of at most two bytes, is read back from its
-- two-byte encoding: the first attempt succeeds.
pub parse_as_path-path_bytes_two :
    (path : AsPath) → IsEncodable false path → parse_as_path (path_bytes false path) false ≡ ok path
unfolding parse_as_path parse_as_path_with_asn_size
parse_as_path-path_bytes_two path h = ground (
  arith,
  segment_loop-path_bytes path false (suc (length (path_bytes false path))) h,
  length-path_bytes path false,
)

seg_type_bounds : (seg : AsPathSegment) → seg_type seg < 5
seg_type_bounds (set v) = omega arith
seg_type_bounds (sequence v) = omega arith
seg_type_bounds (confed_sequence v) = omega arith
seg_type_bounds (confed_set v) = omega arith

same_bytes :
    (upper : ℕ) (seg : AsPathSegment)
    → upper < 65536
    → asns seg ≡ []
    → path_bytes true (sequence ((upper * 65536 + seg_type seg * 256) ∷ []) ∷ [])
      ≡ path_bytes false (sequence (upper ∷ []) ∷ seg ∷ [])
unfolding path_bytes
same_bytes upper seg h e =
    let a : (upper * 65536 + seg_type seg * 256) / 16777216 ≡ upper / 256 =
      omega (arith, seg_type_bounds seg) in
    let b : (upper * 65536 + seg_type seg * 256) / 65536 % 256 ≡ upper % 256 =
      omega (arith, seg_type_bounds seg) in
    let c : (upper * 65536 + seg_type seg * 256) / 256 % 256 ≡ seg_type seg =
      omega (arith, seg_type_bounds seg) in
    let d : (upper * 65536 + seg_type seg * 256) % 256 ≡ 0 = omega arith in rw (a, b, c, d, e)

-- A path of one four-byte ASN whose third byte is a segment type and whose fourth is zero, such as
-- AS 512, is taken by the two-byte attempt for another path: one ASN, the upper half of the true
-- one, and an empty segment. The fallback to four bytes is not reached.
pub parse_as_path_misread :
    (upper : ℕ) (seg : AsPathSegment)
    → upper < 65536
    → asns seg ≡ []
    → (path_bytes true (sequence ((upper * 65536 + seg_type seg * 256) ∷ []) ∷ [])
        ≡ path_bytes false (sequence (upper ∷ []) ∷ seg ∷ []))
      × (parse_as_path
            (path_bytes true (sequence ((upper * 65536 + seg_type seg * 256) ∷ []) ∷ []))
            false
          ≡ ok (sequence (upper ∷ []) ∷ seg ∷ []))
parse_as_path_misread upper seg h e = (
  same_bytes upper seg h e,
  rw (same_bytes upper seg h e) (
      parse_as_path-path_bytes_two (sequence (upper ∷ []) ∷ seg ∷ [])
        (unfold asns in (omega arith, (h, tt)), (rw e (omega arith, tt), tt))),
)
