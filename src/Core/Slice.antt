-- ===== src/Core/Slice.antt =====
-- Reads of a byte slice by index and by range, and big-endian integers: the slice type and
-- `from_be_bytes` of the standard library. An index or a range out of bounds is a panic.
use rustybmp.Base.{
  ℕ, zero, suc, ◌+◌, ◌-◌, ◌*◌, ◌≤◌, ◌<◌, ◌≡◌, refl, ap, ◌&&◌, none, some, List, [], ◌∷◌, ◌++◌,
  arith, leb, if◌then◌else◌, nat_eq, length, get_elem?, get_or, take, drop, length-append,
  length-take, length-drop,
}
use rustybmp.Core.Error.{Result, ok, panic, ◌>>=◌}

abbrev pub IsByte : ℕ → Type 0
IsByte b = b < 256

-- `buf[i]`
unfoldable pub at : List ℕ → ℕ → Result ℕ
at buf i = elim (get_elem? buf i) [ none ↦ panic | some b ↦ ok b ]

abbrev pub be16 : ℕ → ℕ → ℕ
be16 a b = a * 256 + b

abbrev pub be32 : ℕ → ℕ → ℕ → ℕ → ℕ
be32 a b c d = a * 16777216 + b * 65536 + c * 256 + d

-- The number that the bytes of an array of any length spell.
abbrev pub be_value : ℕ → List ℕ → ℕ
be_value v [] = v
be_value v (b ∷ bs) = be_value (v * 256 + b) bs

-- `u16::from_be_bytes([buf[i], buf[i + 1]])`, and the same at four indices.
unfoldable pub u16_at : List ℕ → ℕ → Result ℕ
unfolding at
u16_at buf i = do a ← at buf i; b ← at buf (i + 1); ok (be16 a b)

unfoldable pub u32_at : List ℕ → ℕ → Result ℕ
unfolding at
u32_at buf i = do
  a ← at buf i
  b ← at buf (i + 1)
  c ← at buf (i + 2)
  d ← at buf (i + 3)
  ok (be32 a b c d)

-- `&buf[i..j]` and `&buf[i..]`
unfoldable pub slice : List ℕ → ℕ → ℕ → Result (List ℕ)
slice buf i j = if leb i j && leb j (length buf) then ok (take (j - i) (drop i buf)) else panic

unfoldable pub slice_from : List ℕ → ℕ → Result (List ℕ)
slice_from buf i = if leb i (length buf) then ok (drop i buf) else panic

-- What the reads give inside the bounds.
abbrev pub byte : List ℕ → ℕ → ℕ
byte buf i = get_or buf i 0

pub at_ok : (buf : List ℕ) (i : ℕ) → i < length buf → at buf i ≡ ok (byte buf i)
unfolding at
at_ok [] i h = elim h [ ]
at_ok (b ∷ buf) zero h = refl
at_ok (b ∷ buf) (suc i) h = at_ok buf i (omega arith)

pub u16_at_ok :
    (buf : List ℕ) (i : ℕ)
    → i + 1 < length buf
    → u16_at buf i ≡ ok (be16 (byte buf i) (byte buf (i + 1)))
unfolding u16_at
u16_at_ok buf i h = rw (at_ok buf i (omega arith), at_ok buf (i + 1) h)

pub u32_at_ok :
    (buf : List ℕ) (i : ℕ)
    → i + 3 < length buf
    → u32_at buf i ≡ ok (be32 (byte buf i) (byte buf (i + 1)) (byte buf (i + 2)) (byte buf (i + 3)))
unfolding u32_at
u32_at_ok buf i h = rw (
  at_ok buf i (omega arith),
  at_ok buf (i + 1) (omega arith),
  at_ok buf (i + 2) (omega arith),
  at_ok buf (i + 3) h,
)

pub slice_ok :
    (buf : List ℕ) (i j : ℕ)
    → i ≤ j
    → j ≤ length buf
    → slice buf i j ≡ ok (take (j - i) (drop i buf))
unfolding slice
slice_ok buf i j h k = ground arith

pub slice_from_ok : (buf : List ℕ) (i : ℕ) → i ≤ length buf → slice_from buf i ≡ ok (drop i buf)
unfolding slice_from
slice_from_ok buf i h = ground arith

pub length-slice :
    (buf : List ℕ) (i j : ℕ) → i ≤ j → j ≤ length buf → length (take (j - i) (drop i buf)) ≡ j - i
length-slice buf i j h k = omega (arith, length-take (j - i) (drop i buf), length-drop i buf)

-- A read behind a front that is skipped is a read of what follows the front.
pub at_skip : (front buf : List ℕ) (i j : ℕ) → j ≡ length front + i → at (front ++ buf) j ≡ at buf i
unfolding at
at_skip [] buf i j e = ap (at buf) (omega arith)
at_skip (x ∷ front) buf i j e =
    let s : j ≡ suc (length front + i) = omega arith in
    rw s (at_skip front buf i (length front + i) refl)

pub u16_at_skip :
    (front buf : List ℕ) (i j : ℕ) → j ≡ length front + i → u16_at (front ++ buf) j ≡ u16_at buf i
unfolding u16_at
u16_at_skip front buf i j e =
    rw (at_skip front buf i j e, at_skip front buf (i + 1) (j + 1) (omega arith))

pub u32_at_skip :
    (front buf : List ℕ) (i j : ℕ) → j ≡ length front + i → u32_at (front ++ buf) j ≡ u32_at buf i
unfolding u32_at
u32_at_skip front buf i j e = rw (
  at_skip front buf i j e,
  at_skip front buf (i + 1) (j + 1) (omega arith),
  at_skip front buf (i + 2) (j + 2) (omega arith),
  at_skip front buf (i + 3) (j + 3) (omega arith),
)

drop_skip :
    (front buf : List ℕ) (i j : ℕ) → j ≡ length front + i → drop j (front ++ buf) ≡ drop i buf
drop_skip [] buf i j e = ap (λ k. drop k buf) (omega arith)
drop_skip (x ∷ front) buf i j e =
    let s : j ≡ suc (length front + i) = omega arith in
    rw s (drop_skip front buf i (length front + i) refl)

pub slice_skip :
    (front buf : List ℕ) (i j k l : ℕ)
    → k ≡ length front + i
    → l ≡ length front + j
    → slice (front ++ buf) k l ≡ slice buf i j
unfolding slice
slice_skip front buf i j k l e f =
    let d : l - k ≡ j - i = omega arith in
    ground (arith, length-append front buf, drop_skip front buf i k e, d)
