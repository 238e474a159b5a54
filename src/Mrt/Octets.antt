-- ===== src/Mrt/Octets.antt =====
-- The octets of an address whose low bits are zero: the first ones, filled up with zeros, spell it.
use rustybmp.Base.{
  ℕ, zero, suc, ◌+◌, ◌-◌, ◌*◌, ◌/◌, ◌%◌, ◌^◌, ◌≤◌, ◌<◌, ◌≡◌, refl, sym, ap, ◌∙◌, List, [], ◌∷◌,
  ◌++◌, arith, nat_eq, length, take, replicate, subst,
}
use native.Mathlib.Nat.{pow-zero, pow-suc, mul_assoc, lt_of_mul-lt-mul_right, mod-add-div'}
use rustybmp.Core.Slice.{be_value}
use rustybmp.Core.BufMut.{octets, length-octets, be_value-append, be_value-octets}

-- Eight bits are an octet.
shift_octet : (v p : ℕ) → v * (p * 256) ≡ v * 256 * p
shift_octet v p = let e : p * 256 ≡ 256 * p = omega arith in rw e (sym (mul_assoc v 256 p))

pow_shift : (b k n : ℕ) → b ^ (k + n) ≡ b ^ n * b ^ k
pow_shift b zero n = let z : 0 + n ≡ n = omega arith in rw (z, pow-zero b) (omega arith)
pow_shift b (suc k) n =
    let a : suc k + n ≡ suc (k + n) = omega arith in
    let p : b ^ suc (k + n) ≡ b ^ (k + n) * b = pow-suc b (k + n) in
    let q : b ^ suc k ≡ b ^ k * b = pow-suc b k in
    rw (a, p, pow_shift b k n, q) (mul_assoc (b ^ n) (b ^ k) b)

pow_octets : (j e : ℕ) → 2 ^ (8 * j + e) ≡ 2 ^ e * 256 ^ j
pow_octets zero e = let z : 8 * 0 + e ≡ e = omega arith in rw z (omega arith)
pow_octets (suc j) e =
    let power : 256 ^ suc j ≡ 256 ^ j * 256 = pow-suc 256 j in
    let s : 8 * suc j + e ≡ 8 + (8 * j + e) = omega arith in
    rw (s, pow_shift 2 8 (8 * j + e), pow_octets j e, power) (mul_assoc (2 ^ e) (256 ^ j) 256)

be_value-zeros : (j v : ℕ) → be_value v (replicate j 0) ≡ v * 256 ^ j
be_value-zeros zero v = omega arith
be_value-zeros (suc j) v =
    let power : 256 ^ suc j ≡ 256 ^ j * 256 = pow-suc 256 j in
    let z : v * 256 + 0 ≡ v * 256 = omega arith in
    be_value-zeros j (v * 256 + 0) ∙ rw (z, power) (sym (shift_octet v (256 ^ j)))

take_all : (xs : List ℕ) → take (length xs) xs ≡ xs
take_all [] = refl
take_all (x ∷ xs) = ap (λ t. x ∷ t) (take_all xs)

take_front : (k : ℕ) (xs ys : List ℕ) → k ≤ length xs → take k (xs ++ ys) ≡ take k xs
take_front zero xs ys h = refl
take_front (suc k) [] ys h = absurd (omega arith)
take_front (suc k) (x ∷ xs) ys h = ap (λ t. x ∷ t) (take_front k xs ys (omega arith))

-- The zeros at the end of a number shift its octets.
take-octets : (k j w : ℕ) → take k (octets (k + j) (w * 256 ^ j)) ≡ octets k w
unfolding octets
take-octets k zero w =
    let a : k + 0 ≡ k = omega arith in
    let b : w * 1 ≡ w = omega arith in
    rw (a, b)
      (subst (λ n. take n (octets k w) ≡ octets k w) (length-octets k w) (take_all (octets k w)))
take-octets k (suc j) w =
    let a : k + suc j ≡ suc (k + j) = omega arith in
    let power : 256 ^ suc j ≡ 256 ^ j * 256 = pow-suc 256 j in
    let m : w * 256 ^ suc j ≡ w * 256 ^ j * 256 =
      ap (λ p. w * p) power ∙ sym (mul_assoc w (256 ^ j) 256) in
    let b : w * 256 ^ suc j / 256 ≡ w * 256 ^ j = omega (arith, m) in
    rw (a, b)
      (take_front k (octets (k + j) (w * 256 ^ j)) _
          (omega (arith, length-octets (k + j) (w * 256 ^ j)))
        ∙ take-octets k j w)

-- A number whose low bits are zero, by the octets that hold them.
low_zeros : (d j v : ℕ) → 8 * j ≤ d → v % 2 ^ d ≡ 0 → v ≡ v / 2 ^ d * 2 ^ (d - 8 * j) * 256 ^ j
low_zeros d j v h e =
    let split : 8 * j + (d - 8 * j) ≡ d = omega arith in
    let power : 2 ^ d ≡ 2 ^ (d - 8 * j) * 256 ^ j =
      ap (λ n. 2 ^ n) (sym split) ∙ pow_octets j (d - 8 * j) in
    let whole : v ≡ v / 2 ^ d * 2 ^ d = omega (arith, mod-add-div' v (2 ^ d), e) in
    whole
    ∙ (ap (λ p. v / 2 ^ d * p) power ∙ sym (mul_assoc (v / 2 ^ d) (2 ^ (d - 8 * j)) (256 ^ j)))

-- The first octets of such a number, filled up with zeros, spell it.
pub be_value-take-octets :
    (k j d v : ℕ)
    → v < 256 ^ (k + j)
    → 8 * j ≤ d
    → v % 2 ^ d ≡ 0
    → be_value 0 (take k (octets (k + j) v) ++ replicate j 0) ≡ v
be_value-take-octets k j d v b h e =
    let w = v / 2 ^ d * 2 ^ (d - 8 * j) in
    let shape : v ≡ w * 256 ^ j = low_zeros d j v h e in
    let front : take k (octets (k + j) v) ≡ octets k w =
      ap (λ n. take k (octets (k + j) n)) shape ∙ take-octets k j w in
    let swap : k + j ≡ j + k = omega arith in
    let power : 256 ^ (k + j) ≡ 256 ^ k * 256 ^ j = rw swap (pow_shift 256 j k) in
    let fits : w < 256 ^ k = lt_of_mul-lt-mul_right (256 ^ j) (omega (arith, b, shape, power)) in
    rw front (
      be_value-append 0 (octets k w) (replicate j 0)
      ∙ (be_value-zeros j (be_value 0 (octets k w))
          ∙ (ap (λ n. n * 256 ^ j) (be_value-octets k w fits) ∙ sym shape)))
