-- ===== src/Base/Text.antt =====
-- Text as its bytes: `String` and `&str` of the program are lists of numbers below 256.
use Prim.Native.Nat.{ℕ, zero, suc, ◌+◌, ◌-◌, ◌*◌, ◌/◌, ◌%◌, ◌^◌, ◌<◌}
use Prim.Native.Char.{code}
use Prim.Native.String.{String}
use mathlib.Core.Path.{◌≡◌, sym, ap, ◌∙◌}
use mathlib.Core.Logic.{◌↔◌, inl, inr}
use mathlib.Core.Bool.{Bool, true, false, ◌&&◌}
use mathlib.Core.List.{List, [], ◌∷◌}
use native.Mathlib.Omega.{arith}
use native.Mathlib.Nat.{pow-suc}
use rustybmp.Base.Tests.{ltb, ◌==◌, Eq, if◌then◌else◌, Bool-cases}

abbrev pub Text : Type 0
Text = List ℕ

-- A literal of the source. The literals modelled are ASCII.
abbrev pub codes : String → Text
codes String.[] = []
codes (String.◌∷◌ c s) = code c ∷ codes s

abbrev pub text_beq : Text → Text → Bool
text_beq [] [] = true
text_beq [] (y ∷ ys) = false
text_beq (x ∷ xs) [] = false
text_beq (x ∷ xs) (y ∷ ys) = (x == y) && text_beq xs ys

pub text_beq_iff : (s t : Text) → (text_beq s t ≡ true) ↔ (s ≡ t)
text_beq_iff [] [] = ground arith
text_beq_iff [] (y ∷ ys) = ground arith
text_beq_iff (x ∷ xs) [] = ground arith
text_beq_iff (x ∷ xs) (y ∷ ys) = ground (arith, text_beq_iff xs ys)

instance abbrev pub text_eq : Eq Text
text_eq = record { beq = text_beq; beq_iff = text_beq_iff }

-- `str::starts_with`, with the text first.
abbrev pub starts_with : Text → Text → Bool
starts_with s [] = true
starts_with [] (p ∷ ps) = false
starts_with (x ∷ s) (p ∷ ps) = (x == p) && starts_with s ps

-- The decimal digits of `format!("{}", n)` for an unsigned integer of at most 64 bits. The fuel is
-- the number of digits, and 20 of them hold every u64.
decimal_loop : ℕ → ℕ → Text → Text
decimal_loop zero n acc = acc
decimal_loop (suc f) n acc =
    let rest = decimal_loop f (n / 10) ((n % 10 + 48) ∷ acc) in
    if ltb n 10 then (n + 48) ∷ acc else rest

unfoldable pub decimal : ℕ → Text
unfolding decimal_loop
decimal n = decimal_loop 20 n []

value : ℕ → Text → ℕ
value v [] = v
value v (c ∷ s) = value (v * 10 + (c - 48)) s

value-decimal_loop :
    (f n : ℕ) (acc : Text) → n < 10 ^ f → value 0 (decimal_loop f n acc) ≡ value n acc
unfolding decimal_loop value
value-decimal_loop zero n acc h = let e : n ≡ 0 = omega arith in rw e
value-decimal_loop (suc f) n acc h = elim (Bool-cases (ltb n 10)) [
  | inl small ↦ rw small (ap (λ t. value t acc) (omega arith))
  | inr large ↦ rw large (
      value-decimal_loop f (n / 10) ((n % 10 + 48) ∷ acc) (omega (arith, pow-suc 10 f))
      ∙ ap (λ t. value t acc) (omega arith))
]

-- Two numbers of at most 64 bits have different digits.
pub decimal_injective : (m n : ℕ) → m < 2 ^ 64 → n < 2 ^ 64 → decimal m ≡ decimal n → m ≡ n
unfolding decimal value
decimal_injective m n hm hn e =
    sym (value-decimal_loop 20 m [] (omega arith))
    ∙ ap (value 0) e
    ∙ value-decimal_loop 20 n [] (omega arith)
