-- ===== src/Base/Table.antt =====
-- `HashMap`: an association list, the first entry of a key being its entry. What iterates over a
-- map meets its entries in the order of the list, and no statement may depend on that order.
use Prim.Native.Nat.{suc}
use mathlib.Core.Path.{◌≡◌, refl, subst}
use mathlib.Core.Logic.{inl, inr}
use mathlib.Core.Bool.{Bool, true, false}
use mathlib.Core.Option.{Option, none, some, none-ne-some, some-injective}
use mathlib.Core.List.{List, [], ◌∷◌}
use native.Mathlib.Omega.{arith}
use rustybmp.Base.Tests.{Eq, Bool-cases, if◌then◌else◌}
use rustybmp.Base.Lists.{length}

abbrev pub Table {ℓ κ} : Type ℓ → Type κ → Type (ℓ ⊔ κ)
Table K V = List (K × V)

-- `map_or(false, ..)`: whether a lookup found something.
abbrev pub is_some {ℓ} : {A : Type ℓ} → Option A → Bool
is_some none = false
is_some (some a) = true

module _ {ℓ κ} {K : Type ℓ} {V : Type κ} ⦃e : Eq K⦄ where
  -- `get`
  unfoldable pub lookup : K → Table K V → Option V
  lookup k [] = none
  lookup k ((j, v) ∷ m) = if e.beq j k then some v else lookup k m

  -- `insert`, which replaces the value of a key that is there
  unfoldable pub insert : K → V → Table K V → Table K V
  insert k v [] = (k, v) ∷ []
  insert k v ((j, w) ∷ m) = if e.beq j k then (k, v) ∷ m else (j, w) ∷ insert k v m

  -- `remove`
  unfoldable pub erase : K → Table K V → Table K V
  erase k [] = []
  erase k ((j, w) ∷ m) = let rest = erase k m in if e.beq j k then rest else (j, w) ∷ rest

  unfoldable pub contains_key : K → Table K V → Bool
  contains_key k m = is_some (lookup k m)

  pub lookup-insert :
      (k j : K) (v : V) (m : Table K V)
      → lookup j (insert k v m) ≡ (if e.beq k j then some v else lookup j m)
  unfolding lookup insert
  lookup-insert k j v [] = refl
  lookup-insert k j v ((i, w) ∷ m) =
      ground (arith, e.beq_iff k j, e.beq_iff i k, e.beq_iff i j, lookup-insert k j v m)

  pub lookup-erase :
      (k j : K) (m : Table K V) → lookup j (erase k m) ≡ (if e.beq k j then none else lookup j m)
  unfolding lookup erase
  lookup-erase k j [] = ground arith
  lookup-erase k j ((i, w) ∷ m) =
      ground (arith, e.beq_iff k j, e.beq_iff i k, e.beq_iff i j, lookup-erase k j m)

  -- An insertion adds an entry exactly where the key is new.
  pub length-insert :
      (k : K) (v : V) (m : Table K V)
      → length (insert k v m) ≡ (if contains_key k m then length m else suc (length m))
  unfolding insert contains_key lookup
  length-insert k v [] = refl
  length-insert k v ((i, w) ∷ m) = ground (arith, length-insert k v m)

-- `values_mut()`, and `iter().map(..)` over the values: keys stay.
unfoldable pub map_values {ℓ κ μ} :
    {K : Type ℓ} {V : Type κ} {W : Type μ} → (V → W) → Table K V → Table K W
map_values f [] = []
map_values f ((k, v) ∷ m) = (k, f v) ∷ map_values f m

-- What holds of every value is kept by the operations, and holds of a value found.
abbrev pub Values {ℓ κ μ} : {K : Type ℓ} {V : Type κ} → (K → V → Type μ) → Table K V → Type μ
Values P [] = Unit {μ}
Values P ((k, v) ∷ m) = P k v × Values P m

abbrev pub map_option {ℓ κ} : {A : Type ℓ} {B : Type κ} → (A → B) → Option A → Option B
map_option f none = none
map_option f (some a) = some (f a)

pub lookup-map_values {ℓ κ μ} :
    {K : Type ℓ} {V : Type κ} {W : Type μ} ⦃e : Eq K⦄ (f : V → W) (k : K) (m : Table K V)
    → lookup k (map_values f m) ≡ map_option f (lookup k m)
unfolding lookup map_values
lookup-map_values f k [] = refl
lookup-map_values ⦃e⦄ f k ((j, v) ∷ m) = ground (arith, lookup-map_values f k m)

module _ {ℓ κ μ} {K : Type ℓ} {V : Type κ} ⦃e : Eq K⦄ (P : K → V → Type μ) where
  pub Values-insert : (k : K) (v : V) (m : Table K V) → P k v → Values P m → Values P (insert k v m)
  unfolding insert
  Values-insert k v [] p h = (p, tt)
  Values-insert k v ((j, w) ∷ m) p (q, h) = elim (Bool-cases (e.beq j k)) [
    | inl same ↦ rw same (p, h)
    | inr other ↦ rw other (q, Values-insert k v m p h)
  ]

  pub Values-erase : (k : K) (m : Table K V) → Values P m → Values P (erase k m)
  unfolding erase
  Values-erase k [] h = tt
  Values-erase k ((j, w) ∷ m) (q, h) = elim (Bool-cases (e.beq j k)) [
    | inl same ↦ rw same (Values-erase k m h)
    | inr other ↦ rw other (q, Values-erase k m h)
  ]

  pub Values-lookup : (k : K) (v : V) (m : Table K V) → Values P m → lookup k m ≡ some v → P k v
  unfolding lookup
  Values-lookup k v [] h found = elim (none-ne-some v found) [ ]
  Values-lookup k v ((j, w) ∷ m) (q, h) found = elim (Bool-cases (e.beq j k)) [
    | inl same ↦
        let j≡k = (e.beq_iff j k).0 same in
        let w≡v : w ≡ v = some-injective w v (rw same at found) in
        subst (λ x. P x v) j≡k (subst (λ y. P j y) w≡v q)
    | inr other ↦ Values-lookup k v m h (rw other at found)
  ]
