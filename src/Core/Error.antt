-- ===== src/Core/Error.antt =====
-- crates/rbmp-core/src/error.rs: the error type, and the outcome of a call.
use rustybmp.Base.{◌≡◌, refl, ℕ, Bool, true, false}
use rustybmp.Base.Text.{Text}

-- The payload of `Io`, an error of the operating system, is left out.
pub data Error : Type 0 where
  bmp_parse : Text → Error
  bgp_parse : Text → Error
  unexpected_eof : (needed have : ℕ) → Error
  invalid_bmp_version : ℕ → Error
  invalid_message_type : ℕ → Error
  frame_too_large : ℕ → ℕ → Error
  invalid_bgp_marker : Error
  invalid_bgp_message_type : ℕ → Error
  invalid_afi : ℕ → Error
  invalid_safi : ℕ → Error
  invalid_prefix_len : (prefix_len afi : ℕ) → Error
  truncated_attribute : (attr_type declared available : ℕ) → Error
  io : Error

-- `Result<T>`, with two outcomes that are no values of the program: `panic` is a panic of the
-- thread (an index or a slice out of bounds, a read past the end of a buffer) or an abort for want
-- of memory, and `stuck` a loop
-- of the model that ran out of fuel.
pub data Result {ℓ} (A : Type ℓ) : Type ℓ where
  ok : A → Result A
  err : Error → Result A
  panic : Result A
  stuck : Result A

infixl 5 ◌>>=◌
abbrev pub ◌>>=◌ {ℓ κ} : {A : Type ℓ} {B : Type κ} → Result A → (A → Result B) → Result B
ok a >>= f = f a
err e >>= f = err e
panic >>= f = panic
stuck >>= f = stuck

-- The call returns, with a value that has `P` or with an error.
abbrev pub Ensures {ℓ} : {A : Type ℓ} → (A → Type 0) → Result A → Type 0
Ensures P (ok a) = P a
Ensures P (err e) = Unit
Ensures P panic = ⊥
Ensures P stuck = ⊥

-- The call returns, with a value or with an error: it neither panics nor runs for ever.
abbrev pub returns {ℓ} : {A : Type ℓ} → Result A → Bool
returns (ok a) = true
returns (err e) = true
returns panic = false
returns stuck = false

abbrev pub Returns {ℓ} : {A : Type ℓ} → Result A → Type 0
Returns m = returns m ≡ true

pub Ensures-bind {ℓ κ} :
    {A : Type ℓ} {B : Type κ} (P : A → Type 0) (Q : B → Type 0) (m : Result A) (f : A → Result B)
    → Ensures P m
    → ((a : A) → P a → Ensures Q (f a))
    → Ensures Q (m >>= f)
Ensures-bind P Q (ok a) f h k = k a h
Ensures-bind P Q (err e) f h k = tt
Ensures-bind P Q panic f h k = elim h [ ]
Ensures-bind P Q stuck f h k = elim h [ ]

pub Returns-bind {ℓ κ} :
    {A : Type ℓ} {B : Type κ} (m : Result A) (f : A → Result B)
    → Returns m
    → ((a : A) → m ≡ ok a → Returns (f a))
    → Returns (m >>= f)
Returns-bind (ok a) f h k = k a refl
Returns-bind (err e) f h k = refl
Returns-bind panic f h k = cc
Returns-bind stuck f h k = cc

pub Returns-Ensures {ℓ} : {A : Type ℓ} (P : A → Type 0) (m : Result A) → Ensures P m → Returns m
Returns-Ensures P (ok a) h = refl
Returns-Ensures P (err e) h = refl
Returns-Ensures P panic h = elim h [ ]
Returns-Ensures P stuck h = elim h [ ]

-- The call succeeds, with a value that has `P`.
abbrev pub Yields {ℓ} : {A : Type ℓ} → (A → Type 0) → Result A → Type 0
Yields P (ok a) = P a
Yields P (err e) = ⊥
Yields P panic = ⊥
Yields P stuck = ⊥

pub Yields-bind {ℓ κ} :
    {A : Type ℓ} {B : Type κ} (P : A → Type 0) (Q : B → Type 0) (m : Result A) (f : A → Result B)
    → Yields P m
    → ((a : A) → P a → Yields Q (f a))
    → Yields Q (m >>= f)
Yields-bind P Q (ok a) f h k = k a h
Yields-bind P Q (err e) f h k = elim h [ ]
Yields-bind P Q panic f h k = elim h [ ]
Yields-bind P Q stuck f h k = elim h [ ]

pub Returns-Yields {ℓ} : {A : Type ℓ} (P : A → Type 0) (m : Result A) → Yields P m → Returns m
Returns-Yields P (ok a) h = refl
Returns-Yields P (err e) h = elim h [ ]
Returns-Yields P panic h = elim h [ ]
Returns-Yields P stuck h = elim h [ ]

-- A call that succeeds has gone through its first part.
pub bind-ok {ℓ κ} :
    {A : Type ℓ} {B : Type κ} (m : Result A) (f : A → Result B) (b : B)
    → (m >>= f) ≡ ok b
    → (a : A) × ((m ≡ ok a) × (f a ≡ ok b))
bind-ok (ok a) f b h = (a, (refl, h))
bind-ok (err e) f b h = absurd cc
bind-ok panic f b h = absurd cc
bind-ok stuck f b h = absurd cc
