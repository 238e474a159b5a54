-- ===== src/Core/BufMut.antt =====
-- `bytes::BufMut`, by which the writers append to a buffer, and the octets of an address. The crate
-- is a parameter of the model: its operations, each with what its documentation says.
use rustybmp.Base.{
  ℕ, zero, suc, ◌+◌, ◌*◌, ◌/◌, ◌%◌, ◌^◌, ◌<◌, ◌≡◌, refl, List, [], ◌∷◌, ◌++◌, arith, length,
  length-append,
}
use rustybmp.Core.Net.{IpAddr, v4, v6}
use rustybmp.Core.Slice.{be16, be32, be_value}
use native.Mathlib.Nat.{pow-suc}

abbrev pub u16_bytes : ℕ → List ℕ
u16_bytes v = (v / 256 % 256) ∷ (v % 256) ∷ []

abbrev pub u32_bytes : ℕ → List ℕ
u32_bytes v = (v / 16777216 % 256) ∷ (v / 65536 % 256) ∷ (v / 256 % 256) ∷ (v % 256) ∷ []

pub record BufMut : Type 0 where
  pub put_u8 : List ℕ → ℕ → List ℕ
  pub put_u16 : List ℕ → ℕ → List ℕ
  pub put_u32 : List ℕ → ℕ → List ℕ
  pub put_slice : List ℕ → List ℕ → List ℕ
  pub put_u8_appends : (buf : List ℕ) (v : ℕ) → v < 256 → put_u8 buf v ≡ buf ++ v ∷ []
  pub put_u16_appends : (buf : List ℕ) (v : ℕ) → put_u16 buf v ≡ buf ++ u16_bytes v
  pub put_u32_appends : (buf : List ℕ) (v : ℕ) → put_u32 buf v ≡ buf ++ u32_bytes v
  pub put_slice_appends : (buf s : List ℕ) → put_slice buf s ≡ buf ++ s

-- An implementation of the documentation, which shows that it can be met.
abbrev pub vec_buf_mut : BufMut
vec_buf_mut = record {
  put_u8 = λ buf v. buf ++ v ∷ [];
  put_u16 = λ buf v. buf ++ u16_bytes v;
  put_u32 = λ buf v. buf ++ u32_bytes v;
  put_slice = λ buf s. buf ++ s;
  put_u8_appends = λ buf v h. refl;
  put_u16_appends = λ buf v. refl;
  put_u32_appends = λ buf v. refl;
  put_slice_appends = λ buf s. refl;
}

pub be16-u16_bytes : (v : ℕ) → v < 65536 → be16 (v / 256 % 256) (v % 256) ≡ v
be16-u16_bytes v h = omega arith

pub be32-u32_bytes :
    (v : ℕ)
    → v < 4294967296
    → be32 (v / 16777216 % 256) (v / 65536 % 256) (v / 256 % 256) (v % 256) ≡ v
be32-u32_bytes v h = omega arith

-- `octets()`: the bytes of a number, the last one first made.
unfoldable pub octets : (size value : ℕ) → List ℕ
octets zero v = []
octets (suc size) v = octets size (v / 256) ++ (v % 256) ∷ []

unfoldable pub ip_octets : IpAddr → List ℕ
unfolding octets
ip_octets (v4 a) = octets 4 a
ip_octets (v6 a) = octets 16 a

pub length-octets : (size v : ℕ) → length (octets size v) ≡ size
unfolding octets
length-octets zero v = refl
length-octets (suc size) v =
    omega
      (arith, length-append (octets size (v / 256)) ((v % 256) ∷ []), length-octets size (v / 256))

pub be_value-append :
    (acc : ℕ) (xs ys : List ℕ) → be_value acc (xs ++ ys) ≡ be_value (be_value acc xs) ys
be_value-append acc [] ys = refl
be_value-append acc (x ∷ xs) ys = be_value-append (acc * 256 + x) xs ys

-- The number of the octets is the address again.
pub be_value-octets : (size v : ℕ) → v < 256 ^ size → be_value 0 (octets size v) ≡ v
unfolding octets
be_value-octets zero v h = omega arith
be_value-octets (suc size) v h =
    let power : 256 ^ suc size ≡ 256 ^ size * 256 = pow-suc 256 size in
    let below : v / 256 < 256 ^ size = omega (arith, power, h) in
    rw (be_value-append 0 (octets size (v / 256)) ((v % 256) ∷ []))
      (omega (arith, be_value-octets size (v / 256) below))
