-- ===== src/Core/Buf.antt =====
-- `bytes::Buf` over a byte slice, the one interface of the crate `bytes` that the parsers use. The
-- crate is a parameter of the model: its operations, each with what its documentation says.
use rustybmp.Base.{ℕ, ◌≡◌, refl, List, ◌∷◌, leb, if◌then◌else◌, length, take, drop}
use rustybmp.Core.Error.{Result, ok, panic}
use rustybmp.Core.Slice.{be16, be32}

-- The documented behaviour: a read takes its bytes from the front, big-endian, and panics where
-- fewer bytes remain.
abbrev pub read_u8 : List ℕ → Result (ℕ × List ℕ)
read_u8 (a ∷ rest) = ok (a, rest)
read_u8 _ = panic

abbrev pub read_u16 : List ℕ → Result (ℕ × List ℕ)
read_u16 (a ∷ b ∷ rest) = ok (be16 a b, rest)
read_u16 _ = panic

abbrev pub read_u32 : List ℕ → Result (ℕ × List ℕ)
read_u32 (a ∷ b ∷ c ∷ d ∷ rest) = ok (be32 a b c d, rest)
read_u32 _ = panic

abbrev pub read_bytes : ℕ → List ℕ → Result (List ℕ × List ℕ)
read_bytes n buf = if leb n (length buf) then ok (take n buf, drop n buf) else panic

pub record Buf : Type 0 where
  pub get_u8 : List ℕ → Result (ℕ × List ℕ)
  pub get_u16 : List ℕ → Result (ℕ × List ℕ)
  pub get_u32 : List ℕ → Result (ℕ × List ℕ)
  pub copy_to_bytes : ℕ → List ℕ → Result (List ℕ × List ℕ)
  pub get_u8_reads : (buf : List ℕ) → get_u8 buf ≡ read_u8 buf
  pub get_u16_reads : (buf : List ℕ) → get_u16 buf ≡ read_u16 buf
  pub get_u32_reads : (buf : List ℕ) → get_u32 buf ≡ read_u32 buf
  pub copy_to_bytes_reads : (n : ℕ) (buf : List ℕ) → copy_to_bytes n buf ≡ read_bytes n buf

-- The documented reads themselves are such an implementation.
abbrev pub slice_buf : Buf
slice_buf = record {
  get_u8 = read_u8;
  get_u16 = read_u16;
  get_u32 = read_u32;
  copy_to_bytes = read_bytes;
  get_u8_reads = λ buf. refl;
  get_u16_reads = λ buf. refl;
  get_u32_reads = λ buf. refl;
  copy_to_bytes_reads = λ n buf. refl;
}
