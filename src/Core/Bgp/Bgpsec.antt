-- ===== src/Core/Bgp/Bgpsec.antt =====
-- crates/rbmp-core/src/bgp/attributes.rs: the BGPsec path, of which the signing ASNs are read.
use rustybmp.Base.{
  ℕ, zero, suc, ◌+◌, ◌%◌, ◌<◌, ◌≡◌, refl, List, [], ◌∷◌, arith, ltb, if◌then◌else◌, nat_eq, length,
  take, drop, length-drop, Bool-cases, inl, inr,
}
use rustybmp.Core.Error.{Result, ok, stuck, ◌>>=◌, Yields, Yields-bind}
use rustybmp.Core.Slice.{be16, be32}

pub record BgpsecPath : Type 0 where
  pub signing_asns : List ℕ
  pub sig_block_count : ℕ
  pub raw : List ℕ

-- The segments of the secure path, six bytes each.
unfoldable pub secure_path : List ℕ → List ℕ
secure_path (p ∷ f ∷ a ∷ b ∷ c ∷ d ∷ rest) = be32 a b c d ∷ secure_path rest
secure_path _ = []

-- The loop over the signature blocks, on the bytes from `pos` on; the count is a u8, which wraps.
unfoldable pub block_loop : ℕ → List ℕ → (count : ℕ) → Result ℕ
block_loop zero b count = stuck
block_loop (suc fuel) (l1 ∷ l0 ∷ algo ∷ b) count =
    block_loop fuel (drop (be16 l1 l0) (algo ∷ b)) ((count + 1) % 256)
block_loop (suc fuel) _ count = ok count

unfoldable pub parse_bgpsec_path : List ℕ → Result BgpsecPath
unfolding secure_path block_loop
parse_bgpsec_path (l1 ∷ l0 ∷ b) =
    let len = be16 l1 l0 in
    let raw = l1 ∷ l0 ∷ b in
    let path = (do
      count ← block_loop (suc (length b)) (drop len b) 0
      ok (record {
        signing_asns = secure_path (take len b);
        sig_block_count = count;
        raw = raw;
      })) in
    if ltb (length b) len
    then ok (record { signing_asns = []; sig_block_count = 0; raw = raw })
    else path
parse_bgpsec_path b = ok (record { signing_asns = []; sig_block_count = 0; raw = b })

block_loop-Yields :
    (fuel : ℕ) (b : List ℕ) (count : ℕ)
    → length b < fuel
    → count < 256
    → Yields (λ n. n < 256) (block_loop fuel b count)
unfolding block_loop
block_loop-Yields zero b count h k = absurd (omega arith)
block_loop-Yields (suc fuel) [] count h k = k
block_loop-Yields (suc fuel) (x ∷ []) count h k = k
block_loop-Yields (suc fuel) (x ∷ y ∷ []) count h k = k
block_loop-Yields (suc fuel) (l1 ∷ l0 ∷ algo ∷ b) count h k =
    block_loop-Yields fuel (drop (be16 l1 l0) (algo ∷ b)) ((count + 1) % 256)
      (omega (arith, length-drop (be16 l1 l0) (algo ∷ b))) (omega arith)

-- The parser of BGPsec paths gives a value on every byte string, that keeps these bytes, with a
-- count of signature blocks that fits a byte.
pub parse_bgpsec_path-Yields :
    (b : List ℕ) → Yields (λ p. (p.raw ≡ b) × (p.sig_block_count < 256)) (parse_bgpsec_path b)
unfolding parse_bgpsec_path
parse_bgpsec_path-Yields [] = (refl, omega arith)
parse_bgpsec_path-Yields (x ∷ []) = (refl, omega arith)
parse_bgpsec_path-Yields (l1 ∷ l0 ∷ b) =
    let len = be16 l1 l0 in
    elim (Bool-cases (ltb (length b) len)) [
      | inl short ↦ rw short (refl, omega arith)
      | inr enough ↦ rw enough (
          Yields-bind (λ n. n < 256) _ (block_loop (suc (length b)) (drop len b) 0) _
            (block_loop-Yields (suc (length b)) (drop len b) 0 (omega (arith, length-drop len b))
              (omega arith))
            λ n h. (refl, h))
    ]
