-- ===== src/Core/Bgp/Nlri/AddPath.antt =====
-- Entries with a path identifier: an entry that is cut off behind it.
use rustybmp.Base.{
  ℕ, ◌/◌, ◌%◌, subst, ap, zero, suc, ◌≤◌, ◌≡◌, true, some, List, [], ◌∷◌, ◌++◌, arith, nat_eq,
  length, All, length-append,
}
use mathlib.Core.List.{append_assoc}
use rustybmp.Core.Error.{ok, panic}
use rustybmp.Core.Slice.{be32}
use rustybmp.Core.Buf.{Buf}
use rustybmp.Core.BufMut.{u32_bytes, vec_buf_mut}
use rustybmp.Core.Ipnet.{Ipnet}
use rustybmp.Core.Bgp.Family.{Afi}
use rustybmp.Core.Bgp.Nlri.{
  Prefix, addr_family, decode_entry, decode_path_id, decode_nlri_with_path_id_loop,
  decode_nlri_with_path_id,
}
use rustybmp.Core.Bgp.Nlri.Canonical.{IsPlain}
use rustybmp.Mrt.Prefixes.{prefix_bytes, decode_entry-write_prefix_nlri}

-- The entries of some prefixes, each with its path identifier before it.
abbrev pub add_path_bytes : List (ℕ × Prefix) → List ℕ
add_path_bytes [] = []
add_path_bytes ((id, p) ∷ ps) = u32_bytes id ++ (prefix_bytes p ++ add_path_bytes ps)

-- The prefix is a network of the family.
abbrev pub IsOfFamily : Afi → ℕ × Prefix → Type 0
IsOfFamily afi (id, p) = (addr_family p ≡ afi) × IsPlain (addr_family p) p

module _ (buf : Buf) (ipnet : Ipnet) where
  decode_path_id_lem :
      (id : ℕ) (b : List ℕ)
      → (n : ℕ) × (decode_path_id buf ipnet true (u32_bytes id ++ b) ≡ ok (some n, b))
  unfolding decode_path_id
  decode_path_id_lem id b = (
    be32 (id / 16777216 % 256) (id / 65536 % 256) (id / 256 % 256) (id % 256),
    ground (arith, buf.get_u32_reads (u32_bytes id ++ b)),
  )

  decode_entry-panic : (afi : Afi) → decode_entry buf ipnet afi [] ≡ panic
  unfolding decode_entry
  decode_entry-panic afi = ground (arith, buf.get_u8_reads [])

  loop-panic :
      (fuel : ℕ) (afi : Afi) (ps : List (ℕ × Prefix)) (id : ℕ)
      → All (IsOfFamily afi) ps
      → length (add_path_bytes ps ++ u32_bytes id) ≤ fuel
      → decode_nlri_with_path_id_loop buf ipnet fuel afi true (add_path_bytes ps ++ u32_bytes id)
        ≡ panic
  unfolding decode_nlri_with_path_id_loop
  loop-panic zero afi ps id h k =
      absurd (omega (arith, k, length-append (add_path_bytes ps) (u32_bytes id)))
  loop-panic (suc fuel) afi [] id h k =
      let (v, e) = decode_path_id_lem id [] in ground (arith, e, decode_entry-panic afi)
  loop-panic (suc fuel) afi ((n, p) ∷ ps) id ((same, plain), hs) k =
      let rest = add_path_bytes ps ++ u32_bytes id in
      let (v, e) = decode_path_id_lem n (prefix_bytes p ++ rest) in
      let entry : decode_entry buf ipnet afi (prefix_bytes p ++ rest) ≡ ok (p, rest) =
        subst (λ f. decode_entry buf ipnet f (prefix_bytes p ++ rest) ≡ ok (p, rest)) same
          (decode_entry-write_prefix_nlri vec_buf_mut buf ipnet p [] rest plain).1 in
      let moved = append_assoc (prefix_bytes p) (add_path_bytes ps) (u32_bytes id) in
      let fewer = length-append (prefix_bytes p) rest in
      let ih = loop-panic fuel afi ps id hs (omega (arith, k, ap length moved, fewer)) in
      rw moved (ground (arith, e, entry, ih))

  -- With Add-Path, an entry that ends behind its path identifier is a panic, whatever entries of
  -- prefixes of the family come before it: nothing checks that its length byte is there.
  pub decode_nlri_with_path_id-panic :
      (afi : Afi) (ps : List (ℕ × Prefix)) (id : ℕ)
      → All (IsOfFamily afi) ps
      → decode_nlri_with_path_id buf ipnet (add_path_bytes ps ++ u32_bytes id) afi true ≡ panic
  unfolding decode_nlri_with_path_id
  decode_nlri_with_path_id-panic afi ps id h =
      loop-panic (length (add_path_bytes ps ++ u32_bytes id)) afi ps id h (omega arith)
