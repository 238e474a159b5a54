-- ===== src/Core/Bgp/NextHops.antt =====
-- crates/rbmp-core/src/bgp/nlri.rs: the next hops of MP_REACH, and the entries of VPLS.
use rustybmp.Base.{
  ℕ, zero, suc, ◌/◌, ◌≤◌, ◌<◌, ◌≡◌, refl, Bool, true, false, List, [], ◌∷◌, arith, ltb, leb,
  if◌then◌else◌, nat_eq, length, take, drop, length-drop, length-take, Bool-cases, inl, inr,
  ltb-false, ap, ◌∙◌,
}
use rustybmp.Core.Error.{
  unexpected_eof, Result, ok, err, stuck, ◌>>=◌, Returns, Yields, Yields-bind, Returns-Yields,
}
use rustybmp.Core.Slice.{be16, be32, be_value, byte}
use rustybmp.Core.Buf.{Buf}
use rustybmp.Core.Net.{IpAddr, v4, v6}
use rustybmp.Core.Bgp.Family.{Afi}
use rustybmp.Core.Bgp.Nlri.{is_ipv6}

-- The addresses of a next-hop field, by the address family alone.
unfoldable pub hop_loop : ℕ → (six : Bool) → List ℕ → Result (List IpAddr)
hop_loop zero six b = stuck
hop_loop (suc fuel) six b =
    let size = if six then 16 else 4 in
    let hop = if six then v6 (be_value 0 (take 16 b)) else v4 (be_value 0 (take 4 b)) in
    let next = (do hops ← hop_loop fuel six (drop size b); ok (hop ∷ hops)) in
    if leb size (length b) then next else ok []

module _ (buf : Buf) where
  unfoldable pub decode_next_hops : List ℕ → Afi → Result (List IpAddr × List ℕ)
  unfolding hop_loop
  decode_next_hops b afi = do
    (nh_len, b) ← buf.get_u8 b
    let next = (do
      (nh_bytes, b) ← buf.copy_to_bytes nh_len b
      hops ← hop_loop (suc (length nh_bytes)) (is_ipv6 afi) nh_bytes
      ok (hops, b))
    if ltb (length b) nh_len then err (unexpected_eof nh_len (length b)) else next

pub record VplsNlri : Type 0 where
  pub rd : List ℕ
  pub ve_id : ℕ
  pub ve_block_offset : ℕ
  pub ve_block_size : ℕ
  pub label_base : ℕ

abbrev pub vpls_entry : List ℕ → VplsNlri
vpls_entry n = record {
  rd = take 8 n;
  ve_id = be16 (byte n 8) (byte n 9);
  ve_block_offset = be16 (byte n 10) (byte n 11);
  ve_block_size = be16 (byte n 12) (byte n 13);
  label_base = be32 0 (byte n 14) (byte n 15) (byte n 16) / 16;
}

module _ (buf : Buf) where
  -- Entries of less than 17 bytes are passed over, and an entry that is cut off ends the loop.
  unfoldable pub decode_vpls_loop : ℕ → List ℕ → Result (List VplsNlri)
  decode_vpls_loop zero b = stuck
  decode_vpls_loop (suc fuel) b =
      let next = (do
        (nlri_len, b) ← buf.get_u16 b
        let entry = (do
          (nlri, b) ← buf.copy_to_bytes nlri_len b
          rest ← decode_vpls_loop fuel b
          if ltb (length nlri) 17 then ok rest else ok (vpls_entry nlri ∷ rest))
        if ltb (length b) nlri_len then ok [] else entry) in
      if leb 2 (length b) then next else ok []

  unfoldable pub decode_vpls_nlri : List ℕ → Result (List VplsNlri)
  unfolding decode_vpls_loop
  decode_vpls_nlri b = decode_vpls_loop (suc (length b)) b

hop_loop-Yields :
    (fuel : ℕ) (six : Bool) (b : List ℕ)
    → length b < fuel
    → Yields (λ hops. length hops ≡ length b / (if six then 16 else 4)) (hop_loop fuel six b)
unfolding hop_loop
hop_loop-Yields zero six b h = absurd (omega arith)
hop_loop-Yields (suc fuel) true b h = elim (Bool-cases (leb 16 (length b))) [
  | inl more ↦ rw more (
      Yields-bind (λ hops. length hops ≡ length (drop 16 b) / 16) _ (hop_loop fuel true (drop 16 b))
        _ (hop_loop-Yields fuel true (drop 16 b) (ground (arith, length-drop 16 b)))
        λ hops e. ground (arith, length-drop 16 b))
  | inr last ↦ rw last (ground arith)
]
hop_loop-Yields (suc fuel) false b h = elim (Bool-cases (leb 4 (length b))) [
  | inl more ↦ rw more (
      Yields-bind (λ hops. length hops ≡ length (drop 4 b) / 4) _ (hop_loop fuel false (drop 4 b)) _
        (hop_loop-Yields fuel false (drop 4 b) (ground (arith, length-drop 4 b)))
        λ hops e. ground (arith, length-drop 4 b))
  | inr last ↦ rw last (ground arith)
]

-- The hops of a field of `n` bytes, and what is left behind the field.
abbrev pub IsHops : (six : Bool) (n : ℕ) → List ℕ → List IpAddr × List ℕ → Type 0
IsHops six n b r = (length r.0 ≡ n / (if six then 16 else 4)) × (r.1 ≡ drop n b)

module _ (buf : Buf) where
  -- From its length byte on, a next-hop field that is all there gives as many addresses as fit in
  -- it, sixteen bytes each for IPv6 and four else, and leaves the bytes behind it.
  pub decode_next_hops-IsHops :
      (n : ℕ) (b : List ℕ) (afi : Afi)
      → n ≤ length b
      → Yields (IsHops (is_ipv6 afi) n b) (decode_next_hops buf (n ∷ b) afi)
  unfolding decode_next_hops
  decode_next_hops-IsHops n b afi h =
      let enough : ltb (length b) n ≡ false = ltb-false _ _ h in
      let all : leb n (length b) ≡ true = ground arith in
      let size : length (take n b) ≡ n = omega (arith, h, length-take n b) in
      rw (buf.get_u8_reads (n ∷ b), enough, buf.copy_to_bytes_reads n b, all, decode_next_hops)
        (Yields-bind (λ hops. length hops ≡ length (take n b) / (if is_ipv6 afi then 16 else 4)) _
          (hop_loop (suc (length (take n b))) (is_ipv6 afi) (take n b)) _
          (hop_loop-Yields (suc (length (take n b))) (is_ipv6 afi) (take n b) (omega arith))
          λ hops e. (e ∙ ap (λ m. m / (if is_ipv6 afi then 16 else 4)) size, refl))

  -- A next-hop field never makes the decoder panic, whatever its length byte tells.
  pub decode_next_hops-Returns :
      (n : ℕ) (b : List ℕ) (afi : Afi) → Returns (decode_next_hops buf (n ∷ b) afi)
  unfolding decode_next_hops
  decode_next_hops-Returns n b afi = elim (Bool-cases (ltb (length b) n)) [
    | inl short ↦ rw (buf.get_u8_reads (n ∷ b), short, decode_next_hops) refl
    | inr enough ↦
        Returns-Yields _ (decode_next_hops buf (n ∷ b) afi)
          (decode_next_hops-IsHops n b afi (ground arith))
  ]
