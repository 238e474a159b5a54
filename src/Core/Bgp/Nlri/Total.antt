-- ===== src/Core/Bgp/Nlri/Total.antt =====
-- The unlabelled decoders return on every input; the networks that a decoder makes.
use rustybmp.Base.{
  ℕ, zero, suc, ◌-◌, ◌*◌, ◌^◌, ◌≤◌, ◌≡◌, refl, inl, inr, false, Option, none, List, [], ◌∷◌, ◌++◌,
  arith, ltb, if◌then◌else◌, Bool-cases, nat_eq, length, take, drop, replicate, All, length-take,
  length-drop,
}
use rustybmp.Core.Error.{
  unexpected_eof, invalid_prefix_len, Result, ok, err, panic, stuck, ◌>>=◌, Returns, Ensures,
  Ensures-bind, Returns-Ensures,
}
use rustybmp.Core.Slice.{be_value}
use rustybmp.Core.Buf.{Buf}
use rustybmp.Core.Ipnet.{Net, Ipnet, network}
use rustybmp.Core.Bgp.Family.{Afi, afi_as_u16}
use rustybmp.Core.Bgp.Nlri.{
  Prefix, v4, v6, is_ipv6, addr_size, max_bits, fill, octets_of, decode_net, decode_entry,
  decode_nlri_loop, decode_nlri, decode_path_id, decode_nlri_with_path_id_loop,
  decode_nlri_with_path_id,
}

-- The network with the host bits of an address cleared.
abbrev pub truncated : (width prefix_len addr : ℕ) → Net
truncated width prefix_len addr = record {
  addr = network width prefix_len addr * 2 ^ (width - prefix_len);
  prefix_len = prefix_len;
}

-- The network that the first bytes of `b` spell, short addresses being filled up with zeros.
abbrev pub spelled : Afi → (prefix_len : ℕ) → List ℕ → ℕ
spelled afi prefix_len b =
    be_value 0 (take (octets_of prefix_len) b ++ replicate (addr_size afi - octets_of prefix_len) 0)

abbrev pub network_of : Afi → (prefix_len : ℕ) → List ℕ → Prefix
network_of afi prefix_len b =
    if is_ipv6 afi
    then v6 (truncated 128 prefix_len (spelled afi prefix_len b))
    else v4 (truncated 32 prefix_len (spelled afi prefix_len b))

fill_ok :
    (size n : ℕ) (b : List ℕ)
    → n ≤ length b
    → n ≤ size
    → fill size (take n b) ≡ ok (be_value 0 (take n b ++ replicate (size - n) 0))
unfolding fill
fill_ok size n b h k =
    let e : length (take n b) ≡ n = omega (arith, length-take n b) in rw e (ground arith)

module _ (buf : Buf) (ipnet : Ipnet) where
  pub decode_net_ok :
      (afi : Afi) (prefix_len : ℕ) (b : List ℕ)
      → octets_of prefix_len ≤ length b
      → prefix_len ≤ max_bits afi
      → decode_net buf ipnet afi prefix_len b
        ≡ ok (network_of afi prefix_len b, drop (octets_of prefix_len) b)
  unfolding decode_net
  decode_net_ok afi prefix_len b h k = elim (Bool-cases (is_ipv6 afi)) [
    | inl six ↦ ground (
      arith,
      six,
      buf.copy_to_bytes_reads (octets_of prefix_len) b,
      fill_ok (addr_size afi) (octets_of prefix_len) b,
      ipnet.new_accepts 128 (spelled afi prefix_len b) prefix_len,
      ipnet.trunc_clears 128 (record { addr = spelled afi prefix_len b; prefix_len = prefix_len }),
    )
    | inr four ↦ ground (
      arith,
      four,
      buf.copy_to_bytes_reads (octets_of prefix_len) b,
      fill_ok (addr_size afi) (octets_of prefix_len) b,
      ipnet.new_accepts 32 (spelled afi prefix_len b) prefix_len,
      ipnet.trunc_clears 32 (record { addr = spelled afi prefix_len b; prefix_len = prefix_len }),
    )
  ]

  -- One entry, from its length byte on: the two refusals, or the network with the bytes behind it.
  pub decode_entry_lem :
      (afi : Afi) (n : ℕ) (b : List ℕ)
      → decode_entry buf ipnet afi (n ∷ b) ≡ (
          if ltb (length b) (octets_of n)
          then err (unexpected_eof (octets_of n) (length b))
          else if ltb (max_bits afi) n
          then err (invalid_prefix_len n (afi_as_u16 afi))
          else ok (network_of afi n b, drop (octets_of n) b))
  unfolding decode_entry
  decode_entry_lem afi n b = ground (arith, buf.get_u8_reads (n ∷ b), decode_net_ok afi n b)

  decode_entry_step :
      (P : Prefix → Type 0) (afi : Afi) (n : ℕ) (b : List ℕ)
      → (octets_of n ≤ length b → n ≤ max_bits afi → P (network_of afi n b))
      → Ensures (λ r. P r.0 × (r.1 ≡ drop (octets_of n) b)) (decode_entry buf ipnet afi (n ∷ b))
  decode_entry_step P afi n b h =
      rw (decode_entry_lem afi n b) (elim (Bool-cases (ltb (length b) (octets_of n))) [
        | inl short ↦ rw short tt
        | inr enough ↦ rw enough (elim (Bool-cases (ltb (max_bits afi) n)) [
          | inl long ↦ rw long tt
          | inr fits ↦ rw fits (h (ground arith) (ground arith), refl)
        ])
      ])

  -- What holds of the network of every entry holds of each decoded prefix, and the loop ends.
  pub decode_nlri_loop-All :
      (P : Prefix → Type 0) (Q : List ℕ → Type 0) (afi : Afi)
      → ((n : ℕ) (b : List ℕ)
          → Q (n ∷ b)
          → octets_of n ≤ length b
          → n ≤ max_bits afi
          → P (network_of afi n b))
      → ((n : ℕ) (b : List ℕ) → Q (n ∷ b) → Q (drop (octets_of n) b))
      → (fuel : ℕ) (b : List ℕ) → length b ≤ fuel
      → Q b
      → Ensures (All P) (decode_nlri_loop buf ipnet fuel afi b)
  unfolding decode_nlri_loop
  decode_nlri_loop-All P Q afi p q zero [] h k = tt
  decode_nlri_loop-All P Q afi p q (suc fuel) [] h k = tt
  decode_nlri_loop-All P Q afi p q zero (n ∷ b) h k = elim h [ ]
  decode_nlri_loop-All P Q afi p q (suc fuel) (n ∷ b) h k =
      let ih = decode_nlri_loop-All P Q afi p q fuel in
      Ensures-bind _ (All P) (decode_entry buf ipnet afi (n ∷ b)) _
        (decode_entry_step P afi n b (p n b k))
        λ r (pr, rest).
          Ensures-bind (All P) (All P) (decode_nlri_loop buf ipnet fuel afi r.1) _
            (ih r.1 (rw rest (omega (arith, length-drop (octets_of n) b))) (rw rest (q n b k)))
            λ ps all. (pr, all)

  -- The decoder of plain prefixes returns on every byte string.
  pub decode_nlri-Returns : (b : List ℕ) (afi : Afi) → Returns (decode_nlri buf ipnet b afi)
  unfolding decode_nlri
  decode_nlri-Returns b afi =
      Returns-Ensures (All (λ p. Unit)) (decode_nlri_loop buf ipnet (length b) afi b) (
        decode_nlri_loop-All (λ p. Unit) (λ c. Unit) afi (λ n c q k h. tt) (λ n c q. tt) (length b)
          b (omega arith) tt)

  pub without_ids : List Prefix → List (Prefix × Option ℕ)
  without_ids [] = []
  without_ids (p ∷ ps) = (p, none) ∷ without_ids ps

  cons_without :
      (p : Prefix) (m : Result (List Prefix))
      → (m >>= (λ ps. ok (without_ids ps)) >>= λ rest. ok ((p, none) ∷ rest))
        ≡ (m >>= (λ rest. ok (p ∷ rest)) >>= λ ps. ok (without_ids ps))
  unfolding without_ids
  cons_without p (ok ps) = refl
  cons_without p (err e) = refl
  cons_without p panic = refl
  cons_without p stuck = refl

  loops_agree :
      (fuel : ℕ) (afi : Afi) (b : List ℕ)
      → decode_nlri_with_path_id_loop buf ipnet fuel afi false b
        ≡ (decode_nlri_loop buf ipnet fuel afi b >>= λ ps. ok (without_ids ps))
  unfolding decode_nlri_with_path_id_loop decode_nlri_loop decode_path_id without_ids
  loops_agree fuel afi [] = refl
  loops_agree zero afi (x ∷ b) = refl
  loops_agree (suc fuel) afi (x ∷ b) =
      go (decode_entry buf ipnet afi (x ∷ b)) (λ c. loops_agree fuel afi c)
    where
      go :
          (m : Result (Prefix × List ℕ))
          → ((c : List ℕ)
              → decode_nlri_with_path_id_loop buf ipnet fuel afi false c
                ≡ (decode_nlri_loop buf ipnet fuel afi c >>= λ ps. ok (without_ids ps)))
          → (m >>= λ r. decode_nlri_with_path_id_loop buf ipnet fuel afi false r.1 >>= λ rest.
              ok ((r.0, none) ∷ rest))
            ≡ ((m >>= λ r. decode_nlri_loop buf ipnet fuel afi r.1 >>= λ rest. ok (r.0 ∷ rest))
                >>= λ ps. ok (without_ids ps))
      go (ok (p, c)) ih = rw (ih c) (cons_without p (decode_nlri_loop buf ipnet fuel afi c))
      go (err e) ih = refl
      go panic ih = refl
      go stuck ih = refl

  -- Without Add-Path the decoder for path identifiers is the plain decoder, each prefix coming with
  -- no identifier; so errors, refusals and results are the same, and it returns on every input.
  pub decode_nlri_with_path_id-decode_nlri :
      (b : List ℕ) (afi : Afi)
      → (decode_nlri_with_path_id buf ipnet b afi false
          ≡ (decode_nlri buf ipnet b afi >>= λ ps. ok (without_ids ps)))
        × Returns (decode_nlri_with_path_id buf ipnet b afi false)
  unfolding decode_nlri_with_path_id decode_nlri
  decode_nlri_with_path_id-decode_nlri b afi = (
    loops_agree (length b) afi b,
    ground (arith, loops_agree (length b) afi b, decode_nlri-Returns b afi),
  )
