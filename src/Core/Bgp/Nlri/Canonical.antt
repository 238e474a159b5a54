-- ===== src/Core/Bgp/Nlri/Canonical.antt =====
-- Every decoded prefix is a network: its length fits the family and its host bits are zero.
use rustybmp.Base.{
  ℕ, zero, suc, ◌+◌, ◌-◌, ◌*◌, ◌%◌, ◌^◌, ◌≤◌, ◌<◌, ◌≡◌, refl, subst, true, false, List, [], ◌∷◌,
  ◌++◌, arith, nat_eq, length, take, drop, replicate, All, length-append, length-replicate,
  All-append, length-take,
}
use native.Mathlib.Nat.{pow-suc, mul-le-mul_right, mul-mod_left, div-mul-le_self}
use rustybmp.Core.Error.{Ensures}
use rustybmp.Core.Slice.{be_value, IsByte}
use rustybmp.Core.Buf.{Buf}
use rustybmp.Core.Ipnet.{Net, Ipnet, network}
use rustybmp.Core.Bgp.Family.{Afi, ipv4, ipv6}
use rustybmp.Core.Bgp.Nlri.{
  Prefix, v4, v6, labeled, vpn, is_ipv6, addr_size, max_bits, octets_of, decode_nlri,
}
use rustybmp.Core.Bgp.Nlri.Total.{network_of, spelled, truncated, decode_nlri_loop-All}

-- A network of a width: a length in bounds, an address in bounds, no host bit set.
abbrev pub IsNetwork : ℕ → Net → Type 0
IsNetwork width n =
    (n.prefix_len ≤ width) × (n.addr < 2 ^ width) × (n.addr % 2 ^ (width - n.prefix_len) ≡ 0)

-- A plain prefix of the family that was asked for.
abbrev pub IsPlain : Afi → Prefix → Type 0
IsPlain afi (v4 n) = (is_ipv6 afi ≡ false) × IsNetwork 32 n
IsPlain afi (v6 n) = (is_ipv6 afi ≡ true) × IsNetwork 128 n
IsPlain afi (labeled p labels) = ⊥
IsPlain afi (vpn rd p labels) = ⊥

module _ (P : ℕ → Type 0) where
  All-take : (n : ℕ) (b : List ℕ) → All P b → All P (take n b)
  All-take zero b h = tt
  All-take (suc n) [] h = tt
  All-take (suc n) (x ∷ b) h = (h.0, All-take n b h.1)

  All-drop : (n : ℕ) (b : List ℕ) → All P b → All P (drop n b)
  All-drop zero b h = h
  All-drop (suc n) [] h = tt
  All-drop (suc n) (x ∷ b) h = All-drop n b h.1

All-zeros : (n : ℕ) → All IsByte (replicate n 0)
All-zeros zero = tt
All-zeros (suc n) = (omega arith, All-zeros n)

be_value_bound : (v : ℕ) (b : List ℕ) → All IsByte b → be_value v b < suc v * 256 ^ length b
be_value_bound v [] h = omega arith
be_value_bound v (x ∷ b) h =
    let power : 256 ^ suc (length b) ≡ 256 ^ length b * 256 = pow-suc 256 (length b) in
    rw power (
      omega (
        arith,
        be_value_bound (v * 256 + x) b h.1,
        mul-le-mul_right {m = suc (v * 256 + x)} {n = suc v * 256} (256 ^ length b)
            (omega (arith, h.0)),
      ))

-- The address that is spelled by the bytes of an entry fits the family.
spelled_bound :
    (afi : Afi) (n : ℕ) (b : List ℕ)
    → All IsByte b
    → octets_of n ≤ length b
    → n ≤ max_bits afi
    → spelled afi n b < 256 ^ addr_size afi
spelled_bound afi n b h k m =
    let bytes : List ℕ = take (octets_of n) b ++ replicate (addr_size afi - octets_of n) 0 in
    let all : All IsByte bytes =
      All-append IsByte (take (octets_of n) b) _ (All-take IsByte (octets_of n) b h)
        (All-zeros (addr_size afi - octets_of n)) in
    let fits : octets_of n ≤ addr_size afi = ground arith in
    let e : length bytes ≡ addr_size afi = omega (
      arith,
      length-append (take (octets_of n) b) (replicate (addr_size afi - octets_of n) 0),
      length-take (octets_of n) b,
      length-replicate (addr_size afi - octets_of n) (zero),
    ) in
    subst (λ k. be_value 0 bytes < 256 ^ k) e (omega (arith, be_value_bound 0 bytes all))

IsNetwork-truncated :
    (width n a : ℕ) → n ≤ width → a < 2 ^ width → IsNetwork width (truncated width n a)
IsNetwork-truncated width n a h k = (
  h,
  omega (arith, div-mul-le_self a (2 ^ (width - n))),
  mul-mod_left (network width n a) (2 ^ (width - n)),
)

IsPlain-network_of :
    (afi : Afi) (n : ℕ) (b : List ℕ)
    → All IsByte b
    → octets_of n ≤ length b
    → n ≤ max_bits afi
    → IsPlain afi (network_of afi n b)
IsPlain-network_of ipv6 n b h k m =
    (refl, IsNetwork-truncated 128 n _ m (spelled_bound ipv6 n b h k m))
IsPlain-network_of ipv4 n b h k m =
    (refl, IsNetwork-truncated 32 n _ m (spelled_bound ipv4 n b h k m))
IsPlain-network_of afi n b h k m =
    (refl, IsNetwork-truncated 32 n _ m (spelled_bound afi n b h k m))

-- On bytes, whatever they are, every prefix that the plain decoder returns is a network of the
-- family asked for: IPv6 networks for IPv6, IPv4 networks else, with a prefix length in bounds and
-- no host bit set; and the decoder returns.
pub decode_nlri-IsPlain :
    (buf : Buf) (ipnet : Ipnet) (b : List ℕ) (afi : Afi)
    → All IsByte b
    → Ensures (All (IsPlain afi)) (decode_nlri buf ipnet b afi)
unfolding decode_nlri
decode_nlri-IsPlain buf ipnet b afi h =
    decode_nlri_loop-All buf ipnet (IsPlain afi) (All IsByte) afi
      (λ n c q. IsPlain-network_of afi n c q.1) (λ n c q. All-drop IsByte (octets_of n) c q.1)
      (length b) b (omega arith) h
