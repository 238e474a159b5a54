-- ===== src/Core/Bgp/AttributeParser/VpnHops.antt =====
-- The next hop of VPN routes in MP_REACH.
use rustybmp.Base.{
  ℕ, suc, ◌≡◌, refl, sym, ap, ◌∙◌, Bool, true, false, List, [], ◌∷◌, ◌++◌, arith, ltb, leb,
  ltb-false, nat_eq, length, take, drop, if◌then◌else◌, length-drop, length-append, take-append,
  drop-append,
}
use rustybmp.Core.Error.{Result, ok, bind-ok, ◌>>=◌}
use rustybmp.Core.Slice.{be16, be_value, u16_at_ok, at_ok, slice_from_ok}
use rustybmp.Core.Buf.{Buf}
use rustybmp.Core.Ipnet.{Ipnet}
use rustybmp.Core.Net.{IpAddr, v4, v6}
use rustybmp.Core.Bgp.Family.{Afi, AfiSafi, afi_safi}
use rustybmp.Core.Bgp.Nlri.{is_ipv6}
use rustybmp.Core.Bgp.NextHops.{hop_loop, decode_next_hops}
use rustybmp.Core.Bgp.Attributes.{MpReachNlri}
use rustybmp.Core.Bgp.AttributeParser.{Decoders, mp_prefixes, mp_reach_nlri, parse_mp_reach}

take-length : (xs : List ℕ) → take (length xs) xs ≡ xs
take-length [] = refl
take-length (x ∷ xs) = ap (λ t. x ∷ t) (take-length xs)

hop_loop_v4 :
    (fuel : ℕ) (nh : List ℕ)
    → length nh ≡ 12
    → hop_loop (suc (suc (suc (suc fuel)))) false nh
      ≡ ok (
          v4 (be_value 0 (take 4 nh))
          ∷ v4 (be_value 0 (take 4 (drop 4 nh)))
          ∷ v4 (be_value 0 (take 4 (drop 4 (drop 4 nh))))
          ∷ [])
unfolding hop_loop
hop_loop_v4 fuel nh h =
    ground
      (arith, h, length-drop 4 nh, length-drop 4 (drop 4 nh), length-drop 4 (drop 4 (drop 4 nh)))

hop_loop_v6 :
    (fuel : ℕ) (nh : List ℕ)
    → length nh ≡ 24
    → hop_loop (suc (suc fuel)) true nh ≡ ok (v6 (be_value 0 (take 16 nh)) ∷ [])
unfolding hop_loop
hop_loop_v6 fuel nh h = ground (arith, h, length-drop 16 nh)

-- An MP_REACH attribute of VPN routes over IPv6 or IPv4, from its address family on, with a next-hop
-- field of 24 or of 12 bytes.
abbrev pub vpn_reach : (six : Bool) (field rest : List ℕ) → List ℕ
vpn_reach true field rest = 0 ∷ 2 ∷ 128 ∷ 24 ∷ (field ++ rest)
vpn_reach false field rest = 0 ∷ 1 ∷ 128 ∷ 12 ∷ (field ++ rest)

-- What becomes of a distinguisher and an address.
abbrev pub hops_read : (six : Bool) (rd hop : List ℕ) → List IpAddr
hops_read true rd hop = v6 (be_value 0 (rd ++ take 8 hop)) ∷ []
hops_read false rd hop =
    v4 (be_value 0 (take 4 rd)) ∷ v4 (be_value 0 (drop 4 rd)) ∷ v4 (be_value 0 hop) ∷ []

abbrev hops_of : {Families : Type 0} → List IpAddr → Result (MpReachNlri × Families) → List IpAddr
hops_of d (ok r) = r.0.next_hops
hops_of d _ = d

module _ (buf : Buf) (ipnet : Ipnet) {Families : Type 0} (decoders : Decoders Families) where
  decode_next_hops_field :
      (nh rest : List ℕ) (afi : Afi) (hops : List IpAddr)
      → hop_loop (suc (length nh)) (is_ipv6 afi) nh ≡ ok hops
      → decode_next_hops buf (length nh ∷ (nh ++ rest)) afi ≡ ok (hops, rest)
  unfolding decode_next_hops
  decode_next_hops_field nh rest afi hops h =
      let field = nh ++ rest in
      let size = length-append nh rest in
      let enough : ltb (length field) (length nh) ≡ false = ltb-false _ _ (omega (arith, size)) in
      let all : leb (length nh) (length field) ≡ true = ground (arith, size) in
      rw
        (
          buf.get_u8_reads (length nh ∷ field),
          enough,
          buf.copy_to_bytes_reads (length nh) field,
          all,
          decode_next_hops,
        )
        (rw (take-append nh rest) (rw (drop-append nh rest) (rw (h, hop_loop) refl)))

  mp_reach_nlri-hops :
      (f : AfiSafi) (hops : List IpAddr) (b : List ℕ) (x : Families) (r : MpReachNlri × Families)
      → mp_reach_nlri buf ipnet decoders f hops b x ≡ ok r
      → r.0.next_hops ≡ hops
  unfolding mp_reach_nlri
  mp_reach_nlri-hops f hops [] x r h = absurd cc
  mp_reach_nlri-hops f hops (s ∷ b) x r h =
      let enough : ltb (length (s ∷ b)) 1 ≡ false = ltb-false _ _ (omega arith) in
      let run : (decoders.reach f hops b x >>= λ y. mp_prefixes buf ipnet decoders f b >>= λ p.
      ok (record { afi_safi = f; next_hops = hops; prefixes = p }, y))
          ≡ ok r =
        rw (enough, buf.get_u8_reads (s ∷ b), mp_reach_nlri) at h in
      let (y, (e, more)) = bind-ok (decoders.reach f hops b x) _ r run in
      let (p, (i, last)) = bind-ok (mp_prefixes buf ipnet decoders f b) _ r more in
      ap (λ o. hops_of hops o) (sym last)

  parse_mp_reach-hops :
      (hi lo safi : ℕ) (nh rest : List ℕ) (x : Families) (hops : List IpAddr)
      (r : MpReachNlri × Families)
      → hop_loop (suc (length nh)) (is_ipv6 (afi_safi (be16 hi lo) safi).afi) nh ≡ ok hops
      → parse_mp_reach buf ipnet decoders (hi ∷ lo ∷ safi ∷ length nh ∷ (nh ++ rest)) x ≡ ok r
      → r.0.next_hops ≡ hops
  unfolding parse_mp_reach
  parse_mp_reach-hops hi lo safi nh rest x hops r k h =
      let d = hi ∷ lo ∷ safi ∷ length nh ∷ (nh ++ rest) in
      let f = afi_safi (be16 hi lo) safi in
      let enough : ltb (length d) 4 ≡ false = ltb-false _ _ (omega arith) in
      let run : mp_reach_nlri buf ipnet decoders f hops rest x ≡ ok r =
        rw
          (
            enough,
            u16_at_ok d 0 (omega arith),
            at_ok d 2 (omega arith),
            slice_from_ok d 3 (omega arith),
            decode_next_hops_field nh rest f.afi hops k,
            parse_mp_reach,
          )
          at h in
      mp_reach_nlri-hops f hops rest x r run

  -- The next hop of a VPN route stands behind a route distinguisher of eight bytes, which MP_REACH
  -- does not pass over, whatever the routes are that follow: if the attribute is accepted, the next
  -- hops for IPv4 are three, of which the first two are the halves of the distinguisher, and the one
  -- for IPv6 is the distinguisher with the first half of the address, whose second half is dropped.
  pub parse_mp_reach_vpn :
      (six : Bool) (r0 r1 r2 r3 r4 r5 r6 r7 : ℕ) (hop rest : List ℕ) (x : Families)
      (r : MpReachNlri × Families)
      → let rd = r0 ∷ r1 ∷ r2 ∷ r3 ∷ r4 ∷ r5 ∷ r6 ∷ r7 ∷ [] in
        length hop ≡ (if six then 16 else 4)
        → parse_mp_reach buf ipnet decoders (vpn_reach six (rd ++ hop) rest) x ≡ ok r
        → r.0.next_hops ≡ hops_read six rd hop
  unfolding hop_loop afi_safi
  parse_mp_reach_vpn false r0 r1 r2 r3 r4 r5 r6 r7 hop rest x r k e =
      let rd = r0 ∷ r1 ∷ r2 ∷ r3 ∷ r4 ∷ r5 ∷ r6 ∷ r7 ∷ [] in
      let field = rd ++ hop in
      let size : length field ≡ 12 = omega (arith, k) in
      let all : take 4 hop ≡ hop = ap (λ n. take n hop) (sym k) ∙ take-length hop in
      parse_mp_reach-hops 0 1 128 field rest x _ r
        (ap (λ n. hop_loop (suc n) false field) size ∙ hop_loop_v4 9 field size)
        (ap (λ n. parse_mp_reach buf ipnet decoders (0 ∷ 1 ∷ 128 ∷ n ∷ (field ++ rest)) x) size ∙ e)
      ∙ ap (hops_read false rd) all
  parse_mp_reach_vpn true r0 r1 r2 r3 r4 r5 r6 r7 hop rest x r k e =
      let field = r0 ∷ r1 ∷ r2 ∷ r3 ∷ r4 ∷ r5 ∷ r6 ∷ r7 ∷ hop in
      let size : length field ≡ 24 = omega (arith, k) in
      parse_mp_reach-hops 0 2 128 field rest x _ r
        (ap (λ n. hop_loop (suc n) true field) size ∙ hop_loop_v6 23 field size)
        (ap (λ n. parse_mp_reach buf ipnet decoders (0 ∷ 2 ∷ 128 ∷ n ∷ (field ++ rest)) x) size ∙ e)
