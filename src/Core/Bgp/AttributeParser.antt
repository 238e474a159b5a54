-- ===== src/Core/Bgp/AttributeParser.antt =====
-- crates/rbmp-core/src/bgp/attributes.rs: the parser of path attributes, with MP_REACH and MP_UNREACH.
pub mod Framing
pub mod Total
pub mod VpnHops
use rustybmp.Base.{
  ℕ, zero, suc, ◌+◌, ◌/◌, ◌%◌, ◌≡◌, refl, Bool, true, false, Option, none, some, List, [], ◌∷◌,
  ◌++◌, ◌&&◌, arith, ltb, leb, ◌==◌, if◌then◌else◌, nat_eq, length, take, drop, is_empty,
}
use rustybmp.Base.Text.{codes, decimal}
use rustybmp.Core.Error.{
  unexpected_eof, truncated_attribute, bgp_parse, Result, ok, err, panic, stuck, ◌>>=◌,
}
use rustybmp.Core.Slice.{be16, be32, at, u16_at, u32_at, slice_from}
use rustybmp.Core.Buf.{Buf}
use rustybmp.Core.Ipnet.{Ipnet}
use rustybmp.Core.Net.{IpAddr, v4}
use rustybmp.Core.Bgp.Family.{
  AfiSafi, afi_safi, Safi, unicast, multicast, labeled_unicast, mpls_vpn,
}
use rustybmp.Core.Bgp.Nlri.{Prefix, decode_nlri, decode_labeled_nlri, decode_vpn_nlri}
use rustybmp.Core.Bgp.NextHops.{decode_next_hops}
use rustybmp.Core.Bgp.AsPath.{parse_as_path}
use rustybmp.Core.Bgp.TunnelEncap.{parse_tunnel_encap}
use rustybmp.Core.Bgp.Bgpsec.{parse_bgpsec_path}
use rustybmp.Core.Bgp.Attributes.{
  Origin, igp, egp, incomplete, LargeCommunity, ExtendedCommunity, RawAttribute, MpReachNlri,
  MpUnreachNlri, PathAttributes, no_attributes,
}

-- The families whose routes are plain prefixes.
abbrev pub is_plain : Safi → Bool
is_plain Safi.unicast = true
is_plain Safi.multicast = true
is_plain _ = false

-- The decoders of the families whose fields `Families` holds. Each takes what the fields hold, and
-- gives what they hold behind it; errors of the decoders are dropped by the code. The routes of plain
-- prefixes leave them alone, as the `match` on the family in `parse_mp_reach` and
-- `parse_mp_unreach` does.
pub record Decoders (Families : Type 0) : Type 0 where
  pub empty : Families
  pub reach : AfiSafi → (next_hops : List IpAddr) (nlri : List ℕ) → Families → Result Families
  pub unreach : AfiSafi → (nlri : List ℕ) → Families → Result Families
  pub bgpls_attribute : List ℕ → Families → Result Families
  pub prefix_sid : List ℕ → Families → Result Families
  pub reach_plain :
      (f : AfiSafi) (hops : List IpAddr) (b : List ℕ) (x : Families)
      → is_plain f.safi ≡ true
      → reach f hops b x ≡ ok x
  pub unreach_plain :
      (f : AfiSafi) (b : List ℕ) (x : Families) → is_plain f.safi ≡ true → unreach f b x ≡ ok x

-- `Origin::try_from`
unfoldable pub origin_try_from : ℕ → Result Origin
origin_try_from v =
    if v == 0
    then ok igp
    else if v == 1
    then ok egp
    else if v == 2
    then ok incomplete
    else err (bgp_parse (codes "invalid ORIGIN value " ++ decimal v))

-- The `while` loops over communities: chunks of 4, 8 and 12 bytes, a shorter rest is left out.
unfoldable pub communities_of : List ℕ → List ℕ
communities_of (a ∷ b ∷ c ∷ d ∷ rest) = be32 a b c d ∷ communities_of rest
communities_of _ = []

unfoldable pub extended_of : List ℕ → List ExtendedCommunity
extended_of (h ∷ l ∷ a ∷ b ∷ c ∷ d ∷ e ∷ f ∷ rest) =
    record { type_high = h; type_low = l; value = a ∷ b ∷ c ∷ d ∷ e ∷ f ∷ [] } ∷ extended_of rest
extended_of _ = []

unfoldable pub large_of : List ℕ → List LargeCommunity
large_of (a ∷ b ∷ c ∷ d ∷ e ∷ f ∷ g ∷ h ∷ i ∷ j ∷ k ∷ l ∷ rest) =
    record { global_admin = be32 a b c d; local_data_1 = be32 e f g h; local_data_2 = be32 i j k l }
    ∷ large_of rest
large_of _ = []

-- The arms of the match on the type code.
pub data Arm : Type 0 where
  origin as_path next_hop multi_exit_disc local_pref atomic_aggregate aggregator2 aggregator4 : Arm
  community originator_id cluster_list mp_reach mp_unreach extended_community as4_path : Arm
  as4_aggregator tunnel_encap large_community only_to_customer bgpls prefix_sid bgpsec raw : Arm

unfoldable pub arm_of : (type_code attr_len : ℕ) → Arm
arm_of t n =
    if (t == 1) && leb 1 n
    then Arm.origin
    else if t == 2
    then Arm.as_path
    else if (t == 3) && (n == 4)
    then Arm.next_hop
    else if (t == 4) && (n == 4)
    then Arm.multi_exit_disc
    else if (t == 5) && (n == 4)
    then Arm.local_pref
    else if t == 6
    then Arm.atomic_aggregate
    else if (t == 7) && (n == 6)
    then aggregator2
    else if (t == 7) && (n == 8)
    then aggregator4
    else if t == 8
    then community
    else if (t == 9) && (n == 4)
    then Arm.originator_id
    else if t == 10
    then Arm.cluster_list
    else if (t == 14) && leb 4 n
    then Arm.mp_reach
    else if (t == 15) && leb 3 n
    then Arm.mp_unreach
    else if t == 16
    then extended_community
    else if t == 17
    then Arm.as4_path
    else if (t == 18) && (n == 8)
    then Arm.as4_aggregator
    else if t == 23
    then Arm.tunnel_encap
    else if t == 32
    then large_community
    else if (t == 35) && (n == 4)
    then Arm.only_to_customer
    else if t == 29
    then bgpls
    else if t == 40
    then Arm.prefix_sid
    else if t == 30
    then bgpsec
    else raw

module _ (buf : Buf) where
  -- `if flags & FLAG_EXT_LEN != 0`, the bit 0x10
  unfoldable pub attribute_len : (flags : ℕ) → List ℕ → Result (ℕ × List ℕ)
  attribute_len flags b =
      let long = (if ltb (length b) 2 then err (unexpected_eof 2 (length b)) else buf.get_u16 b) in
      if flags / 16 % 2 == 1 then long else buf.get_u8 b

  -- The head of one attribute, and its value: flags, type code, value and the bytes behind.
  unfoldable pub take_attribute : List ℕ → Result ((ℕ × ℕ) × (List ℕ × List ℕ))
  unfolding attribute_len
  take_attribute b = do
    (flags, b) ← buf.get_u8 b
    (type_code, b) ← buf.get_u8 b
    (attr_len, b) ← attribute_len flags b
    let value = (do (d, b) ← buf.copy_to_bytes attr_len b; ok ((flags, type_code), (d, b)))
    if ltb (length b) attr_len
        then err (truncated_attribute type_code attr_len (length b))
        else value

module _ (buf : Buf) (ipnet : Ipnet) {Families : Type 0} (decoders : Decoders Families) where
  -- The prefixes of the subsequent families that have them; the others leave the list empty.
  unfoldable pub mp_prefixes : AfiSafi → List ℕ → Result (List Prefix)
  unfolding decode_nlri decode_labeled_nlri decode_vpn_nlri
  mp_prefixes f b = elim f.safi [
    | unicast ↦ decode_nlri buf ipnet b f.afi
    | multicast ↦ decode_nlri buf ipnet b f.afi
    | labeled_unicast ↦ decode_labeled_nlri buf ipnet b f.afi
    | mpls_vpn ↦ decode_vpn_nlri buf ipnet b f.afi
    | _ ↦ ok []
  ]

  -- From the subsequent address family on, with the next hops.
  unfoldable pub mp_reach_nlri :
      AfiSafi → List IpAddr → List ℕ → Families → Result (MpReachNlri × Families)
  unfolding mp_prefixes
  mp_reach_nlri f next_hops b families =
      let routes = (do
        (snpa, b) ← buf.get_u8 b
        families ← decoders.reach f next_hops b families
        prefixes ← mp_prefixes f b
        ok (record { afi_safi = f; next_hops = next_hops; prefixes = prefixes }, families)) in
      if ltb (length b) 1 then err (unexpected_eof 1 (length b)) else routes

  unfoldable pub parse_mp_reach : List ℕ → Families → Result (MpReachNlri × Families)
  unfolding mp_reach_nlri decode_next_hops afi_safi
  parse_mp_reach b families =
      let fields = (do
        afi ← u16_at b 0
        safi ← at b 2
        let f = afi_safi afi safi
        rest ← slice_from b 3
        (next_hops, rest) ← decode_next_hops buf rest f.afi
        mp_reach_nlri f next_hops rest families) in
      if ltb (length b) 4 then err (unexpected_eof 4 (length b)) else fields

  unfoldable pub parse_mp_unreach : List ℕ → Families → Result (MpUnreachNlri × Families)
  unfolding mp_prefixes afi_safi
  parse_mp_unreach b families =
      let fields = (do
        afi ← u16_at b 0
        safi ← at b 2
        let f = afi_safi afi safi
        rest ← slice_from b 3
        families ← decoders.unreach f rest families
        prefixes ← mp_prefixes f rest
        ok (record { afi_safi = f; prefixes = prefixes }, families)) in
      if ltb (length b) 3 then err (unexpected_eof 3 (length b)) else fields

  -- One arm, on the attributes so far.
  unfoldable pub apply_arm :
      Arm
      → (flags type_code : ℕ) (attr : List ℕ) → PathAttributes Families
      → Result (PathAttributes Families)
  unfolding origin_try_from communities_of extended_of large_of parse_mp_reach parse_mp_unreach
      parse_as_path parse_tunnel_encap parse_bgpsec_path
  apply_arm Arm.origin flags t d a = do
    v ← at d 0
    o ← origin_try_from v
    ok (record a { origin = some o })
  apply_arm Arm.as_path flags t d a = do
    p ← parse_as_path d false
    ok (record a { as_path = some p })
  apply_arm Arm.next_hop flags t d a = do v ← u32_at d 0; ok (record a { next_hop = some (v4 v) })
  apply_arm Arm.multi_exit_disc flags t d a = do
    v ← u32_at d 0
    ok (record a { multi_exit_disc = some v })
  apply_arm Arm.local_pref flags t d a = do v ← u32_at d 0; ok (record a { local_pref = some v })
  apply_arm Arm.atomic_aggregate flags t d a = ok (record a { atomic_aggregate = true })
  apply_arm aggregator2 flags t d a = do
    asn ← u16_at d 0
    id ← u32_at d 2
    ok (record a { aggregator = some (asn, id) })
  apply_arm aggregator4 flags t d a = do
    asn ← u32_at d 0
    id ← u32_at d 4
    ok (record a { aggregator = some (asn, id) })
  apply_arm community flags t d a =
      ok (record a { communities = a.communities ++ communities_of d })
  apply_arm Arm.originator_id flags t d a = do
    v ← u32_at d 0
    ok (record a { originator_id = some v })
  apply_arm Arm.cluster_list flags t d a =
      ok (record a { cluster_list = a.cluster_list ++ communities_of d })
  apply_arm Arm.mp_reach flags t d a = do
    (mp, families) ← parse_mp_reach d a.families
    ok (record a { mp_reach = some mp; families = families })
  apply_arm Arm.mp_unreach flags t d a = do
    (mp, families) ← parse_mp_unreach d a.families
    ok (record a { mp_unreach = some mp; families = families })
  apply_arm extended_community flags t d a =
      ok (record a { extended_communities = a.extended_communities ++ extended_of d })
  apply_arm Arm.as4_path flags t d a = do
    p ← parse_as_path d true
    ok (record a { as4_path = some p })
  apply_arm Arm.as4_aggregator flags t d a = do
    asn ← u32_at d 0
    id ← u32_at d 4
    ok (record a { as4_aggregator = some (asn, id) })
  apply_arm Arm.tunnel_encap flags t d a = do
    entries ← parse_tunnel_encap d
    ok (record a { tunnel_encap = some entries })
  apply_arm large_community flags t d a =
      ok (record a { large_communities = a.large_communities ++ large_of d })
  apply_arm Arm.only_to_customer flags t d a = do
    v ← u32_at d 0
    ok (record a { only_to_customer = some v })
  apply_arm bgpls flags t d a = do
    families ← decoders.bgpls_attribute d a.families
    ok (record a { families = families })
  apply_arm Arm.prefix_sid flags t d a = do
    families ← decoders.prefix_sid d a.families
    ok (record a { families = families })
  apply_arm bgpsec flags t d a = do p ← parse_bgpsec_path d; ok (record a { bgpsec_path = some p })
  apply_arm raw flags t d a =
      ok (record a {
        unknown = a.unknown ++ record { flags = flags; type_code = t; value = d } ∷ [];
      })

  -- `while buf.remaining() >= 3`
  unfoldable pub attribute_loop :
      ℕ → List ℕ → PathAttributes Families → Result (PathAttributes Families)
  unfolding take_attribute apply_arm arm_of
  attribute_loop zero b a = stuck
  attribute_loop (suc fuel) b a =
      let next = (do
        ((flags, type_code), (d, b)) ← take_attribute buf b
        a ← apply_arm (arm_of type_code (length d)) flags type_code d a
        attribute_loop fuel b a) in
      if leb 3 (length b) then next else ok a

  unfoldable pub parse_path_attributes : List ℕ → Result (PathAttributes Families)
  unfolding attribute_loop
  parse_path_attributes b = attribute_loop (suc (length b)) b (no_attributes decoders.empty)
