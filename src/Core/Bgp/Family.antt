-- ===== src/Core/Bgp/Family.antt =====
-- crates/rbmp-core/src/bgp/types.rs: address families, with their numbers and their names.
use rustybmp.Base.{ℕ, ◌≡◌, Bool, ◌&&◌, ◌++◌, arith, ◌==◌, if◌then◌else◌, nat_eq}
use rustybmp.Base.Text.{Text, codes, decimal}

pub data Afi : Type 0 where
  ipv4 ipv6 l2_vpn bgp_ls : Afi
  unknown : ℕ → Afi

pub data Safi : Type 0 where
  unicast multicast mpls_vpn_multicast labeled_unicast mpls_vpn evpn bgp_ls bgp_ls_srv6 : Safi
  sr_policy flowspec flowspec_vpn vpls route_target_constraint mcast_vpn : Safi
  unknown : ℕ → Safi

-- `Afi::from(u16)`
unfoldable pub afi_from : ℕ → Afi
afi_from v =
    if v == 1
    then ipv4
    else if v == 2
    then ipv6
    else if v == 25
    then l2_vpn
    else if v == 16388
    then Afi.bgp_ls
    else Afi.unknown v

unfoldable pub afi_as_u16 : Afi → ℕ
afi_as_u16 ipv4 = 1
afi_as_u16 ipv6 = 2
afi_as_u16 l2_vpn = 25
afi_as_u16 Afi.bgp_ls = 16388
afi_as_u16 (Afi.unknown v) = v

-- `Safi::from(u8)`
unfoldable pub safi_from : ℕ → Safi
safi_from v =
    if v == 1
    then unicast
    else if v == 2
    then multicast
    else if v == 4
    then labeled_unicast
    else if v == 5
    then mpls_vpn_multicast
    else if v == 65
    then vpls
    else if v == 70
    then evpn
    else if v == 71
    then Safi.bgp_ls
    else if v == 72
    then bgp_ls_srv6
    else if v == 73
    then sr_policy
    else if v == 128
    then mpls_vpn
    else if v == 129
    then mcast_vpn
    else if v == 132
    then route_target_constraint
    else if v == 133
    then flowspec
    else if v == 134
    then flowspec_vpn
    else Safi.unknown v

unfoldable pub safi_as_u8 : Safi → ℕ
safi_as_u8 unicast = 1
safi_as_u8 multicast = 2
safi_as_u8 labeled_unicast = 4
safi_as_u8 mpls_vpn_multicast = 5
safi_as_u8 vpls = 65
safi_as_u8 evpn = 70
safi_as_u8 Safi.bgp_ls = 71
safi_as_u8 bgp_ls_srv6 = 72
safi_as_u8 sr_policy = 73
safi_as_u8 mpls_vpn = 128
safi_as_u8 mcast_vpn = 129
safi_as_u8 route_target_constraint = 132
safi_as_u8 flowspec = 133
safi_as_u8 flowspec_vpn = 134
safi_as_u8 (Safi.unknown v) = v

pub record AfiSafi : Type 0 where
  pub afi : Afi
  pub safi : Safi

-- `AfiSafi::new`
unfoldable pub afi_safi : ℕ → ℕ → AfiSafi
unfolding afi_from safi_from
afi_safi afi safi = record { afi = afi_from afi; safi = safi_from safi }

-- `Display for AfiSafi`
unfoldable pub show_afi_safi : AfiSafi → Text
unfolding afi_as_u16 safi_as_u8 decimal
show_afi_safi f = named f.afi f.safi
  where
    numbered : Text
    numbered =
        codes "afi"
        ++ (decimal (afi_as_u16 f.afi) ++ (codes "-safi" ++ decimal (safi_as_u8 f.safi)))

    named : Afi → Safi → Text
    named ipv4 unicast = codes "ipv4-unicast"
    named ipv6 unicast = codes "ipv6-unicast"
    named ipv4 multicast = codes "ipv4-multicast"
    named ipv6 multicast = codes "ipv6-multicast"
    named ipv4 labeled_unicast = codes "ipv4-labeled-unicast"
    named ipv6 labeled_unicast = codes "ipv6-labeled-unicast"
    named ipv4 mpls_vpn = codes "ipv4-vpn"
    named ipv6 mpls_vpn = codes "ipv6-vpn"
    named l2_vpn evpn = codes "l2vpn-evpn"
    named ipv4 flowspec = codes "ipv4-flowspec"
    named ipv6 flowspec = codes "ipv6-flowspec"
    named afi safi = numbered

-- The two numbers of a family survive the conversion, whichever they are, so that no two families
-- on the wire become one.
pub afi_safi-numbers :
    (a s : ℕ) → (afi_as_u16 (afi_safi a s).afi ≡ a) × (safi_as_u8 (afi_safi a s).safi ≡ s)
unfolding afi_safi afi_as_u16 safi_as_u8
afi_safi-numbers a s = ground arith

-- `PartialEq`, by the numbers: two families with the same numbers are one, as long as no number
-- of a named family stands in `unknown`, and `from` never makes such a value.
unfoldable pub afi_safi_beq : AfiSafi → AfiSafi → Bool
unfolding afi_as_u16 safi_as_u8
afi_safi_beq f g =
    (afi_as_u16 f.afi == afi_as_u16 g.afi) && (safi_as_u8 f.safi == safi_as_u8 g.safi)
