-- ===== src/Core/Bgp/Attributes.antt =====
-- The path attributes and the UPDATE message of bgp/types.rs.
use rustybmp.Base.{
  ℕ, Bool, true, false, ◌&&◌, Option, none, some, List, [], ◌∷◌, ◌++◌, nat_eq, is_empty,
}
use rustybmp.Core.Net.{IpAddr}
use rustybmp.Core.Bgp.Family.{AfiSafi}
use rustybmp.Core.Bgp.Nlri.{Prefix}
use rustybmp.Core.Bgp.AsPath.{AsPath}
use rustybmp.Core.Bgp.TunnelEncap.{TunnelEncapEntry}
use rustybmp.Core.Bgp.Bgpsec.{BgpsecPath}
use rustybmp.Core.Bmp.PathStatus.{PathStatusTlv}

pub data Origin : Type 0 where
  igp egp incomplete : Origin

pub record LargeCommunity : Type 0 where
  pub global_admin : ℕ
  pub local_data_1 : ℕ
  pub local_data_2 : ℕ

pub record ExtendedCommunity : Type 0 where
  pub type_high : ℕ
  pub type_low : ℕ
  pub value : List ℕ

pub record RawAttribute : Type 0 where
  pub flags : ℕ
  pub type_code : ℕ
  pub value : List ℕ

pub record MpReachNlri : Type 0 where
  pub afi_safi : AfiSafi
  pub next_hops : List IpAddr
  pub prefixes : List Prefix

pub record MpUnreachNlri : Type 0 where
  pub afi_safi : AfiSafi
  pub prefixes : List Prefix

-- `Families` is the type of the fields that are not modelled one by one: EVPN, flow specification,
-- prefix SID, BGP-LS, SR policies and route target constraints.
pub record PathAttributes (Families : Type 0) : Type 0 where
  pub origin : Option Origin
  pub as_path : Option AsPath
  pub next_hop : Option IpAddr
  pub multi_exit_disc : Option ℕ
  pub local_pref : Option ℕ
  pub atomic_aggregate : Bool
  pub aggregator : Option (ℕ × ℕ)
  pub communities : List ℕ
  pub extended_communities : List ExtendedCommunity
  pub large_communities : List LargeCommunity
  pub originator_id : Option ℕ
  pub cluster_list : List ℕ
  pub mp_reach : Option MpReachNlri
  pub mp_unreach : Option MpUnreachNlri
  pub as4_path : Option AsPath
  pub as4_aggregator : Option (ℕ × ℕ)
  pub tunnel_encap : Option (List TunnelEncapEntry)
  pub only_to_customer : Option ℕ
  pub bgpsec_path : Option BgpsecPath
  pub path_status : Option PathStatusTlv
  pub unknown : List RawAttribute
  pub families : Families

-- `PathAttributes::default()`
abbrev pub no_attributes : {Families : Type 0} → Families → PathAttributes Families
no_attributes families = record {
  origin = none;
  as_path = none;
  next_hop = none;
  multi_exit_disc = none;
  local_pref = none;
  atomic_aggregate = false;
  aggregator = none;
  communities = [];
  extended_communities = [];
  large_communities = [];
  originator_id = none;
  cluster_list = [];
  mp_reach = none;
  mp_unreach = none;
  as4_path = none;
  as4_aggregator = none;
  tunnel_encap = none;
  only_to_customer = none;
  bgpsec_path = none;
  path_status = none;
  unknown = [];
  families = families;
}

pub record BgpUpdate (Families : Type 0) : Type 0 where
  pub withdrawn : List Prefix
  pub withdrawn_path_ids : List (Option ℕ)
  pub attributes : PathAttributes Families
  pub announced : List Prefix
  pub announced_path_ids : List (Option ℕ)

-- `iter().zip(ids.iter().chain(repeat(&None)))`
unfoldable pub zip_ids : List Prefix → List (Option ℕ) → List (Prefix × Option ℕ)
zip_ids [] ids = []
zip_ids (p ∷ ps) [] = (p, none) ∷ zip_ids ps []
zip_ids (p ∷ ps) (id ∷ ids) = (p, id) ∷ zip_ids ps ids

abbrev pub is_none_reach : Option MpReachNlri → Bool
is_none_reach none = true
is_none_reach (some mp) = false

module _ {Families : Type 0} where
  abbrev pub reach_prefixes : PathAttributes Families → List Prefix
  reach_prefixes a = elim a.mp_reach [ none ↦ [] | some mp ↦ mp.prefixes ]

  abbrev pub unreach_prefixes : PathAttributes Families → List Prefix
  unreach_prefixes a = elim a.mp_unreach [ none ↦ [] | some mp ↦ mp.prefixes ]

  unfoldable pub is_eor : BgpUpdate Families → Bool
  is_eor u =
      is_empty u.withdrawn
      && (is_empty u.announced
          && (is_none_reach u.attributes.mp_reach && is_empty (unreach_prefixes u.attributes)))

  unfoldable pub all_announced_with_path_id : BgpUpdate Families → List (Prefix × Option ℕ)
  unfolding zip_ids
  all_announced_with_path_id u =
      zip_ids u.announced u.announced_path_ids ++ zip_ids (reach_prefixes u.attributes) []

  unfoldable pub all_withdrawn_with_path_id : BgpUpdate Families → List (Prefix × Option ℕ)
  unfolding zip_ids
  all_withdrawn_with_path_id u =
      zip_ids u.withdrawn u.withdrawn_path_ids ++ zip_ids (unreach_prefixes u.attributes) []
