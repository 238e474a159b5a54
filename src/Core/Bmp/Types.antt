-- ===== src/Core/Bmp/Types.antt =====
-- crates/rbmp-core/src/bmp/types.rs: the types of the BMP messages.
use rustybmp.Base.{
  ℕ, ◌≡◌, ◌↔◌, Bool, true, not, Option, List, [], ◌∷◌, ◌++◌, arith, ◌==◌, if◌then◌else◌, Eq, nat_eq,
  any,
}
use Prim.Native.Nat.{bit_and}
use rustybmp.Base.Text.{Text, codes, decimal}
use rustybmp.Core.Error.{invalid_message_type, bmp_parse, Result, ok, err}
use rustybmp.Core.Net.{IpAddr}
use rustybmp.Core.Bgp.Family.{AfiSafi}
use rustybmp.Core.Bgp.Open.{BgpOpenInfo}
use rustybmp.Core.Bgp.Attributes.{BgpUpdate}

pub data BmpMsgType : Type 0 where
  route_monitoring stats_report peer_down peer_up initiation termination route_mirroring :
      BmpMsgType

-- `BmpMsgType::try_from(u8)`
unfoldable pub msg_type_from : ℕ → Result BmpMsgType
msg_type_from v =
    if v == 0
    then ok route_monitoring
    else if v == 1
    then ok stats_report
    else if v == 2
    then ok peer_down
    else if v == 3
    then ok peer_up
    else if v == 4
    then ok initiation
    else if v == 5
    then ok termination
    else if v == 6
    then ok route_mirroring
    else err (invalid_message_type v)

pub data PeerType : Type 0 where
  global_instance rd_instance local_instance loc_rib : PeerType

-- `PeerType::try_from(u8)`
unfoldable pub peer_type_from : ℕ → Result PeerType
peer_type_from v =
    if v == 0
    then ok global_instance
    else if v == 1
    then ok rd_instance
    else if v == 2
    then ok local_instance
    else if v == 3
    then ok loc_rib
    else err (bmp_parse (codes "unknown peer type " ++ decimal v))

-- `PeerFlags` is its byte; the accessors.
abbrev pub flag : ℕ → ℕ → Bool
flag bit flags = not (bit_and flags bit == 0)

unfoldable pub ipv6 : ℕ → Bool
ipv6 flags = flag 0x80 flags

unfoldable pub post_policy : ℕ → Bool
post_policy flags = flag 0x40 flags

unfoldable pub adj_rib_out : ℕ → Bool
adj_rib_out flags = flag 0x10 flags

unfoldable pub filtered : ℕ → Bool
filtered flags = flag 0x08 flags

pub data RibType : Type 0 where
  adj_rib_in_pre_policy adj_rib_in_post_policy : RibType
  adj_rib_out_pre_policy adj_rib_out_post_policy : RibType
  loc_rib loc_rib_filtered : RibType

-- `RibType::from_peer`
unfoldable pub rib_type_from_peer : PeerType → ℕ → RibType
unfolding filtered post_policy adj_rib_out
rib_type_from_peer PeerType.loc_rib flags =
    if filtered flags then loc_rib_filtered else RibType.loc_rib
rib_type_from_peer local_instance flags =
    if post_policy flags then adj_rib_out_post_policy else adj_rib_out_pre_policy
rib_type_from_peer peer_type flags =
    if adj_rib_out flags
    then (if post_policy flags then adj_rib_out_post_policy else adj_rib_out_pre_policy)
    else if post_policy flags
    then adj_rib_in_post_policy
    else adj_rib_in_pre_policy

abbrev pub rib_type_number : RibType → ℕ
rib_type_number adj_rib_in_pre_policy = 0
rib_type_number adj_rib_in_post_policy = 1
rib_type_number adj_rib_out_pre_policy = 2
rib_type_number adj_rib_out_post_policy = 3
rib_type_number RibType.loc_rib = 4
rib_type_number loc_rib_filtered = 5

abbrev pub rib_type_beq : RibType → RibType → Bool
rib_type_beq a b = rib_type_number a == rib_type_number b

pub rib_type_beq_iff : (a b : RibType) → (rib_type_beq a b ≡ true) ↔ (a ≡ b)
rib_type_beq_iff a b = ground arith

instance abbrev pub rib_type_eq : Eq RibType
rib_type_eq = record { beq = rib_type_beq; beq_iff = rib_type_beq_iff }

pub record PeerHeader (Time : Type 0) : Type 0 where
  pub peer_type : PeerType
  pub peer_flags : ℕ
  pub peer_distinguisher : List ℕ
  pub peer_address : IpAddr
  pub peer_as : ℕ
  pub peer_bgp_id : ℕ
  pub timestamp : Time
  pub rib_type : RibType

pub data PeerDownReason : Type 0 where
  local_system_closed : (notification : Option (List ℕ)) → PeerDownReason
  local_system_closed2 : PeerDownReason
  remote_system_closed : (notification : Option (List ℕ)) → PeerDownReason
  remote_system_closed2 : PeerDownReason
  peer_de_configured : PeerDownReason
  vrf_down : PeerDownReason
  unknown : ℕ → PeerDownReason

pub record PeerUpMessage (Time : Type 0) : Type 0 where
  pub peer_header : PeerHeader Time
  pub local_addr : IpAddr
  pub local_port : ℕ
  pub remote_port : ℕ
  pub sent_open : BgpOpenInfo
  pub recv_open : BgpOpenInfo

pub record StatEntry : Type 0 where
  pub stat_type : ℕ
  pub name : Text
  pub value : ℕ
  pub afi_safi : Option AfiSafi

-- `stat_name`: the arms of the `match`, in their order.
abbrev stat_names : List (ℕ × Text)
stat_names =
    (0, codes "prefixes-rejected-by-inbound-policy")
    ∷ (1, codes "duplicate-prefix-advertisements")
    ∷ (2, codes "duplicate-withdrawals")
    ∷ (3, codes "cluster-list-loop-detections")
    ∷ (4, codes "as-path-loop-detections")
    ∷ (5, codes "originator-id-loop-detections")
    ∷ (6, codes "implicit-withdraw-count")
    ∷ (7, codes "explicit-withdraw-count")
    ∷ (8, codes "update-treatments-as-withdraw")
    ∷ (9, codes "prefixes-treated-as-withdraw")
    ∷ (10, codes "duplicate-update-messages")
    ∷ (11, codes "adj-rib-in-routes")
    ∷ (12, codes "loc-rib-routes")
    ∷ (13, codes "per-afi-safi-adj-rib-in-routes")
    ∷ (14, codes "per-afi-safi-loc-rib-routes")
    ∷ (15, codes "updates-subjected-to-treat-as-withdraw")
    ∷ (16, codes "prefixes-subjected-to-treat-as-withdraw")
    ∷ (17, codes "duplicate-update-messages-rcvd")
    ∷ (18, codes "pre-policy-adj-rib-in-routes")
    ∷ (19, codes "per-afi-safi-pre-policy-adj-rib-in-routes")
    ∷ (20, codes "post-policy-adj-rib-in-routes")
    ∷ (21, codes "per-afi-safi-post-policy-adj-rib-in-routes")
    ∷ (22, codes "per-afi-safi-pre-policy-routes-rejected-inbound")
    ∷ (23, codes "per-afi-safi-post-policy-routes-accepted-inbound")
    ∷ (24, codes "adj-rib-out-pre-policy-routes")
    ∷ (25, codes "per-afi-safi-adj-rib-out-pre-policy-routes")
    ∷ (26, codes "per-afi-safi-damped-routes")
    ∷ (27, codes "per-afi-safi-gr-stale-routes")
    ∷ (28, codes "per-afi-safi-llgr-stale-routes")
    ∷ (29, codes "pre-route-limit-adj-rib-in")
    ∷ (30, codes "per-afi-safi-pre-route-limit-adj-rib-in")
    ∷ (31, codes "pre-license-limit-routes")
    ∷ (32, codes "per-afi-safi-pre-license-limit-routes")
    ∷ (33, codes "max-aspath-length-rejected")
    ∷ (34, codes "per-afi-safi-max-aspath-length-rejected")
    ∷ (35, codes "per-afi-safi-rpki-invalidated-routes")
    ∷ (36, codes "per-afi-safi-rpki-not-valid-routes")
    ∷ (37, codes "adj-rib-out-post-policy-routes")
    ∷ (38, codes "per-afi-safi-adj-rib-out-post-policy-routes")
    ∷ []

find_name : ℕ → List (ℕ × Text) → Text
find_name t [] = codes "unknown"
find_name t ((n, name) ∷ names) = if t == n then name else find_name t names

unfoldable pub stat_name : ℕ → Text
unfolding find_name
stat_name t = find_name t stat_names

-- The elements of the two `matches!` lists.
abbrev pub one_of : List ℕ → ℕ → Bool
one_of ts t = any (λ x. t == x) ts

unfoldable pub stat_is_per_afi_safi_11byte : ℕ → Bool
stat_is_per_afi_safi_11byte =
    one_of (19 ∷ 21 ∷ 22 ∷ 23 ∷ 25 ∷ 26 ∷ 27 ∷ 28 ∷ 30 ∷ 32 ∷ 34 ∷ 35 ∷ 36 ∷ 38 ∷ [])

unfoldable pub stat_is_per_afi_safi_7byte : ℕ → Bool
stat_is_per_afi_safi_7byte = one_of (9 ∷ 10 ∷ 13 ∷ 14 ∷ [])

pub data BmpPayload (Time Families : Type 0) : Type 0 where
  initiation : (sys_name sys_descr : Option Text) (labels : List Text) → BmpPayload Time Families
  termination : (reason_code : ℕ) (reason_text : Option Text) → BmpPayload Time Families
  peer_up : PeerUpMessage Time → BmpPayload Time Families
  peer_down : (peer_header : PeerHeader Time) (reason : PeerDownReason) → BmpPayload Time Families
  route_monitoring :
      (peer_header : PeerHeader Time) (update : BgpUpdate Families) → BmpPayload Time Families
  stats_report : (peer_header : PeerHeader Time) (stats : List StatEntry) → BmpPayload Time Families
  route_mirroring : (peer_header : PeerHeader Time) (pdu : List ℕ) → BmpPayload Time Families
