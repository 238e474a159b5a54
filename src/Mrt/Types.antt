-- ===== src/Mrt/Types.antt =====
-- crates/rbmp-mrt/src/types.rs: the numbers of RFC 6396; and chrono's times.
use rustybmp.Base.{ℕ, arith, ◌^◌, ◌<◌, ◌≡◌, refl, Option, some, ◌%◌}
use rustybmp.Rib.Table.{ℤ, pos, negsuc}

pub data MrtType : Type 0 where
  ospf_v2 table_dump table_dump_v2 bgp4_mp bgp4_mp_et isis ospf_v3 : MrtType

unfoldable pub mrt_type_as_u16 : MrtType → ℕ
mrt_type_as_u16 ospf_v2 = 11
mrt_type_as_u16 table_dump = 12
mrt_type_as_u16 table_dump_v2 = 13
mrt_type_as_u16 bgp4_mp = 16
mrt_type_as_u16 bgp4_mp_et = 17
mrt_type_as_u16 isis = 32
mrt_type_as_u16 ospf_v3 = 48

-- `TableDumpV2Subtype`
pub data TableDumpV2Subtype : Type 0 where
  peer_index_table rib_ipv4_unicast rib_ipv4_multicast rib_ipv6_unicast : TableDumpV2Subtype
  rib_ipv6_multicast rib_generic geo_peer_table : TableDumpV2Subtype
  rib_ipv4_unicast_add_path rib_ipv6_unicast_add_path : TableDumpV2Subtype

unfoldable pub table_dump_as_u16 : TableDumpV2Subtype → ℕ
table_dump_as_u16 peer_index_table = 1
table_dump_as_u16 rib_ipv4_unicast = 2
table_dump_as_u16 rib_ipv4_multicast = 3
table_dump_as_u16 rib_ipv6_unicast = 4
table_dump_as_u16 rib_ipv6_multicast = 5
table_dump_as_u16 rib_generic = 6
table_dump_as_u16 geo_peer_table = 7
table_dump_as_u16 rib_ipv4_unicast_add_path = 8
table_dump_as_u16 rib_ipv6_unicast_add_path = 9

pub data Bgp4MpSubtype : Type 0 where
  state_change message message_as4 state_change_as4 message_local : Bgp4MpSubtype
  message_as4_local message_addpath message_as4_addpath : Bgp4MpSubtype

unfoldable pub bgp4mp_as_u16 : Bgp4MpSubtype → ℕ
bgp4mp_as_u16 state_change = 0
bgp4mp_as_u16 message = 1
bgp4mp_as_u16 message_as4 = 4
bgp4mp_as_u16 state_change_as4 = 5
bgp4mp_as_u16 message_local = 6
bgp4mp_as_u16 message_as4_local = 7
bgp4mp_as_u16 message_addpath = 8
bgp4mp_as_u16 message_as4_addpath = 9

pub data BgpState : Type 0 where
  idle connect active open_sent open_confirm established : BgpState

unfoldable pub bgp_state_as_u16 : BgpState → ℕ
bgp_state_as_u16 idle = 1
bgp_state_as_u16 connect = 2
bgp_state_as_u16 active = 3
bgp_state_as_u16 open_sent = 4
bgp_state_as_u16 open_confirm = 5
bgp_state_as_u16 established = 6

-- The crate chrono: its times, their seconds since 1970, and the time of a number of seconds, which
-- exists for all that a u32 holds.
pub record Chrono : Type 1 where
  pub Time : Type 0
  pub timestamp : Time → ℤ
  pub timestamp_opt : (secs : ℕ) → Option Time
  pub utc_now : Time
  pub time_of : ℕ → Time
  pub timestamp_opt_accepts : (secs : ℕ) → secs < 2 ^ 32 → timestamp_opt secs ≡ some (time_of secs)
  pub timestamp-time_of : (secs : ℕ) → secs < 2 ^ 32 → timestamp (time_of secs) ≡ pos secs

-- Times that are whole seconds, which show that the documentation can be met.
abbrev pub seconds : Chrono
seconds = record {
  Time = ℕ;
  timestamp = λ t. pos t;
  timestamp_opt = λ s. some s;
  utc_now = 0;
  time_of = λ s. s;
  timestamp_opt_accepts = λ s h. refl;
  timestamp-time_of = λ s h. refl;
}

-- `dt.timestamp().max(0) as u32`
unfoldable pub epoch_of : ℤ → ℕ
epoch_of (pos n) = n % 2 ^ 32
epoch_of (negsuc n) = 0

unfoldable pub epoch_secs : (chrono : Chrono) → chrono.Time → ℕ
unfolding epoch_of
epoch_secs chrono dt = epoch_of (chrono.timestamp dt)

epoch_of_bound : (t : ℤ) → epoch_of t < 2 ^ 32
unfolding epoch_of
epoch_of_bound (pos n) = omega arith
epoch_of_bound (negsuc n) = omega arith

pub epoch_secs_bound : (chrono : Chrono) (dt : chrono.Time) → epoch_secs chrono dt < 2 ^ 32
unfolding epoch_secs
epoch_secs_bound chrono dt = epoch_of_bound (chrono.timestamp dt)
