-- ===== src/Core/Bmp/Parser.antt =====
-- crates/rbmp-core/src/bmp/parser.rs: the parser of one BMP message.
pub mod Total
pub mod Opens
use rustybmp.Base.{
  ℕ, zero, suc, ◌+◌, ◌-◌, ◌*◌, ◌/◌, ◌%◌, ◌^◌, ◌≤◌, ◌<◌, ◌≡◌, ◌≢◌, refl, sym, ap, subst, ◌∙◌, ◌↔◌,
  ◌⊎◌, inl, inr, Bool, true, false, not, ◌&&◌, ◌||◌, Option, none, some, List, [], ◌∷◌, ◌++◌, map,
  arith, ltb, leb, ltb→lt, lt→ltb, ltb-false, leb→le, ◌==◌, if◌then◌else◌, ==_iff, Bool-cases,
  Option-cases, Eq, beq_refl, nat_eq, length, get_elem?, get_or, take, drop, replicate, is_empty,
  any, All, Any, filter, length-replicate, take-append, drop-append, All-append, any_iff,
  any-filter, is_empty-filter, length-append, take-append-drop, length-take, length-drop,
}
use rustybmp.Base.Text.{Text, codes}
use rustybmp.Core.Error.{
  Error, unexpected_eof, invalid_bmp_version, frame_too_large, Result, ok, err, panic, stuck, ◌>>=◌,
}
use rustybmp.Core.Slice.{be_value, at, u16_at, u32_at, slice, slice_from}
use rustybmp.Core.Buf.{Buf}
use rustybmp.Core.Ipnet.{Ipnet}
use rustybmp.Core.Net.{IpAddr, v4, v6}
use rustybmp.Core.Bgp.Family.{AfiSafi, afi_safi}
use rustybmp.Core.Bgp.Open.{BgpOpenInfo, parse_bgp_open}
use rustybmp.Core.Bgp.Attributes.{PathAttributes, BgpUpdate}
use rustybmp.Core.Bgp.Update.{parse_bgp_update}
use rustybmp.Core.Bmp.PathStatus.{PathStatusTlv, path_status_tlv_type, find_path_status_tlv}
use rustybmp.Core.Bmp.Tlv.{each_tlv}
use rustybmp.Core.Bmp.Types.{
  BmpMsgType, msg_type_from, PeerType, peer_type_from, ipv6, rib_type_from_peer, PeerHeader,
  PeerDownReason, local_system_closed, local_system_closed2, remote_system_closed,
  remote_system_closed2, peer_de_configured, vrf_down, PeerUpMessage, StatEntry, stat_name,
  stat_is_per_afi_safi_11byte, stat_is_per_afi_safi_7byte, BmpPayload, initiation, termination,
  peer_up, peer_down, route_monitoring, stats_report, route_mirroring,
}

abbrev pub bmp_header_len : ℕ
bmp_header_len = 6

abbrev pub peer_header_len : ℕ
peer_header_len = 42

-- What the parser uses of `chrono` and of the clock, and the conversion of bytes to text, which
-- replaces what is not UTF-8. `timestamp_opt` is `Utc.timestamp_opt(..).single()`, and `utc_now`
-- what `Utc::now` answers in this call. `can_reserve` says for how
-- many elements a `Vec::with_capacity` finds the memory.
pub record Env : Type 1 where
  pub Time : Type 0
  pub timestamp_opt : (secs nanos : ℕ) → Option Time
  pub utc_now : Time
  pub from_utf8_lossy : List ℕ → Text
  pub can_reserve : ℕ → Bool

abbrev pub unwrap_or {ℓ} : {A : Type ℓ} → Option A → A → A
unwrap_or none d = d
unwrap_or (some a) d = a

-- `IpAddr::V6` of 16 bytes, or `IpAddr::V4` of the four bytes from the second index on.
unfoldable pub addr_at : (six : Bool) → List ℕ → (at6 at4 : ℕ) → Result IpAddr
addr_at true buf at6 at4 = do b ← slice buf at6 (at6 + 16); ok (v6 (be_value 0 b))
addr_at false buf at6 at4 = do a ← u32_at buf at4; ok (v4 a)

-- The microseconds are multiplied in 32 bits, which wrap around in a release build.
unfoldable pub parse_peer_header : (env : Env) → List ℕ → Result (PeerHeader env.Time × List ℕ)
parse_peer_header env buf =
    let fields = (do
      t ← at buf 0
      peer_type ← peer_type_from t
      peer_flags ← at buf 1
      rd ← slice buf 2 10
      peer_address ← addr_at (ipv6 peer_flags) buf 10 22
      peer_as ← u32_at buf 26
      bgp_id ← u32_at buf 30
      ts_secs ← u32_at buf 34
      ts_micros ← u32_at buf 38
      rest ← slice_from buf peer_header_len
      ok (
        record {
          peer_type = peer_type;
          peer_flags = peer_flags;
          peer_distinguisher = rd;
          peer_address = peer_address;
          peer_as = peer_as;
          peer_bgp_id = bgp_id;
          timestamp = unwrap_or (env.timestamp_opt ts_secs (ts_micros * 1000 % 2 ^ 32)) env.utc_now;
          rib_type = rib_type_from_peer peer_type peer_flags;
        },
        rest,
      )) in
    if ltb (length buf) peer_header_len
    then err (unexpected_eof peer_header_len (length buf))
    else fields

-- The three fields that `parse_initiation` gathers.
pub record InitiationFields : Type 0 where
  pub sys_name : Option Text
  pub sys_descr : Option Text
  pub labels : List Text

unfoldable pub initiation_step :
    (List ℕ → Text) → ℕ → List ℕ → InitiationFields → Result InitiationFields
initiation_step utf8 tlv_type value s =
    if tlv_type == 0
    then ok (record s { sys_descr = some (utf8 value) })
    else if tlv_type == 1
    then ok (record s { sys_name = some (utf8 value) })
    else if tlv_type == 2
    then ok (record s { labels = s.labels ++ (utf8 value ∷ []) })
    else ok s

pub record TerminationFields : Type 0 where
  pub reason_code : ℕ
  pub reason_text : Option Text

unfoldable pub termination_step :
    (List ℕ → Text) → ℕ → List ℕ → TerminationFields → Result TerminationFields
termination_step utf8 tlv_type value s =
    let code = (do c ← u16_at value 0; ok (record s { reason_code = c })) in
    if (tlv_type == 0) && leb 2 (length value)
    then code
    else if tlv_type == 1
    then ok (record s { reason_text = some (utf8 value) })
    else ok s

-- The loop of `parse_route_mirroring`: the last PDU stays.
unfoldable pub mirroring_step : ℕ → List ℕ → List ℕ → Result (List ℕ)
mirroring_step tlv_type value pdu = if tlv_type == 0 then ok value else ok pdu

-- One entry of a statistics report, whose value stands at `pos`.
unfoldable pub stat_entry : (stat_type stat_len : ℕ) → List ℕ → (pos : ℕ) → Result StatEntry
stat_entry stat_type stat_len rest pos =
    let wide = (do
      afi ← u16_at rest pos
      safi ← at rest (pos + 2)
      val ← slice rest (pos + 3) (pos + 11)
      ok (record {
        stat_type = stat_type;
        name = stat_name stat_type;
        value = be_value 0 val;
        afi_safi = some (afi_safi afi safi);
      })) in
    let narrow = (do
      afi ← u16_at rest pos
      safi ← at rest (pos + 2)
      val ← slice rest (pos + 3) (pos + 7)
      ok (record {
        stat_type = stat_type;
        name = stat_name stat_type;
        value = be_value 0 val;
        afi_safi = some (afi_safi afi safi);
      })) in
    let plain = (do
      val ← (if (stat_len == 4) || (stat_len == 8) then slice rest pos (pos + stat_len) else ok [])
      ok (record {
        stat_type = stat_type;
        name = stat_name stat_type;
        value = be_value 0 val;
        afi_safi = none;
      })) in
    if stat_is_per_afi_safi_11byte stat_type && (stat_len == 11)
    then wide
    else if stat_is_per_afi_safi_7byte stat_type && (stat_len == 7)
    then narrow
    else plain

-- `for _ in 0..stat_count`, with its two breaks.
unfoldable pub stats_loop : (rounds pos : ℕ) → List ℕ → Result (List StatEntry)
stats_loop zero pos rest = ok []
stats_loop (suc rounds) pos rest =
    let body = (do
      stat_type ← u16_at rest pos
      stat_len ← u16_at rest (pos + 2)
      let next = (do
        entry ← stat_entry stat_type stat_len rest (pos + 4)
        entries ← stats_loop rounds (pos + 4 + stat_len) rest
        ok (entry ∷ entries))
      if ltb (length rest) (pos + 4 + stat_len) then ok [] else next) in
    if ltb (length rest) (pos + 4) then ok [] else body

unfoldable pub bgp_open_pdu_len : List ℕ → Result ℕ
bgp_open_pdu_len buf = if ltb (length buf) 19 then ok (length buf) else u16_at buf 16

unfoldable pub peer_down_reason : (reason_code : ℕ) → (notification : List ℕ) → PeerDownReason
peer_down_reason c notification =
    if c == 1
    then local_system_closed (some notification)
    else if c == 2
    then local_system_closed2
    else if c == 3
    then remote_system_closed (some notification)
    else if c == 4
    then remote_system_closed2
    else if c == 5
    then peer_de_configured
    else if c == 6
    then vrf_down
    else PeerDownReason.unknown c

module _ (env : Env) (buffer : Buf) (ipnet : Ipnet) {Families : Type 0}
    (parse_path_attributes : List ℕ → Result (PathAttributes Families)) where
  unfoldable pub parse_initiation : List ℕ → Result (BmpPayload env.Time Families)
  parse_initiation buf = do
    s ←
        each_tlv (initiation_step env.from_utf8_lossy) buf
          (record { sys_name = none; sys_descr = none; labels = [] })
    ok (initiation s.sys_name s.sys_descr s.labels)

  unfoldable pub parse_termination : List ℕ → Result (BmpPayload env.Time Families)
  parse_termination buf = do
    s ←
        each_tlv (termination_step env.from_utf8_lossy) buf
          (record { reason_code = 0; reason_text = none })
    ok (termination s.reason_code s.reason_text)

  unfoldable pub parse_bgp_open_pdu : List ℕ → Result BgpOpenInfo
  parse_bgp_open_pdu buf =
      let read = (do
        msg_len ← u16_at buf 16
        let pdu = (do b ← slice buf 0 msg_len; parse_bgp_open buffer env.from_utf8_lossy b)
        if ltb (length buf) msg_len then err (unexpected_eof msg_len (length buf)) else pdu) in
      if ltb (length buf) 19 then err (unexpected_eof 19 (length buf)) else read

  unfoldable pub parse_peer_up : List ℕ → Result (BmpPayload env.Time Families)
  parse_peer_up buf = do
    (peer_header, rest) ← parse_peer_header env buf
    let fields = (do
      local_addr ← addr_at (ipv6 peer_header.peer_flags) rest 0 12
      local_port ← u16_at rest 16
      remote_port ← u16_at rest 18
      bgp_pdus ← slice_from rest 20
      sent_open ← parse_bgp_open_pdu bgp_pdus
      sent_len ← bgp_open_pdu_len bgp_pdus
      recv_pdu ← slice_from bgp_pdus sent_len
      recv_open ← parse_bgp_open_pdu recv_pdu
      ok (
          peer_up (record {
            peer_header = peer_header;
            local_addr = local_addr;
            local_port = local_port;
            remote_port = remote_port;
            sent_open = sent_open;
            recv_open = recv_open;
          })))
    if ltb (length rest) 20 then err (unexpected_eof 20 (length rest)) else fields

  unfoldable pub parse_peer_down : List ℕ → Result (BmpPayload env.Time Families)
  parse_peer_down buf = do
    (peer_header, rest) ← parse_peer_header env buf
    let reason = (do
      reason_code ← at rest 0
      notification ← slice_from rest 1
      ok (peer_down peer_header (peer_down_reason reason_code notification)))
    if is_empty rest then err (unexpected_eof 1 0) else reason

  abbrev with_path_status : Option PathStatusTlv → BgpUpdate Families → BgpUpdate Families
  with_path_status none u = u
  with_path_status (some ps) u = record u {
    attributes = record u.attributes { path_status = some ps };
  }

  unfoldable pub parse_route_monitoring : List ℕ → Result (BmpPayload env.Time Families)
  parse_route_monitoring buf = do
    (peer_header, rest) ← parse_peer_header env buf
    let update = (do
      path_status ← find_path_status_tlv rest path_status_tlv_type
      u ← parse_bgp_update buffer ipnet parse_path_attributes rest false
      ok (route_monitoring peer_header (with_path_status path_status u)))
    if ltb (length rest) 19 then err (unexpected_eof 19 (length rest)) else update

  unfoldable pub parse_stats_report : List ℕ → Result (BmpPayload env.Time Families)
  parse_stats_report buf = do
    (peer_header, rest) ← parse_peer_header env buf
    let stats = (do
      stat_count ← u32_at rest 0
      let read = (do entries ← stats_loop stat_count 4 rest; ok (stats_report peer_header entries))
      if env.can_reserve stat_count then read else panic)
    if ltb (length rest) 4 then err (unexpected_eof 4 (length rest)) else stats

  unfoldable pub parse_route_mirroring : List ℕ → Result (BmpPayload env.Time Families)
  parse_route_mirroring buf = do
    (peer_header, rest) ← parse_peer_header env buf
    pdu ← each_tlv mirroring_step rest []
    ok (route_mirroring peer_header pdu)

  unfoldable pub parse_body : BmpMsgType → List ℕ → Result (BmpPayload env.Time Families)
  parse_body BmpMsgType.initiation body = parse_initiation body
  parse_body BmpMsgType.termination body = parse_termination body
  parse_body BmpMsgType.peer_up body = parse_peer_up body
  parse_body BmpMsgType.peer_down body = parse_peer_down body
  parse_body BmpMsgType.route_monitoring body = parse_route_monitoring body
  parse_body BmpMsgType.stats_report body = parse_stats_report body
  parse_body BmpMsgType.route_mirroring body = parse_route_mirroring body

  unfoldable pub parse_bmp_message :
      List ℕ → (max_frame : ℕ) → Result (BmpPayload env.Time Families)
  parse_bmp_message buf max_frame =
      let header = (do
        version ← at buf 0
        msg_len ← u32_at buf 1
        msg_type ← at buf 5
        let rest = (do
          t ← msg_type_from msg_type
          body ← slice_from buf bmp_header_len
          parse_body t body)
        if not (version == 3)
            then err (invalid_bmp_version version)
            else if ltb max_frame msg_len
            then err (frame_too_large msg_len max_frame)
            else rest) in
      if ltb (length buf) bmp_header_len
      then err (unexpected_eof bmp_header_len (length buf))
      else header
