-- ===== src/Core/Bmp/Parser/Total.antt =====
-- The parser of BMP messages returns: every message but a Peer Up, on every byte string.
use rustybmp.Base.{
  ℕ, zero, suc, ◌+◌, ◌≤◌, ◌≡◌, ◌≢◌, refl, Bool, true, false, List, [], arith, nat_eq, length, drop,
}
use rustybmp.Base.Text.{Text}
use rustybmp.Core.Error.{Result, ok, Returns, Returns-bind}
use rustybmp.Core.Slice.{byte, be16, be32, at_ok, u16_at_ok, u32_at_ok, slice_ok, slice_from_ok}
use rustybmp.Core.Buf.{Buf}
use rustybmp.Core.Ipnet.{Ipnet}
use rustybmp.Core.Bgp.Attributes.{PathAttributes}
use rustybmp.Core.Bgp.Update.{attribute_section, parse_bgp_update-Returns}
use rustybmp.Core.Bmp.PathStatus.{path_status_tlv_type, find_path_status_tlv-Returns}
use rustybmp.Core.Bmp.Tlv.{each_tlv-Returns}
use rustybmp.Core.Bmp.Types.{PeerHeader, BmpMsgType, msg_type_from, peer_type_from, ipv6}
use rustybmp.Core.Bmp.Parser.{
  Env, addr_at, parse_peer_header, initiation_step, termination_step, mirroring_step, stat_entry,
  stats_loop, parse_initiation, parse_termination, parse_peer_down, parse_route_monitoring,
  parse_stats_report, parse_route_mirroring, parse_body, parse_bmp_message,
}

addr_at-Returns :
    (six : Bool) (buf : List ℕ) (at6 at4 : ℕ)
    → at6 + 16 ≤ length buf
    → at4 + 4 ≤ length buf
    → Returns (addr_at six buf at6 at4)
unfolding addr_at
addr_at-Returns true buf at6 at4 h k = ground (arith, slice_ok buf at6 (at6 + 16))
addr_at-Returns false buf at6 at4 h k = ground (arith, u32_at_ok buf at4)

peer_type_from-Returns : (v : ℕ) → Returns (peer_type_from v)
unfolding peer_type_from
peer_type_from-Returns v = ground arith

-- The common peer header is read, or refused, on every byte string.
pub parse_peer_header-Returns : (env : Env) (buf : List ℕ) → Returns (parse_peer_header env buf)
unfolding parse_peer_header
parse_peer_header-Returns env buf = ground (
  arith,
  at_ok buf 0,
  at_ok buf 1,
  peer_type_from-Returns (byte buf 0),
  slice_ok buf 2 10,
  addr_at-Returns (ipv6 (byte buf 1)) buf 10 22,
  u32_at_ok buf 26,
  u32_at_ok buf 30,
  u32_at_ok buf 34,
  u32_at_ok buf 38,
  slice_from_ok buf 42,
)

initiation_step-Returns :
    (utf8 : List ℕ → Text) (t : ℕ) (v : List ℕ) (s : _) → Returns (initiation_step utf8 t v s)
unfolding initiation_step
initiation_step-Returns utf8 t v s = ground arith

termination_step-Returns :
    (utf8 : List ℕ → Text) (t : ℕ) (v : List ℕ) (s : _) → Returns (termination_step utf8 t v s)
unfolding termination_step
termination_step-Returns utf8 t v s = ground (arith, u16_at_ok v 0)

mirroring_step-Returns : (t : ℕ) (v pdu : List ℕ) → Returns (mirroring_step t v pdu)
unfolding mirroring_step
mirroring_step-Returns t v pdu = ground arith

stat_entry-Returns :
    (t l : ℕ) (rest : List ℕ) (pos : ℕ) → pos + l ≤ length rest → Returns (stat_entry t l rest pos)
unfolding stat_entry
stat_entry-Returns t l rest pos h = ground (
  arith,
  u16_at_ok rest pos,
  at_ok rest (pos + 2),
  slice_ok rest (pos + 3) (pos + 11),
  slice_ok rest (pos + 3) (pos + 7),
  slice_ok rest pos (pos + l),
)

stats_loop-Returns : (rounds pos : ℕ) (rest : List ℕ) → Returns (stats_loop rounds pos rest)
unfolding stats_loop
stats_loop-Returns zero pos rest = refl
stats_loop-Returns (suc rounds) pos rest =
    let t : ℕ = be16 (byte rest pos) (byte rest (pos + 1)) in
    let l : ℕ = be16 (byte rest (pos + 2)) (byte rest (pos + 2 + 1)) in
    ground (
      arith,
      u16_at_ok rest pos,
      u16_at_ok rest (pos + 2),
      stat_entry-Returns t l rest (pos + 4),
      stats_loop-Returns rounds (pos + 4 + l) rest,
    )

-- The number of entries that a Statistics Report announces.
abbrev pub stat_count : List ℕ → ℕ
stat_count rest = be32 (byte rest 0) (byte rest 1) (byte rest 2) (byte rest 3)

module _ (env : Env) (buffer : Buf) (ipnet : Ipnet) {Families : Type 0}
    (parse_path_attributes : List ℕ → Result (PathAttributes Families)) where
  parse_peer_header_rest :
      (buf : List ℕ) (r : PeerHeader env.Time × List ℕ)
      → parse_peer_header env buf ≡ ok r
      → r.1 ≡ drop 42 buf
  unfolding parse_peer_header
  parse_peer_header_rest buf r e = ground (
    arith,
    e,
    at_ok buf 0,
    at_ok buf 1,
    peer_type_from-Returns (byte buf 0),
    slice_ok buf 2 10,
    addr_at-Returns (ipv6 (byte buf 1)) buf 10 22,
    u32_at_ok buf 26,
    u32_at_ok buf 30,
    u32_at_ok buf 34,
    u32_at_ok buf 38,
    slice_from_ok buf 42,
  )

  parse_initiation-Returns :
      (buf : List ℕ) → Returns (parse_initiation env buffer ipnet parse_path_attributes buf)
  unfolding parse_initiation
  parse_initiation-Returns buf =
      Returns-bind _ _ (each_tlv-Returns _ (initiation_step-Returns env.from_utf8_lossy) buf _)
        (λ s e. refl)

  parse_termination-Returns :
      (buf : List ℕ) → Returns (parse_termination env buffer ipnet parse_path_attributes buf)
  unfolding parse_termination
  parse_termination-Returns buf =
      Returns-bind _ _ (each_tlv-Returns _ (termination_step-Returns env.from_utf8_lossy) buf _)
        (λ s e. refl)

  parse_peer_down-Returns :
      (buf : List ℕ) → Returns (parse_peer_down env buffer ipnet parse_path_attributes buf)
  unfolding parse_peer_down
  parse_peer_down-Returns buf =
      Returns-bind (parse_peer_header env buf) _ (parse_peer_header-Returns env buf)
        λ r e. ground (arith, at_ok r.1 0, slice_from_ok r.1 1)

  parse_route_monitoring-Returns :
      (buf : List ℕ)
      → Returns (parse_path_attributes (attribute_section (drop 42 buf)))
      → Returns (parse_route_monitoring env buffer ipnet parse_path_attributes buf)
  unfolding parse_route_monitoring
  parse_route_monitoring-Returns buf h =
      Returns-bind (parse_peer_header env buf) _ (parse_peer_header-Returns env buf) λ r e.
        let here : Returns (parse_path_attributes (attribute_section r.1)) =
          rw (parse_peer_header_rest buf r e) h in
        ground (
          arith,
          find_path_status_tlv-Returns r.1 path_status_tlv_type,
          parse_bgp_update-Returns buffer ipnet parse_path_attributes r.1,
          here,
        )

  parse_stats_report-Returns :
      (buf : List ℕ)
      → env.can_reserve (stat_count (drop 42 buf)) ≡ true
      → Returns (parse_stats_report env buffer ipnet parse_path_attributes buf)
  unfolding parse_stats_report
  parse_stats_report-Returns buf h =
      Returns-bind (parse_peer_header env buf) _ (parse_peer_header-Returns env buf) λ r e.
        let here : env.can_reserve (stat_count r.1) ≡ true =
          rw (parse_peer_header_rest buf r e) h in
        ground (arith, u32_at_ok r.1 0, here, stats_loop-Returns (stat_count r.1) 4 r.1)

  parse_route_mirroring-Returns :
      (buf : List ℕ) → Returns (parse_route_mirroring env buffer ipnet parse_path_attributes buf)
  unfolding parse_route_mirroring
  parse_route_mirroring-Returns buf =
      Returns-bind (parse_peer_header env buf) _ (parse_peer_header-Returns env buf) λ r e.
        Returns-bind _ _ (each_tlv-Returns mirroring_step mirroring_step-Returns r.1 [])
          (λ pdu d. refl)

  msg_type_from-Returns : (v : ℕ) → Returns (msg_type_from v)
  unfolding msg_type_from
  msg_type_from-Returns v = ground arith

  -- What a message of this type needs of its surroundings: an UPDATE, that the attribute parser
  -- returns on its attribute section; a report of statistics, memory for as many entries as it
  -- announces.
  abbrev pub IsServed : BmpMsgType → (body : List ℕ) → Type 0
  IsServed BmpMsgType.route_monitoring body =
      Returns (parse_path_attributes (attribute_section (drop 42 body)))
  IsServed BmpMsgType.stats_report body = env.can_reserve (stat_count (drop 42 body)) ≡ true
  IsServed BmpMsgType.peer_up body = ⊥
  IsServed _ body = Unit

  parse_body-Returns :
      (t : BmpMsgType) (body : List ℕ)
      → IsServed t body
      → Returns (parse_body env buffer ipnet parse_path_attributes t body)
  unfolding parse_body
  parse_body-Returns BmpMsgType.initiation body h = parse_initiation-Returns body
  parse_body-Returns BmpMsgType.termination body h = parse_termination-Returns body
  parse_body-Returns BmpMsgType.peer_up body h = elim h [ ]
  parse_body-Returns BmpMsgType.peer_down body h = parse_peer_down-Returns body
  parse_body-Returns BmpMsgType.route_monitoring body h = parse_route_monitoring-Returns body h
  parse_body-Returns BmpMsgType.stats_report body h = parse_stats_report-Returns body h
  parse_body-Returns BmpMsgType.route_mirroring body h = parse_route_mirroring-Returns body

  -- The type byte of a message, and what it needs.
  abbrev pub NeedsOf : (type_byte : ℕ) (body : List ℕ) → Type 0
  NeedsOf v body =
      (v ≢ 3)
      × ((v ≡ 0 → IsServed BmpMsgType.route_monitoring body)
          × (v ≡ 1 → IsServed BmpMsgType.stats_report body))

  served :
      (v : ℕ) (body : List ℕ) (t : BmpMsgType)
      → msg_type_from v ≡ ok t
      → NeedsOf v body
      → IsServed t body
  unfolding msg_type_from
  served v body BmpMsgType.initiation e h = tt
  served v body BmpMsgType.termination e h = tt
  served v body BmpMsgType.peer_up e h = absurd (h.0 (ground (arith, e)))
  served v body BmpMsgType.peer_down e h = tt
  served v body BmpMsgType.route_monitoring e h = h.1.0 (ground (arith, e))
  served v body BmpMsgType.stats_report e h = h.1.1 (ground (arith, e))
  served v body BmpMsgType.route_mirroring e h = tt

  -- The parser of BMP messages returns on every byte string that is no Peer Up, its type byte being
  -- another than 3: no index or range leaves the buffer, every loop ends, and what is malformed is an
  -- error. For a Route Monitoring message the attribute parser must return on the attribute section
  -- of its UPDATE, and for a Statistics Report the memory for the entries that it announces, whose
  -- number is not compared with its length, must be there.
  pub parse_bmp_message-Returns :
      (buf : List ℕ) (max_frame : ℕ)
      → NeedsOf (byte buf 5) (drop 6 buf)
      → Returns (parse_bmp_message env buffer ipnet parse_path_attributes buf max_frame)
  unfolding parse_bmp_message
  parse_bmp_message-Returns buf max_frame h =
      let body : List ℕ = drop 6 buf in
      let typed =
        Returns-bind (msg_type_from (byte buf 5))
          (λ t. parse_body env buffer ipnet parse_path_attributes t body)
          (msg_type_from-Returns (byte buf 5))
          (λ t e. parse_body-Returns t body (served (byte buf 5) body t e h)) in
      ground (arith, at_ok buf 0, u32_at_ok buf 1, at_ok buf 5, slice_from_ok buf 6, typed)
