-- ===== src/Rib/Manager.antt =====
-- crates/rbmp-rib/src/manager.rs and event.rs: the manager, which takes the BMP messages in their
-- order, keeps the sessions and the routes, and sends events.
pub mod Routing
pub mod Order
pub mod Invariant
pub mod Reachable
use rustybmp.Base.{
  ℕ, zero, suc, ◌+◌, ◌-◌, ◌*◌, ◌/◌, ◌%◌, ◌^◌, ◌≤◌, ◌<◌, ◌≡◌, ◌≢◌, refl, sym, ap, subst, ◌∙◌, ◌↔◌,
  ◌⊎◌, inl, inr, Bool, true, false, not, ◌&&◌, ◌||◌, Option, none, some, List, [], ◌∷◌, ◌++◌, map,
  arith, ltb, leb, ltb→lt, lt→ltb, ltb-false, leb→le, ◌==◌, if◌then◌else◌, ==_iff, Bool-cases,
  Option-cases, Eq, beq_refl, nat_eq, length, get_elem?, get_or, take, drop, replicate, is_empty,
  any, All, Any, filter, length-replicate, take-append, drop-append, All-append, any_iff,
  any-filter, is_empty-filter, length-append, take-append-drop, length-take, length-drop,
}
use rustybmp.Base.Text.{Text, codes, decimal}
use rustybmp.Base.Table.{Table, lookup, insert, erase}
use rustybmp.Core.Error.{Result, ok, err, panic, stuck, ◌>>=◌}
use rustybmp.Core.Net.{IpAddr, ip_eq}
use rustybmp.Core.Bgp.Family.{show_afi_safi}
use rustybmp.Core.Bgp.Nlri.{Prefix}
use rustybmp.Core.Bgp.Capability.{BgpCapability, code}
use rustybmp.Core.Bgp.Attributes.{
  PathAttributes, BgpUpdate, MpUnreachNlri, is_eor, all_announced_with_path_id,
  all_withdrawn_with_path_id,
}
use rustybmp.Core.Bmp.Types.{
  RibType, PeerHeader, PeerDownReason, PeerUpMessage, StatEntry, BmpPayload, initiation,
  termination, route_monitoring, stats_report, route_mirroring,
}
use rustybmp.Rib.Key.{Display}
use rustybmp.Rib.Table.{
  Clock, RibEntry, RibTable, normal, insert_route, remove_with_path_id, recompute_best_path,
  clear_all, mark_stale_all, drain_deleted_stale, or_empty,
}
use rustybmp.Rib.Session.{PeerSession, BmpSession, new_peer, new_session, on_up, on_down}

pub data FilterVerdict : Type 0 where
  accept deny default : FilterVerdict

abbrev pub is_deny : FilterVerdict → Bool
is_deny deny = true
is_deny _ = false

-- The filter engines of the manager, through which it calls only these operations. Their rules
-- are data of the operator.
pub record Filters (Families : Type 0) : Type 1 where
  pub FilterEngine : Type 0
  pub RotoFilterEngine : Type 0
  pub apply : FilterEngine → Prefix → ℕ → IpAddr → PathAttributes Families → FilterVerdict
  pub evaluate :
      RotoFilterEngine → Prefix → ℕ → IpAddr → RibType → PathAttributes Families → FilterVerdict

pub data RouteAction : Type 0 where
  announce withdraw : RouteAction

pub data RibEventPayload (Time Families : Type 0) : Type 0 where
  speaker_up : (sys_name sys_descr : Option Text) → RibEventPayload Time Families
  speaker_down : (reason : Text) → RibEventPayload Time Families
  peer_up :
      (peer_header : PeerHeader Time) (local_asn remote_asn hold_time : ℕ)
      (capabilities : List Text)
      → RibEventPayload Time Families
  peer_down : (peer_header : PeerHeader Time) (reason : Text) → RibEventPayload Time Families
  route_change :
      (action : RouteAction) (peer_header : PeerHeader Time) (rib_type : RibType) (prefix : Prefix)
      (attributes : Option (PathAttributes Families))
      → RibEventPayload Time Families
  stats :
      (peer_header : PeerHeader Time) (counters : List StatEntry) → RibEventPayload Time Families
  end_of_rib : (peer_header : PeerHeader Time) (afi_safi : Text) → RibEventPayload Time Families

-- The random id of an event and its time are left out: they come from the system.
pub record RibEvent (Time Families : Type 0) : Type 0 where
  pub speaker : IpAddr
  pub payload : RibEventPayload Time Families

-- The manager does not read the id of a message, which is left out.
pub record BmpMessage (Time Families : Type 0) : Type 0 where
  pub received_at : Time
  pub speaker_addr : IpAddr
  pub payload : BmpPayload Time Families

-- What the manager reads of the outside: times, texts, the filter engines, and `{:?}` of a reason.
pub record Outside (Families : Type 0) : Type 1 where
  pub clock : Clock
  pub display : Display
  pub filters : Filters Families
  pub debug_reason : PeerDownReason → Text

pub record RibManager (Families : Type 0) (outside : Outside Families) : Type 0 where
  pub speakers : Table IpAddr (BmpSession outside.clock.Time)
  pub ribs : Table IpAddr (RibTable outside.clock.Time Families)
  pub filter : Option outside.filters.FilterEngine
  pub roto_filter : Option outside.filters.RotoFilterEngine

-- `or_insert_with(|| ..)`
abbrev pub or_else {ℓ} : {A : Type ℓ} → A → Option A → A
or_else d none = d
or_else d (some a) = a

abbrev pub if_llgr_active : {Time : Type 0} → Option (PeerSession Time) → Bool
if_llgr_active none = false
if_llgr_active (some p) = p.llgr_active

-- `for peer_addr in sess.peers.keys() { self.ribs.remove(peer_addr); }`
unfoldable pub remove_ribs {ℓ κ} :
    {V : Type ℓ} {W : Type κ} → Table IpAddr V → Table IpAddr W → Table IpAddr W
unfolding erase
remove_ribs [] ribs = ribs
remove_ribs ((peer, s) ∷ peers) ribs = remove_ribs peers (erase peer ribs)

abbrev pub Step : (Time Families : Type 0) → Type 0
Step Time Families = RibTable Time Families × List (RibEvent Time Families)

module _ {Families : Type 0} (outside : Outside Families) where
  -- The loop over the withdrawals of an update.
  unfoldable pub withdraw_routes :
      (speaker : IpAddr)
      → PeerHeader outside.clock.Time
      → List (Prefix × Option ℕ)
      → RibTable outside.clock.Time Families
      → Result (Step outside.clock.Time Families)
  unfolding remove_with_path_id
  withdraw_routes speaker hdr [] rib = ok (rib, [])
  withdraw_routes speaker hdr ((prefix, path_id) ∷ routes) rib = do
    removed ← remove_with_path_id outside.display hdr.rib_type prefix path_id rib
    (rib, events) ← withdraw_routes speaker hdr routes (removed.1)
    ok (
      rib,
      record { speaker = speaker; payload = route_change withdraw hdr hdr.rib_type prefix none }
          ∷ events,
    )

  unfoldable pub filter_verdict :
      RibManager Families outside
      → PeerHeader outside.clock.Time
      → PathAttributes Families
      → Prefix
      → FilterVerdict
  filter_verdict m hdr attributes prefix = by_roto m.roto_filter
    where
      by_filter : Option outside.filters.FilterEngine → FilterVerdict
      by_filter none = default
      by_filter (some engine) =
          outside.filters.apply engine prefix hdr.peer_as hdr.peer_address attributes

      by_roto : Option outside.filters.RotoFilterEngine → FilterVerdict
      by_roto none = by_filter m.filter
      by_roto (some roto) =
          outside.filters.evaluate roto prefix hdr.peer_as hdr.peer_address hdr.rib_type attributes

  abbrev pub new_entry :
      PeerHeader outside.clock.Time
      → outside.clock.Time
      → PathAttributes Families
      → Prefix
      → Option ℕ
      → RibEntry outside.clock.Time Families
  new_entry hdr now attributes prefix path_id = record {
    prefix = prefix;
    path_id = path_id;
    attributes = attributes;
    received_at = now;
    peer_addr = hdr.peer_address;
    peer_as = hdr.peer_as;
    is_best = true;
    llgr_state = normal;
    stale_at = none;
  }

  -- `if path_id.is_some() { rib.recompute_best_path(rib_type, prefix); }`
  unfoldable pub recompute_if :
      Option ℕ
      → RibType
      → Prefix
      → RibTable outside.clock.Time Families
      → Result (RibTable outside.clock.Time Families)
  unfolding recompute_best_path
  recompute_if none rib_type prefix rib = ok rib
  recompute_if (some id) rib_type prefix rib =
      recompute_best_path outside.display rib_type prefix rib

  -- The loop over the announcements of an update, with the verdict of the filters.
  unfoldable pub announce_routes :
      (speaker : IpAddr)
      → PeerHeader outside.clock.Time
      → (now : outside.clock.Time) → PathAttributes Families
      → (verdict : Prefix → FilterVerdict) → List (Prefix × Option ℕ)
      → RibTable outside.clock.Time Families
      → Result (Step outside.clock.Time Families)
  unfolding insert_route recompute_if
  announce_routes speaker hdr now attributes verdict [] rib = ok (rib, [])
  announce_routes speaker hdr now attributes verdict ((prefix, path_id) ∷ routes) rib =
      let skipped = announce_routes speaker hdr now attributes verdict routes rib in
      let inserted = (do
        new ←
            insert_route outside.display hdr.rib_type (new_entry hdr now attributes prefix path_id)
              rib
        rib ← recompute_if path_id hdr.rib_type prefix (new.1)
        (rib, events) ← announce_routes speaker hdr now attributes verdict routes rib
        ok (
          rib,
          record {
            speaker = speaker;
            payload = route_change announce hdr hdr.rib_type prefix (some attributes);
          }
              ∷ events,
        )) in
      if is_deny (verdict prefix) then skipped else inserted

  -- The text of the family of an End-of-RIB.
  unfoldable pub eor_family : Option MpUnreachNlri → Text
  unfolding show_afi_safi
  eor_family none = codes "ipv4-unicast"
  eor_family (some u) = show_afi_safi u.afi_safi

  abbrev pub sends :
      IpAddr
      → RibManager Families outside
      → RibEventPayload outside.clock.Time Families
      → Result (RibManager Families outside × List (RibEvent outside.clock.Time Families))
  sends speaker m payload = ok (m, record { speaker = speaker; payload = payload } ∷ [])

  -- `PeerDown`: the session, and the routes by whether LLGR is active.
  unfoldable pub down_sessions :
      (speaker peer : IpAddr)
      → outside.clock.Time
      → Table IpAddr (BmpSession outside.clock.Time)
      → Table IpAddr (BmpSession outside.clock.Time)
  unfolding lookup insert on_down
  down_sessions speaker peer now speakers = elim (lookup speaker speakers) [
    | none ↦ speakers
    | some s ↦ elim (lookup peer s.peers) [
      | none ↦ speakers
      | some p ↦ insert speaker (record s { peers = insert peer (on_down now p) s.peers }) speakers
    ]
  ]

  unfoldable pub llgr_active_for :
      (speaker peer : IpAddr) → Table IpAddr (BmpSession outside.clock.Time) → Bool
  unfolding lookup
  llgr_active_for speaker peer speakers = elim (lookup speaker speakers) [
    | none ↦ false
    | some s ↦ if_llgr_active (lookup peer s.peers)
  ]

  unfoldable pub down_ribs :
      (llgr : Bool) (peer : IpAddr)
      → outside.clock.Time
      → Table IpAddr (RibTable outside.clock.Time Families)
      → Table IpAddr (RibTable outside.clock.Time Families)
  unfolding lookup insert mark_stale_all clear_all
  down_ribs true peer now ribs = elim (lookup peer ribs) [
    | none ↦ ribs
    | some rib ↦ insert peer (mark_stale_all now rib) ribs
  ]
  down_ribs false peer now ribs = insert peer (clear_all (or_empty (lookup peer ribs))) ribs

  -- `RouteMonitoring` of an update that is no End-of-RIB.
  unfoldable pub process_update :
      (speaker : IpAddr)
      → outside.clock.Time
      → PeerHeader outside.clock.Time
      → BgpUpdate Families
      → RibManager Families outside
      → Result (RibManager Families outside × List (RibEvent outside.clock.Time Families))
  unfolding lookup insert withdraw_routes announce_routes
  process_update speaker now hdr update m = do
    let rib = or_empty (lookup hdr.peer_address m.ribs)
    (rib, withdrawn) ← withdraw_routes speaker hdr (all_withdrawn_with_path_id update) rib
    (rib, announced) ←
        announce_routes speaker hdr now update.attributes (filter_verdict m hdr update.attributes)
          (all_announced_with_path_id update) rib
    ok (record m { ribs = insert hdr.peer_address rib m.ribs }, withdrawn ++ announced)

  -- `PeerUp`: the sessions.
  unfoldable pub up_sessions :
      (speaker : IpAddr)
      → outside.clock.Time
      → PeerUpMessage outside.clock.Time
      → Table IpAddr (BmpSession outside.clock.Time)
      → Table IpAddr (BmpSession outside.clock.Time)
  unfolding lookup insert on_up new_peer new_session
  up_sessions speaker now pu speakers =
      let session = or_else (new_session speaker now) (lookup speaker speakers) in
      let peer_addr = pu.peer_header.peer_address in
      let peer = or_else (new_peer pu.peer_header) (lookup peer_addr session.peers) in
      let peer = on_up pu.sent_open.asn pu.recv_open.hold_time pu.recv_open.capabilities now peer in
      insert speaker (record session { peers = insert peer_addr peer session.peers }) speakers

  -- `Termination`: the session and the routes of its peers.
  unfoldable pub disconnect : IpAddr → RibManager Families outside → RibManager Families outside
  unfolding lookup erase remove_ribs
  disconnect speaker m = elim (lookup speaker m.speakers) [
    | none ↦ m
    | some session ↦ record m {
      speakers = erase speaker m.speakers;
      ribs = remove_ribs session.peers m.ribs;
    }
  ]

  unfoldable pub process :
      BmpMessage outside.clock.Time Families
      → RibManager Families outside
      → Result (RibManager Families outside × List (RibEvent outside.clock.Time Families))
  unfolding lookup insert disconnect process_update down_sessions down_ribs up_sessions
  process msg m = handle msg.payload
    where
      speaker : IpAddr
      speaker = msg.speaker_addr

      now : outside.clock.Time
      now = msg.received_at

      handle :
          BmpPayload outside.clock.Time Families
          → Result (RibManager Families outside × List (RibEvent outside.clock.Time Families))
      handle (initiation sys_name sys_descr labels) =
          let session = or_else (new_session speaker now) (lookup speaker m.speakers) in
          let session = record session { sys_name = sys_name; sys_descr = sys_descr } in
          sends speaker (record m { speakers = insert speaker session m.speakers })
            (speaker_up sys_name sys_descr)
      handle (termination reason_code reason_text) =
          sends speaker (disconnect speaker m)
            (speaker_down (or_else (codes "code=" ++ decimal reason_code) reason_text))
      handle (BmpPayload.peer_up pu) =
          sends speaker (record m { speakers = up_sessions speaker now pu m.speakers })
            (peer_up pu.peer_header pu.sent_open.asn pu.recv_open.asn pu.recv_open.hold_time
              (map (λ c. decimal (code c)) pu.recv_open.capabilities))
      handle (BmpPayload.peer_down hdr reason) =
          let peer = hdr.peer_address in
          let llgr = llgr_active_for speaker peer m.speakers in
          sends speaker
            (record m {
              speakers = down_sessions speaker peer now m.speakers;
              ribs = down_ribs llgr peer now m.ribs;
            })
            (peer_down hdr (outside.debug_reason reason))
      handle (route_monitoring hdr update) =
          if is_eor update
          then sends speaker m (end_of_rib hdr (eor_family update.attributes.mp_unreach))
          else process_update speaker now hdr update m
      handle (stats_report hdr counters) = sends speaker m (stats hdr counters)
      handle (route_mirroring hdr pdu) = ok (m, [])

  -- `expire_stale_for_peer`, at a time
  unfoldable pub expire_stale_for_peer :
      (now : outside.clock.Time)
      → IpAddr
      → (stale_secs : ℕ) → RibManager Families outside
      → RibManager Families outside × ℕ
  unfolding lookup insert drain_deleted_stale
  expire_stale_for_peer now peer stale_secs m = elim (lookup peer m.ribs) [
    | none ↦ (m, 0)
    | some rib ↦
        let drained = drain_deleted_stale outside.clock now stale_secs rib in
        (record m { ribs = insert peer (drained.0) m.ribs }, drained.1)
  ]
