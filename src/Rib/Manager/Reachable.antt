-- ===== src/Rib/Manager/Reachable.antt =====
-- The states that the manager reaches, and what holds of every route in them.
use rustybmp.Base.{
  ℕ, ◌≡◌, subst, inl, inr, Bool, true, false, Option, List, [], ◌∷◌, Bool-cases, Option-cases,
  nat_eq, filter,
}
use rustybmp.Base.Text.{text_eq}
use rustybmp.Base.Table.{Table, lookup, erase, Values-insert, Values-erase, Values-lookup}
use rustybmp.Core.Error.{ok, Yields, Yields-bind}
use rustybmp.Core.Net.{IpAddr, ip_eq}
use rustybmp.Core.Bgp.Attributes.{
  BgpUpdate, is_eor, all_announced_with_path_id, all_withdrawn_with_path_id,
}
use rustybmp.Core.Bmp.Types.{
  PeerHeader, BmpPayload, rib_type_eq, initiation, termination, route_monitoring, stats_report,
  route_mirroring,
}
use rustybmp.Rib.Table.{RibTable, or_empty, mark_stale_all, clear_all}
use rustybmp.Rib.Manager.{
  Outside, RibManager, RibEvent, BmpMessage, process, process_update, withdraw_routes,
  announce_routes, filter_verdict, down_ribs, disconnect, remove_ribs, expire_stale_for_peer,
}
use rustybmp.Rib.Manager.Invariant.{
  TableIsWellFormed, RibsAreWellFormed, mark_stale_all-Ok, drain_deleted_stale-Ok,
  withdraw_routes-Ok, announce_routes-Ok,
}
use rustybmp.Rib.Key.Labels.{HaveLabels}

module _ {Families : Type 0} (outside : Outside Families) where
  ribs-at :
      (peer : IpAddr) (ribs : Table IpAddr (RibTable outside.clock.Time Families))
      → RibsAreWellFormed ribs
      → TableIsWellFormed peer (or_empty (lookup peer ribs))
  ribs-at peer ribs h = elim (Option-cases (lookup peer ribs)) [
    | inl absent ↦ rw absent tt
    | inr (t, found) ↦ rw found (Values-lookup TableIsWellFormed peer t ribs h found)
  ]

  down_ribs-Ok :
      (llgr : Bool) (peer : IpAddr) (now : outside.clock.Time)
      (ribs : Table IpAddr (RibTable outside.clock.Time Families))
      → RibsAreWellFormed ribs
      → RibsAreWellFormed (down_ribs outside llgr peer now ribs)
  unfolding down_ribs clear_all
  down_ribs-Ok false peer now ribs h = Values-insert TableIsWellFormed peer [] ribs tt h
  down_ribs-Ok true peer now ribs h = elim (Option-cases (lookup peer ribs)) [
    | inl absent ↦ rw (absent, down_ribs) h
    | inr (t, found) ↦
        rw (found, down_ribs)
          (Values-insert TableIsWellFormed peer (mark_stale_all now t) ribs
            (mark_stale_all-Ok peer now t (Values-lookup TableIsWellFormed peer t ribs h found)) h)
  ]

  remove_ribs-Ok {ℓ} :
      {V : Type ℓ} (peers : Table IpAddr V)
      (ribs : Table IpAddr (RibTable outside.clock.Time Families))
      → RibsAreWellFormed ribs
      → RibsAreWellFormed (remove_ribs peers ribs)
  unfolding remove_ribs
  remove_ribs-Ok [] ribs h = h
  remove_ribs-Ok ((peer, s) ∷ peers) ribs h =
      remove_ribs-Ok peers (erase peer ribs) (Values-erase TableIsWellFormed peer ribs h)

  disconnect-Ok :
      (speaker : IpAddr) (m : RibManager Families outside)
      → RibsAreWellFormed m.ribs
      → RibsAreWellFormed (disconnect outside speaker m).ribs
  unfolding disconnect
  disconnect-Ok speaker m h = elim (Option-cases (lookup speaker m.speakers)) [
    | inl absent ↦ rw (absent, disconnect) h
    | inr (session, found) ↦ rw (found, disconnect) (remove_ribs-Ok session.peers m.ribs h)
  ]

  process_update-Ok :
      (speaker : IpAddr) (now : outside.clock.Time) (hdr : PeerHeader outside.clock.Time)
      (update : BgpUpdate Families) (m : RibManager Families outside)
      → HaveLabels (all_withdrawn_with_path_id update)
      → HaveLabels (all_announced_with_path_id update)
      → RibsAreWellFormed m.ribs
      → Yields
          (λ after. RibsAreWellFormed after.0.ribs)
          (process_update outside speaker now hdr update m)
  unfolding process_update
  process_update-Ok speaker now hdr update m hw ha h =
      Yields-bind (λ after. TableIsWellFormed hdr.peer_address (after.0)) _
        (withdraw_routes outside speaker hdr (all_withdrawn_with_path_id update)
          (or_empty (lookup hdr.peer_address m.ribs)))
        _
        (withdraw_routes-Ok outside hdr.peer_address speaker hdr (all_withdrawn_with_path_id update)
          _ hw (ribs-at hdr.peer_address m.ribs h))
        λ removed hr.
          Yields-bind (λ after. TableIsWellFormed hdr.peer_address (after.0)) _
            (announce_routes outside speaker hdr now update.attributes
              (filter_verdict outside m hdr update.attributes) (all_announced_with_path_id update)
              (removed.0))
            _
            (announce_routes-Ok outside speaker hdr now update.attributes _
              (all_announced_with_path_id update) (removed.0) ha hr)
            λ added hd. Values-insert TableIsWellFormed hdr.peer_address (added.0) m.ribs hd h

  -- The prefixes of a message have the labels that their texts read.
  abbrev pub MessageHasLabels : BmpPayload outside.clock.Time Families → Type 0
  MessageHasLabels (route_monitoring hdr update) =
      HaveLabels (all_withdrawn_with_path_id update)
      × HaveLabels (all_announced_with_path_id update)
  MessageHasLabels _ = Unit

  -- Every message whose prefixes have labels is processed without a panic, and it keeps the
  -- routes well-formed: a route stands in the table of its own peer, it has a stale time exactly
  -- when it is marked stale, and none is held that is deleted.
  pub process-RibsAreWellFormed :
      (msg : BmpMessage outside.clock.Time Families) (m : RibManager Families outside)
      → MessageHasLabels msg.payload
      → RibsAreWellFormed m.ribs
      → Yields (λ after. RibsAreWellFormed after.0.ribs) (process outside msg m)
  unfolding process
  process-RibsAreWellFormed msg m l h = go msg.payload l
    where
      go :
          (payload : BmpPayload outside.clock.Time Families)
          → MessageHasLabels payload
          → Yields
              (λ after. RibsAreWellFormed after.0.ribs)
              (process outside
                (record {
                  received_at = msg.received_at;
                  speaker_addr = msg.speaker_addr;
                  payload = payload;
                })
                m)
      go (initiation a b c) l = h
      go (termination c t) l = disconnect-Ok msg.speaker_addr m h
      go (BmpPayload.peer_up pu) l = h
      go (BmpPayload.peer_down hdr reason) l =
          down_ribs-Ok _ hdr.peer_address msg.received_at m.ribs h
      go (route_monitoring hdr update) l = elim (Bool-cases (is_eor update)) [
        | inl eor ↦ rw eor h
        | inr other ↦
            rw other (process_update-Ok msg.speaker_addr msg.received_at hdr update m (l.0) (l.1) h)
      ]
      go (stats_report hdr counters) l = h
      go (route_mirroring hdr pdu) l = h

  expire-Ok :
      (now : outside.clock.Time) (peer : IpAddr) (secs : ℕ) (m : RibManager Families outside)
      → RibsAreWellFormed m.ribs
      → RibsAreWellFormed (expire_stale_for_peer outside now peer secs m).0.ribs
  unfolding expire_stale_for_peer
  expire-Ok now peer secs m h = elim (Option-cases (lookup peer m.ribs)) [
    | inl absent ↦ rw (absent, expire_stale_for_peer) h
    | inr (t, found) ↦
        rw (found, expire_stale_for_peer)
          (Values-insert TableIsWellFormed peer _ m.ribs
            (drain_deleted_stale-Ok outside peer now secs t
              (Values-lookup TableIsWellFormed peer t m.ribs h found))
            h)
  ]

  -- The states that the manager reaches from its start, by messages and by expiries, in any order.
  pub data Reachable : RibManager Families outside → Type 0 where
    start :
        (filter : Option outside.filters.FilterEngine)
        (roto_filter : Option outside.filters.RotoFilterEngine)
        → Reachable
            (record { speakers = []; ribs = []; filter = filter; roto_filter = roto_filter })
    receive :
        (m m' : RibManager Families outside) (msg : BmpMessage outside.clock.Time Families)
        (events : List (RibEvent outside.clock.Time Families))
        → Reachable m
        → MessageHasLabels msg.payload
        → process outside msg m ≡ ok (m', events)
        → Reachable m'
    expire :
        (m : RibManager Families outside) (now : outside.clock.Time) (peer : IpAddr) (secs : ℕ)
        → Reachable m
        → Reachable (expire_stale_for_peer outside now peer secs m).0

  -- In every state that the manager reaches from its start, by expiries and by messages whose
  -- prefixes have labels, the routes are well-formed: each stands in the table of its own peer,
  -- has a stale time exactly when it is marked stale, and is not deleted.
  pub Reachable-RibsAreWellFormed :
      (m : RibManager Families outside) → Reachable m → RibsAreWellFormed m.ribs
  Reachable-RibsAreWellFormed _ (start filter roto) = tt
  Reachable-RibsAreWellFormed _ (receive m m' msg events r l e) =
      subst (Yields (λ after. RibsAreWellFormed after.0.ribs)) e
        (process-RibsAreWellFormed msg m l (Reachable-RibsAreWellFormed m r))
  Reachable-RibsAreWellFormed _ (expire m now peer secs r) =
      expire-Ok now peer secs m (Reachable-RibsAreWellFormed m r)
