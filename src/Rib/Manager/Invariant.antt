-- ===== src/Rib/Manager/Invariant.antt =====
-- What holds of every route that the manager holds, whatever messages it has taken.
use rustybmp.Base.{
  ℕ, ◌≡◌, refl, inl, inr, Bool, Option, none, some, List, [], ◌∷◌, Bool-cases, Option-cases, nat_eq,
  filter,
}
use rustybmp.Base.Text.{Text, text_eq}
use rustybmp.Base.Table.{
  Table, lookup, erase, map_values, Values, Values-insert, Values-erase, Values-lookup,
}
use rustybmp.Core.Error.{Yields, Yields-bind}
use rustybmp.Core.Net.{IpAddr, ip_eq}
use rustybmp.Core.Bgp.Nlri.{Prefix}
use rustybmp.Core.Bgp.Attributes.{PathAttributes}
use rustybmp.Core.Bmp.Types.{RibType, PeerHeader, rib_type_eq}
use rustybmp.Rib.Table.{
  RibEntry, RibTable, Routes, LlgrState, normal, stale_marked, or_empty, insert_route,
  remove_with_path_id, recompute_best_path, recompute_routes, flag_best, set_best, matches_entry,
  is_normal, mark_stale, mark_stale_all, expired, drain_routes, drain_deleted_stale,
}
use rustybmp.Rib.Manager.{
  Outside, FilterVerdict, is_deny, withdraw_routes, announce_routes, recompute_if, new_entry,
}
use rustybmp.Rib.Key.Labels.{HasLabels, HaveLabels, show_prefix-Makes, entry_key-Makes}

-- A route has the time at which it became stale exactly when it is marked stale, and no route that
-- is held is deleted.
abbrev pub StaleTime : {Time : Type 0} → LlgrState → Option Time → Type 0
StaleTime normal none = Unit
StaleTime stale_marked (some at) = Unit
StaleTime _ _ = ⊥

-- A route of a peer belongs to that peer.
unfoldable pub EntryIsWellFormed :
    {Time Families : Type 0} → IpAddr → RibEntry Time Families → Type 0
EntryIsWellFormed peer e = (e.peer_addr ≡ peer) × StaleTime e.llgr_state e.stale_at

abbrev pub RoutesAreWellFormed : {Time Families : Type 0} → IpAddr → Routes Time Families → Type 0
RoutesAreWellFormed peer t = Values (λ key e. EntryIsWellFormed peer e) t

abbrev pub TableIsWellFormed : {Time Families : Type 0} → IpAddr → RibTable Time Families → Type 0
TableIsWellFormed peer tables = Values (λ rib t. RoutesAreWellFormed peer t) tables

abbrev pub RibsAreWellFormed :
    {Time Families : Type 0} → Table IpAddr (RibTable Time Families) → Type 0
RibsAreWellFormed ribs = Values TableIsWellFormed ribs

module _ {Time Families : Type 0} (peer : IpAddr) where
  routes-at :
      (rib : RibType) (tables : RibTable Time Families)
      → TableIsWellFormed peer tables
      → RoutesAreWellFormed peer (or_empty (lookup rib tables))
  routes-at rib tables h = elim (Option-cases (lookup rib tables)) [
    | inl absent ↦ rw absent tt
    | inr (t, found) ↦
        rw found (Values-lookup (λ rib t. RoutesAreWellFormed peer t) rib t tables h found)
  ]

  set_best-Ok :
      (p q : Text → Bool) (t : Routes Time Families)
      → RoutesAreWellFormed peer t
      → RoutesAreWellFormed peer (set_best p q t)
  unfolding set_best EntryIsWellFormed
  set_best-Ok p q [] h = tt
  set_best-Ok p q ((k, e) ∷ t) (h, hs) = elim (Bool-cases (p k)) [
    | inl picked ↦ (rw picked h, set_best-Ok p q t hs)
    | inr other ↦ (rw other h, set_best-Ok p q t hs)
  ]

  flag_best-Ok :
      (s : Text) (t m : Routes Time Families)
      → RoutesAreWellFormed peer t
      → RoutesAreWellFormed peer (flag_best s t m)
  unfolding flag_best
  flag_best-Ok s t [] h = h
  flag_best-Ok s t ((k, e) ∷ []) h = set_best-Ok _ _ t h
  flag_best-Ok s t ((k, e) ∷ e2 ∷ es) h = set_best-Ok _ _ t h

  mark_stale-Ok :
      (at : Time) (e : RibEntry Time Families)
      → EntryIsWellFormed peer e
      → EntryIsWellFormed peer (mark_stale at e)
  unfolding mark_stale EntryIsWellFormed
  mark_stale-Ok at e h = elim (Bool-cases (is_normal e.llgr_state)) [
    | inl fresh ↦ rw fresh (h.0, tt)
    | inr other ↦ rw other h
  ]

  map-Ok :
      (at : Time) (t : Routes Time Families)
      → RoutesAreWellFormed peer t
      → RoutesAreWellFormed peer (map_values (mark_stale at) t)
  unfolding map_values
  map-Ok at [] h = tt
  map-Ok at ((k, e) ∷ t) (h, hs) = (mark_stale-Ok at e h, map-Ok at t hs)

  pub mark_stale_all-Ok :
      (at : Time) (tables : RibTable Time Families)
      → TableIsWellFormed peer tables
      → TableIsWellFormed peer (mark_stale_all at tables)
  unfolding mark_stale_all map_values
  mark_stale_all-Ok at [] h = tt
  mark_stale_all-Ok at ((rib, t) ∷ tables) (h, hs) = (map-Ok at t h, mark_stale_all-Ok at tables hs)

module _ {Families : Type 0} (outside : Outside Families) where
  drain_routes-Ok :
      (peer : IpAddr) (now : outside.clock.Time) (secs : ℕ) (t : Routes outside.clock.Time Families)
      → RoutesAreWellFormed peer t
      → RoutesAreWellFormed peer (drain_routes outside.clock now secs t).0
  unfolding drain_routes
  drain_routes-Ok peer now secs [] h = tt
  drain_routes-Ok peer now secs ((k, e) ∷ t) (h, hs) =
      elim (Bool-cases (expired outside.clock now secs e)) [
        | inl gone ↦ rw gone (drain_routes-Ok peer now secs t hs)
        | inr kept ↦ rw kept (h, drain_routes-Ok peer now secs t hs)
      ]

  pub drain_deleted_stale-Ok :
      (peer : IpAddr) (now : outside.clock.Time) (secs : ℕ)
      (tables : RibTable outside.clock.Time Families)
      → TableIsWellFormed peer tables
      → TableIsWellFormed peer (drain_deleted_stale outside.clock now secs tables).0
  unfolding drain_deleted_stale
  drain_deleted_stale-Ok peer now secs [] h = tt
  drain_deleted_stale-Ok peer now secs ((rib, t) ∷ tables) (h, hs) =
      (drain_routes-Ok peer now secs t h, drain_deleted_stale-Ok peer now secs tables hs)

  pub withdraw_routes-Ok :
      (peer speaker : IpAddr) (hdr : PeerHeader outside.clock.Time)
      (routes : List (Prefix × Option ℕ)) (tables : RibTable outside.clock.Time Families)
      → HaveLabels routes
      → TableIsWellFormed peer tables
      → Yields
          (λ after. TableIsWellFormed peer (after.0))
          (withdraw_routes outside speaker hdr routes tables)
  unfolding withdraw_routes remove_with_path_id
  withdraw_routes-Ok peer speaker hdr [] tables hl h = h
  withdraw_routes-Ok peer speaker hdr ((p, id) ∷ routes) tables (hp, hl) h =
      Yields-bind (λ removed. TableIsWellFormed peer (removed.1)) _
        (remove_with_path_id outside.display hdr.rib_type p id tables) _ here
        λ removed hr.
          Yields-bind (λ after. TableIsWellFormed peer (after.0)) _
            (withdraw_routes outside speaker hdr routes (removed.1)) _
            (withdraw_routes-Ok peer speaker hdr routes (removed.1) hl hr) λ after ha. ha
    where
      here :
          Yields
            (λ removed. TableIsWellFormed peer (removed.1))
            (remove_with_path_id outside.display hdr.rib_type p id tables)
      here =
          let (k, e) = entry_key-Makes outside.display p id hp in
          elim (Option-cases (lookup hdr.rib_type tables)) [
            | inl absent ↦ rw e (rw absent h)
            | inr (t, found) ↦
                let ht =
                  Values-lookup (λ rib t. RoutesAreWellFormed peer t) hdr.rib_type t tables h
                    found in
                rw e (
                  rw found (
                    Values-insert (λ rib t. RoutesAreWellFormed peer t) hdr.rib_type (erase k t)
                      tables (Values-erase (λ key e. EntryIsWellFormed peer e) k t ht) h))
          ]

  recompute_if-Ok :
      (peer : IpAddr) (id : Option ℕ) (rib : RibType) (p : Prefix)
      (tables : RibTable outside.clock.Time Families)
      → HasLabels p
      → TableIsWellFormed peer tables
      → Yields (TableIsWellFormed peer) (recompute_if outside id rib p tables)
  unfolding recompute_if recompute_best_path recompute_routes
  recompute_if-Ok peer none rib p tables hp h = h
  recompute_if-Ok peer (some id) rib p tables hp h =
      let (s, e) = show_prefix-Makes outside.display p hp in
      elim (Option-cases (lookup rib tables)) [
        | inl absent ↦ rw e (rw absent h)
        | inr (t, found) ↦
            let ht = Values-lookup (λ rib t. RoutesAreWellFormed peer t) rib t tables h found in
            rw e (
              rw found (
                Values-insert (λ rib t. RoutesAreWellFormed peer t) rib _ tables
                  (flag_best-Ok peer s t (filter (matches_entry s) t) ht) h))
      ]

  pub announce_routes-Ok :
      (speaker : IpAddr) (hdr : PeerHeader outside.clock.Time) (now : outside.clock.Time)
      (attributes : PathAttributes Families) (verdict : Prefix → FilterVerdict)
      (routes : List (Prefix × Option ℕ)) (tables : RibTable outside.clock.Time Families)
      → HaveLabels routes
      → TableIsWellFormed hdr.peer_address tables
      → Yields
          (λ after. TableIsWellFormed hdr.peer_address (after.0))
          (announce_routes outside speaker hdr now attributes verdict routes tables)
  unfolding announce_routes insert_route EntryIsWellFormed
  announce_routes-Ok speaker hdr now attributes verdict [] tables hl h = h
  announce_routes-Ok speaker hdr now attributes verdict ((p, id) ∷ routes) tables (hp, hl) h =
      elim (Bool-cases (is_deny (verdict p))) [
        | inl denied ↦
            rw denied (announce_routes-Ok speaker hdr now attributes verdict routes tables hl h)
        | inr allowed ↦
            let (k, e) = entry_key-Makes outside.display p id hp in
            let put =
              Values-insert (λ rib t. RoutesAreWellFormed hdr.peer_address t) hdr.rib_type _ tables
                (Values-insert (λ key e. EntryIsWellFormed hdr.peer_address e) k
                  (new_entry outside hdr now attributes p id)
                  (or_empty (lookup hdr.rib_type tables)) (refl, tt)
                  (routes-at hdr.peer_address hdr.rib_type tables h))
                h in
            rw allowed (
              rw e (
                Yields-bind (TableIsWellFormed hdr.peer_address) _
                  (recompute_if outside id hdr.rib_type p _) _
                  (recompute_if-Ok hdr.peer_address id hdr.rib_type p _ hp put)
                  λ ready hr.
                    Yields-bind (λ after. TableIsWellFormed hdr.peer_address (after.0)) _
                      (announce_routes outside speaker hdr now attributes verdict routes ready) _
                      (announce_routes-Ok speaker hdr now attributes verdict routes ready hl hr)
                      λ after ha. ha))
      ]
