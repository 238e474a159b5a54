-- ===== src/Rib/Table/Stale.antt =====
-- The long-lived graceful restart of a table of routes: marking and expiry.
use rustybmp.Base.{
  ap, ◌&&◌, ℕ, ◌+◌, ◌≡◌, refl, inl, inr, [], ◌∷◌, arith, Option-cases, nat_eq, Bool-cases, true,
  false, Option, none, some, ◌≤◌, ◌↔◌, sym, ◌∙◌, Purged, purged_nil, dropped, stayed,
}
use mathlib.Core.Bool.{false≢true}
use rustybmp.Base.Text.{Text, text_eq}
use rustybmp.Base.Table.{lookup, map_values, map_option, lookup-map_values}
use rustybmp.Core.Bmp.Types.{RibType, rib_type_eq}
use rustybmp.Rib.Table.{
  LlgrState, normal, deleted, stale_marked, is_stale_marked, ℤ, pos, negsuc, at_least, Clock,
  RibEntry, RibTable, Routes, mark_stale, mark_stale_all, expired, drain_routes,
  drain_deleted_stale,
}
use rustybmp.Rib.Table.Routes.{route_at}

-- After the marking, the route of every RIB type and key is the one before it, marked by
-- `mark_stale`, and there is none where there was none.
pub mark_stale_all-route_at :
    {Time Families : Type 0} (at : Time) (rib : RibType) (key : Text)
    (tables : RibTable Time Families)
    → route_at rib key (mark_stale_all at tables)
      ≡ map_option (mark_stale at) (route_at rib key tables)
unfolding route_at mark_stale_all lookup
mark_stale_all-route_at at rib key tables =
    rw (lookup-map_values (map_values (mark_stale at)) rib tables)
      (elim (Option-cases (lookup rib tables)) [
        | inl absent ↦ rw absent
        | inr (t, found) ↦ rw found (lookup-map_values (mark_stale at) key t)
      ])

-- A second marking changes nothing: a route keeps the time of its first one.
pub mark_stale-again :
    {Time Families : Type 0} (at again : Time) (e : RibEntry Time Families)
    → mark_stale again (mark_stale at e) ≡ mark_stale at e
unfolding mark_stale
mark_stale-again at again e = ground arith

is_stale_marked_iff : (s : LlgrState) → (is_stale_marked s ≡ true) ↔ (s ≡ stale_marked)
is_stale_marked_iff normal = ((λ e. cc), λ e. cc)
is_stale_marked_iff stale_marked = ((λ e. refl), λ e. refl)
is_stale_marked_iff deleted = ((λ e. cc), λ e. cc)

at_least_iff :
    (z : ℤ) (secs : ℕ) → (at_least z secs ≡ true) ↔ ((n : ℕ) × ((z ≡ pos n) × (secs ≤ n)))
at_least_iff (pos n) secs = (
  (λ e. (n, (refl, ground (arith, e)))),
  λ (m, (e, h)). let same : n ≡ m = cc in ground (arith, h, same),
)
at_least_iff (negsuc n) secs = ((λ e. absurd (ground (arith, e))), λ (m, (e, h)). absurd cc)

stale_iff :
    (clock : Clock) (now : clock.Time) (secs : ℕ) (s : LlgrState) (o : Option clock.Time)
    → ((is_stale_marked s
          && elim o [ none ↦ false | some at ↦ at_least (clock.seconds_since now at) secs ])
        ≡ true)
      ↔ ((s ≡ stale_marked)
          × ((at : clock.Time) × ((o ≡ some at)
                × ((n : ℕ) × ((clock.seconds_since now at ≡ pos n) × (secs ≤ n))))))
stale_iff clock now secs normal o = ((λ e. cc), λ p. cc)
stale_iff clock now secs deleted o = ((λ e. cc), λ p. cc)
stale_iff clock now secs stale_marked none = ((λ e. cc), λ (e, (at, (e', h))). absurd cc)
stale_iff clock now secs stale_marked (some at) =
    let both = at_least_iff (clock.seconds_since now at) secs in
    (
      (λ e. (refl, (at, (refl, both.0 e)))),
      λ (e, (at', (same, (n, (eq, h))))).
          let at≡at' : at ≡ at' = cc in both.1 (n, (ap (clock.seconds_since now) at≡at' ∙ eq, h)),
    )

module _ (clock : Clock) {Families : Type 0} where
  -- The route is marked stale, and the time of its marking lies `secs` seconds back at least.
  abbrev pub HasExpired : clock.Time → ℕ → Text × RibEntry clock.Time Families → Type 0
  HasExpired now secs (k, e) =
      (e.llgr_state ≡ stale_marked)
      × ((at : clock.Time) × ((e.stale_at ≡ some at)
            × ((n : ℕ) × ((clock.seconds_since now at ≡ pos n) × (secs ≤ n)))))

  expired_iff :
      (now : clock.Time) (secs : ℕ) (k : Text) (e : RibEntry clock.Time Families)
      → (expired clock now secs e ≡ true) ↔ HasExpired now secs (k, e)
  unfolding expired
  expired_iff now secs k e = stale_iff clock now secs e.llgr_state e.stale_at

  drain_routes-Purged :
      (now : clock.Time) (secs : ℕ) (t : Routes clock.Time Families)
      → Purged
          (HasExpired now secs)
          t
          (drain_routes clock now secs t).0
          (drain_routes clock now secs t).1
  unfolding drain_routes
  drain_routes-Purged now secs [] = purged_nil
  drain_routes-Purged now secs ((k, e) ∷ t) = elim (Bool-cases (expired clock now secs e)) [
    | inl yes' ↦
        rw yes' (dropped ((expired_iff now secs k e).0 yes') (drain_routes-Purged now secs t))
    | inr no' ↦ rw no' (
        stayed (λ q. false≢true (sym no' ∙ (expired_iff now secs k e).1 q))
          (drain_routes-Purged now secs t))
  ]

  -- The tables of each RIB type without their expired routes, and the number of these in all.
  pub data Drained (now : clock.Time) (secs : ℕ)
      : RibTable clock.Time Families → RibTable clock.Time Families → ℕ → Type 0 where
    no_tables : Drained now secs [] [] 0
    next_table :
        {rib : RibType} {t left : Routes clock.Time Families}
        {tables rest : RibTable clock.Time Families} {n m : ℕ}
        → Purged (HasExpired now secs) t left n
        → Drained now secs tables rest m
        → Drained now secs ((rib, t) ∷ tables) ((rib, left) ∷ rest) (n + m)

  -- The expiry drops, in every RIB type, exactly the routes that are marked stale and were marked at
  -- least so many seconds ago; the others stay in their order, and its result is the number of the
  -- routes that it dropped.
  pub drain_deleted_stale_lem :
      (now : clock.Time) (secs : ℕ) (tables : RibTable clock.Time Families)
      → Drained now secs tables
          (drain_deleted_stale clock now secs tables).0
          (drain_deleted_stale clock now secs tables).1
  unfolding drain_deleted_stale
  drain_deleted_stale_lem now secs [] = no_tables
  drain_deleted_stale_lem now secs ((rib, t) ∷ tables) =
      next_table (drain_routes-Purged now secs t) (drain_deleted_stale_lem now secs tables)
