-- ===== src/Rib/Manager/Routing.antt =====
-- What an update does to the routes, against a description by the keys of its prefixes.
use rustybmp.Base.{
  ℕ, ◌≡◌, refl, sym, ap, ◌∙◌, inl, inr, Bool, true, false, not, ◌&&◌, Option, none, some, List, [],
  ◌∷◌, if◌then◌else◌, Bool-cases, nat_eq,
}
use rustybmp.Base.Text.{Text, text_beq, text_eq}
use rustybmp.Base.Table.{lookup, map_option, lookup-insert}
use rustybmp.Core.Error.{ok, Yields, Yields-bind}
use rustybmp.Core.Net.{IpAddr, ip_eq, ip_beq, ip_beq_iff}
use rustybmp.Core.Bgp.Nlri.{Prefix}
use rustybmp.Core.Bgp.Attributes.{
  PathAttributes, BgpUpdate, all_announced_with_path_id, all_withdrawn_with_path_id,
}
use rustybmp.Core.Bmp.Types.{RibType, PeerHeader, rib_type_beq}
use rustybmp.Rib.Key.{Display, entry_key}
use rustybmp.Rib.Key.Labels.{HasLabels, HaveLabels, show_prefix-Makes, entry_key-Makes}
use rustybmp.Rib.Table.{RibEntry, RibTable, or_empty, insert_route, remove_with_path_id}
use rustybmp.Rib.Table.Routes.{route_at, insert_route_lem, remove_with_path_id_lem}
use rustybmp.Rib.Table.Best.{forget_best, recompute_best_path-forget_best}
use rustybmp.Rib.Manager.{
  Outside, RibManager, FilterVerdict, is_deny, withdraw_routes, announce_routes, recompute_if,
  new_entry, filter_verdict, process_update,
}

if-same {ℓ} : {A : Type ℓ} (b : Bool) (a : A) → a ≡ (if b then a else a)
if-same true a = refl
if-same false a = refl

-- The description. Whether a route of the update has the key:
unfoldable pub has_key : Display → Text → Prefix × Option ℕ → Bool
has_key display key (prefix, path_id) = elim (entry_key display prefix path_id) [
  | ok k ↦ text_beq k key
  | _ ↦ false
]

-- the route that a key has after a list of withdrawals,
unfoldable pub withdrawn_from :
    {A : Type 0} → Display → Text → List (Prefix × Option ℕ) → Option A → Option A
unfolding has_key
withdrawn_from display key [] before = before
withdrawn_from display key (r ∷ routes) before =
    withdrawn_from display key routes (if has_key display key r then none else before)

-- and after a list of announcements: the last of them that has the key and is not denied.
unfoldable pub announced_in :
    {A : Type 0}
    → Display
    → (verdict : Prefix → FilterVerdict) → (make : Prefix → Option ℕ → A) → Text
    → List (Prefix × Option ℕ)
    → Option A
    → Option A
unfolding has_key
announced_in display verdict make key [] before = before
announced_in display verdict make key ((prefix, path_id) ∷ routes) before =
    announced_in display verdict make key routes (
      if not (is_deny (verdict prefix)) && has_key display key (prefix, path_id)
      then some (make prefix path_id)
      else before)

-- One step of either loop, with `f` for what the rest of the loop does to the view of a key.
step_lem {ℓ} :
    {E : Type ℓ} (b t : Bool) (f : Option E → Option E) (x v v' : Option E)
    → v' ≡ (if b && t then x else v)
    → (if b then f v' else v') ≡ (if b then f (if t then x else v) else v)
step_lem true t f x v v' e = ap f e
step_lem false t f x v v' e = e

map-if {ℓ κ} :
    {A : Type ℓ} {B : Type κ} (f : A → B) (b : Bool) (x y : Option A)
    → map_option f (if b then x else y) ≡ (if b then map_option f x else map_option f y)
map-if f true x y = refl
map-if f false x y = refl

has_key_lem :
    (display : Display) (p : Prefix) (id : Option ℕ) (k key : Text)
    → entry_key display p id ≡ ok k
    → has_key display key (p, id) ≡ text_beq k key
unfolding has_key
has_key_lem display p id k key e = rw (e, has_key)

module _ {Families : Type 0} (outside : Outside Families) where
  abbrev Entry : Type 0
  Entry = RibEntry outside.clock.Time Families

  -- The route of a RIB type under a key, but for the best-path flag.
  abbrev pub view :
      RibType
      → Text
      → RibTable outside.clock.Time Families
      → Option (RibEntry outside.clock.Time Families)
  view rib key tables = map_option forget_best (route_at rib key tables)

  withdraw_routes_lem :
      (speaker : IpAddr) (hdr : PeerHeader outside.clock.Time) (routes : List (Prefix × Option ℕ))
      (tables : RibTable outside.clock.Time Families)
      → HaveLabels routes
      → Yields
          (λ after.
            (rib : RibType) (key : Text)
            → view rib key (after.0) ≡ (
                if rib_type_beq hdr.rib_type rib
                then withdrawn_from outside.display key routes (view rib key tables)
                else view rib key tables))
          (withdraw_routes outside speaker hdr routes tables)
  unfolding withdraw_routes withdrawn_from
  withdraw_routes_lem speaker hdr [] tables h =
      λ rib key. if-same (rib_type_beq hdr.rib_type rib) (view rib key tables)
  withdraw_routes_lem speaker hdr ((p, id) ∷ routes) tables (h, hs) =
      let (k, e) = entry_key-Makes outside.display p id h in
      let here = remove_with_path_id_lem outside.display hdr.rib_type p id tables k e in
      Yields-bind _ _ (remove_with_path_id outside.display hdr.rib_type p id tables) _ here
        λ removed gone.
          Yields-bind _ _ (withdraw_routes outside speaker hdr routes (removed.1)) _
            (withdraw_routes_lem speaker hdr routes (removed.1) hs)
            λ after rest rib key.
              rest rib key
              ∙ step_lem (rib_type_beq hdr.rib_type rib) (has_key outside.display key (p, id))
                  (withdrawn_from outside.display key routes) none (view rib key tables) _
                  (rw (has_key_lem outside.display p id k key e)
                    (ap (map_option forget_best) (gone.1 rib key) ∙ map-if forget_best _ none _))

  recompute_if_lem :
      (id : Option ℕ) (rib_type : RibType) (p : Prefix)
      (tables : RibTable outside.clock.Time Families)
      → HasLabels p
      → Yields
          (λ after. (rib : RibType) (key : Text) → view rib key after ≡ view rib key tables)
          (recompute_if outside id rib_type p tables)
  unfolding recompute_if
  recompute_if_lem none rib_type p tables h = λ rib key. refl
  recompute_if_lem (some id) rib_type p tables h =
      let (s, e) = show_prefix-Makes outside.display p h in
      recompute_best_path-forget_best outside.display rib_type p s tables e

  -- The route that an announcement makes, with no best-path flag.
  abbrev pub announced :
      PeerHeader outside.clock.Time
      → outside.clock.Time
      → PathAttributes Families
      → Prefix
      → Option ℕ
      → RibEntry outside.clock.Time Families
  announced hdr now attributes p id = forget_best (new_entry outside hdr now attributes p id)

  announce_routes_lem :
      (speaker : IpAddr) (hdr : PeerHeader outside.clock.Time) (now : outside.clock.Time)
      (attributes : PathAttributes Families) (verdict : Prefix → FilterVerdict)
      (routes : List (Prefix × Option ℕ)) (tables : RibTable outside.clock.Time Families)
      → HaveLabels routes
      → Yields
          (λ after.
            (rib : RibType) (key : Text)
            → view rib key (after.0) ≡ (
                if rib_type_beq hdr.rib_type rib
                then announced_in outside.display verdict
                    (announced hdr now attributes)
                    key
                    routes
                    (view rib key tables)
                else view rib key tables))
          (announce_routes outside speaker hdr now attributes verdict routes tables)
  unfolding announce_routes announced_in
  announce_routes_lem speaker hdr now attributes verdict [] tables h =
      λ rib key. if-same (rib_type_beq hdr.rib_type rib) (view rib key tables)
  announce_routes_lem speaker hdr now attributes verdict ((p, id) ∷ routes) tables (h, hs) =
      elim (Bool-cases (is_deny (verdict p))) [
        | inl denied ↦
            rw denied (announce_routes_lem speaker hdr now attributes verdict routes tables hs)
        | inr allowed ↦
            let (k, e) = entry_key-Makes outside.display p id h in
            let entry = new_entry outside hdr now attributes p id in
            rw allowed (
              Yields-bind _ _ (insert_route outside.display hdr.rib_type entry tables) _
                (insert_route_lem outside.display hdr.rib_type entry tables k e)
                λ new put.
                  Yields-bind _ _ (recompute_if outside id hdr.rib_type p (new.1)) _
                    (recompute_if_lem id hdr.rib_type p (new.1) h)
                    λ ready kept.
                      Yields-bind _ _
                        (announce_routes outside speaker hdr now attributes verdict routes ready) _
                        (announce_routes_lem speaker hdr now attributes verdict routes ready hs)
                        λ after rest rib key.
                          rest rib key
                          ∙ step_lem (rib_type_beq hdr.rib_type rib)
                              (has_key outside.display key (p, id))
                              (announced_in outside.display verdict (announced hdr now attributes)
                                key routes)
                              (some (announced hdr now attributes p id)) (view rib key tables) _
                              (rw (has_key_lem outside.display p id k key e) (
                                kept rib key
                                ∙ ap (map_option forget_best) (put.1.0 rib key)
                                ∙ map-if forget_best _ (some entry) _)))
      ]

  abbrev pub peer_view :
      IpAddr
      → RibType
      → Text
      → RibManager Families outside
      → Option (RibEntry outside.clock.Time Families)
  peer_view peer rib key m = view rib key (or_empty (lookup peer m.ribs))

  -- An update changes only the routes of its peer and of its RIB type. The route that it leaves
  -- under a key is the last of the announcements with that key that no filter denies, else none if
  -- a withdrawal has the key, else the route that was there; in this the best-path flags are left
  -- out. The call succeeds where every labelled prefix of the update has a label, and the sessions
  -- stay.
  pub process_update-peer_view :
      (speaker : IpAddr) (now : outside.clock.Time) (hdr : PeerHeader outside.clock.Time)
      (update : BgpUpdate Families) (m : RibManager Families outside)
      → HaveLabels (all_withdrawn_with_path_id update)
      → HaveLabels (all_announced_with_path_id update)
      → Yields
          (λ after.
            (after.0.speakers ≡ m.speakers)
            × ((peer : IpAddr) (rib : RibType) (key : Text)
                → peer_view peer rib key (after.0) ≡ (
                    if ip_beq hdr.peer_address peer && rib_type_beq hdr.rib_type rib
                    then announced_in outside.display
                        (filter_verdict outside m hdr update.attributes)
                        (announced hdr now update.attributes)
                        key
                        (all_announced_with_path_id update)
                        (withdrawn_from outside.display key
                          (all_withdrawn_with_path_id update)
                          (peer_view peer rib key m))
                    else peer_view peer rib key m)))
          (process_update outside speaker now hdr update m)
  unfolding process_update
  process_update-peer_view speaker now hdr update m hw ha =
      Yields-bind _ _
        (withdraw_routes outside speaker hdr (all_withdrawn_with_path_id update)
          (or_empty (lookup hdr.peer_address m.ribs)))
        _ (withdraw_routes_lem speaker hdr (all_withdrawn_with_path_id update) _ hw)
        λ removed gone.
          Yields-bind _ _
            (announce_routes outside speaker hdr now update.attributes
              (filter_verdict outside m hdr update.attributes) (all_announced_with_path_id update)
              (removed.0))
            _
            (announce_routes_lem speaker hdr now update.attributes _
              (all_announced_with_path_id update) (removed.0) ha)
            λ added put. (
              refl,
              λ peer rib key.
                  rw (lookup-insert hdr.peer_address peer (added.0) m.ribs)
                    (elim (Bool-cases (ip_beq hdr.peer_address peer)) [
                      | inl same ↦
                          let e : hdr.peer_address ≡ peer =
                            (ip_beq_iff hdr.peer_address peer).0 same in
                          rw same (
                            rw (sym e) (
                              put rib key
                              ∙ both (rib_type_beq hdr.rib_type rib)
                                  (announced_in outside.display
                                    (filter_verdict outside m hdr update.attributes)
                                    (announced hdr now update.attributes) key
                                    (all_announced_with_path_id update))
                                  _ _ _ (gone rib key)))
                      | inr other ↦ rw other
                    ]),
            )
    where
      both :
          (b : Bool)
          (f : Option (RibEntry outside.clock.Time Families)
            → Option (RibEntry outside.clock.Time Families))
          (v w x : Option (RibEntry outside.clock.Time Families))
          → v ≡ (if b then w else x)
          → (if b then f v else v) ≡ (if b then f w else x)
      both true f v w x e = ap f e
      both false f v w x e = e
