-- ===== src/Rib/Table/Routes.antt =====
-- What the operations of a table of routes do to the route under any key.
use rustybmp.Base.{
  ℕ, suc, ◌≡◌, refl, subst, ◌∙◌, inl, inr, Bool, true, false, not, ◌&&◌, Option, none, some, arith,
  if◌then◌else◌, Bool-cases, Option-cases, beq_refl, nat_eq, length,
}
use rustybmp.Base.Text.{Text, text_beq, text_eq}
use rustybmp.Base.Table.{
  lookup, insert, erase, contains_key, is_some, lookup-insert, lookup-erase, length-insert,
}
use rustybmp.Core.Error.{ok, Yields}
use rustybmp.Core.Bgp.Nlri.{Prefix}
use rustybmp.Core.Bmp.Types.{RibType, rib_type_eq, rib_type_beq}
use rustybmp.Rib.Key.{Display, entry_key}
use rustybmp.Rib.Table.{
  RibEntry, RibTable, Routes, or_empty, insert_route, remove_with_path_id, count,
}

-- The route of a RIB type under a key.
unfoldable pub route_at :
    {Time Families : Type 0}
    → RibType
    → Text
    → RibTable Time Families
    → Option (RibEntry Time Families)
unfolding lookup
route_at rib key tables = lookup key (or_empty (lookup rib tables))

-- The routes of one RIB type replaced.
pub route_at-insert :
    {Time Families : Type 0} (rib rib' : RibType) (key' : Text) (t : Routes Time Families)
    (tables : RibTable Time Families)
    → route_at rib' key' (insert rib t tables)
      ≡ (if rib_type_beq rib rib' then lookup key' t else route_at rib' key' tables)
unfolding route_at
route_at-insert rib rib' key' t tables =
    rw (lookup-insert rib rib' t tables)
      (elim (Bool-cases (rib_type_beq rib rib')) [ inl same ↦ rw same | inr other ↦ rw other ])

-- What `lookup-insert` says where the routes of the type were those of the table.
route_at-changed :
    {Time Families : Type 0} (rib rib' : RibType) (key key' : Text) (t : Routes Time Families)
    (r : Option (RibEntry Time Families)) (tables : RibTable Time Families)
    → lookup key' t ≡ (if text_beq key key' then r else lookup key' (or_empty (lookup rib tables)))
    → route_at rib' key' (insert rib t tables)
      ≡ (if rib_type_beq rib rib' && text_beq key key' then r else route_at rib' key' tables)
unfolding route_at
route_at-changed rib rib' key key' t r tables h =
    route_at-insert rib rib' key' t tables ∙ elim (Bool-cases (rib_type_beq rib rib')) [
      | inl same ↦
          let e : rib ≡ rib' = (rib_type_eq.beq_iff rib rib').0 same in
          rw same (
            subst
              (λ x.
                lookup key' t
                ≡ (if text_beq key key' then r else lookup key' (or_empty (lookup x tables))))
              e h)
      | inr other ↦ rw other
    ]

count_lem :
    {Time Families : Type 0} (rib : RibType) (tables : RibTable Time Families)
    → count rib tables ≡ length (or_empty (lookup rib tables))
unfolding count lookup
count_lem rib tables = elim (Option-cases (lookup rib tables)) [
  | inl absent ↦ rw (absent, count, lookup)
  | inr (t, found) ↦ rw (found, count)
]

count-insert :
    {Time Families : Type 0} (rib : RibType) (t : Routes Time Families)
    (tables : RibTable Time Families)
    → count rib (insert rib t tables) ≡ length t
unfolding count
count-insert rib t tables =
    rw (lookup-insert rib rib t tables, count) (rw (beq_refl rib_type_eq rib))

if-not : (b : Bool) (m n : ℕ) → (if b then m else n) ≡ (if not b then n else m)
if-not true m n = refl
if-not false m n = refl

-- A RIB type without a table has no routes.
route_at-none :
    {Time Families : Type 0} (rib rib' : RibType) (key key' : Text)
    (tables : RibTable Time Families)
    → lookup rib tables ≡ none
    → route_at rib' key' tables
      ≡ (if rib_type_beq rib rib' && text_beq key key' then none else route_at rib' key' tables)
unfolding route_at lookup
route_at-none rib rib' key key' tables absent = elim (Bool-cases (rib_type_beq rib rib')) [
  | inl same ↦
      let e : rib ≡ rib' = (rib_type_eq.beq_iff rib rib').0 same in
      let gone : lookup rib' tables ≡ none = subst (λ x. lookup x tables ≡ none) e absent in
      ground (arith, gone)
  | inr other ↦ rw other
]

module _ (display : Display) {Time Families : Type 0} where
  -- Where the key of the entry can be made, an insertion succeeds: the entry stands under its
  -- key, every other route of every RIB type is what it was, the result says whether there was no
  -- route under the key, and the count of the RIB type grows by one exactly then.
  pub insert_route_lem :
      (rib : RibType) (entry : RibEntry Time Families) (tables : RibTable Time Families)
      (key : Text)
      → entry_key display entry.prefix entry.path_id ≡ ok key
      → Yields
          (λ (new, after).
            (new ≡ not (is_some (route_at rib key tables)))
            × (((rib' : RibType) (key' : Text)
                  → route_at rib' key' after ≡ (
                      if rib_type_beq rib rib' && text_beq key key'
                      then some entry
                      else route_at rib' key' tables))
                × (count rib after ≡ (if new then suc (count rib tables) else count rib tables))))
          (insert_route display rib entry tables)
  unfolding insert_route contains_key route_at count
  insert_route_lem rib entry tables key e =
      let t = or_empty (lookup rib tables) in
      let table = insert key entry t in
      rw e (
        refl,
        (
          (λ rib' key'.
              route_at-changed rib rib' key key' table (some entry) tables
                (lookup-insert key key' entry t)),
          rw (count-insert rib table tables) (
              rw (count_lem rib tables)
                (rw (length-insert key entry t) (if-not (contains_key key t) _ _))),
        ),
      )

  -- Where the key can be made, a removal succeeds: no route stands under the key, every other
  -- route of every RIB type is what it was, and the result is the route that was there.
  pub remove_with_path_id_lem :
      (rib : RibType) (prefix : Prefix) (path_id : Option ℕ) (tables : RibTable Time Families)
      (key : Text)
      → entry_key display prefix path_id ≡ ok key
      → Yields
          (λ (removed, after).
            (removed ≡ route_at rib key tables)
            × ((rib' : RibType) (key' : Text)
                → route_at rib' key' after ≡ (
                    if rib_type_beq rib rib' && text_beq key key'
                    then none
                    else route_at rib' key' tables)))
          (remove_with_path_id display rib prefix path_id tables)
  unfolding remove_with_path_id route_at lookup
  remove_with_path_id_lem rib prefix path_id tables key e =
      elim (Option-cases (lookup rib tables)) [
        | inl absent ↦
            rw e (rw absent (refl, λ rib' key'. route_at-none rib rib' key key' tables absent))
        | inr (t, found) ↦ rw e (
            rw found (
              refl,
              λ rib' key'.
                  route_at-changed rib rib' key key' (erase key t) none tables
                    (rw found (lookup-erase key key' t)),
            ))
      ]
