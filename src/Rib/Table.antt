-- ===== src/Rib/Table.antt =====
-- crates/rbmp-rib/src/table.rs: the routes of one peer, by RIB type and by key.
pub mod Routes
pub mod Preference
pub mod Best
pub mod Stale
use rustybmp.Base.{
  ℕ, zero, suc, ◌+◌, ◌-◌, ◌*◌, ◌/◌, ◌%◌, ◌^◌, ◌≤◌, ◌<◌, ◌≡◌, ◌≢◌, refl, sym, ap, subst, ◌∙◌, ◌↔◌,
  ◌⊎◌, inl, inr, Bool, true, false, not, ◌&&◌, ◌||◌, Option, none, some, List, [], ◌∷◌, ◌++◌, map,
  arith, ltb, leb, ltb→lt, lt→ltb, ltb-false, leb→le, ◌==◌, if◌then◌else◌, ==_iff, Bool-cases,
  Option-cases, Eq, beq_refl, nat_eq, length, get_elem?, get_or, take, drop, replicate, is_empty,
  any, All, Any, filter, length-replicate, take-append, drop-append, All-append, any_iff,
  any-filter, is_empty-filter, length-append, take-append-drop, length-take, length-drop,
}
use rustybmp.Base.Text.{Text, codes, text_beq, text_eq, starts_with}
use rustybmp.Base.Table.{Table, lookup, insert, erase, contains_key, map_values, map_option}
use rustybmp.Core.Error.{Result, ok, err, panic, stuck, ◌>>=◌}
use rustybmp.Core.Net.{IpAddr}
use rustybmp.Core.Bgp.Nlri.{Prefix}
use rustybmp.Core.Bgp.AsPath.{AsPath, hop_count}
use rustybmp.Core.Bgp.Attributes.{PathAttributes}
use rustybmp.Core.Bmp.Types.{RibType, rib_type_eq}
use rustybmp.Rib.Key.{Display, show_prefix, entry_key}

-- bgp/types.rs
pub data LlgrState : Type 0 where
  normal stale_marked deleted : LlgrState

abbrev pub is_normal : LlgrState → Bool
is_normal normal = true
is_normal _ = false

abbrev pub is_stale_marked : LlgrState → Bool
is_stale_marked stale_marked = true
is_stale_marked _ = false

pub data ℤ : Type 0 where
  pos : ℕ → ℤ
  negsuc : ℕ → ℤ

-- The crate chrono: its times, and `(now - at).num_seconds()`.
pub record Clock : Type 1 where
  pub Time : Type 0
  pub seconds_since : (now at : Time) → ℤ

pub record RibEntry (Time Families : Type 0) : Type 0 where
  pub prefix : Prefix
  pub path_id : Option ℕ
  pub attributes : PathAttributes Families
  pub received_at : Time
  pub peer_addr : IpAddr
  pub peer_as : ℕ
  pub is_best : Bool
  pub llgr_state : LlgrState
  pub stale_at : Option Time

-- The routes of one RIB type, and of all of them.
abbrev pub Routes : (Time Families : Type 0) → Type 0
Routes Time Families = Table Text (RibEntry Time Families)

abbrev pub RibTable : (Time Families : Type 0) → Type 0
RibTable Time Families = Table RibType (Routes Time Families)

abbrev pub u32_max : ℕ
u32_max = 2 ^ 32 - 1

-- `unwrap_or_default()` and `or_default()` on the routes of a RIB type
abbrev pub or_empty {ℓ κ} : {K : Type ℓ} {V : Type κ} → Option (Table K V) → Table K V
or_empty none = []
or_empty (some t) = t

abbrev pub Rank : Type 0
Rank = ℕ × (ℕ × ℕ)

-- `<` of the tuples
unfoldable pub rank_ltb : Rank → Rank → Bool
rank_ltb (a, (b, c)) (a', (b', c')) =
    if ltb a a'
    then true
    else if a == a'
    then (if ltb b b' then true else (b == b') && ltb c c')
    else false

abbrev pub matches : (prefix_str k : Text) → Bool
matches prefix_str k = text_beq k prefix_str || starts_with k (prefix_str ++ codes "@")

module _ {Time Families : Type 0} where
  -- The closure of `min_by_key`. `hop_count() as u32` wraps.
  unfoldable pub rank : RibEntry Time Families → Rank
  unfolding hop_count
  rank e =
      (lp e.attributes.local_pref, (hop e.attributes.as_path, med e.attributes.multi_exit_disc))
    where
      lp : Option ℕ → ℕ
      lp none = u32_max
      lp (some v) = u32_max - v

      hop : Option AsPath → ℕ
      hop none = 0
      hop (some p) = hop_count p % 2 ^ 32

      med : Option ℕ → ℕ
      med none = u32_max
      med (some v) = v

  -- `min_by_key`: the first entry that no later one beats. The first argument is the best so far.
  unfoldable pub best_entry :
      Text × RibEntry Time Families → Routes Time Families → Text × RibEntry Time Families
  unfolding rank_ltb rank
  best_entry b [] = b
  best_entry (bk, b) ((k, e) ∷ es) =
      let keep = best_entry (bk, b) es in
      let change = best_entry (k, e) es in if rank_ltb (rank e) (rank b) then change else keep

  -- `if let Some(e) = table.get_mut(k) { e.is_best = .. }` for the keys that `p` picks.
  unfoldable pub set_best : (p q : Text → Bool) → Routes Time Families → Routes Time Families
  set_best p q [] = []
  set_best p q ((k, e) ∷ es) =
      (k, (if p k then record e { is_best = q k } else e)) ∷ set_best p q es

  abbrev pub matches_entry : Text → Text × RibEntry Time Families → Bool
  matches_entry s (k, e) = matches s k

  -- The routes with the flags set, given those that match.
  unfoldable pub flag_best :
      Text → Routes Time Families → Routes Time Families → Routes Time Families
  unfolding best_entry set_best
  flag_best s t [] = t
  flag_best s t ((k, e) ∷ []) = set_best (λ j. text_beq j k) (λ j. true) t
  flag_best s t ((k, e) ∷ e2 ∷ es) =
      set_best (matches s) (λ j. text_beq (best_entry (k, e) (e2 ∷ es)).0 j) t

  -- `recompute_best_path` on the routes of one RIB type, with the text of the prefix.
  unfoldable pub recompute_routes : Text → Routes Time Families → Routes Time Families
  unfolding flag_best
  recompute_routes s t = flag_best s t (filter (matches_entry s) t)

module _ (display : Display) {Time Families : Type 0} where
  -- `RibTable::insert`: whether the key is new, and the table.
  unfoldable pub insert_route :
      RibType
      → RibEntry Time Families
      → RibTable Time Families
      → Result (Bool × RibTable Time Families)
  unfolding entry_key lookup insert contains_key
  insert_route rib entry tables = do
    key ← entry_key display entry.prefix entry.path_id
    let table = or_empty (lookup rib tables)
    ok (not (contains_key key table), insert rib (insert key entry table) tables)

  unfoldable pub remove_with_path_id :
      RibType
      → Prefix
      → Option ℕ
      → RibTable Time Families
      → Result (Option (RibEntry Time Families) × RibTable Time Families)
  unfolding entry_key lookup insert erase
  remove_with_path_id rib prefix path_id tables = do
    key ← entry_key display prefix path_id
    ok (elim (lookup rib tables) [
      | none ↦ (none, tables)
      | some table ↦ (lookup key table, insert rib (erase key table) tables)
    ])

  unfoldable pub get :
      RibType → Prefix → RibTable Time Families → Result (Option (RibEntry Time Families))
  unfolding entry_key lookup
  get rib prefix tables = do
    key ← entry_key display prefix none
    ok (elim (lookup rib tables) [ none ↦ none | some table ↦ lookup key table ])

  unfoldable pub recompute_best_path :
      RibType → Prefix → RibTable Time Families → Result (RibTable Time Families)
  unfolding show_prefix lookup insert recompute_routes
  recompute_best_path rib prefix tables = do
    prefix_str ← show_prefix display prefix
    ok (elim (lookup rib tables) [
      | none ↦ tables
      | some table ↦ insert rib (recompute_routes prefix_str table) tables
    ])

module _ {Time Families : Type 0} where
  unfoldable pub count : RibType → RibTable Time Families → ℕ
  unfolding lookup
  count rib tables = elim (lookup rib tables) [ none ↦ 0 | some t ↦ length t ]

  unfoldable pub clear_rib : RibType → RibTable Time Families → RibTable Time Families
  unfolding erase
  clear_rib rib tables = erase rib tables

  unfoldable pub clear_all : RibTable Time Families → RibTable Time Families
  clear_all tables = []

  -- The body of the loops of `mark_stale_all`.
  unfoldable pub mark_stale : Time → RibEntry Time Families → RibEntry Time Families
  mark_stale at e =
      if is_normal e.llgr_state
      then record e { llgr_state = stale_marked; stale_at = some at }
      else e

  unfoldable pub mark_stale_all : Time → RibTable Time Families → RibTable Time Families
  unfolding mark_stale map_values
  mark_stale_all at tables = map_values (map_values (mark_stale at)) tables

abbrev pub at_least : ℤ → ℕ → Bool
at_least (pos n) m = leb m n
at_least (negsuc n) m = false

module _ (clock : Clock) {Families : Type 0} where
  -- The condition under which `retain` drops an entry.
  unfoldable pub expired : clock.Time → ℕ → RibEntry clock.Time Families → Bool
  expired now stale_secs e = is_stale_marked e.llgr_state && elim e.stale_at [
    | none ↦ false
    | some at ↦ at_least (clock.seconds_since now at) stale_secs
  ]

  -- `retain` with the counter: the entries kept, and the number dropped.
  unfoldable pub drain_routes :
      clock.Time → ℕ → Routes clock.Time Families → Routes clock.Time Families × ℕ
  unfolding expired
  drain_routes now stale_secs [] = ([], 0)
  drain_routes now stale_secs ((k, e) ∷ es) =
      let rest = drain_routes now stale_secs es in
      if expired now stale_secs e then (rest.0, suc (rest.1)) else ((k, e) ∷ rest.0, rest.1)

  unfoldable pub drain_deleted_stale :
      clock.Time → ℕ → RibTable clock.Time Families → RibTable clock.Time Families × ℕ
  unfolding drain_routes
  drain_deleted_stale now stale_secs [] = ([], 0)
  drain_deleted_stale now stale_secs ((rib, t) ∷ tables) =
      let here = drain_routes now stale_secs t in
      let rest = drain_deleted_stale now stale_secs tables in
      ((rib, here.0) ∷ rest.0, here.1 + rest.1)
