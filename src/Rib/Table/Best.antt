-- ===== src/Rib/Table/Best.antt =====
-- The best path among the routes of one prefix.
use rustybmp.Base.{
  ◌∙◌, any, any_iff, is_empty-filter, ◌≡◌, refl, sym, subst, inl, inr, Bool, true, false, Option,
  none, some, List, [], ◌∷◌, if◌then◌else◌, Bool-cases, Option-cases, nat_eq, is_empty, All, Any,
  filter,
}
use mathlib.Core.Option.{none-ne-some}
use mathlib.Core.Bool.{false≢true}
use rustybmp.Base.Text.{Text, text_beq, text_eq}
use rustybmp.Base.Table.{lookup, insert, map_option}
use rustybmp.Core.Error.{ok, Yields}
use rustybmp.Core.Bgp.Nlri.{Prefix}
use rustybmp.Core.Bmp.Types.{RibType, rib_type_eq, rib_type_beq}
use rustybmp.Rib.Key.{Display, show_prefix}
use rustybmp.Rib.Table.{
  RibEntry, RibTable, Routes, set_best, matches, matches_entry, recompute_routes,
  recompute_best_path, flag_best, best_entry, rank, rank_ltb,
}
use rustybmp.Rib.Table.Preference.{
  IsOf, Fits, Preferred, rank_ltb_trans, rank_leb_trans, rank_ltb_irrefl, matches_iff,
  Preferred-rank_ltb,
}
use rustybmp.Rib.Table.Routes.{route_at, route_at-insert}

All-filter {ℓ} :
    {A : Type ℓ} (p : A → Bool) (P : A → Type 0) (xs : List A)
    → All P (filter p xs)
    → All (λ x. p x ≡ true → P x) xs
All-filter p P [] h = tt
All-filter p P (x ∷ xs) h = go (p x) (λ gs. All-filter p P xs gs) h
  where
    go :
        (b : Bool)
        → (All P (filter p xs) → All (λ y. p y ≡ true → P y) xs)
        → All P (elim b [ true ↦ x ∷ filter p xs | false ↦ filter p xs ])
        → (b ≡ true → P x) × All (λ y. p y ≡ true → P y) xs
    go true rest (g, gs) = ((λ e. g), rest gs)
    go false rest gs = ((λ e. elim (false≢true e) [ ]), rest gs)

module _ {Time Families : Type 0} where
  -- A route but for its best-path flag.
  abbrev pub forget_best : RibEntry Time Families → RibEntry Time Families
  forget_best e = record e { is_best = false }

  set_best-lookup :
      (p q : Text → Bool) (key : Text) (t : Routes Time Families)
      → lookup key (set_best p q t)
        ≡ map_option (λ e. if p key then record e { is_best = q key } else e) (lookup key t)
  unfolding lookup set_best
  set_best-lookup p q key [] = refl
  set_best-lookup p q key ((k, e) ∷ t) = elim (Bool-cases (text_beq k key)) [
    | inl same ↦
        let k≡key : k ≡ key = (text_eq.beq_iff k key).0 same in
        rw same (
          subst
            (λ x.
              some (if p k then record e { is_best = q k } else e)
              ≡ some (if p x then record e { is_best = q x } else e))
            k≡key refl)
    | inr other ↦ rw other (set_best-lookup p q key t)
  ]

  forget-set_best :
      (p q : Text → Bool) (key : Text) (t : Routes Time Families)
      → map_option forget_best (lookup key (set_best p q t)) ≡ map_option forget_best (lookup key t)
  forget-set_best p q key t = rw (set_best-lookup p q key t) (go (lookup key t) (p key))
    where
      go :
          (o : Option (RibEntry Time Families)) (b : Bool)
          → map_option forget_best
              (map_option (λ e. if b then record e { is_best = q key } else e) o)
            ≡ map_option forget_best o
      go none b = refl
      go (some e) true = refl
      go (some e) false = refl

  forget-flag_best :
      (s key : Text) (t m : Routes Time Families)
      → map_option forget_best (lookup key (flag_best s t m))
        ≡ map_option forget_best (lookup key t)
  unfolding flag_best
  forget-flag_best s key t [] = refl
  forget-flag_best s key t ((k, e) ∷ []) = forget-set_best _ _ key t
  forget-flag_best s key t ((k, e) ∷ e2 ∷ es) = forget-set_best _ _ key t

  -- Where the text of the prefix can be made, a recomputation succeeds, and no route of any RIB
  -- type changes but for its best-path flag.
  pub recompute_best_path-forget_best :
      (display : Display) (rib : RibType) (prefix : Prefix) (s : Text)
      (tables : RibTable Time Families)
      → show_prefix display prefix ≡ ok s
      → Yields
          (λ after.
            (rib' : RibType) (key : Text)
            → map_option forget_best (route_at rib' key after)
              ≡ map_option forget_best (route_at rib' key tables))
          (recompute_best_path display rib prefix tables)
  unfolding recompute_best_path recompute_routes route_at
  recompute_best_path-forget_best display rib prefix s tables e =
      elim (Option-cases (lookup rib tables)) [
        | inl absent ↦ rw e (rw absent (λ rib' key. refl))
        | inr (t, found) ↦ rw e (rw found (λ rib' key. same rib' key t found))
      ]
    where
      same :
          (rib' : RibType) (key : Text) (t : Routes Time Families)
          → lookup rib tables ≡ some t
          → map_option forget_best
              (route_at rib' key (insert rib (flag_best s t (filter (matches_entry s) t)) tables))
            ≡ map_option forget_best (route_at rib' key tables)
      same rib' key t found =
          rw (route_at-insert rib rib' key (flag_best s t (filter (matches_entry s) t)) tables)
            (elim (Bool-cases (rib_type_beq rib rib')) [
              | inl it_is ↦
                  let rib≡rib' : rib ≡ rib' = (rib_type_eq.beq_iff rib rib').0 it_is in
                  rw it_is (rw (sym rib≡rib') (rw found (forget-flag_best s key t _)))
              | inr other ↦ rw other
            ])

  abbrev pub Unbeaten : RibEntry Time Families → Routes Time Families → Type 0
  Unbeaten b es = All (λ x. rank_ltb (rank (x.1)) (rank b) ≡ false) es

  best_entry-Unbeaten :
      (b : Text × RibEntry Time Families) (es : Routes Time Families)
      → Unbeaten ((best_entry b es).1) (b ∷ es)
  unfolding best_entry
  best_entry-Unbeaten (bk, b) [] = (rank_ltb_irrefl (rank b), tt)
  best_entry-Unbeaten (bk, b) ((k, e) ∷ es) = elim (Bool-cases (rank_ltb (rank e) (rank b))) [
    | inl better ↦
        let step : best_entry (bk, b) ((k, e) ∷ es) ≡ best_entry (k, e) es = rw better in
        let (now, later) = best_entry-Unbeaten (k, e) es in
        subst (λ r. Unbeaten (r.1) ((bk, b) ∷ (k, e) ∷ es)) (sym step)
          (rank_ltb_trans (rank e) (rank b) _ better now, (now, later))
    | inr worse ↦
        let step : best_entry (bk, b) ((k, e) ∷ es) ≡ best_entry (bk, b) es = rw worse in
        let (now, later) = best_entry-Unbeaten (bk, b) es in
        subst (λ r. Unbeaten (r.1) ((bk, b) ∷ (k, e) ∷ es)) (sym step)
          (now, (rank_leb_trans (rank e) (rank b) _ worse now, later))
  ]

  best_entry-Any :
      (b : Text × RibEntry Time Families) (es : Routes Time Families)
      → Any (λ x. x ≡ best_entry b es) (b ∷ es)
  unfolding best_entry
  best_entry-Any (bk, b) [] = inl refl
  best_entry-Any (bk, b) ((k, e) ∷ es) = elim (Bool-cases (rank_ltb (rank e) (rank b))) [
    | inl better ↦
        let step : best_entry (bk, b) ((k, e) ∷ es) ≡ best_entry (k, e) es = rw better in
        subst (λ r. Any (λ x. x ≡ r) ((bk, b) ∷ (k, e) ∷ es)) (sym step)
          (inr (best_entry-Any (k, e) es))
    | inr worse ↦
        let step : best_entry (bk, b) ((k, e) ∷ es) ≡ best_entry (bk, b) es = rw worse in
        subst (λ r. Any (λ x. x ≡ r) ((bk, b) ∷ (k, e) ∷ es)) (sym step)
          (skip (best_entry-Any (bk, b) es))
  ]
    where
      skip :
          {z : Text × RibEntry Time Families}
          → Any (λ x. x ≡ z) ((bk, b) ∷ es)
          → Any (λ x. x ≡ z) ((bk, b) ∷ (k, e) ∷ es)
      skip (inl h) = inl h
      skip (inr h) = inr (inr h)

  -- A route found under a key that matches is among those that match.
  lookup-All :
      (P : Text → Type 0) (s key : Text) (e : RibEntry Time Families) (t : Routes Time Families)
      → matches s key ≡ true
      → lookup key t ≡ some e
      → All (λ x. matches_entry s x ≡ true → P (x.0)) t
      → P key
  unfolding lookup
  lookup-All P s key e [] m found h = elim (none-ne-some e found) [ ]
  lookup-All P s key e ((k, e') ∷ t) m found (h, hs) = elim (Bool-cases (text_beq k key)) [
    | inl same ↦
        let k≡key : k ≡ key = (text_eq.beq_iff k key).0 same in
        subst P k≡key (h (subst (λ x. matches s x ≡ true) (sym k≡key) m))
    | inr other ↦ lookup-All P s key e t m (rw other at found) hs
  ]

  abbrev best_flag : Option (RibEntry Time Families) → Option Bool
  best_flag o = map_option (λ e. e.is_best) o

  -- What a recomputation with the matching routes `m` does: one of them, which no other beats, is
  -- chosen, and of the routes that match, those under its key are flagged, and no others.
  abbrev ChoosesAmong : Text → (t m : Routes Time Families) → Routes Time Families → Type 0
  ChoosesAmong s t m after =
      (b : Text × RibEntry Time Families) × (Any (λ x. x ≡ b) m
        × (Unbeaten (b.1) m
            × ((key : Text)
                → matches s key ≡ true
                → best_flag (lookup key after)
                  ≡ map_option (λ e. text_beq (b.0) key) (lookup key t))))

  flag_best-ChoosesAmong :
      (s : Text) (t m : Routes Time Families) (x : Text × RibEntry Time Families)
      → x ∷ m ≡ filter (matches_entry s) t
      → ChoosesAmong s t (x ∷ m) (flag_best s t (x ∷ m))
  unfolding flag_best
  flag_best-ChoosesAmong s t [] (k, e) eq = (
    (k, e),
    (
      inl refl,
      ((rank_ltb_irrefl (rank e), tt), λ key m. rw (set_best-lookup _ _ key t) (only key m)),
    ),
  )
    where
      only :
          (key : Text)
          → matches s key ≡ true
          → best_flag (
              map_option
                (λ e. if text_beq key k then record e { is_best = true } else e)
                (lookup key t))
            ≡ map_option (λ e. text_beq k key) (lookup key t)
      only key m = elim (Option-cases (lookup key t)) [
        | inl absent ↦ rw absent
        | inr (e', found) ↦
            let all : All (λ x. x.0 ≡ k) (filter (matches_entry s) t) =
              subst (All (λ x. x.0 ≡ k)) eq (refl, tt) in
            let key≡k =
              lookup-All (λ x. x ≡ k) s key e' t m found
                (All-filter (matches_entry s) (λ x. x.0 ≡ k) t all) in
            let same : text_beq key k ≡ true = (text_eq.beq_iff key k).1 key≡k in
            let back : text_beq k key ≡ true = (text_eq.beq_iff k key).1 (sym key≡k) in
            rw found (rw same (rw back))
      ]
  flag_best-ChoosesAmong s t (x2 ∷ m) x eq = (
    best_entry x (x2 ∷ m),
    (
      best_entry-Any x (x2 ∷ m),
      (
        best_entry-Unbeaten x (x2 ∷ m),
        λ key h. rw (set_best-lookup _ _ key t) (rw h (flags _ (lookup key t))),
      ),
    ),
  )
    where
      flags :
          (b : Bool) (o : Option (RibEntry Time Families))
          → best_flag (map_option {A = RibEntry Time Families} (λ e. record e { is_best = b }) o)
            ≡ map_option (λ e. b) o
      flags b none = refl
      flags b (some e) = refl

  go_recompute :
      (s : Text) (t : Routes Time Families)
      → is_empty (filter (matches_entry s) t) ≡ false
      → ChoosesAmong s t (filter (matches_entry s) t) (recompute_routes s t)
  unfolding recompute_routes
  go_recompute s t h = go (filter (matches_entry s) t) h refl
    where
      go :
          (m : Routes Time Families)
          → is_empty m ≡ false
          → m ≡ filter (matches_entry s) t
          → ChoosesAmong s t m (flag_best s t m)
      go [] h eq = elim (false≢true (sym h)) [ ]
      go (x ∷ m) h eq = flag_best-ChoosesAmong s t m x eq

  Any-filter :
      (p : Text × RibEntry Time Families → Bool) (b : Text × RibEntry Time Families)
      (xs : Routes Time Families)
      → Any (λ x. x ≡ b) (filter p xs)
      → Any (λ x. x ≡ b) xs × (p b ≡ true)
  Any-filter p b [] h = elim h [ ]
  Any-filter p b (x ∷ xs) h = go (p x) refl (λ q. Any-filter p b xs q) h
    where
      go :
          (c : Bool)
          → p x ≡ c
          → (Any (λ y. y ≡ b) (filter p xs) → Any (λ y. y ≡ b) xs × (p b ≡ true))
          → Any (λ y. y ≡ b) (elim c [ true ↦ x ∷ filter p xs | false ↦ filter p xs ])
          → Any (λ y. y ≡ b) (x ∷ xs) × (p b ≡ true)
      go true e rest (inl q) = (inl q, subst (λ z. p z ≡ true) q e)
      go true e rest (inr q) = let r = rest q in (inr r.0, r.1)
      go false e rest q = let r = rest q in (inr r.0, r.1)

  All-Any :
      (P : Text × RibEntry Time Families → Type 0) (b : Text × RibEntry Time Families)
      (xs : Routes Time Families)
      → All P xs
      → Any (λ x. x ≡ b) xs
      → P b
  All-Any P b [] h q = elim q [ ]
  All-Any P b (x ∷ xs) (h, hs) (inl q) = subst P q h
  All-Any P b (x ∷ xs) (h, hs) (inr q) = All-Any P b xs hs q

  unpreferred :
      (s : Text) (b : RibEntry Time Families) (t : Routes Time Families)
      → Fits b
      → All (λ x. Fits x.1) t
      → All (λ x. matches_entry s x ≡ true → rank_ltb (rank (x.1)) (rank b) ≡ false) t
      → All (λ x. IsOf s x.0 → Preferred x.1 b → ⊥) t
  unpreferred s b [] f fs h = tt
  unpreferred s b ((k, e) ∷ t) f (fe, fs) (h, hs) = (
    (λ of_s q. false≢true (sym (h ((matches_iff s k).1 of_s)) ∙ Preferred-rank_ltb e b fe f q)),
    unpreferred s b t f fs hs,
  )

  -- What a recomputation does for a prefix: a route of it is chosen to which no other of it is
  -- preferred, and of the routes of the prefix, those under its key are flagged, and no others.
  abbrev pub Chooses : Text → Routes Time Families → Routes Time Families → Type 0
  Chooses s t after =
      (b : Text × RibEntry Time Families) × (Any (λ x. x ≡ b) t
        × (IsOf s b.0
            × (All (λ x. IsOf s x.0 → Preferred x.1 b.1 → ⊥) t
                × ((key : Text)
                    → IsOf s key
                    → best_flag (lookup key after)
                      ≡ map_option (λ e. text_beq (b.0) key) (lookup key t)))))

  -- Where some route of the prefix is there, a recomputation chooses: one route becomes the best, to
  -- which no other of the prefix is preferred by the greater LOCAL_PREF, 0 if it is missing, then the
  -- shorter AS path, then the smaller MED, the greatest if it is missing; and every route of the
  -- prefix under another key loses the flag. The routes of a prefix are those whose key is its text,
  -- alone or before an `@`; the values fit 32 bits.
  pub recompute_routes-Chooses :
      (s : Text) (t : Routes Time Families)
      → All (λ x. Fits x.1) t
      → Any (λ x. IsOf s x.0) t
      → Chooses s t (recompute_routes s t)
  recompute_routes-Chooses s t fits there =
      let some_match : any (matches_entry s) t ≡ true =
        (any_iff (matches_entry s) (λ x. IsOf s x.0) t (λ x. matches_iff s x.0)).1 there in
      let (b, (among, (unbeaten, flags))) =
        go_recompute s t (is_empty-filter (matches_entry s) t ∙ rw some_match refl) in
      let (inside, of_s) = Any-filter (matches_entry s) b t among in
      (
        b,
        (
          inside,
          (
            (matches_iff s b.0).0 of_s,
            (
              unpreferred s b.1 t (All-Any (λ x. Fits x.1) b t fits inside) fits
                  (All-filter (matches_entry s) _ t unbeaten),
              λ key h. flags key ((matches_iff s key).1 h),
            ),
          ),
        ),
      )
