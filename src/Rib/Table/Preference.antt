-- ===== src/Rib/Table/Preference.antt =====
-- Which keys are those of a prefix, and which of two routes is to be preferred, as `matches` and
-- `rank` of the table have it.
use mathlib.Core.List.{append_assoc}
use rustybmp.Core.Bgp.AsPath.{AsPathSegment, AsPath, hop_count}
use rustybmp.Base.{
  ℕ, ◌+◌, ◌-◌, ◌%◌, ◌^◌, ◌<◌, ◌∙◌, ◌↔◌, ◌⊎◌, ◌++◌, length, ◌≡◌, refl, sym, inl, inr, true, false,
  Option, none, some, [], ◌∷◌, arith, Bool-cases, nat_eq,
}
use rustybmp.Base.Text.{Text, codes, text_beq, text_eq, starts_with}
use rustybmp.Core.Bmp.Types.{rib_type_eq}
use rustybmp.Rib.Table.{u32_max, RibEntry, matches, rank, rank_ltb, Rank}

pub rank_ltb_trans :
    (x y z : Rank) → rank_ltb x y ≡ true → rank_ltb x z ≡ false → rank_ltb y z ≡ false
unfolding rank_ltb
rank_ltb_trans (a, (b, c)) (a', (b', c')) (a'', (b'', c'')) h k = ground arith

pub rank_leb_trans :
    (x y z : Rank) → rank_ltb x y ≡ false → rank_ltb y z ≡ false → rank_ltb x z ≡ false
unfolding rank_ltb
rank_leb_trans (a, (b, c)) (a', (b', c')) (a'', (b'', c'')) h k = ground arith

pub rank_ltb_irrefl : (x : Rank) → rank_ltb x x ≡ false
unfolding rank_ltb
rank_ltb_irrefl (a, (b, c)) = ground arith

-- The key is the text of the prefix, alone or with a path identifier behind an `@`.
abbrev pub IsOf : Text → Text → Type 0
IsOf s key = (key ≡ s) ⊎ ((rest : Text) × (key ≡ s ++ (64 ∷ rest)))

starts_with_iff : (t p : Text) → (starts_with t p ≡ true) ↔ ((rest : Text) × (t ≡ p ++ rest))
starts_with_iff t [] = ((λ e. (t, refl)), λ h. refl)
starts_with_iff [] (c ∷ p) = ((λ e. cc), λ (rest, e). absurd cc)
starts_with_iff (x ∷ t) (c ∷ p) =
    let ih = starts_with_iff t p in
    (
      (λ e.
          let (rest, eq) = ih.0 (ground (arith, e)) in
          let same : x ≡ c = ground (arith, e) in (rest, cc)),
      λ (rest, eq).
          let same : x ≡ c = cc in
          let tails : t ≡ p ++ rest = cc in ground (arith, same, ih.1 (rest, tails)),
    )

pub matches_iff : (s key : Text) → (matches s key ≡ true) ↔ IsOf s key
matches_iff s key =
    let whole = text_eq.beq_iff key s in
    let before = starts_with_iff key (s ++ codes "@") in
    let at_sign : (rest : Text) → (s ++ codes "@") ++ rest ≡ s ++ (64 ∷ rest) =
      λ rest. append_assoc s (64 ∷ []) rest in
    (
      (λ e. elim (Bool-cases (text_beq key s)) [
        | inl same ↦ inl (whole.0 same)
        | inr other ↦
            let (rest, eq) = before.0 (ground (arith, e, other)) in inr (rest, eq ∙ at_sign rest)
      ]),
      λ e. elim e [
        | inl same ↦ ground (arith, whole.1 same)
        | inr (rest, eq) ↦ ground (arith, before.1 (rest, eq ∙ sym (at_sign rest)))
      ],
    )

abbrev pub or_value : Option ℕ → ℕ → ℕ
or_value none d = d
or_value (some v) d = v

-- The ASNs of the sequences of a path; sets and confederation segments do not count.
abbrev pub hops : AsPath → ℕ
hops [] = 0
hops (AsPathSegment.sequence v ∷ p) = length v + hops p
hops (AsPathSegment.set v ∷ p) = hops p
hops (AsPathSegment.confed_sequence v ∷ p) = hops p
hops (AsPathSegment.confed_set v ∷ p) = hops p

abbrev pub path_hops : Option AsPath → ℕ
path_hops none = 0
path_hops (some p) = hops p

hop_count-hops : (p : AsPath) → hop_count p ≡ hops p
unfolding hop_count
hop_count-hops [] = refl
hop_count-hops (AsPathSegment.sequence v ∷ p) = omega (arith, hop_count-hops p)
hop_count-hops (AsPathSegment.set v ∷ p) = hop_count-hops p
hop_count-hops (AsPathSegment.confed_sequence v ∷ p) = hop_count-hops p
hop_count-hops (AsPathSegment.confed_set v ∷ p) = hop_count-hops p

Rank_eq :
    {a a' b b' c c' : ℕ} → a ≡ a' → b ≡ b' → c ≡ c' → ◌≡◌ {A = Rank} (a, (b, c)) (a', (b', c'))
Rank_eq h k l = cc

lp_lem :
    (o : Option ℕ) → elim o [ none ↦ u32_max | some v ↦ u32_max - v ] ≡ 4294967295 - or_value o 0
lp_lem none = refl
lp_lem (some v) = refl

path_lem :
    (o : Option AsPath)
    → path_hops o < 4294967296
    → elim o [ none ↦ 0 | some p ↦ hop_count p % 2 ^ 32 ] ≡ path_hops o
path_lem none h = refl
path_lem (some p) h = omega (arith, hop_count-hops p, h)

med_lem : (o : Option ℕ) → elim o [ none ↦ u32_max | some v ↦ v ] ≡ or_value o 4294967295
med_lem none = refl
med_lem (some v) = refl

module _ {Time Families : Type 0} where
  -- LOCAL_PREF, the length of the AS path and MED of a route, with what stands for a missing one.
  abbrev pub local_pref_of : RibEntry Time Families → ℕ
  local_pref_of e = or_value e.attributes.local_pref 0

  abbrev pub hops_of : RibEntry Time Families → ℕ
  hops_of e = path_hops e.attributes.as_path

  abbrev pub med_of : RibEntry Time Families → ℕ
  med_of e = or_value e.attributes.multi_exit_disc 4294967295

  -- The values fit the 32 bits that the program has for them.
  abbrev pub Fits : RibEntry Time Families → Type 0
  Fits e = (local_pref_of e < 4294967296) × (hops_of e < 4294967296)

  -- The first route is preferred to the second: it has the greater LOCAL_PREF; or the same and the
  -- shorter path; or these alike and the smaller MED.
  abbrev pub Preferred : RibEntry Time Families → RibEntry Time Families → Type 0
  Preferred x y =
      (local_pref_of y < local_pref_of x)
      ⊎ ((local_pref_of x ≡ local_pref_of y)
          × ((hops_of x < hops_of y) ⊎ ((hops_of x ≡ hops_of y) × (med_of x < med_of y))))

  rank_lem :
      (e : RibEntry Time Families)
      → Fits e
      → rank e ≡ (4294967295 - local_pref_of e, (hops_of e, med_of e))
  unfolding rank
  rank_lem e (l, h) =
      let a = lp_lem e.attributes.local_pref in
      let b = path_lem e.attributes.as_path h in
      let c = med_lem e.attributes.multi_exit_disc in Rank_eq a b c

  pub Preferred-rank_ltb :
      (x y : RibEntry Time Families)
      → Fits x
      → Fits y
      → Preferred x y
      → rank_ltb (rank x) (rank y) ≡ true
  unfolding rank_ltb
  Preferred-rank_ltb x y (lx, hx) (ly, hy) h =
      rw (rank_lem x (lx, hx)) (rw (rank_lem y (ly, hy)) (ground (arith, h, lx, ly)))
