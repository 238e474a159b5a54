-- ===== src/Enrichment/Vrp/Delta.antt =====
-- What `reset` and `apply_delta` do to the table, and to the verdicts.
use rustybmp.Base.{
  ℕ, suc, false, ◌≡◌, refl, ap, ◌∙◌, Bool, not, ◌&&◌, ◌||◌, List, [], ◌∷◌, ◌++◌, arith,
  if◌then◌else◌, nat_eq, any, filter, any-filter, is_empty-filter, ◌↔◌, true, Any, any_iff, Purged,
  purged_nil, dropped, stayed, Bool-cases, inl, inr, sym, All,
}
use rustybmp.Core.Ipnet.{IpNet, ip_net_beq_iff, Ipnet}
use mathlib.Core.Bool.{false≢true}
use mathlib.Core.List.{append-nil}
use rustybmp.Enrichment.Vrp.Validate.{Covers, covers_iff}
use rustybmp.Enrichment.Vrp.{
  VrpEntry, valid, invalid, not_found, VrpCacheInner, covers, matches, validate, apply_delta,
  same_roa, retain_all,
}

-- The test of `retain`, for all the removals at once.
unfoldable pub kept : List VrpEntry → VrpEntry → Bool
kept removes e = not (any (λ r. same_roa r e) removes)

filter-filter :
    (p q : VrpEntry → Bool) (es : List VrpEntry)
    → filter p (filter q es) ≡ filter (λ e. p e && q e) es
filter-filter p q [] = refl
filter-filter p q (e ∷ es) = ground (arith, filter-filter p q es)

filter_ext :
    (p q : VrpEntry → Bool) (es : List VrpEntry)
    → ((e : VrpEntry) → p e ≡ q e)
    → filter p es ≡ filter q es
filter_ext p q [] h = refl
filter_ext p q (e ∷ es) h = ground (arith, h e, filter_ext p q es h)

filter-append :
    (p : VrpEntry → Bool) (xs ys : List VrpEntry) → filter p (xs ++ ys) ≡ filter p xs ++ filter p ys
filter-append p [] ys = refl
filter-append p (x ∷ xs) ys = ground (arith, filter-append p xs ys)

any-append : (p : VrpEntry → Bool) (xs ys : List VrpEntry) → any p (xs ++ ys) ≡ any p xs || any p ys
any-append p [] ys = refl
any-append p (x ∷ xs) ys = ground (arith, any-append p xs ys)

retain_all-kept :
    (removes entries : List VrpEntry) → retain_all removes entries ≡ filter (kept removes) entries
unfolding retain_all kept
retain_all-kept [] [] = refl
retain_all-kept [] (e ∷ es) = ap (λ t. e ∷ t) (retain_all-kept [] es)
retain_all-kept (r ∷ rs) es =
    retain_all-kept rs (filter (λ e. not (same_roa r e)) es)
    ∙ filter-filter _ _ es
    ∙ filter_ext (λ x. kept rs x && not (same_roa r x)) (kept (r ∷ rs)) es (λ e. ground arith)

-- Two VRPs are of the same prefix and origin, whatever their maximal lengths.
abbrev pub SameRoa : VrpEntry → VrpEntry → Type 0
SameRoa r e = (e.prefix ≡ r.prefix) × (e.origin_asn ≡ r.origin_asn)

same_roa_iff : (r e : VrpEntry) → (same_roa r e ≡ true) ↔ SameRoa r e
unfolding same_roa
same_roa_iff r e = ground (arith, ip_net_beq_iff e.prefix r.prefix)

removed_iff :
    (removes : List VrpEntry) (e : VrpEntry)
    → (any (λ r. same_roa r e) removes ≡ true) ↔ Any (λ r. SameRoa r e) removes
removed_iff removes e = any_iff _ (λ r. SameRoa r e) removes (λ r. same_roa_iff r e)

kept-Purged :
    (removes es : List VrpEntry)
    → (n : ℕ) × Purged (λ e. Any (λ r. SameRoa r e) removes) es (filter (kept removes) es) n
unfolding kept
kept-Purged removes [] = (0, purged_nil)
kept-Purged removes (e ∷ es) =
    let (n, rest) = kept-Purged removes es in
    elim (Bool-cases (any (λ r. same_roa r e) removes)) [
      | inl yes' ↦ rw (yes', filter) (suc n, dropped ((removed_iff removes e).0 yes') rest)
      | inr no' ↦
          rw (no', filter)
            (n, stayed (λ q. false≢true (sym no' ∙ (removed_iff removes e).1 q)) rest)
    ]

-- After a delta the table is the old one without exactly the entries that agree with some removal in
-- prefix and in origin, in the old order, followed by the additions; the serial is the new one.
pub apply_delta_lem :
    (adds removes : List VrpEntry) (serial : ℕ) (w : VrpCacheInner)
    → ((left : List VrpEntry) × ((n : ℕ) × (Purged
              (λ e. Any (λ r. SameRoa r e) removes)
              w.entries
              left
              n
            × ((apply_delta adds removes serial w).entries ≡ left ++ adds))))
      × ((apply_delta adds removes serial w).serial ≡ serial)
unfolding apply_delta
apply_delta_lem adds removes serial w =
    let (n, p) = kept-Purged removes w.entries in
    ((filter (kept removes) w.entries, (n, (p, rw (retain_all-kept removes w.entries)))), refl)

module _ (ipnet : Ipnet) where
  any_cover : IpNet → List VrpEntry → Bool
  any_cover announced es = any (λ e. covers ipnet e.prefix announced) es

  any_match : IpNet → ℕ → List VrpEntry → Bool
  any_match announced asn es =
      any (λ e. covers ipnet e.prefix announced && matches ipnet announced asn e) es

  validate_any :
      (w : VrpCacheInner) (announced : IpNet) (asn : ℕ)
      → validate ipnet w announced asn ≡ (
          if not (any_cover announced w.entries)
          then not_found
          else if any_match announced asn w.entries
          then valid
          else invalid)
  unfolding validate any_cover any_match
  validate_any w announced asn = simp (is_empty-filter, any-filter)

  uncovered :
      (r : VrpEntry) (announced : IpNet) (es : List VrpEntry)
      → All (λ e. Covers announced e → SameRoa r e) es
      → any (λ e. covers ipnet e.prefix announced) (filter (λ e. not (same_roa r e)) es) ≡ false
  uncovered r announced [] h = refl
  uncovered r announced (e ∷ es) (h, hs) = elim (Bool-cases (same_roa r e)) [
    | inl same ↦ ground (arith, same, uncovered r announced es hs)
    | inr other ↦ (elim (Bool-cases (covers ipnet e.prefix announced)) [
      | inl c ↦ absurd (
          false≢true
            (sym other ∙ (same_roa_iff r e).1 (h ((covers_iff ipnet e.prefix announced).0 c))))
      | inr c ↦ ground (arith, other, c, uncovered r announced es hs)
    ])
  ]

  -- A delta that removes nothing keeps every valid announcement valid.
  pub announce-valid :
      (adds : List VrpEntry) (serial : ℕ) (w : VrpCacheInner) (announced : IpNet) (origin_asn : ℕ)
      → validate ipnet w announced origin_asn ≡ valid
      → validate ipnet (apply_delta adds [] serial w) announced origin_asn ≡ valid
  unfolding apply_delta retain_all any_cover any_match
  announce-valid adds serial w announced origin_asn h = ground (
    arith,
    validate_any w announced origin_asn,
    validate_any (apply_delta adds [] serial w) announced origin_asn,
    any-append (λ e. covers ipnet e.prefix announced) w.entries adds,
    any-append (λ e. covers ipnet e.prefix announced && matches ipnet announced origin_asn e)
        w.entries adds,
  )

  -- The maximal length is not compared: the removal of a VRP takes away every entry with its prefix
  -- and origin. If the entries of a table that cover an announcement all have the prefix and the
  -- origin of a VRP, whatever their maximal lengths are and however many they are, the removal of
  -- that VRP alone leaves the announcement not-found.
  pub withdraw-not_found :
      (r : VrpEntry) (serial : ℕ) (w : VrpCacheInner) (announced : IpNet) (origin_asn : ℕ)
      → All (λ e. Covers announced e → SameRoa r e) w.entries
      → validate ipnet (apply_delta [] (r ∷ []) serial w) announced origin_asn ≡ not_found
  unfolding apply_delta retain_all any_cover
  withdraw-not_found r serial w announced origin_asn h = ground (
    arith,
    validate_any (apply_delta [] (r ∷ []) serial w) announced origin_asn,
    append-nil (filter (λ e. not (same_roa r e)) w.entries),
    uncovered r announced w.entries h,
  )
