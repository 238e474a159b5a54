-- ===== src/Enrichment/Vrp/Validate.antt =====
-- The verdict of `validate` on every input, against RFC 6811.
use rustybmp.Base.{
  ℕ, ◌≤◌, ◌≡◌, ◌↔◌, inl, inr, true, List, arith, Bool-cases, nat_eq, any, Any, filter, any_iff,
  any-filter, is_empty-filter,
}
use rustybmp.Core.Ipnet.{net_beq_iff, IpNet, v4, v6, prefix_len, network, Ipnet}
use rustybmp.Enrichment.Vrp.{
  VrpEntry, RpkiState, valid, invalid, not_found, VrpCacheInner, covers, matches, validate,
}

-- One network is the other or a part of it: the families agree, the prefix is no longer, and the
-- bits under it agree.
abbrev pub Within : IpNet → IpNet → Type 0
Within (v4 r) (v4 a) =
    (r.prefix_len ≤ a.prefix_len)
    × (network 32 r.prefix_len a.addr ≡ network 32 r.prefix_len r.addr)
Within (v6 r) (v6 a) =
    (r.prefix_len ≤ a.prefix_len)
    × (network 128 r.prefix_len a.addr ≡ network 128 r.prefix_len r.addr)
Within _ _ = ⊥

-- The VRP covers the announced prefix; it matches it, by origin and by length, too.
abbrev pub Covers : IpNet → VrpEntry → Type 0
Covers announced e = Within e.prefix announced

abbrev pub Authorises : IpNet → ℕ → VrpEntry → Type 0
Authorises announced asn e =
    Within e.prefix announced × (e.origin_asn ≡ asn) × (prefix_len announced ≤ e.max_len)

-- What RFC 6811 says of each state.
abbrev pub Rfc6811 : RpkiState → IpNet → ℕ → List VrpEntry → Type 0
Rfc6811 valid announced asn es = Any (Authorises announced asn) es
Rfc6811 invalid announced asn es = Any (Covers announced) es × ¬ (Any (Authorises announced asn) es)
Rfc6811 not_found announced asn es = ¬ (Any (Covers announced) es)

module _ (ipnet : Ipnet) where
  pub covers_iff : (r a : IpNet) → (covers ipnet r a ≡ true) ↔ Within r a
  unfolding covers
  covers_iff (v4 r) (v4 a) = ground (arith, ipnet.contains_iff 32 r a, net_beq_iff r a)
  covers_iff (v4 r) (v6 a) = ground arith
  covers_iff (v6 r) (v4 a) = ground arith
  covers_iff (v6 r) (v6 a) = ground (arith, ipnet.contains_iff 128 r a, net_beq_iff r a)

  covering_iff :
      (announced : IpNet) (es : List VrpEntry)
      → (any (λ e. covers ipnet e.prefix announced) es ≡ true) ↔ Any (Covers announced) es
  covering_iff announced es = any_iff _ (Covers announced) es (λ e. covers_iff e.prefix announced)

  authorising_iff :
      (announced : IpNet) (asn : ℕ) (es : List VrpEntry)
      → (any (matches ipnet announced asn) (filter (λ e. covers ipnet e.prefix announced) es)
          ≡ true)
        ↔ Any (Authorises announced asn) es
  unfolding matches
  authorising_iff announced asn es =
      rw any-filter
        (any_iff _ (Authorises announced asn) es λ e. ground (arith, covers_iff e.prefix announced))

  -- On every table and announcement, `validate` answers the one state that RFC 6811 gives: valid
  -- where some VRP covers the prefix with the origin and a sufficient maximal length, invalid where
  -- some VRP covers the prefix and none does so, not-found where no VRP covers it.
  pub validate-Rfc6811 :
      (r : VrpCacheInner) (announced : IpNet) (origin_asn : ℕ)
      → Rfc6811 (validate ipnet r announced origin_asn) announced origin_asn r.entries
  unfolding validate
  validate-Rfc6811 r announced origin_asn =
      let covering = filter (λ (e : VrpEntry). covers ipnet e.prefix announced) r.entries in
      let cov = covering_iff announced r.entries in
      let auth = authorising_iff announced origin_asn r.entries in
      rw is_empty-filter
        (elim (Bool-cases (any (λ (e : VrpEntry). covers ipnet e.prefix announced) r.entries)) [
          | inl some_cover ↦
              rw some_cover (elim (Bool-cases (any (matches ipnet announced origin_asn) covering)) [
                | inl m ↦ rw m (auth.0 m)
                | inr m ↦ rw m (cov.0 some_cover, λ a. cc (auth.1 a))
              ])
          | inr none_covers ↦ rw none_covers (λ a. cc (cov.1 a))
        ])
