-- ===== src/Enrichment/Vrp.antt =====
-- crates/rbmp-enrichment/src/vrp_cache.rs: the table of validated ROA payloads, and the validation
-- of a prefix with its origin. The lock is not modelled: each method is one critical section.
pub mod Validate
pub mod Delta
use rustybmp.Base.{
  ℕ, zero, suc, ◌+◌, ◌-◌, ◌*◌, ◌/◌, ◌%◌, ◌^◌, ◌≤◌, ◌<◌, ◌≡◌, ◌≢◌, refl, sym, ap, ◌∙◌, ◌↔◌, ◌⊎◌, inl,
  inr, Bool, true, false, not, ◌&&◌, ◌||◌, Option, none, some, List, [], ◌∷◌, ◌++◌, map, arith, ltb,
  leb, ◌==◌, if◌then◌else◌, ==_iff, Bool-cases, Option-cases, Eq, beq_refl, nat_eq, length,
  get_elem?, get_or, take, drop, replicate, is_empty, any, All, Any, filter, length-append,
  take-append-drop, length-take, length-drop,
}
use rustybmp.Core.Ipnet.{Net, net_beq, IpNet, v4, v6, ip_net_beq, prefix_len, Ipnet}

pub record VrpEntry : Type 0 where
  pub prefix : IpNet
  pub max_len : ℕ
  pub origin_asn : ℕ

pub data RpkiState : Type 0 where
  valid invalid not_found : RpkiState

pub record VrpCacheInner : Type 0 where
  pub entries : List VrpEntry
  pub serial : ℕ

abbrev pub new : VrpCacheInner
new = record { entries = []; serial = 0 }

unfoldable pub reset : List VrpEntry → ℕ → VrpCacheInner → VrpCacheInner
reset entries serial w = record { entries = entries; serial = serial }

-- The entries that one removal leaves: `retain(|e| !(..))`.
unfoldable pub same_roa : VrpEntry → VrpEntry → Bool
same_roa r e = ip_net_beq e.prefix r.prefix && (e.origin_asn == r.origin_asn)

-- `for r in &removes { w.entries.retain(..) }`
unfoldable pub retain_all : List VrpEntry → List VrpEntry → List VrpEntry
retain_all [] entries = entries
retain_all (r ∷ rs) entries = retain_all rs (filter (λ e. not (same_roa r e)) entries)

unfoldable pub apply_delta : List VrpEntry → List VrpEntry → ℕ → VrpCacheInner → VrpCacheInner
apply_delta adds removes serial w = record {
  entries = retain_all removes w.entries ++ adds;
  serial = serial;
}

unfoldable pub len : VrpCacheInner → ℕ
len r = length r.entries

module _ (ipnet : Ipnet) where
  unfoldable pub covers : IpNet → IpNet → Bool
  covers (v4 r) (v4 a) = ipnet.contains 32 r a || net_beq r a
  covers (v6 r) (v6 a) = ipnet.contains 128 r a || net_beq r a
  covers _ _ = false

  -- The test of `covering.iter().any(..)`.
  unfoldable pub matches : IpNet → ℕ → VrpEntry → Bool
  matches announced origin_asn e =
      (e.origin_asn == origin_asn) && leb (prefix_len announced) e.max_len

  unfoldable pub validate : VrpCacheInner → IpNet → ℕ → RpkiState
  unfolding covers matches
  validate r announced origin_asn =
      let covering = filter (λ e. covers e.prefix announced) r.entries in
      if is_empty covering
      then not_found
      else if any (matches announced origin_asn) covering
      then valid
      else invalid
