-- ===== src/Enrichment/Tests.antt =====
-- Runs of the two validators on concrete tables.
use rustybmp.Base.{◌≡◌, refl, List, [], ◌∷◌, ◌++◌, nat_eq, ℕ, Any, Purged}
use rustybmp.Core.Ipnet.{IpNet, v4, plain_ipnet}
use rustybmp.Enrichment.Vrp.{VrpEntry, VrpCacheInner, not_found, apply_delta, validate}
use rustybmp.Enrichment.Vrp.Validate.{Rfc6811, validate-Rfc6811}
use rustybmp.Enrichment.Vrp.Delta.{SameRoa, apply_delta_lem, withdraw-not_found}
use rustybmp.Enrichment.Aspa
use rustybmp.Enrichment.Aspa.{
  AspaRecord, AspaTable, load, providers_of, contains, or_empty, validate_as_path, parse_as_path,
}
use rustybmp.Enrichment.Aspa.Verdict.{PathVerdict, validate_as_path-PathVerdict}

-- 10.0.0.0/8, of which AS 65001 may announce parts of up to 16 bits.
abbrev roa : VrpEntry
roa = record {
  prefix = v4 (record { addr = 167772160; prefix_len = 8 });
  max_len = 16;
  origin_asn = 65001;
}

abbrev cache : VrpCacheInner
cache = record { entries = roa ∷ []; serial = 1 }

-- 10.0.0.0/12
abbrev announced : IpNet
announced = v4 (record { addr = 167772160; prefix_len = 12 })

validate-Rfc6811_example :
    Rfc6811 (validate plain_ipnet cache announced 65001) announced 65001 cache.entries
validate-Rfc6811_example = validate-Rfc6811 plain_ipnet cache announced 65001

apply_delta_lem_example :
    ((left : List VrpEntry) × ((n : ℕ) × (Purged
            (λ e. Any (λ r. SameRoa r e) (roa ∷ []))
            cache.entries
            left
            n
          × ((apply_delta [] (roa ∷ []) 2 cache).entries ≡ left ++ []))))
    × ((apply_delta [] (roa ∷ []) 2 cache).serial ≡ 2)
apply_delta_lem_example = apply_delta_lem [] (roa ∷ []) 2 cache

-- The removal names another maximal length.
withdraw-not_found_example :
    validate plain_ipnet (apply_delta [] (record roa { max_len = 24 } ∷ []) 2 cache) announced 65001
    ≡ not_found
withdraw-not_found_example =
    withdraw-not_found plain_ipnet (record roa { max_len = 24 }) 2 cache announced 65001
      ((λ c. (refl, refl)), tt)

abbrev records : List AspaRecord
records =
    record { customer_asn = 3; provider_asns = 2 ∷ [] }
    ∷ record { customer_asn = 2; provider_asns = 1 ∷ [] }
    ∷ []

validate_as_path-PathVerdict_example :
    PathVerdict
      (load Aspa.new records)
      (1 ∷ 2 ∷ 3 ∷ [])
      (validate_as_path (1 ∷ 2 ∷ 3 ∷ []) (load Aspa.new records))
validate_as_path-PathVerdict_example =
    validate_as_path-PathVerdict (1 ∷ 2 ∷ 3 ∷ []) (load Aspa.new records)
