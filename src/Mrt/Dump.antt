-- ===== src/Mrt/Dump.antt =====
-- The TABLE_DUMP_V2 records as they are read back.
use rustybmp.Base.{ℕ, ◌%◌, ◌^◌, List, [], ◌∷◌, ◌++◌, nat_eq, length, if◌then◌else◌}
use rustybmp.Core.Buf.{Buf}
use rustybmp.Core.BufMut.{BufMut, u16_bytes, u32_bytes}
use rustybmp.Core.Ipnet.{Ipnet}
use rustybmp.Core.Bgp.Nlri.{Prefix}
use rustybmp.Mrt.Types.{Chrono, epoch_secs}
use rustybmp.Mrt.Writer.{MrtRibEntry, is_v6_prefix}
use rustybmp.Mrt.Prefixes.{prefix_bytes}

-- `RibIpv6Unicast` is 4, `RibIpv4Unicast` 2.
abbrev pub dump_subtype : Prefix → ℕ
dump_subtype p = if is_v6_prefix p then 4 else 2

module _ (chrono : Chrono) where
  -- The entries of a record: peer, time, and the attributes behind their length.
  abbrev pub entries_bytes : List (MrtRibEntry chrono.Time) → List ℕ
  entries_bytes [] = []
  entries_bytes (e ∷ es) =
      u16_bytes e.peer_index
      ++ (u32_bytes (epoch_secs chrono e.originated)
          ++ (u16_bytes (length e.path_attrs % 2 ^ 16) ++ (e.path_attrs ++ entries_bytes es)))

  abbrev pub behind_prefix : List (MrtRibEntry chrono.Time) → List ℕ
  behind_prefix es = u16_bytes (length es % 2 ^ 16) ++ entries_bytes es

  abbrev pub rib_body : (seq : ℕ) → Prefix → List (MrtRibEntry chrono.Time) → List ℕ
  rib_body seq p es = u32_bytes seq ++ (prefix_bytes p ++ behind_prefix es)
