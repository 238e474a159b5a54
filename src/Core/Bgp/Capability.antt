-- ===== src/Core/Bgp/Capability.antt =====
-- crates/rbmp-core/src/bgp/capabilities.rs and the type of capabilities in types.rs.
pub mod Total
use rustybmp.Base.{
  ℕ, zero, suc, ◌+◌, ◌-◌, ◌*◌, ◌/◌, ◌%◌, ◌^◌, ◌≤◌, ◌<◌, ◌≡◌, ◌≢◌, refl, sym, ap, subst, ◌∙◌, ◌↔◌,
  ◌⊎◌, inl, inr, Bool, true, false, not, ◌&&◌, ◌||◌, Option, none, some, List, [], ◌∷◌, ◌++◌, map,
  arith, ltb, leb, ◌==◌, if◌then◌else◌, ==_iff, Bool-cases, Option-cases, Eq, beq_refl, nat_eq,
  length, get_elem?, get_or, take, drop, replicate, is_empty, any, All, Any, filter, any_iff,
  any-filter, is_empty-filter, length-append, take-append-drop, length-take, length-drop,
}
use rustybmp.Base.Text.{Text, codes}
use rustybmp.Core.Error.{Error, unexpected_eof, Result, ok, err, panic, stuck, ◌>>=◌}
use rustybmp.Core.Slice.{at, u16_at, u32_at, slice}
use rustybmp.Core.Buf.{Buf}
use rustybmp.Core.Bgp.Family.{Afi, Safi, AfiSafi, afi_from, safi_from, afi_safi}

pub data BgpCapability : Type 0 where
  multiprotocol : AfiSafi → BgpCapability
  route_refresh : BgpCapability
  extended_next_hop : (afi : Afi) (safi : Safi) (next_hop_afi : Afi) → BgpCapability
  extended_message : BgpCapability
  bgp_role : ℕ → BgpCapability
  graceful_restart : (restart_time : ℕ) (afi_safis : List (AfiSafi × ℕ)) → BgpCapability
  four_byte_asn : ℕ → BgpCapability
  add_path : List (AfiSafi × ℕ) → BgpCapability
  enhanced_route_refresh : BgpCapability
  long_lived_graceful_restart : (entries : List ℕ) → BgpCapability
  fqdn : (hostname domain : Text) → BgpCapability
  unknown : (code : ℕ) (bytes : List ℕ) → BgpCapability

unfoldable pub code : BgpCapability → ℕ
code (multiprotocol _) = 1
code route_refresh = 2
code (extended_next_hop _ _ _) = 5
code extended_message = 6
code (bgp_role _) = 9
code (graceful_restart _ _) = 64
code (four_byte_asn _) = 65
code (add_path _) = 69
code enhanced_route_refresh = 70
code (long_lived_graceful_restart _) = 71
code (fqdn _ _) = 73
code (unknown c _) = c

-- `data.get(i..j).unwrap_or_default()`
abbrev get_range : List ℕ → ℕ → ℕ → List ℕ
get_range bytes i j = if leb i j && leb j (length bytes) then take (j - i) (drop i bytes) else []

-- The loop of the graceful restart capability, from index `i` on. The rounds left bound it: `i`
-- grows by four in each.
unfoldable pub restart_families : ℕ → List ℕ → ℕ → Result (List (AfiSafi × ℕ))
restart_families zero bytes i = stuck
restart_families (suc rounds) bytes i =
    let body = (do
      afi ← u16_at bytes i
      safi ← at bytes (i + 2)
      flags ← (if ltb (i + 3) (length bytes) then at bytes (i + 3) else ok 0)
      rest ← restart_families rounds bytes (i + 4)
      ok ((afi_safi afi safi, flags) ∷ rest)) in
    if leb (i + 3) (length bytes) then body else ok []

unfoldable pub add_path_families : ℕ → List ℕ → ℕ → Result (List (AfiSafi × ℕ))
add_path_families zero bytes i = stuck
add_path_families (suc rounds) bytes i =
    let body = (do
      afi ← u16_at bytes i
      safi ← at bytes (i + 2)
      mode ← at bytes (i + 3)
      rest ← add_path_families rounds bytes (i + 4)
      ok ((afi_safi afi safi, mode) ∷ rest)) in
    if leb (i + 4) (length bytes) then body else ok []

-- `String::from_utf8_lossy` is the parameter `utf8`.
module _ (utf8 : List ℕ → Text) where
  unfoldable pub parse_fqdn : List ℕ → Result BgpCapability
  parse_fqdn bytes = do
    hostname_len ← at bytes 0
    let hostname = utf8 (get_range bytes 1 (1 + hostname_len))
    let with_domain = do
      domain_len ← at bytes (1 + hostname_len)
      let start = 2 + hostname_len
      ok (fqdn hostname (utf8 (get_range bytes start (start + domain_len))))
    if ltb (1 + hostname_len) (length bytes) then with_domain else ok (fqdn hostname [])

  -- The arms of the `match`, in their order; one whose guard fails falls to the last.
  unfoldable pub parse_one_capability : ℕ → List ℕ → Result BgpCapability
  parse_one_capability c bytes =
      if (c == 1) && leb 4 (length bytes)
      then (do afi ← u16_at bytes 0; safi ← at bytes 3; ok (multiprotocol (afi_safi afi safi)))
      else if c == 2
      then ok route_refresh
      else if (c == 5) && leb 6 (length bytes)
      then (do
        afi ← u16_at bytes 0
        safi ← at bytes 3
        next_hop_afi ← u16_at bytes 4
        ok (extended_next_hop (afi_from afi) (safi_from safi) (afi_from next_hop_afi)))
      else if c == 6
      then ok extended_message
      else if (c == 64) && leb 2 (length bytes)
      then (do
        t ← u16_at bytes 0
        afi_safis ← restart_families (suc (length bytes)) bytes 2
        ok (graceful_restart (t % 4096) afi_safis))
      else if (c == 65) && leb 4 (length bytes)
      then (do asn ← u32_at bytes 0; ok (four_byte_asn asn))
      else if c == 69
      then (do entries ← add_path_families (suc (length bytes)) bytes 0; ok (add_path entries))
      else if c == 70
      then ok enhanced_route_refresh
      else if c == 71
      then ok (long_lived_graceful_restart bytes)
      else if (c == 9) && ltb 0 (length bytes)
      then (do role ← at bytes 0; ok (bgp_role role))
      else if (c == 73) && ltb 0 (length bytes)
      then parse_fqdn bytes
      else ok (unknown c bytes)

module _ (buf : Buf) (utf8 : List ℕ → Text) where
  -- The inner loop, over the capabilities of one parameter.
  unfoldable pub capability_loop : ℕ → List ℕ → Result (List BgpCapability)
  capability_loop zero param_buf = stuck
  capability_loop (suc fuel) param_buf =
      let body = (do
        (cap_code, b) ← buf.get_u8 param_buf
        (cap_len, b) ← buf.get_u8 b
        let next = do
          (cap_data, b) ← buf.copy_to_bytes cap_len b
          cap ← parse_one_capability utf8 cap_code cap_data
          rest ← capability_loop fuel b
          ok (cap ∷ rest)
        if ltb (length b) cap_len then err (unexpected_eof cap_len (length b)) else next) in
      if leb 2 (length param_buf) then body else ok []

  -- The outer loop, over the optional parameters.
  unfoldable pub parameter_loop : ℕ → List ℕ → Result (List BgpCapability)
  parameter_loop zero b = stuck
  parameter_loop (suc fuel) b =
      let body = (do
        (param_type, b) ← buf.get_u8 b
        (param_len, b) ← buf.get_u8 b
        let next = do
          (param_buf, b) ← buf.copy_to_bytes param_len b
          let caps = capability_loop (suc (length param_buf)) param_buf
          here ← (if param_type == 2 then caps else ok [])
          rest ← parameter_loop fuel b
          ok (here ++ rest)
        if ltb (length b) param_len then err (unexpected_eof param_len (length b)) else next) in
      if leb 2 (length b) then body else ok []

  -- Each round of either loop takes two bytes at least, so the length is enough fuel.
  unfoldable pub parse_capabilities : List ℕ → Result (List BgpCapability)
  parse_capabilities b = parameter_loop (suc (length b)) b
