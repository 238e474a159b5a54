-- ===== src/Core/Bgp/Capability/Total.antt =====
-- The capability parser returns on every input.
use rustybmp.Base.{
  ℕ, zero, suc, ◌+◌, ◌<◌, refl, List, [], ◌∷◌, arith, nat_eq, length, get_or, take, drop,
  length-drop,
}
use rustybmp.Base.Text.{Text}
use rustybmp.Core.Error.{Returns}
use rustybmp.Core.Slice.{at_ok, u16_at_ok, u32_at_ok}
use rustybmp.Core.Buf.{Buf}
use rustybmp.Core.Bgp.Capability.{
  restart_families, add_path_families, parse_fqdn, parse_one_capability, capability_loop,
  parameter_loop, parse_capabilities,
}

restart_families-Returns :
    (rounds : ℕ) (bytes : List ℕ) (i : ℕ)
    → 0 < rounds
    → length bytes < i + rounds
    → Returns (restart_families rounds bytes i)
unfolding restart_families
restart_families-Returns zero bytes i r h = elim r [ ]
restart_families-Returns (suc rounds) bytes i r h = ground (
  arith,
  u16_at_ok bytes i,
  at_ok bytes (i + 2),
  at_ok bytes (i + 3),
  restart_families-Returns rounds bytes (i + 4),
)

add_path_families-Returns :
    (rounds : ℕ) (bytes : List ℕ) (i : ℕ)
    → 0 < rounds
    → length bytes < i + rounds
    → Returns (add_path_families rounds bytes i)
unfolding add_path_families
add_path_families-Returns zero bytes i r h = elim r [ ]
add_path_families-Returns (suc rounds) bytes i r h = ground (
  arith,
  u16_at_ok bytes i,
  at_ok bytes (i + 2),
  at_ok bytes (i + 3),
  add_path_families-Returns rounds bytes (i + 4),
)

parse_fqdn-Returns :
    (utf8 : List ℕ → Text) (bytes : List ℕ) → 0 < length bytes → Returns (parse_fqdn utf8 bytes)
unfolding parse_fqdn
parse_fqdn-Returns utf8 bytes h = ground (arith, at_ok bytes 0, at_ok bytes (1 + get_or bytes 0 0))

parse_one_capability-Returns :
    (utf8 : List ℕ → Text) (c : ℕ) (bytes : List ℕ) → Returns (parse_one_capability utf8 c bytes)
unfolding parse_one_capability
parse_one_capability-Returns utf8 c bytes = ground (
  arith,
  u16_at_ok bytes 0,
  u16_at_ok bytes 4,
  at_ok bytes 0,
  at_ok bytes 3,
  u32_at_ok bytes 0,
  restart_families-Returns (suc (length bytes)) bytes 2,
  add_path_families-Returns (suc (length bytes)) bytes 0,
  parse_fqdn-Returns utf8 bytes,
)

module _ (buf : Buf) (utf8 : List ℕ → Text) where
  capability_loop-Returns :
      (fuel : ℕ) (b : List ℕ) → length b < fuel → Returns (capability_loop buf utf8 fuel b)
  unfolding capability_loop
  capability_loop-Returns zero b h = elim h [ ]
  capability_loop-Returns (suc fuel) [] h = refl
  capability_loop-Returns (suc fuel) (x ∷ []) h = refl
  capability_loop-Returns (suc fuel) (x ∷ n ∷ b) h = ground (
    arith,
    buf.get_u8_reads (x ∷ n ∷ b),
    buf.get_u8_reads (n ∷ b),
    buf.copy_to_bytes_reads n b,
    length-drop n b,
    parse_one_capability-Returns utf8 x (take n b),
    capability_loop-Returns fuel (drop n b),
  )

  parameter_loop-Returns :
      (fuel : ℕ) (b : List ℕ) → length b < fuel → Returns (parameter_loop buf utf8 fuel b)
  unfolding parameter_loop
  parameter_loop-Returns zero b h = elim h [ ]
  parameter_loop-Returns (suc fuel) [] h = refl
  parameter_loop-Returns (suc fuel) (x ∷ []) h = refl
  parameter_loop-Returns (suc fuel) (x ∷ n ∷ b) h = ground (
    arith,
    buf.get_u8_reads (x ∷ n ∷ b),
    buf.get_u8_reads (n ∷ b),
    buf.copy_to_bytes_reads n b,
    length-drop n b,
    capability_loop-Returns (suc (length (take n b))) (take n b),
    parameter_loop-Returns fuel (drop n b),
  )

  -- The capability parser returns on every byte string: no read leaves its buffer, and the loops end.
  pub parse_capabilities-Returns : (b : List ℕ) → Returns (parse_capabilities buf utf8 b)
  unfolding parse_capabilities
  parse_capabilities-Returns b = parameter_loop-Returns (suc (length b)) b (omega arith)
