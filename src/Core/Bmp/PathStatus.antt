-- ===== src/Core/Bmp/PathStatus.antt =====
-- crates/rbmp-core/src/bmp/path_status_tlv.rs: the Path Status TLV.
use rustybmp.Base.{
  ℕ, zero, suc, ◌+◌, ◌-◌, ◌<◌, Bool, not, ◌||◌, Option, none, some, List, arith, ltb, leb, ◌==◌,
  if◌then◌else◌, nat_eq, length, take, drop,
}
use Prim.Native.Nat.{bit_and}
use rustybmp.Base.Text.{Text, codes}
use rustybmp.Core.Error.{Result, ok, stuck, ◌>>=◌, Returns}
use rustybmp.Core.Slice.{u16_at, u32_at, slice, u16_at_ok, u32_at_ok, slice_ok, be16, byte}

abbrev pub path_status_tlv_type : ℕ
path_status_tlv_type = 6

pub record PathStatusTlv : Type 0 where
  pub status : ℕ
  pub reason : ℕ

-- The accessors differ in their bit alone: `self.status & STATUS_.. != 0`.
unfoldable pub has_status : ℕ → PathStatusTlv → Bool
has_status bit t = not (bit_and t.status bit == 0)

unfoldable pub is_active : PathStatusTlv → Bool
unfolding has_status
is_active t = has_status 0x0002 t || has_status 0x0008 t

-- The label of the first bit that is set, in the order of `label`.
unfoldable pub label : PathStatusTlv → Text
unfolding has_status
label t =
    if has_status 0x0002 t
    then codes "best"
    else if has_status 0x0008 t
    then codes "primary"
    else if has_status 0x0010 t
    then codes "backup"
    else if has_status 0x0040 t
    then codes "best-external"
    else if has_status 0x0080 t
    then codes "add-path"
    else if has_status 0x0004 t
    then codes "nonselected"
    else if has_status 0x0100 t
    then codes "filtered-inbound"
    else if has_status 0x0200 t
    then codes "filtered-outbound"
    else if has_status 0x0400 t
    then codes "stale"
    else if has_status 0x0800 t
    then codes "suppressed"
    else if has_status 0x0020 t
    then codes "non-installed"
    else if has_status 0x0001 t
    then codes "invalid"
    else codes "unknown"

unfoldable pub parse_path_status_tlv : List ℕ → Result (Option PathStatusTlv)
parse_path_status_tlv bytes =
    let read = (do
      status ← u32_at bytes 0
      reason ← (if leb 6 (length bytes) then u16_at bytes 4 else ok 0)
      ok (some (record { status = status; reason = reason }))) in
    if ltb (length bytes) 4 then ok none else read

-- `while pos + 4 <= data.len()`; `pos` grows by four at least in each round.
unfoldable pub find_loop : (fuel pos : ℕ) → List ℕ → (tlv_type : ℕ) → Result (Option PathStatusTlv)
find_loop zero pos bytes tlv_type = stuck
find_loop (suc fuel) pos bytes tlv_type =
    let body = (do
      t ← u16_at bytes pos
      l ← u16_at bytes (pos + 2)
      let found = (do value ← slice bytes (pos + 4) (pos + 4 + l); parse_path_status_tlv value)
      let next = find_loop fuel (pos + 4 + l) bytes tlv_type
      if ltb (length bytes) (pos + 4 + l)
          then ok none
          else if t == tlv_type
          then found
          else next) in
    if leb (pos + 4) (length bytes) then body else ok none

unfoldable pub find_path_status_tlv : List ℕ → (tlv_type : ℕ) → Result (Option PathStatusTlv)
find_path_status_tlv bytes tlv_type = find_loop (suc (length bytes)) 0 bytes tlv_type

parse_path_status_tlv-Returns : (bytes : List ℕ) → Returns (parse_path_status_tlv bytes)
unfolding parse_path_status_tlv
parse_path_status_tlv-Returns bytes = ground (arith, u32_at_ok bytes 0, u16_at_ok bytes 4)

find_loop-Returns :
    (fuel pos : ℕ) (bytes : List ℕ) (tlv_type : ℕ)
    → 0 < fuel
    → length bytes < pos + fuel
    → Returns (find_loop fuel pos bytes tlv_type)
unfolding find_loop
find_loop-Returns zero pos bytes tlv_type f h = elim f [ ]
find_loop-Returns (suc fuel) pos bytes tlv_type f h =
    let l : ℕ = be16 (byte bytes (pos + 2)) (byte bytes (pos + 2 + 1)) in
    ground (
      arith,
      u16_at_ok bytes pos,
      u16_at_ok bytes (pos + 2),
      slice_ok bytes (pos + 4) (pos + 4 + l),
      parse_path_status_tlv-Returns (take (pos + 4 + l - (pos + 4)) (drop (pos + 4) bytes)),
      find_loop-Returns fuel (pos + 4 + l) bytes tlv_type,
    )

-- The scan for the Path Status TLV returns on every byte string.
pub find_path_status_tlv-Returns :
    (bytes : List ℕ) (tlv_type : ℕ) → Returns (find_path_status_tlv bytes tlv_type)
unfolding find_path_status_tlv
find_path_status_tlv-Returns bytes tlv_type =
    find_loop-Returns (suc (length bytes)) 0 bytes tlv_type (omega arith) (omega arith)
