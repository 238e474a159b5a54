-- ===== src/Core/Bgp/Open.antt =====
-- crates/rbmp-core/src/bgp/open.rs: the BGP OPEN message, and BgpOpenInfo of bmp/types.rs.
use rustybmp.Base.{
  ℕ, ◌≤◌, ◌≡◌, refl, ◌↔◌, ◌⊎◌, false, not, List, [], ◌∷◌, arith, ltb, ◌==◌, if◌then◌else◌, nat_eq,
  length, get_or, take, drop, replicate, length-drop,
}
use rustybmp.Base.Text.{Text, text_beq}
use rustybmp.Core.Error.{
  unexpected_eof, invalid_bgp_marker, invalid_bgp_message_type, Result, ok, err, ◌>>=◌, Returns,
}
use rustybmp.Core.Slice.{be32}
use rustybmp.Core.Buf.{Buf}
use rustybmp.Core.Bgp.Capability.{BgpCapability, four_byte_asn, parse_capabilities}
use rustybmp.Core.Bgp.Capability.Total.{parse_capabilities-Returns}

pub record BgpOpenInfo : Type 0 where
  pub version : ℕ
  pub asn : ℕ
  pub hold_time : ℕ
  pub bgp_id : ℕ
  pub capabilities : List BgpCapability

abbrev pub marker : List ℕ
marker = replicate 16 255

-- `capabilities.iter().find_map(..).unwrap_or(my_asn)`
unfoldable pub four_byte_or : ℕ → List BgpCapability → ℕ
four_byte_or my_asn [] = my_asn
four_byte_or my_asn (four_byte_asn asn ∷ caps) = asn
four_byte_or my_asn (cap ∷ caps) = four_byte_or my_asn caps

-- `Ipv4Addr::from` of the four bytes just taken.
abbrev pub ipv4_of : List ℕ → ℕ
ipv4_of raw = be32 (get_or raw 0 0) (get_or raw 1 0) (get_or raw 2 0) (get_or raw 3 0)

module _ (buf : Buf) (utf8 : List ℕ → Text) where
  -- The body of the message, behind the common header.
  unfoldable pub parse_open_body : List ℕ → Result BgpOpenInfo
  unfolding four_byte_or
  parse_open_body b =
      let fields = (do
        (version, b) ← buf.get_u8 b
        (my_asn, b) ← buf.get_u16 b
        (hold_time, b) ← buf.get_u16 b
        (bgp_id_raw, b) ← buf.copy_to_bytes 4 b
        (opt_params_len, b) ← buf.get_u8 b
        let params = (do
          (params, b) ← buf.copy_to_bytes opt_params_len b
          capabilities ← parse_capabilities buf utf8 params
          ok (record {
            version = version;
            asn = four_byte_or my_asn capabilities;
            hold_time = hold_time;
            bgp_id = ipv4_of bgp_id_raw;
            capabilities = capabilities;
          }))
        if ltb (length b) opt_params_len
            then err (unexpected_eof opt_params_len (length b))
            else params) in
      if ltb (length b) 10 then err (unexpected_eof 10 (length b)) else fields

  -- The length and the type of the common header, behind the marker.
  unfoldable pub parse_open_header : List ℕ → Result BgpOpenInfo
  parse_open_header b = do
    (msg_len, b) ← buf.get_u16 b
    (msg_type, b) ← buf.get_u8 b
    if not (msg_type == 1) then err (invalid_bgp_message_type msg_type) else parse_open_body b

  unfoldable pub parse_bgp_open : List ℕ → Result BgpOpenInfo
  parse_bgp_open b = do
    (m, b) ← buf.copy_to_bytes 16 b
    let header = parse_open_header b
    if not (text_beq m marker) then err invalid_bgp_marker else header

  parse_open_body-Returns : (b : List ℕ) → Returns (parse_open_body b)
  unfolding parse_open_body
  parse_open_body-Returns (v ∷ a ∷ a' ∷ h ∷ h' ∷ i ∷ i' ∷ j ∷ j' ∷ n ∷ b) = ground (
    arith,
    buf.get_u8_reads (v ∷ a ∷ a' ∷ h ∷ h' ∷ i ∷ i' ∷ j ∷ j' ∷ n ∷ b),
    buf.get_u16_reads (a ∷ a' ∷ h ∷ h' ∷ i ∷ i' ∷ j ∷ j' ∷ n ∷ b),
    buf.get_u16_reads (h ∷ h' ∷ i ∷ i' ∷ j ∷ j' ∷ n ∷ b),
    buf.copy_to_bytes_reads 4 (i ∷ i' ∷ j ∷ j' ∷ n ∷ b),
    buf.get_u8_reads (n ∷ b),
    buf.copy_to_bytes_reads n b,
    parse_capabilities-Returns buf utf8 (take n b),
  )
  parse_open_body-Returns _ = refl

  parse_open_header-Returns_iff : (b : List ℕ) → Returns (parse_open_header b) ↔ (3 ≤ length b)
  unfolding parse_open_header
  parse_open_header-Returns_iff [] = ground (arith, buf.get_u16_reads [])
  parse_open_header-Returns_iff (x ∷ []) = ground (arith, buf.get_u16_reads (x ∷ []))
  parse_open_header-Returns_iff (x ∷ y ∷ []) =
      ground (arith, buf.get_u16_reads (x ∷ y ∷ []), buf.get_u8_reads [])
  parse_open_header-Returns_iff (x ∷ y ∷ t ∷ b) = ground (
    arith,
    buf.get_u16_reads (x ∷ y ∷ t ∷ b),
    buf.get_u8_reads (t ∷ b),
    parse_open_body-Returns b,
  )

  -- The reads of the common header are not guarded: the parser returns exactly where it has its 19
  -- bytes, or where 16 bytes are there that are not the marker.
  pub parse_bgp_open-Returns_iff :
      (b : List ℕ)
      → Returns (parse_bgp_open b)
        ↔ ((16 ≤ length b) × ((19 ≤ length b) ⊎ (text_beq (take 16 b) marker ≡ false)))
  unfolding parse_bgp_open
  parse_bgp_open-Returns_iff b = ground (
    arith,
    buf.copy_to_bytes_reads 16 b,
    length-drop 16 b,
    parse_open_header-Returns_iff (drop 16 b),
  )
