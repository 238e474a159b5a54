-- ===== src/Core/Bgp/Update.antt =====
-- crates/rbmp-core/src/bgp/update.rs: the BGP UPDATE message.
use rustybmp.Base.{
  ℕ, ◌≤◌, ◌≡◌, refl, Bool, false, not, Option, List, [], ◌∷◌, arith, ltb, ◌==◌, if◌then◌else◌,
  nat_eq, length, take, drop, length-drop,
}
use rustybmp.Base.Text.{text_beq, text_beq_iff}
use rustybmp.Core.Error.{
  unexpected_eof, invalid_bgp_marker, invalid_bgp_message_type, Result, ok, err, ◌>>=◌, Returns,
  Returns-bind,
}
use rustybmp.Core.Buf.{Buf}
use rustybmp.Core.Slice.{be16, byte}
use rustybmp.Core.Ipnet.{Ipnet}
use rustybmp.Core.Bgp.Family.{ipv4}
use rustybmp.Core.Bgp.Nlri.{Prefix, decode_nlri_with_path_id}
use rustybmp.Core.Bgp.Nlri.Total.{decode_nlri_with_path_id-decode_nlri}
use rustybmp.Core.Bgp.Open.{marker}
use rustybmp.Core.Bgp.Attributes.{PathAttributes, BgpUpdate}

-- `into_iter().unzip()`
abbrev pub firsts {ℓ κ} : {A : Type ℓ} {B : Type κ} → List (A × B) → List A
firsts [] = []
firsts ((a, b) ∷ ps) = a ∷ firsts ps

abbrev pub seconds {ℓ κ} : {A : Type ℓ} {B : Type κ} → List (A × B) → List B
seconds [] = []
seconds ((a, b) ∷ ps) = b ∷ seconds ps

-- Where the attributes stand: behind the header of 19 bytes and the withdrawn routes, each section
-- with its length in two bytes before it.
section_of : List ℕ → List ℕ
section_of b = take (be16 (byte b 0) (byte b 1)) (drop 2 b)

behind_withdrawn : List ℕ → List ℕ
behind_withdrawn b = drop (be16 (byte b 0) (byte b 1)) (drop 2 b)

unfoldable pub attribute_section : List ℕ → List ℕ
unfolding section_of behind_withdrawn
attribute_section b = section_of (behind_withdrawn (drop 3 (drop 16 b)))

-- `parse_path_attributes` of bgp/attributes.rs is a parameter.
module _ (buf : Buf) (ipnet : Ipnet) {Families : Type 0}
    (parse_path_attributes : List ℕ → Result (PathAttributes Families)) where
  -- From the attribute section on, with the withdrawn routes.
  unfoldable pub parse_attribute_section :
      Bool → List (Prefix × Option ℕ) → List ℕ → Result (BgpUpdate Families)
  parse_attribute_section add_path_ipv4 withdrawn b =
      let section = (do
        (attr_len, b) ← buf.get_u16 b
        let attrs = (do
          (attr_bytes, b) ← buf.copy_to_bytes attr_len b
          attributes ← parse_path_attributes attr_bytes
          announced ← decode_nlri_with_path_id buf ipnet b ipv4 add_path_ipv4
          ok (record {
            withdrawn = firsts withdrawn;
            withdrawn_path_ids = seconds withdrawn;
            attributes = attributes;
            announced = firsts announced;
            announced_path_ids = seconds announced;
          }))
        if ltb (length b) attr_len then err (unexpected_eof attr_len (length b)) else attrs) in
      if ltb (length b) 2 then err (unexpected_eof 2 (length b)) else section

  -- From the withdrawn routes on, behind the common header.
  unfoldable pub parse_withdrawn_section : Bool → List ℕ → Result (BgpUpdate Families)
  parse_withdrawn_section add_path_ipv4 b =
      let section = (do
        (withdrawn_len, b) ← buf.get_u16 b
        let routes = (do
          (withdrawn_bytes, b) ← buf.copy_to_bytes withdrawn_len b
          withdrawn ← decode_nlri_with_path_id buf ipnet withdrawn_bytes ipv4 add_path_ipv4
          parse_attribute_section add_path_ipv4 withdrawn b)
        if ltb (length b) withdrawn_len
            then err (unexpected_eof withdrawn_len (length b))
            else routes) in
      if ltb (length b) 2 then err (unexpected_eof 2 (length b)) else section

  unfoldable pub parse_update_header : Bool → List ℕ → Result (BgpUpdate Families)
  parse_update_header add_path_ipv4 b = do
    (msg_len, b) ← buf.get_u16 b
    (msg_type, b) ← buf.get_u8 b
    if not (msg_type == 2)
        then err (invalid_bgp_message_type msg_type)
        else parse_withdrawn_section add_path_ipv4 b

  unfoldable pub parse_bgp_update : List ℕ → Bool → Result (BgpUpdate Families)
  parse_bgp_update b add_path_ipv4 = do
    (m, b) ← buf.copy_to_bytes 16 b
    let header = parse_update_header add_path_ipv4 b
    if not (text_beq m marker) then err invalid_bgp_marker else header

  parse_attribute_section-Returns :
      (withdrawn : List (Prefix × Option ℕ)) (b : List ℕ)
      → Returns (parse_path_attributes (section_of b))
      → Returns (parse_attribute_section false withdrawn b)
  unfolding parse_attribute_section section_of
  parse_attribute_section-Returns withdrawn [] h = refl
  parse_attribute_section-Returns withdrawn (x ∷ []) h = refl
  parse_attribute_section-Returns withdrawn (x ∷ y ∷ b) h = ground (
    arith,
    buf.get_u16_reads (x ∷ y ∷ b),
    buf.copy_to_bytes_reads (be16 x y) b,
    h,
    (decode_nlri_with_path_id-decode_nlri buf ipnet (drop (be16 x y) b) ipv4).1,
  )

  parse_withdrawn_section-Returns :
      (b : List ℕ)
      → Returns (parse_path_attributes (section_of (behind_withdrawn b)))
      → Returns (parse_withdrawn_section false b)
  unfolding parse_withdrawn_section section_of behind_withdrawn
  parse_withdrawn_section-Returns [] h = refl
  parse_withdrawn_section-Returns (x ∷ []) h = refl
  parse_withdrawn_section-Returns (x ∷ y ∷ b) h =
      let reads = decode_nlri_with_path_id buf ipnet (take (be16 x y) b) ipv4 false in
      let rest =
        λ (w : List (Prefix × Option ℕ)). parse_attribute_section false w (drop (be16 x y) b) in
      ground (
        arith,
        buf.get_u16_reads (x ∷ y ∷ b),
        buf.copy_to_bytes_reads (be16 x y) b,
        Returns-bind reads rest
            (decode_nlri_with_path_id-decode_nlri buf ipnet (take (be16 x y) b) ipv4).1
            (λ w e. parse_attribute_section-Returns w (drop (be16 x y) b) h),
      )

  parse_update_header-Returns :
      (b : List ℕ)
      → 3 ≤ length b
      → Returns (parse_path_attributes (section_of (behind_withdrawn (drop 3 b))))
      → Returns (parse_update_header false b)
  unfolding parse_update_header
  parse_update_header-Returns [] h k = absurd (omega arith)
  parse_update_header-Returns (x ∷ []) h k = absurd (omega arith)
  parse_update_header-Returns (x ∷ y ∷ []) h k = absurd (omega arith)
  parse_update_header-Returns (x ∷ y ∷ t ∷ b) h k = ground (
    arith,
    buf.get_u16_reads (x ∷ y ∷ t ∷ b),
    buf.get_u8_reads (t ∷ b),
    parse_withdrawn_section-Returns b k,
  )

  -- Without Add-Path, the parser of UPDATE messages returns on every byte string that holds the 19
  -- bytes of the common header, unless the attribute parser does not return on the attribute section
  -- of that message.
  pub parse_bgp_update-Returns :
      (b : List ℕ)
      → 19 ≤ length b
      → Returns (parse_path_attributes (attribute_section b))
      → Returns (parse_bgp_update b false)
  unfolding parse_bgp_update attribute_section
  parse_bgp_update-Returns b h k = ground (
    arith,
    buf.copy_to_bytes_reads 16 b,
    length-drop 16 b,
    parse_update_header-Returns (drop 16 b) (omega (arith, h, length-drop 16 b)) k,
  )

  -- A message that does not start with the marker is refused, whatever the attribute parser does.
  pub parse_bgp_update-marker :
      (b : List ℕ) (add_path_ipv4 : Bool) (u : BgpUpdate Families)
      → parse_bgp_update b add_path_ipv4 ≡ ok u
      → take 16 b ≡ marker
  unfolding parse_bgp_update
  parse_bgp_update-marker b add_path_ipv4 u h =
      ground (arith, buf.copy_to_bytes_reads 16 b, text_beq_iff (take 16 b) marker)
