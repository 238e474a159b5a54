-- ===== src/Core/Tests.antt =====
-- Runs of the parsers on concrete bytes.
use rustybmp.Base.{
  leb, replicate, if◌then◌else◌, ℕ, ◌+◌, ◌*◌, ◌≤◌, ◌<◌, ◌≡◌, refl, ◌↔◌, ◌⊎◌, true, false, some,
  List, [], ◌∷◌, ◌++◌, arith, nat_eq, length, take, All,
}
use rustybmp.Base.Text.{text_beq}
use rustybmp.Core.Error.{Result, ok, panic, Returns, Ensures}
use rustybmp.Core.Buf.{slice_buf}
use rustybmp.Core.Ipnet.{plain_ipnet}
use rustybmp.Core.Bgp.Family.{ipv4}
use rustybmp.Core.Bgp.Attributes.{PathAttributes, no_attributes}
use rustybmp.Core.Bgp.Nlri.{Prefix, addr_family, decode_nlri, decode_nlri_with_path_id}
use rustybmp.Core.BufMut.{u32_bytes}
use rustybmp.Core.Bgp.Nlri.AddPath.{add_path_bytes, decode_nlri_with_path_id-panic}
use rustybmp.Core.Bgp.Nlri.Canonical.{IsPlain, decode_nlri-IsPlain}
use rustybmp.Core.Bgp.Open.{marker, parse_bgp_open}
use rustybmp.Core.Bgp.Open.{parse_bgp_open-Returns_iff}
use rustybmp.Core.Bgp.AsPath.{set, sequence, asns, AsPath, parse_as_path}
use rustybmp.Core.Bgp.AsPath.Wire.{
  path_bytes, seg_type, parse_as_path-path_bytes, parse_as_path_misread,
}
use rustybmp.Core.Bgp.Update.{attribute_section, parse_bgp_update, parse_bgp_update-Returns}
use rustybmp.Core.Bgp.AttributeParser.{
  is_plain, Decoders, take_attribute, attribute_len, parse_path_attributes,
}
use rustybmp.Core.Bgp.AttributeParser.Total.{parse_path_attributes-Returns}
use rustybmp.Core.Bmp.Parser.{Env, parse_bmp_message, parse_bgp_open_pdu}
use rustybmp.Core.Bmp.Parser.Total.{parse_bmp_message-Returns}
use rustybmp.Core.Bmp.Parser.Opens.{declared, parse_bgp_open_pdu-Returns_iff}

abbrev env : Env
env = record {
  Time = ℕ;
  timestamp_opt = λ secs nanos. some secs;
  utc_now = 0;
  from_utf8_lossy = λ bytes. bytes;
  can_reserve = λ n. leb n 1048576;
}

-- An attribute parser that takes every section for an empty one.
abbrev attributes : List ℕ → Result (PathAttributes ℕ)
attributes b = ok (no_attributes 0)

-- The attribute parser of the program, with decoders that panic on every other family.
abbrev decoders : Decoders ℕ
decoders = record {
  empty = 0;
  reach = λ f hops b x. if is_plain f.safi then ok x else panic;
  unreach = λ f b x. if is_plain f.safi then ok x else panic;
  bgpls_attribute = λ b x. panic;
  prefix_sid = λ b x. panic;
  reach_plain = λ f hops b x h. rw h refl;
  unreach_plain = λ f b x h. rw h refl;
}

abbrev program_attributes : List ℕ → Result (PathAttributes ℕ)
program_attributes = parse_path_attributes slice_buf plain_ipnet decoders

-- An UPDATE with an ORIGIN, and the Route Monitoring message that carries it.
abbrev update_message : List ℕ
update_message = marker ++ (0 ∷ 27 ∷ 2 ∷ 0 ∷ 0 ∷ 0 ∷ 4 ∷ 64 ∷ 1 ∷ 1 ∷ 0 ∷ [])

abbrev monitoring_frame : List ℕ
monitoring_frame = 3 ∷ 0 ∷ 0 ∷ 0 ∷ 75 ∷ 0 ∷ (replicate 42 0 ++ update_message)

origin_parses : Returns (program_attributes (attribute_section update_message))
unfolding attribute_section take_attribute attribute_len
origin_parses =
    parse_path_attributes-Returns slice_buf plain_ipnet decoders (64 ∷ 1 ∷ 1 ∷ 0 ∷ [])
      ((((λ e. absurd (omega (arith, e))), λ e. absurd (omega (arith, e))), λ h. cc), tt)

parse_bmp_message-Returns_example :
    Returns (parse_bmp_message env slice_buf plain_ipnet program_attributes monitoring_frame 65536)
parse_bmp_message-Returns_example =
    parse_bmp_message-Returns env slice_buf plain_ipnet program_attributes monitoring_frame 65536
      ((λ e. absurd (omega (arith, e))), ((λ e. origin_parses), λ e. absurd (omega (arith, e))))

-- The header of an OPEN that declares 18 bytes.
abbrev open_header : List ℕ
open_header = marker ++ (0 ∷ 18 ∷ 1 ∷ [])

parse_bgp_open_pdu-Returns_iff_example :
    Returns (parse_bgp_open_pdu env slice_buf plain_ipnet attributes open_header) ↔ (
      ((length open_header < 19) ⊎ (length open_header < declared open_header))
      ⊎ ((16 ≤ declared open_header)
          × ((19 ≤ declared open_header) ⊎ (text_beq (take 16 open_header) marker ≡ false))))
parse_bgp_open_pdu-Returns_iff_example =
    parse_bgp_open_pdu-Returns_iff env slice_buf plain_ipnet attributes open_header

parse_bgp_open-Returns_iff_example : Returns (parse_bgp_open slice_buf (λ b. b) open_header) ↔ (
    (16 ≤ length open_header)
    × ((19 ≤ length open_header) ⊎ (text_beq (take 16 open_header) marker ≡ false)))
parse_bgp_open-Returns_iff_example = parse_bgp_open-Returns_iff slice_buf (λ b. b) open_header

parse_bgp_update-Returns_example :
    Returns (parse_bgp_update slice_buf plain_ipnet program_attributes update_message false)
parse_bgp_update-Returns_example =
    parse_bgp_update-Returns slice_buf plain_ipnet program_attributes update_message (omega arith)
      origin_parses

-- 10.1.0.0/16 with a host bit set.
abbrev nlri : List ℕ
nlri = 12 ∷ 10 ∷ 31 ∷ []

decode_nlri-IsPlain_example :
    Ensures (All (IsPlain ipv4)) (decode_nlri slice_buf plain_ipnet nlri ipv4)
decode_nlri-IsPlain_example =
    decode_nlri-IsPlain slice_buf plain_ipnet nlri ipv4
      (omega arith, (omega arith, (omega arith, tt)))

-- 10.0.0.0/8 with the path identifier 5, before an entry that is cut off.
abbrev entries : List (ℕ × Prefix)
entries = (5, Prefix.v4 (record { addr = 167772160; prefix_len = 8 })) ∷ []

decode_nlri_with_path_id-panic_example :
    decode_nlri_with_path_id slice_buf plain_ipnet (add_path_bytes entries ++ u32_bytes 7) ipv4 true
    ≡ panic
unfolding addr_family
decode_nlri_with_path_id-panic_example =
    decode_nlri_with_path_id-panic slice_buf plain_ipnet ipv4 entries 7
      ((refl, (refl, (omega arith, omega arith, refl))), tt)

abbrev as_path : AsPath
as_path = sequence (65001 ∷ 65002 ∷ []) ∷ set (64512 ∷ []) ∷ []

parse_as_path-path_bytes_example : parse_as_path (path_bytes true as_path) true ≡ ok as_path
unfolding asns
parse_as_path-path_bytes_example =
    parse_as_path-path_bytes as_path
      ((omega arith, (omega arith, (omega arith, tt))), ((omega arith, (omega arith, tt)), tt))

-- AS 512
parse_as_path_misread_example :
    (path_bytes true (sequence ((0 * 65536 + seg_type (sequence []) * 256) ∷ []) ∷ [])
      ≡ path_bytes false (sequence (0 ∷ []) ∷ sequence [] ∷ []))
    × (parse_as_path
          (path_bytes true (sequence ((0 * 65536 + seg_type (sequence []) * 256) ∷ []) ∷ []))
          false
        ≡ ok (sequence (0 ∷ []) ∷ sequence [] ∷ []))
unfolding asns
parse_as_path_misread_example = parse_as_path_misread 0 (sequence []) (omega arith) refl
