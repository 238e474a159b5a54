-- ===== src/Core/Bgp/Tests.antt =====
-- Attribute sections and routes of some bytes.
use rustybmp.Base.{if◌then◌else◌, false, ℕ, ◌+◌, arith, ◌≡◌, refl, some, List, [], ◌∷◌, nat_eq}
use rustybmp.Core.Error.{ok, panic}
use rustybmp.Core.Slice.{u16_at, slice_from, be_value, u32_at}
use rustybmp.Core.Buf.{slice_buf}
use rustybmp.Core.Ipnet.{plain_ipnet}
use rustybmp.Core.Bgp.Family.{ipv4}
use rustybmp.Core.Bgp.Nlri.{decode_labeled_nlri, decode_vpn_nlri_loop}
use rustybmp.Core.Bgp.Nlri.Panics.{decode_labeled_nlri-panic}
use rustybmp.Core.Bgp.AttributeParser.VpnHops.{hops_read, parse_mp_reach_vpn}
use rustybmp.Core.Net.{v4}
use rustybmp.Core.Bgp.Family.{afi_safi}
use rustybmp.Core.Bgp.Attributes.{MpReachNlri, RawAttribute, no_attributes}
use rustybmp.Core.Bgp.AttributeParser.{
  is_plain, Decoders, arm_of, apply_arm, parse_path_attributes, parse_mp_reach,
}
use rustybmp.Core.Bgp.AttributeParser.Framing.{
  section_bytes, parse_path_attributes-section_bytes, parse_path_attributes-unknown,
}

-- Decoders that panic on every other family.
abbrev decoders : Decoders ℕ
decoders = record {
  empty = 0;
  reach = λ f hops b x. if is_plain f.safi then ok x else panic;
  unreach = λ f b x. if is_plain f.safi then ok x else panic;
  bgpls_attribute = λ b x. panic;
  prefix_sid = λ b x. panic;
  reach_plain = λ f hops b x h. rw h refl;
  unreach_plain = λ f b x h. rw h refl;
}

-- Decoders that keep nothing.
abbrev lax_decoders : Decoders ℕ
lax_decoders = record {
  empty = 0;
  reach = λ f hops b x. ok x;
  unreach = λ f b x. ok x;
  bgpls_attribute = λ b x. ok x;
  prefix_sid = λ b x. ok x;
  reach_plain = λ f hops b x h. refl;
  unreach_plain = λ f b x h. refl;
}

-- ORIGIN, and MP_UNREACH with the IPv6 default route.
abbrev section : List ℕ
section = 64 ∷ 1 ∷ 1 ∷ 0 ∷ 128 ∷ 15 ∷ 4 ∷ 0 ∷ 2 ∷ 1 ∷ 0 ∷ []

-- MULTI_EXIT_DISC, and LOCAL_PREF with a length in two bytes.
abbrev two_attributes : List RawAttribute
two_attributes =
    record { flags = 128; type_code = 4; value = 0 ∷ 0 ∷ 0 ∷ 9 ∷ [] }
    ∷ record { flags = 80; type_code = 5; value = 0 ∷ 0 ∷ 0 ∷ 200 ∷ [] }
    ∷ []

-- What the two attributes set.
two_attributes-values :
    parse_path_attributes slice_buf plain_ipnet decoders (section_bytes two_attributes)
    ≡ ok (record (no_attributes 0) { multi_exit_disc = some 9; local_pref = some 200 })
unfolding apply_arm arm_of u32_at
two_attributes-values =
    parse_path_attributes-section_bytes slice_buf plain_ipnet decoders two_attributes
      (omega arith, (omega arith, tt))

-- Type 99, and a NEXT_HOP of three bytes.
abbrev unknown_attributes : List RawAttribute
unknown_attributes =
    record { flags = 192; type_code = 99; value = 1 ∷ 2 ∷ [] }
    ∷ record { flags = 64; type_code = 3; value = 10 ∷ 0 ∷ 0 ∷ [] }
    ∷ []

parse_path_attributes-unknown_example :
    parse_path_attributes slice_buf plain_ipnet decoders (section_bytes unknown_attributes)
    ≡ ok (record (no_attributes 0) { unknown = unknown_attributes })
unfolding arm_of
parse_path_attributes-unknown_example =
    parse_path_attributes-unknown slice_buf plain_ipnet decoders unknown_attributes
      (omega arith, (omega arith, tt)) (refl, (refl, tt))

-- The route distinguisher 65000:100 before the next hop 10.0.0.1, and no routes behind it.
abbrev reached : MpReachNlri
reached = record {
  afi_safi = afi_safi 1 128;
  next_hops =
      v4 (be_value 0 (0 ∷ 0 ∷ 253 ∷ 232 ∷ []))
      ∷ v4 (be_value 0 (0 ∷ 0 ∷ 0 ∷ 100 ∷ []))
      ∷ v4 (be_value 0 (10 ∷ 0 ∷ 0 ∷ 1 ∷ []))
      ∷ [];
  prefixes = [];
}

parse_mp_reach_vpn_example :
    reached.next_hops
    ≡ hops_read false (0 ∷ 0 ∷ 253 ∷ 232 ∷ 0 ∷ 0 ∷ 0 ∷ 100 ∷ []) (10 ∷ 0 ∷ 0 ∷ 1 ∷ [])
unfolding parse_mp_reach u16_at slice_from decode_vpn_nlri_loop
parse_mp_reach_vpn_example =
    parse_mp_reach_vpn slice_buf plain_ipnet lax_decoders false 0 0 253 232 0 0 0 100
      (10 ∷ 0 ∷ 0 ∷ 1 ∷ []) (0 ∷ []) 0 (reached, 0) refl refl

-- A prefix of 40 bits for IPv4.
decode_labeled_nlri-panic_example :
    decode_labeled_nlri slice_buf plain_ipnet ((24 + 40) ∷ 0 ∷ 1 ∷ 1 ∷ 1 ∷ 2 ∷ 3 ∷ 4 ∷ 5 ∷ []) ipv4
    ≡ panic
decode_labeled_nlri-panic_example =
    decode_labeled_nlri-panic slice_buf plain_ipnet ipv4 40 0 1 1 (1 ∷ 2 ∷ 3 ∷ 4 ∷ 5 ∷ []) refl
      (omega arith) (omega arith) (omega arith)
