-- ===== src/Core/Bgp/AttributeParser/Total.antt =====
-- The attribute parser returns, where the routes are plain prefixes.
use rustybmp.Base.{
  ◌≢◌, ◌⊎◌, ℕ, zero, suc, ◌+◌, ◌/◌, ◌%◌, ◌≤◌, ◌<◌, ◌≡◌, refl, Bool, true, false, ◌||◌, List, [],
  ◌∷◌, arith, ltb, leb, ltb-false, leb→le, subst, ◌==◌, if◌then◌else◌, nat_eq, length, length-drop,
  Bool-cases, inl, inr,
}
use rustybmp.Core.Error.{
  Returns, Returns-bind, Ensures, Ensures-bind, Returns-Ensures, Returns-Yields,
}
use rustybmp.Core.Slice.{be16, byte, at_ok, u16_at_ok, u32_at_ok, slice_from_ok}
use rustybmp.Core.Buf.{Buf}
use rustybmp.Core.Ipnet.{Ipnet}
use rustybmp.Core.Net.{IpAddr}
use rustybmp.Core.Bgp.Family.{
  AfiSafi, Safi, afi_safi, safi_from, unicast, multicast, labeled_unicast, mpls_vpn,
}
use rustybmp.Core.Bgp.Nlri.Total.{decode_nlri-Returns}
use rustybmp.Core.Bgp.NextHops.{decode_next_hops, decode_next_hops-Returns}
use rustybmp.Core.Bgp.AsPath.{parse_as_path}
use rustybmp.Core.Bgp.AsPath.Wire.{parse_as_path-Returns}
use rustybmp.Core.Bgp.TunnelEncap.{parse_tunnel_encap, parse_tunnel_encap-IsOk}
use rustybmp.Core.Bgp.Bgpsec.{parse_bgpsec_path, parse_bgpsec_path-Yields}
use rustybmp.Core.Bgp.Attributes.{PathAttributes}
use rustybmp.Core.Bgp.AttributeParser.{
  is_plain, Decoders, origin_try_from, Arm, aggregator2, aggregator4, bgpls, bgpsec, arm_of,
  mp_prefixes, mp_reach_nlri, parse_mp_reach, parse_mp_unreach, apply_arm, take_attribute,
  attribute_len, attribute_loop, parse_path_attributes,
}

-- The bytes that an arm reads without a check of its own.
arm_needs : Arm → ℕ
arm_needs Arm.origin = 1
arm_needs Arm.next_hop = 4
arm_needs Arm.multi_exit_disc = 4
arm_needs Arm.local_pref = 4
arm_needs aggregator2 = 6
arm_needs aggregator4 = 8
arm_needs Arm.originator_id = 4
arm_needs Arm.as4_aggregator = 8
arm_needs Arm.only_to_customer = 4
arm_needs _ = 0

arm_of-needs : (t n : ℕ) → arm_needs (arm_of t n) ≤ n
unfolding arm_of arm_needs
arm_of-needs t n = ground arith

is_mp : Arm → Bool
is_mp Arm.mp_reach = true
is_mp Arm.mp_unreach = true
is_mp _ = false

is_mp-arm_of : (t n : ℕ) → is_mp (arm_of t n) ≡ true → ((t == 14) || (t == 15)) ≡ true
unfolding is_mp arm_of
is_mp-arm_of t n h = ground arith

origin_try_from-Returns : (v : ℕ) → Returns (origin_try_from v)
unfolding origin_try_from
origin_try_from-Returns v = ground arith

-- `Unicast` is 1, `Multicast` is 2.
abbrev pub plain_safi : ℕ → Bool
plain_safi v = (v == 1) || (v == 2)

is_plain-safi_from : (v : ℕ) → plain_safi v ≡ true → is_plain (safi_from v) ≡ true
unfolding safi_from
is_plain-safi_from v h = ground arith

is_foreign : Arm → Bool
is_foreign bgpls = true
is_foreign Arm.prefix_sid = true
is_foreign _ = false

is_prefix_sid : Arm → Bool
is_prefix_sid Arm.prefix_sid = true
is_prefix_sid _ = false

is_bgpls : Arm → Bool
is_bgpls bgpls = true
is_bgpls _ = false

is_prefix_sid-arm_of : (t n : ℕ) → is_prefix_sid (arm_of t n) ≡ true → t ≡ 40
unfolding is_prefix_sid arm_of
is_prefix_sid-arm_of t n h = ground arith

is_bgpls-arm_of : (t n : ℕ) → is_bgpls (arm_of t n) ≡ true → t ≡ 29
unfolding is_bgpls arm_of
is_bgpls-arm_of t n h = ground arith

foreign_cases :
    (arm : Arm) → (is_foreign arm ≡ false) ⊎ ((is_prefix_sid arm ≡ true) ⊎ (is_bgpls arm ≡ true))
unfolding is_foreign is_prefix_sid is_bgpls
foreign_cases Arm.prefix_sid = inr (inl refl)
foreign_cases bgpls = inr (inr refl)
foreign_cases _ = inl refl

is_foreign-arm_of : (t n : ℕ) → t ≢ 29 → t ≢ 40 → is_foreign (arm_of t n) ≡ false
is_foreign-arm_of t n h k = elim (foreign_cases (arm_of t n)) [
  | inl no' ↦ no'
  | inr (inl e) ↦ absurd (k (is_prefix_sid-arm_of t n e))
  | inr (inr e) ↦ absurd (h (is_bgpls-arm_of t n e))
]

-- The attribute is no BGP-LS attribute and no prefix SID, and if it has routes, their subsequent
-- address family is unicast or multicast.
abbrev pub HasPlainRoutes : (type_code : ℕ) (attr : List ℕ) → Type 0
HasPlainRoutes t d =
    ((t ≢ 29) × (t ≢ 40)) × (((t == 14) || (t == 15)) ≡ true → plain_safi (byte d 2) ≡ true)

module _ (buf : Buf) (ipnet : Ipnet) {Families : Type 0} (decoders : Decoders Families) where
  mp_prefixes-Returns :
      (f : AfiSafi) (b : List ℕ)
      → is_plain f.safi ≡ true
      → Returns (mp_prefixes buf ipnet decoders f b)
  unfolding mp_prefixes
  mp_prefixes-Returns f b h = prefixes_by f.safi h
    where
      prefixes_by :
          (s : Safi)
          → is_plain s ≡ true
          → Returns (mp_prefixes buf ipnet decoders (record { afi = f.afi; safi = s }) b)
      prefixes_by unicast h = decode_nlri-Returns buf ipnet b f.afi
      prefixes_by multicast h = decode_nlri-Returns buf ipnet b f.afi
      prefixes_by labeled_unicast h = cc
      prefixes_by mpls_vpn h = cc
      prefixes_by _ h = refl

  mp_reach_nlri-Returns :
      (f : AfiSafi) (hops : List IpAddr) (b : List ℕ) (x : Families)
      → is_plain f.safi ≡ true
      → Returns (mp_reach_nlri buf ipnet decoders f hops b x)
  unfolding mp_reach_nlri
  mp_reach_nlri-Returns f hops [] x h = refl
  mp_reach_nlri-Returns f hops (s ∷ b) x h =
      let enough : ltb (length (s ∷ b)) 1 ≡ false = ltb-false _ _ (omega arith) in
      rw (enough, buf.get_u8_reads (s ∷ b), mp_reach_nlri)
        (Returns-bind (decoders.reach f hops b x) _ (rw (decoders.reach_plain f hops b x h) refl)
          λ y e.
            Returns-bind (mp_prefixes buf ipnet decoders f b) _ (mp_prefixes-Returns f b h)
              λ p i. refl)

  parse_mp_reach-Returns :
      (b : List ℕ) (x : Families)
      → plain_safi (byte b 2) ≡ true
      → Returns (parse_mp_reach buf ipnet decoders b x)
  unfolding parse_mp_reach
  parse_mp_reach-Returns (a ∷ b ∷ s ∷ n ∷ rest) x l =
      let d = a ∷ b ∷ s ∷ n ∷ rest in
      let enough : ltb (length d) 4 ≡ false = ltb-false _ _ (omega arith) in
      let f = afi_safi (be16 a b) s in
      rw
        (
          enough,
          u16_at_ok d 0 (omega arith),
          at_ok d 2 (omega arith),
          slice_from_ok d 3 (omega arith),
          parse_mp_reach,
        )
        (Returns-bind (decode_next_hops buf (n ∷ rest) f.afi) _
          (decode_next_hops-Returns buf n rest f.afi)
          λ r e. mp_reach_nlri-Returns f r.0 r.1 x (is_plain-safi_from s l))
  parse_mp_reach-Returns _ x l = refl

  parse_mp_unreach-Returns :
      (b : List ℕ) (x : Families)
      → plain_safi (byte b 2) ≡ true
      → Returns (parse_mp_unreach buf ipnet decoders b x)
  unfolding parse_mp_unreach
  parse_mp_unreach-Returns (a ∷ b ∷ s ∷ rest) x l =
      let d = a ∷ b ∷ s ∷ rest in
      let enough : ltb (length d) 3 ≡ false = ltb-false _ _ (omega arith) in
      let f = afi_safi (be16 a b) s in
      rw
        (
          enough,
          u16_at_ok d 0 (omega arith),
          at_ok d 2 (omega arith),
          slice_from_ok d 3 (omega arith),
          parse_mp_unreach,
        )
        (Returns-bind (decoders.unreach f rest x) _
          (rw (decoders.unreach_plain f rest x (is_plain-safi_from s l)) refl)
          λ y e.
            Returns-bind (mp_prefixes buf ipnet decoders f rest) _
              (mp_prefixes-Returns f rest (is_plain-safi_from s l)) λ p i. refl)
  parse_mp_unreach-Returns _ x l = refl

  -- One arm on a value that has the bytes it reads.
  apply_arm-Returns :
      (arm : Arm) (flags t : ℕ) (d : List ℕ) (a : PathAttributes Families)
      → arm_needs arm ≤ length d
      → (is_mp arm ≡ true → plain_safi (byte d 2) ≡ true)
      → is_foreign arm ≡ false
      → Returns (apply_arm buf ipnet decoders arm flags t d a)
  unfolding apply_arm arm_needs is_mp is_foreign
  apply_arm-Returns Arm.origin flags t d a h u v =
      rw (at_ok d 0 (omega (arith, h))) (
        Returns-bind (origin_try_from (byte d 0)) _ (origin_try_from-Returns (byte d 0))
          λ o e. refl)
  apply_arm-Returns Arm.as_path flags t d a h u v =
      Returns-bind (parse_as_path d false) _ (parse_as_path-Returns d false) λ p e. refl
  apply_arm-Returns Arm.next_hop flags t d a h u v = rw (u32_at_ok d 0 (omega (arith, h))) refl
  apply_arm-Returns Arm.multi_exit_disc flags t d a h u v =
      rw (u32_at_ok d 0 (omega (arith, h))) refl
  apply_arm-Returns Arm.local_pref flags t d a h u v = rw (u32_at_ok d 0 (omega (arith, h))) refl
  apply_arm-Returns aggregator2 flags t d a h u v =
      rw (u16_at_ok d 0 (omega (arith, h)), u32_at_ok d 2 (omega (arith, h))) refl
  apply_arm-Returns aggregator4 flags t d a h u v =
      rw (u32_at_ok d 0 (omega (arith, h)), u32_at_ok d 4 (omega (arith, h))) refl
  apply_arm-Returns Arm.originator_id flags t d a h u v = rw (u32_at_ok d 0 (omega (arith, h))) refl
  apply_arm-Returns Arm.mp_reach flags t d a h u v =
      Returns-bind (parse_mp_reach buf ipnet decoders d a.families) _
        (parse_mp_reach-Returns d a.families (u refl)) λ r e. refl
  apply_arm-Returns Arm.mp_unreach flags t d a h u v =
      Returns-bind (parse_mp_unreach buf ipnet decoders d a.families) _
        (parse_mp_unreach-Returns d a.families (u refl)) λ r e. refl
  apply_arm-Returns Arm.as4_path flags t d a h u v =
      Returns-bind (parse_as_path d true) _ (parse_as_path-Returns d true) λ p e. refl
  apply_arm-Returns Arm.as4_aggregator flags t d a h u v =
      rw (u32_at_ok d 0 (omega (arith, h)), u32_at_ok d 4 (omega (arith, h))) refl
  apply_arm-Returns Arm.tunnel_encap flags t d a h u v =
      Returns-bind (parse_tunnel_encap d) _
        (Returns-Yields _ (parse_tunnel_encap d) (parse_tunnel_encap-IsOk d)) λ p e. refl
  apply_arm-Returns Arm.only_to_customer flags t d a h u v =
      rw (u32_at_ok d 0 (omega (arith, h))) refl
  apply_arm-Returns bgpls flags t d a h u v = cc
  apply_arm-Returns Arm.prefix_sid flags t d a h u v = cc
  apply_arm-Returns bgpsec flags t d a h u v =
      Returns-bind (parse_bgpsec_path d) _
        (Returns-Yields _ (parse_bgpsec_path d) (parse_bgpsec_path-Yields d)) λ p e. refl
  apply_arm-Returns _ flags t d a h u v = refl

module _ (buf : Buf) where
  attribute_len-Ensures :
      (flags l : ℕ) (b : List ℕ)
      → Ensures (λ r. length r.1 ≤ length b) (attribute_len buf flags (l ∷ b))
  unfolding attribute_len
  attribute_len-Ensures flags l [] = elim (Bool-cases (flags / 16 % 2 == 1)) [
    | inl long ↦ rw long tt
    | inr short ↦ rw (short, buf.get_u8_reads (l ∷ [])) (omega arith)
  ]
  attribute_len-Ensures flags l (m ∷ b) =
      let enough : ltb (length (l ∷ m ∷ b)) 2 ≡ false = ltb-false _ _ (omega arith) in
      elim (Bool-cases (flags / 16 % 2 == 1)) [
        | inl long ↦ rw (long, enough, buf.get_u16_reads (l ∷ m ∷ b)) (omega arith)
        | inr short ↦ rw (short, buf.get_u8_reads (l ∷ m ∷ b)) (omega arith)
      ]

  -- An attribute takes its head, of three bytes at least, from the bytes.
  take_attribute-Ensures :
      (b : List ℕ)
      → 3 ≤ length b
      → Ensures (λ r. length r.1.1 + 3 ≤ length b) (take_attribute buf b)
  unfolding take_attribute
  take_attribute-Ensures (f ∷ t ∷ l ∷ b) h =
      rw (buf.get_u8_reads (f ∷ t ∷ l ∷ b), buf.get_u8_reads (t ∷ l ∷ b), take_attribute)
        (Ensures-bind (λ r. length r.1 ≤ length b) _ (attribute_len buf f (l ∷ b)) _
          (attribute_len-Ensures f l b)
          λ r s. elim (Bool-cases (ltb (length r.1) r.0)) [
            | inl short ↦ rw short tt
            | inr enough ↦
                let all : leb r.0 (length r.1) ≡ true = ground arith in
                rw (enough, buf.copy_to_bytes_reads r.0 r.1, all)
                  (omega (arith, length-drop r.0 r.1, s))
          ])
  take_attribute-Ensures [] h = absurd (omega arith)
  take_attribute-Ensures (f ∷ []) h = absurd (omega arith)
  take_attribute-Ensures (f ∷ t ∷ []) h = absurd (omega arith)

  -- The routes of every attribute of the bytes are plain.
  abbrev pub PlainRoutes : ℕ → List ℕ → Type 0
  PlainRoutes zero b = Unit
  PlainRoutes (suc fuel) b =
      if leb 3 (length b)
      then Ensures (λ r. HasPlainRoutes r.0.1 r.1.0 × PlainRoutes fuel r.1.1) (take_attribute buf b)
      else Unit

module _ (buf : Buf) (ipnet : Ipnet) {Families : Type 0} (decoders : Decoders Families) where
  attribute_loop-Returns :
      (fuel : ℕ) (b : List ℕ) (a : PathAttributes Families)
      → length b < fuel
      → PlainRoutes buf fuel b
      → Returns (attribute_loop buf ipnet decoders fuel b a)
  unfolding attribute_loop
  attribute_loop-Returns zero b a h u = absurd (omega arith)
  attribute_loop-Returns (suc fuel) b a h u =
      let Uses : (ℕ × ℕ) × (List ℕ × List ℕ) → Type 0 = λ r. length r.1.1 + 3 ≤ length b in
      let Plain : (ℕ × ℕ) × (List ℕ × List ℕ) → Type 0 =
        λ r. HasPlainRoutes r.0.1 r.1.0 × PlainRoutes buf fuel r.1.1 in
      elim (Bool-cases (leb 3 (length b))) [
        | inr last ↦ rw last refl
        | inl more ↦
            let size : Ensures Uses (take_attribute buf b) =
              take_attribute-Ensures buf b (leb→le _ _ more) in
            let plain : Ensures Plain (take_attribute buf b) =
              subst (λ c. if c then Ensures Plain (take_attribute buf b) else Unit) more u in
            rw more (
              Returns-bind (take_attribute buf b) _
                (Returns-Ensures Uses (take_attribute buf b) size)
                λ r e.
                  let left : Uses r = subst (Ensures Uses) e size in
                  let mp : Plain r = subst (Ensures Plain) e plain in
                  let arm = arm_of r.0.1 (length r.1.0) in
                  Returns-bind (apply_arm buf ipnet decoders arm r.0.0 r.0.1 r.1.0 a) _
                    (apply_arm-Returns buf ipnet decoders arm r.0.0 r.0.1 r.1.0 a
                      (arm_of-needs r.0.1 (length r.1.0))
                      (λ is. mp.0.1 (is_mp-arm_of r.0.1 (length r.1.0) is))
                      (is_foreign-arm_of r.0.1 (length r.1.0) mp.0.0.0 mp.0.0.1))
                    λ x i. attribute_loop-Returns fuel r.1.1 x (omega (arith, left, h)) mp.1)
      ]

  pub parse_path_attributes-Returns :
      (b : List ℕ)
      → PlainRoutes buf (suc (length b)) b
      → Returns (parse_path_attributes buf ipnet decoders b)
  unfolding parse_path_attributes
  parse_path_attributes-Returns b u = attribute_loop-Returns (suc (length b)) b _ (omega arith) u
