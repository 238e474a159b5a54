-- ===== src/Core/Bgp/AttributeParser/Framing.antt =====
-- The attribute section as a list of attributes: what the parser makes of their bytes.
use rustybmp.Base.{
  ℕ, zero, suc, ◌+◌, ◌/◌, ◌%◌, ◌≤◌, ◌<◌, ◌≡◌, refl, sym, ap, ◌∙◌, Bool, true, false, List, [], ◌∷◌,
  ◌++◌, arith, All, ltb, leb, ltb-false, ◌==◌, if◌then◌else◌, nat_eq, length, length-append,
  Bool-cases, inl, inr, take-append, drop-append,
}
use mathlib.Core.List.{append_assoc, append-nil}
use rustybmp.Core.Error.{Result, ok, ◌>>=◌}
use rustybmp.Core.Slice.{be16}
use rustybmp.Core.Buf.{Buf}
use rustybmp.Core.BufMut.{u16_bytes, be16-u16_bytes}
use rustybmp.Core.Ipnet.{Ipnet}
use rustybmp.Core.Bgp.Attributes.{RawAttribute, PathAttributes, no_attributes}
use rustybmp.Core.Bgp.AttributeParser.{
  Decoders, raw, arm_of, apply_arm, take_attribute, attribute_len, attribute_loop,
  parse_path_attributes,
}

-- The flag of a length in two bytes.
abbrev pub is_long : RawAttribute → Bool
is_long r = r.flags / 16 % 2 == 1

abbrev pub len_bytes : (long : Bool) → ℕ → List ℕ
len_bytes true n = u16_bytes n
len_bytes false n = n ∷ []

-- RFC 4271: flags, type code, length in one or two bytes, value.
abbrev pub attribute_bytes : RawAttribute → List ℕ → List ℕ
attribute_bytes r rest =
    r.flags ∷ r.type_code ∷ (len_bytes (is_long r) (length r.value) ++ (r.value ++ rest))

abbrev pub section_bytes : List RawAttribute → List ℕ
section_bytes [] = []
section_bytes (r ∷ rs) = attribute_bytes r (section_bytes rs)

abbrev pub FitsLength : RawAttribute → Type 0
FitsLength r = length r.value < (if is_long r then 65536 else 256)

module _ (buf : Buf) where
  len_back :
      (r : RawAttribute) (rest : List ℕ)
      → FitsLength r
      → attribute_len buf r.flags (len_bytes (is_long r) (length r.value) ++ rest)
        ≡ ok (length r.value, rest)
  unfolding attribute_len
  len_back r rest h = elim (Bool-cases (is_long r)) [
    | inl long ↦
        let n : be16 (length r.value / 256 % 256) (length r.value % 256) ≡ length r.value =
          be16-u16_bytes (length r.value) (ground (arith, long)) in
        let b = u16_bytes (length r.value) ++ rest in
        let enough : ltb (length b) 2 ≡ false = ltb-false _ _ (omega arith) in
        rw (long, enough, buf.get_u16_reads b, n) refl
    | inr short ↦ rw (short, buf.get_u8_reads (length r.value ∷ rest)) refl
  ]

  take_attribute-attribute_bytes :
      (r : RawAttribute) (rest : List ℕ)
      → FitsLength r
      → take_attribute buf (attribute_bytes r rest) ≡ ok ((r.flags, r.type_code), (r.value, rest))
  unfolding take_attribute
  take_attribute-attribute_bytes r rest h =
      let tail = len_bytes (is_long r) (length r.value) ++ (r.value ++ rest) in
      let enough : ltb (length (r.value ++ rest)) (length r.value) ≡ false =
        ltb-false _ _ (omega (arith, length-append r.value rest)) in
      let all : leb (length r.value) (length (r.value ++ rest)) ≡ true =
        ground (arith, length-append r.value rest) in
      rw
        (
          buf.get_u8_reads (r.flags ∷ r.type_code ∷ tail),
          buf.get_u8_reads (r.type_code ∷ tail),
          len_back r (r.value ++ rest) h,
          enough,
          buf.copy_to_bytes_reads (length r.value) (r.value ++ rest),
          all,
          take-append r.value rest,
          drop-append r.value rest,
          take_attribute,
        )
        refl

module _ (buf : Buf) (ipnet : Ipnet) {Families : Type 0} (decoders : Decoders Families) where
  -- The arms of a list of attributes, one after the other.
  abbrev pub apply_all :
      List RawAttribute → PathAttributes Families → Result (PathAttributes Families)
  apply_all [] a = ok a
  apply_all (r ∷ rs) a = do
    a ←
        apply_arm buf ipnet decoders (arm_of r.type_code (length r.value)) r.flags r.type_code
          r.value a
    apply_all rs a

  length-attribute_bytes :
      (r : RawAttribute) (rest : List ℕ) → 3 + length rest ≤ length (attribute_bytes r rest)
  length-attribute_bytes r rest = elim (Bool-cases (is_long r)) [
    | inl long ↦ rw long (omega (arith, length-append r.value rest))
    | inr short ↦ rw short (omega (arith, length-append r.value rest))
  ]

  length-section_bytes : (rs : List RawAttribute) → length rs ≤ length (section_bytes rs)
  length-section_bytes [] = omega arith
  length-section_bytes (r ∷ rs) =
      omega (arith, length-section_bytes rs, length-attribute_bytes r (section_bytes rs))

  bind_ext :
      {A B : Type 0} (m : Result A) (f g : A → Result B)
      → ((x : A) → f x ≡ g x)
      → (m >>= f) ≡ (m >>= g)
  bind_ext (ok x) f g h = h x
  bind_ext (Result.err e) f g h = refl
  bind_ext Result.panic f g h = refl
  bind_ext Result.stuck f g h = refl

  attribute_loop-section_bytes :
      (rs : List RawAttribute) (fuel : ℕ) (a : PathAttributes Families)
      → All FitsLength rs
      → length rs < fuel
      → attribute_loop buf ipnet decoders fuel (section_bytes rs) a ≡ apply_all rs a
  unfolding attribute_loop
  attribute_loop-section_bytes rs zero a h k = absurd (omega arith)
  attribute_loop-section_bytes [] (suc fuel) a h k = refl
  attribute_loop-section_bytes (r ∷ rs) (suc fuel) a (h, hs) k =
      let more : leb 3 (length (section_bytes (r ∷ rs))) ≡ true =
        ground (arith, length-attribute_bytes r (section_bytes rs)) in
      rw (more, take_attribute-attribute_bytes buf r (section_bytes rs) h, attribute_loop)
        (bind_ext (apply_arm buf ipnet decoders _ r.flags r.type_code r.value a) _ _
          λ x. attribute_loop-section_bytes rs fuel x hs (omega (arith, k)))

  pub parse_path_attributes-section_bytes :
      (rs : List RawAttribute)
      → All FitsLength rs
      → parse_path_attributes buf ipnet decoders (section_bytes rs)
        ≡ apply_all rs (no_attributes decoders.empty)
  unfolding parse_path_attributes
  parse_path_attributes-section_bytes rs h =
      attribute_loop-section_bytes rs (suc (length (section_bytes rs))) _ h
        (omega (arith, length-section_bytes rs))

  -- No arm of the match takes the attribute.
  abbrev pub IsUnknown : RawAttribute → Type 0
  IsUnknown r = arm_of r.type_code (length r.value) ≡ raw

  apply_all-unknown :
      (rs : List RawAttribute) (a : PathAttributes Families)
      → All IsUnknown rs
      → apply_all rs a ≡ ok (record a { unknown = a.unknown ++ rs })
  unfolding apply_arm
  apply_all-unknown [] a h = ap (λ u. ok (record a { unknown = u })) (sym (append-nil a.unknown))
  apply_all-unknown (r ∷ rs) a (h, hs) = rw h (
      apply_all-unknown rs (record a { unknown = a.unknown ++ r ∷ [] }) hs
      ∙ ap (λ u. ok (record a { unknown = u })) (append_assoc a.unknown (r ∷ []) rs))

  -- Attributes that no arm of the match takes are kept as they are: parsing their bytes gives back
  -- the list, with flags, type codes and values, in its order, and leaves every other field empty,
  -- provided their values fit their length fields.
  pub parse_path_attributes-unknown :
      (rs : List RawAttribute)
      → All FitsLength rs
      → All IsUnknown rs
      → parse_path_attributes buf ipnet decoders (section_bytes rs)
        ≡ ok (record (no_attributes decoders.empty) { unknown = rs })
  parse_path_attributes-unknown rs h u =
      parse_path_attributes-section_bytes rs h
      ∙ apply_all-unknown rs (no_attributes decoders.empty) u
