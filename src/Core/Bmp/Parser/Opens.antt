-- ===== src/Core/Bmp/Parser/Opens.antt =====
-- The OPEN messages inside a Peer Up: where their parser returns, and where it panics.
use rustybmp.Base.{
  ℕ, zero, suc, ◌-◌, ◌≤◌, ◌<◌, ◌≡◌, refl, ap, ◌↔◌, ◌⊎◌, inl, inr, false, List, [], ◌∷◌, arith, ltb,
  ltb→lt, Bool-cases, nat_eq, length, take, length-take,
}
use rustybmp.Base.Text.{text_beq}
use rustybmp.Core.Error.{Result, Returns}
use rustybmp.Core.Slice.{byte, be16, u16_at_ok, slice_ok}
use rustybmp.Core.Buf.{Buf}
use rustybmp.Core.Ipnet.{Ipnet}
use rustybmp.Core.Bgp.Open.{marker, parse_bgp_open, parse_bgp_open-Returns_iff}
use rustybmp.Core.Bgp.Attributes.{PathAttributes}
use rustybmp.Core.Bmp.Parser.{Env, parse_bgp_open_pdu}

-- The length that the common header of a BGP message declares.
abbrev pub declared : List ℕ → ℕ
declared b = be16 (byte b 16) (byte b 17)

take-take : (m n : ℕ) (b : List ℕ) → m ≤ n → take m (take n b) ≡ take m b
take-take zero n b h = refl
take-take (suc m) zero b h = elim h [ ]
take-take (suc m) (suc n) [] h = refl
take-take (suc m) (suc n) (x ∷ b) h = ap (λ t. x ∷ t) (take-take m n b (omega arith))

module _ (env : Env) (buffer : Buf) (ipnet : Ipnet) {Families : Type 0}
    (parse_path_attributes : List ℕ → Result (PathAttributes Families)) where
  pdu_short :
      (b : List ℕ)
      → (length b < 19) ⊎ (length b < declared b)
      → Returns (parse_bgp_open_pdu env buffer ipnet parse_path_attributes b)
  unfolding parse_bgp_open_pdu
  pdu_short b h = ground (arith, u16_at_ok b 16)

  pdu_whole :
      (b : List ℕ)
      → 19 ≤ length b
      → declared b ≤ length b
      → parse_bgp_open_pdu env buffer ipnet parse_path_attributes b
        ≡ parse_bgp_open buffer env.from_utf8_lossy (take (declared b) b)
  unfolding parse_bgp_open_pdu
  pdu_whole b h k =
      let e : declared b - 0 ≡ declared b = omega arith in
      ground (arith, u16_at_ok b 16, slice_ok b 0 (declared b), e)

  -- What the parser of an OPEN message makes of the declared bytes.
  open_iff :
      (b : List ℕ)
      → declared b ≤ length b
      → Returns (parse_bgp_open buffer env.from_utf8_lossy (take (declared b) b))
        ↔ ((16 ≤ declared b) × ((19 ≤ declared b) ⊎ (text_beq (take 16 b) marker ≡ false)))
  open_iff b h =
      let e : length (take (declared b) b) ≡ declared b =
        omega (arith, length-take (declared b) b) in
      let whole = parse_bgp_open-Returns_iff buffer env.from_utf8_lossy (take (declared b) b) in
      (
        λ r.
            let (p, q) = whole.0 r in
            let p' : 16 ≤ declared b = omega (arith, e) in
            (
              p',
              elim q [
                | inl long ↦ inl (omega (arith, e))
                | inr wrong ↦ inr (rw (take-take 16 (declared b) b p') at wrong)
              ],
            ),
        λ (p, q). whole.1 (
          omega (arith, e),
          elim q [
            | inl long ↦ inl (omega (arith, e))
            | inr wrong ↦ inr (rw (take-take 16 (declared b) b p) wrong)
          ],
        ),
      )

  -- The OPEN parser of a Peer Up returns exactly where the bytes are fewer than a header or than
  -- the declared length, or where the declared length covers the header, or the marker alone and the
  -- marker is wrong. In all other cases it panics: the length that the message declares is not
  -- checked against the 19 bytes of the header.
  pub parse_bgp_open_pdu-Returns_iff :
      (b : List ℕ)
      → Returns (parse_bgp_open_pdu env buffer ipnet parse_path_attributes b) ↔ (
          ((length b < 19) ⊎ (length b < declared b))
          ⊎ ((16 ≤ declared b) × ((19 ≤ declared b) ⊎ (text_beq (take 16 b) marker ≡ false))))
  parse_bgp_open_pdu-Returns_iff b = elim (Bool-cases (ltb (length b) 19)) [
    | inl short ↦ let s = inl (ltb→lt (length b) 19 short) in ((λ r. inl s), (λ c. pdu_short b s))
    | inr long ↦ elim (Bool-cases (ltb (length b) (declared b))) [
      | inl short ↦
          let s = inr (ltb→lt (length b) (declared b) short) in ((λ r. inl s), (λ c. pdu_short b s))
      | inr whole ↦
          let l : 19 ≤ length b = ground arith in
          let w : declared b ≤ length b = ground arith in
          rw (pdu_whole b l w) (
            (λ r. inr ((open_iff b w).0 r)),
            (λ c. elim c [
              | inl (inl s) ↦ absurd (omega arith)
              | inl (inr s) ↦ absurd (omega arith)
              | inr q ↦ (open_iff b w).1 q
            ]),
          )
    ]
  ]
