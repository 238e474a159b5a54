-- ===== src/Core/Bmp/Tlv.antt =====
-- The loop over type-length-value fields that the parsers of Initiation, Termination and Route
-- Mirroring messages in bmp/parser.rs share, and what it does on the wire format.
use rustybmp.Base.{
  ℕ, zero, suc, ◌+◌, ◌-◌, ◌<◌, refl, inl, inr, List, arith, ltb, leb, leb→le, if◌then◌else◌,
  Bool-cases, nat_eq, length, take, drop,
}
use rustybmp.Core.Error.{Result, ok, stuck, ◌>>=◌, Returns, Returns-bind}
use rustybmp.Core.Slice.{byte, be16, u16_at, u16_at_ok, slice, slice_ok}

module _ {S : Type 0} (step : (tlv_type : ℕ) (value : List ℕ) → S → Result S) where
  -- `while pos + 4 <= buf.len()`, with the `break` where the value is cut off. `pos` grows by four
  -- at least in each round.
  unfoldable pub tlv_loop : (fuel pos : ℕ) → List ℕ → S → Result S
  tlv_loop zero pos buf s = stuck
  tlv_loop (suc fuel) pos buf s =
      let body = (do
        tlv_type ← u16_at buf pos
        tlv_len ← u16_at buf (pos + 2)
        let next = (do
          value ← slice buf (pos + 4) (pos + 4 + tlv_len)
          s' ← step tlv_type value s
          tlv_loop fuel (pos + 4 + tlv_len) buf s')
        if ltb (length buf) (pos + 4 + tlv_len) then ok s else next) in
      if leb (pos + 4) (length buf) then body else ok s

  unfoldable pub each_tlv : List ℕ → S → Result S
  each_tlv buf s = tlv_loop (suc (length buf)) 0 buf s

  module _ (step_returns : (t : ℕ) (v : List ℕ) (s : S) → Returns (step t v s)) where
    tlv_loop-Returns :
        (fuel pos : ℕ) (buf : List ℕ) (s : S)
        → 0 < fuel
        → length buf < pos + fuel
        → Returns (tlv_loop fuel pos buf s)
    unfolding tlv_loop
    tlv_loop-Returns zero pos buf s f h = elim f [ ]
    tlv_loop-Returns (suc fuel) pos buf s f h =
        let t : ℕ = be16 (byte buf pos) (byte buf (pos + 1)) in
        let l : ℕ = be16 (byte buf (pos + 2)) (byte buf (pos + 2 + 1)) in
        let v : List ℕ = take (pos + 4 + l - (pos + 4)) (drop (pos + 4) buf) in
        elim (Bool-cases (leb (pos + 4) (length buf))) [
          | inr stop ↦ rw stop refl
          | inl more ↦ elim (Bool-cases (ltb (length buf) (pos + 4 + l))) [
            | inl cut ↦ ground (arith, u16_at_ok buf pos, u16_at_ok buf (pos + 2))
            | inr whole ↦ ground (
              arith,
              u16_at_ok buf pos,
              u16_at_ok buf (pos + 2),
              slice_ok buf (pos + 4) (pos + 4 + l),
              Returns-bind (step t v s) (λ s'. tlv_loop fuel (pos + 4 + l) buf s')
                  (step_returns t v s)
                  (λ s' e.
                    tlv_loop-Returns fuel (pos + 4 + l) buf s'
                      (omega (arith, leb→le (pos + 4) (length buf) more)) (omega arith)),
            )
          ]
        ]

    pub each_tlv-Returns : (buf : List ℕ) (s : S) → Returns (each_tlv buf s)
    unfolding each_tlv
    each_tlv-Returns buf s = tlv_loop-Returns (suc (length buf)) 0 buf s (omega arith) (omega arith)
