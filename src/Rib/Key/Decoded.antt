-- ===== src/Rib/Key/Decoded.antt =====
-- The prefixes that the decoders of crates/rbmp-core/src/bgp/nlri.rs return have a text.
use rustybmp.Base.{
  ℕ, zero, suc, ◌+◌, ◌-◌, ◌*◌, ◌/◌, ◌%◌, ◌<◌, ◌≡◌, inl, inr, Bool, true, false, List, [], ◌∷◌,
  arith, ltb, leb, leb→le, ◌==◌, if◌then◌else◌, Bool-cases, Option-cases, nat_eq, length, get_or,
  take, All, length-take,
}
use rustybmp.Core.Error.{Error, unexpected_eof, Result, ok, err, panic, stuck, ◌>>=◌}
use rustybmp.Core.Slice.{be32}
use rustybmp.Core.Buf.{Buf}
use rustybmp.Core.Ipnet.{Ipnet}
use rustybmp.Core.Bgp.Family.{Afi}
use rustybmp.Core.Bgp.Nlri.{
  Prefix, labeled, vpn, is_ipv6, fill, octets_of, decode_net, label_loop, decode_labeled_entry,
  decode_labeled_nlri_loop, decode_labeled_nlri, decode_vpn_prefix, decode_vpn_rd, decode_vpn_entry,
  decode_vpn_nlri_loop, decode_vpn_nlri,
}
use rustybmp.Rib.Key.Labels.{HasLabels}

-- A value that the call returns has `P`.
abbrev pub IfOk {ℓ} : {A : Type ℓ} → (A → Type 0) → Result A → Type 0
IfOk P (ok a) = P a
IfOk P (err e) = Unit
IfOk P panic = Unit
IfOk P stuck = Unit

IfOk-bind {ℓ κ} :
    {A : Type ℓ} {B : Type κ} (P : A → Type 0) (Q : B → Type 0) (m : Result A) (f : A → Result B)
    → IfOk P m
    → ((a : A) → P a → IfOk Q (f a))
    → IfOk Q (m >>= f)
IfOk-bind P Q (ok a) f h k = k a h
IfOk-bind P Q (err e) f h k = tt
IfOk-bind P Q panic f h k = tt
IfOk-bind P Q stuck f h k = tt

IfOk-if {ℓ} :
    {A : Type ℓ} (Q : A → Type 0) (b : Bool) (m n : Result A)
    → IfOk Q m
    → IfOk Q n
    → IfOk Q (if b then m else n)
IfOk-if Q true m n h k = h
IfOk-if Q false m n h k = k

IfOk-guard {ℓ} :
    {A : Type ℓ} (Q : A → Type 0) (b : Bool) (e : Error) (n : Result A)
    → IfOk Q n
    → IfOk Q (if b then err e else n)
IfOk-guard Q true e n k = tt
IfOk-guard Q false e n k = k

-- The value that a decoder reads, beside the bytes that are left.
abbrev FirstHasLabels : Prefix × List ℕ → Type 0
FirstHasLabels r = HasLabels (r.0)

abbrev SomeLabel : List ℕ × List ℕ → Type 0
SomeLabel r = 0 < length (r.0)

abbrev EightBytes : List ℕ × List ℕ → Type 0
EightBytes r = length (r.0) ≡ 8

IfOk-any {ℓ} : {A : Type ℓ} (m : Result A) → IfOk (λ a. Unit {0}) m
IfOk-any (ok a) = tt
IfOk-any (err e) = tt
IfOk-any panic = tt
IfOk-any stuck = tt

module _ (buf : Buf) (ipnet : Ipnet) where
  decode_net-HasLabels :
      (afi : Afi) (n : ℕ) (b : List ℕ) → IfOk FirstHasLabels (decode_net buf ipnet afi n b)
  unfolding decode_net HasLabels
  decode_net-HasLabels afi n b =
      IfOk-bind (λ a. Unit {0}) _ (buf.copy_to_bytes (octets_of n) b) _ (IfOk-any _)
        λ c h.
          IfOk-bind (λ a. Unit {0}) _ (fill (if is_ipv6 afi then 16 else 4) (c.0)) _ (IfOk-any _)
            λ addr k. elim (Option-cases (ipnet.new (if is_ipv6 afi then 128 else 32) addr n)) [
              | inl bad ↦ rw bad tt
              | inr (net, good) ↦ rw good (IfOk-if FirstHasLabels (is_ipv6 afi) _ _ tt tt)
            ]

  label_loop_lem : (fuel : ℕ) (b : List ℕ) → IfOk SomeLabel (label_loop buf ipnet fuel b)
  unfolding label_loop
  label_loop_lem zero b = tt
  label_loop_lem (suc fuel) b = IfOk-if SomeLabel (ltb (length b) 3) _ _ tt (
      IfOk-bind (λ a. Unit {0}) _ (buf.copy_to_bytes 3 b) _ (IfOk-any _)
        λ c h.
          let raw = be32 0 (get_or (c.0) 0 0) (get_or (c.0) 1 0) (get_or (c.0) 2 0) in
          IfOk-if SomeLabel (raw % 2 == 1) (ok ((raw / 16) ∷ [], c.1)) _ (omega arith) (
            IfOk-bind (λ a. Unit {0}) _ (label_loop buf ipnet fuel (c.1))
              (λ x. ok ((raw / 16) ∷ x.0, x.1)) (IfOk-any _) λ r k. omega arith))

  decode_labeled_entry-HasLabels :
      (afi : Afi) (b : List ℕ) → IfOk FirstHasLabels (decode_labeled_entry buf ipnet afi b)
  unfolding decode_labeled_entry HasLabels
  decode_labeled_entry-HasLabels afi b =
      IfOk-bind (λ a. Unit {0}) _ (buf.get_u8 b) _ (IfOk-any _)
        λ t h.
          IfOk-bind SomeLabel _ (label_loop buf ipnet (suc (length (t.1))) (t.1)) _
            (label_loop_lem (suc (length (t.1))) (t.1))
            λ r k.
              let n : ℕ = (t.0 - length (r.0) * 24) % 256 in
              IfOk-guard FirstHasLabels (ltb (length (r.1)) (octets_of n))
                (unexpected_eof (octets_of n) (length (r.1))) _
                (IfOk-bind FirstHasLabels _ (decode_net buf ipnet afi n (r.1))
                  (λ x. ok (labeled (x.0) (r.0), x.1)) (decode_net-HasLabels afi n (r.1))
                  λ p l. (l, k))

  decode_labeled_loop-HasLabels :
      (fuel : ℕ) (afi : Afi) (b : List ℕ)
      → IfOk (All HasLabels) (decode_labeled_nlri_loop buf ipnet fuel afi b)
  unfolding decode_labeled_nlri_loop
  decode_labeled_loop-HasLabels fuel afi [] = tt
  decode_labeled_loop-HasLabels zero afi (x ∷ b) = tt
  decode_labeled_loop-HasLabels (suc fuel) afi (x ∷ b) =
      IfOk-bind FirstHasLabels _ (decode_labeled_entry buf ipnet afi (x ∷ b)) _
        (decode_labeled_entry-HasLabels afi (x ∷ b))
        λ p h.
          IfOk-bind (All HasLabels) _ (decode_labeled_nlri_loop buf ipnet fuel afi (p.1)) _
            (decode_labeled_loop-HasLabels fuel afi (p.1)) λ ps hs. (h, hs)

  decode_vpn_prefix-HasLabels :
      (afi : Afi) (n label : ℕ) (rd b : List ℕ)
      → length rd ≡ 8
      → IfOk FirstHasLabels (decode_vpn_prefix buf ipnet afi n label rd b)
  unfolding decode_vpn_prefix HasLabels
  decode_vpn_prefix-HasLabels afi n label rd b len =
      IfOk-guard FirstHasLabels (ltb (length b) (octets_of n))
        (unexpected_eof (octets_of n) (length b)) _
        (IfOk-bind FirstHasLabels _ (decode_net buf ipnet afi n b)
          (λ x. ok (vpn rd (x.0) (label ∷ []), x.1)) (decode_net-HasLabels afi n b)
          λ p q. (q, (omega arith, len)))

  copy_eight : (c : List ℕ) → IfOk EightBytes (buf.copy_to_bytes 8 c)
  copy_eight c = rw (buf.copy_to_bytes_reads 8 c) (elim (Bool-cases (leb 8 (length c))) [
    | inl enough ↦
        let le = leb→le 8 (length c) enough in
        let len : length (take 8 c) ≡ 8 = omega (arith, le, length-take 8 c) in rw enough len
    | inr short ↦ rw short tt
  ])

  decode_vpn_rd-HasLabels :
      (afi : Afi) (n label : ℕ) (b : List ℕ)
      → IfOk FirstHasLabels (decode_vpn_rd buf ipnet afi n label b)
  unfolding decode_vpn_rd
  decode_vpn_rd-HasLabels afi n label b =
      IfOk-guard FirstHasLabels (ltb (length b) 8) (unexpected_eof 8 (length b)) _ (
        IfOk-bind EightBytes _ (buf.copy_to_bytes 8 b)
          (λ x. decode_vpn_prefix buf ipnet afi n label (x.0) (x.1)) (copy_eight b)
          λ rd len. decode_vpn_prefix-HasLabels afi n label (rd.0) (rd.1) len)

  decode_vpn_entry-HasLabels :
      (afi : Afi) (b : List ℕ) → IfOk FirstHasLabels (decode_vpn_entry buf ipnet afi b)
  unfolding decode_vpn_entry
  decode_vpn_entry-HasLabels afi b =
      IfOk-bind (λ a. Unit {0}) _ (buf.get_u8 b) _ (IfOk-any _)
        λ t h.
          IfOk-guard FirstHasLabels (ltb (length (t.1)) 3) (unexpected_eof 3 (length (t.1))) _ (
            IfOk-bind (λ a. Unit {0}) _ (buf.copy_to_bytes 3 (t.1))
              (λ x.
                decode_vpn_rd buf ipnet afi ((t.0 - (24 + 64)) % 256)
                  (be32 0 (get_or (x.0) 0 0) (get_or (x.0) 1 0) (get_or (x.0) 2 0) / 16) (x.1))
              (IfOk-any _) λ l k. decode_vpn_rd-HasLabels afi _ _ (l.1))

  decode_vpn_loop-HasLabels :
      (fuel : ℕ) (afi : Afi) (b : List ℕ)
      → IfOk (All HasLabels) (decode_vpn_nlri_loop buf ipnet fuel afi b)
  unfolding decode_vpn_nlri_loop
  decode_vpn_loop-HasLabels fuel afi [] = tt
  decode_vpn_loop-HasLabels zero afi (x ∷ b) = tt
  decode_vpn_loop-HasLabels (suc fuel) afi (x ∷ b) =
      IfOk-bind FirstHasLabels _ (decode_vpn_entry buf ipnet afi (x ∷ b)) _
        (decode_vpn_entry-HasLabels afi (x ∷ b))
        λ p h.
          IfOk-bind (All HasLabels) _ (decode_vpn_nlri_loop buf ipnet fuel afi (p.1)) _
            (decode_vpn_loop-HasLabels fuel afi (p.1)) λ ps hs. (h, hs)

  -- Every prefix that a call of the labelled or of the VPN decoder returns has a label, and the
  -- VPN prefixes have a route distinguisher of eight bytes, so that the keys of their routes can
  -- be made.
  pub decode_labeled_nlri-HasLabels :
      (b : List ℕ) (afi : Afi)
      → IfOk (All HasLabels) (decode_labeled_nlri buf ipnet b afi)
        × IfOk (All HasLabels) (decode_vpn_nlri buf ipnet b afi)
  unfolding decode_labeled_nlri decode_vpn_nlri
  decode_labeled_nlri-HasLabels b afi =
      (decode_labeled_loop-HasLabels (length b) afi b, decode_vpn_loop-HasLabels (length b) afi b)
