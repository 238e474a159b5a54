-- ===== src/Server/Speaker.antt =====
-- `handle_speaker` of crates/rbmp-server/src/bin/collector.rs: the loop that cuts the bytes of a
-- router into BMP messages and puts them in envelopes.
use rustybmp.Base.{
  ℕ, zero, suc, ◌-◌, ◌≤◌, ◌≡◌, inl, inr, Bool, ◌||◌, Option, none, some, List, [], ◌∷◌, ◌++◌, ltb,
  if◌then◌else◌, nat_eq, length,
}
use rustybmp.Base.Text.{Text}
use rustybmp.Core.Slice.{be32, byte}
use rustybmp.Core.Net.{IpAddr}
use rustybmp.Core.Io.{Source, read_exact}
use rustybmp.Core.Collector.{CollectorEnvelope}

-- `total_len`
abbrev pub total_len : List ℕ → ℕ
total_len hdr = be32 (byte hdr 1) (byte hdr 2) (byte hdr 3) (byte hdr 4)

-- From the header on: the bytes of the message, or none where the loop is left.
unfoldable pub read_pdu_body : (hdr : List ℕ) → Source → Option (List ℕ) × Source
unfolding read_exact
read_pdu_body hdr r =
    let body = read_exact (total_len hdr - 6) r in
    if ltb (total_len hdr) 6 || ltb 8388608 (total_len hdr)
    then (none, r)
    else elim body.0 [ inl e ↦ (none, body.1) | inr b ↦ (some (hdr ++ b), body.1) ]

unfoldable pub read_pdu : Source → Option (List ℕ) × Source
unfolding read_exact read_pdu_body
read_pdu r =
    let hdr = read_exact 6 r in elim hdr.0 [ inl e ↦ (none, hdr.1) | inr h ↦ read_pdu_body h hdr.1 ]

-- The two labels of `CollectorCfg` that the envelopes carry.
pub record CollectorCfg : Type 0 where
  pub collector_id : Text
  pub site : Text

-- The clock by the rounds of the loop, and the rounds in which the loop is cancelled and in which
-- the ring buffer is full.
module _ {Time : Type 0} (cfg : CollectorCfg) (speaker_addr : IpAddr) (utc_now : ℕ → Time)
    (cancelled full : ℕ → Bool) where
  abbrev pub envelope_of : (round : ℕ) → List ℕ → CollectorEnvelope Time
  envelope_of round raw_bmp = record {
    collector_id = cfg.collector_id;
    site = cfg.site;
    speaker_addr = speaker_addr;
    received_at = utc_now round;
    raw_bmp = raw_bmp;
  }

  -- What is put into the buffer in a round, before the rest.
  abbrev pub try_send :
      (round : ℕ) → List ℕ → List (CollectorEnvelope Time) → List (CollectorEnvelope Time)
  try_send round raw_bmp rest = if full round then rest else envelope_of round raw_bmp ∷ rest

  -- The envelopes put into the buffer; `none` is a loop that ran out of fuel.
  unfoldable pub handle_speaker : (fuel round : ℕ) → Source → Option (List (CollectorEnvelope Time))
  unfolding read_pdu
  handle_speaker zero round r = none
  handle_speaker (suc fuel) round r =
      let next = read_pdu r in
      let rest = handle_speaker fuel (suc round) next.1 in
      if cancelled round then some [] else elim next.0 [
        | none ↦ some []
        | some raw ↦ elim rest [ none ↦ none | some envs ↦ some (try_send round raw envs) ]
      ]

  abbrev pub buffered : (round : ℕ) → List (List ℕ) → List (CollectorEnvelope Time)
  buffered round [] = []
  buffered round (p ∷ ps) = try_send round p (buffered (suc round) ps)

-- A message is as long as its header says, within the bounds of the loop.
abbrev pub IsPdu : List ℕ → Type 0
IsPdu pdu = (length pdu ≡ total_len pdu) × ((6 ≤ length pdu) × (length pdu ≤ 8388608))

abbrev pub stream : (pdus : List (List ℕ)) (cut : List ℕ) → List ℕ
stream [] cut = cut
stream (p ∷ ps) cut = p ++ stream ps cut
