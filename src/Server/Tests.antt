-- ===== src/Server/Tests.antt =====
-- Runs of the collector protocol on concrete envelopes.
use rustybmp.Base.{
  leb, ℕ, ◌+◌, ◌≤◌, ◌≡◌, refl, subst, ◌⊎◌, inl, inr, Bool, true, false, some, List, [], ◌∷◌, ◌++◌,
  arith, nat_eq, ◌==◌, if◌then◌else◌, length, take, drop, take-append, drop-append,
}
use rustybmp.Base.Text.{Text}
use rustybmp.Core.Error.{Result, ok, Returns}
use rustybmp.Core.Buf.{slice_buf}
use rustybmp.Core.BufMut.{vec_buf_mut}
use rustybmp.Core.Ipnet.{plain_ipnet}
use rustybmp.Core.Io.{Source}
use rustybmp.Core.Net.{IpAddr, v4, v6}
use rustybmp.Core.Bgp.Attributes.{PathAttributes, no_attributes}
use rustybmp.Core.Bmp.Parser.{Env, parse_bmp_message}
use rustybmp.Core.Bmp.Parser.Total.{parse_bmp_message-Returns}
use rustybmp.Core.Slice.{byte}
use rustybmp.Core.Collector.{max_frame_bytes, CollectorEnvelope, RmpSerde, AsyncWrite, read_frame}
use rustybmp.Core.Collector.Bounds.{read_frame_bounded}
use rustybmp.Server.Speaker.{CollectorCfg}
use rustybmp.Server.Collector.{closed, forward_session, handle_collector_conn}
use rustybmp.Server.Collector.Delivery.{messages, handle_collector_conn-forward_session}

abbrev env : Env
env = record {
  Time = ℕ;
  timestamp_opt = λ secs nanos. some secs;
  utc_now = 0;
  from_utf8_lossy = λ bytes. bytes;
  can_reserve = λ n. leb n 1048576;
}

abbrev attributes : List ℕ → Result (PathAttributes ℕ)
attributes b = ok (no_attributes 0)

abbrev envelope : List ℕ → CollectorEnvelope ℕ
envelope raw_bmp = record {
  collector_id = [];
  site = [];
  speaker_addr = v4 167772161;
  received_at = 5;
  raw_bmp = raw_bmp;
}

-- A codec that writes every text behind its length.
abbrev address_numbers : IpAddr → List ℕ
address_numbers (v4 a) = 0 ∷ a ∷ []
address_numbers (v6 a) = 1 ∷ a ∷ []

abbrev written : CollectorEnvelope ℕ → List ℕ
written e =
    length e.collector_id
    ∷ (e.collector_id
        ++ (length e.site
            ∷ (e.site ++ (address_numbers e.speaker_addr ++ (e.received_at ∷ e.raw_bmp)))))

abbrev read_rest : (collector_id site : Text) → List ℕ → Text ⊎ CollectorEnvelope ℕ
read_rest id site (f ∷ a ∷ t ∷ raw) = inr (record {
  collector_id = id;
  site = site;
  speaker_addr = if f == 0 then v4 a else v6 a;
  received_at = t;
  raw_bmp = raw;
})
read_rest id site _ = inl []

abbrev read_site : (collector_id : Text) → List ℕ → Text ⊎ CollectorEnvelope ℕ
read_site id (n ∷ xs) = read_rest id (take n xs) (drop n xs)
read_site id [] = inl []

abbrev read_envelope : List ℕ → Text ⊎ CollectorEnvelope ℕ
read_envelope (n ∷ xs) = read_site (take n xs) (drop n xs)
read_envelope [] = inl []

read_rest_lem :
    (id site : Text) (a : IpAddr) (t : ℕ) (raw : List ℕ)
    → read_rest id site (address_numbers a ++ (t ∷ raw))
      ≡ inr (record {
        collector_id = id;
        site = site;
        speaker_addr = a;
        received_at = t;
        raw_bmp = raw;
      })
read_rest_lem id site (v4 a) t raw = refl
read_rest_lem id site (v6 a) t raw = refl

read_envelope-written : (e : CollectorEnvelope ℕ) → read_envelope (written e) ≡ inr e
read_envelope-written e =
    let tail = address_numbers e.speaker_addr ++ (e.received_at ∷ e.raw_bmp) in
    let behind = length e.site ∷ (e.site ++ tail) in
    rw (take-append e.collector_id behind) (
      rw (drop-append e.collector_id behind) (
        rw (take-append e.site tail) (
          rw (drop-append e.site tail)
            (read_rest_lem e.collector_id e.site e.speaker_addr e.received_at e.raw_bmp))))

abbrev codec : RmpSerde (CollectorEnvelope ℕ)
codec = record {
  to_vec = λ e. inr (written e);
  from_slice = read_envelope;
  from_slice-to_vec = λ e b h.
      subst (λ (o : Text ⊎ List ℕ). elim o [ inl x ↦ Unit | inr c ↦ read_envelope c ≡ inr e ]) h
        (read_envelope-written e);
}

-- A sink that takes everything.
abbrev sink : AsyncWrite
sink = record {
  Writer = List ℕ;
  contents = λ w. w;
  write_all = λ w b. (true, w ++ b);
  flush = λ w. (true, w);
  write_all_appends = λ w b h. refl;
  flush_keeps = λ w h. refl;
}

-- A length that is greater than the greatest one.
abbrev large : Source
large = record { bytes = 1 ∷ 0 ∷ 0 ∷ 0 ∷ []; breaks = false }

read_frame_bounded_example :
    Returns (read_frame codec large).0
    × ((length large.bytes ≤ length (read_frame codec large).1.bytes + (4 + max_frame_bytes))
        × ((e : CollectorEnvelope ℕ)
            → (read_frame codec large).0 ≡ ok (some e)
            → length (read_frame codec large).1.bytes + 4 ≤ length large.bytes))
read_frame_bounded_example = read_frame_bounded codec large

abbrev termination_pdu : List ℕ
termination_pdu = 3 ∷ 0 ∷ 0 ∷ 0 ∷ 12 ∷ 5 ∷ 0 ∷ 1 ∷ 0 ∷ 2 ∷ 0 ∷ 0 ∷ []

abbrev other_version : List ℕ
other_version = 4 ∷ 0 ∷ 0 ∷ 0 ∷ 6 ∷ 5 ∷ []

parses :
    (pdu : List ℕ)
    → byte pdu 5 ≡ 5
    → Returns (parse_bmp_message env slice_buf plain_ipnet attributes pdu 65535)
parses pdu h = parse_bmp_message-Returns env slice_buf plain_ipnet attributes pdu 65535 (
  (λ e. absurd (omega (arith, e, h))),
  ((λ e. absurd (omega (arith, e, h))), λ e. absurd (omega (arith, e, h))),
)

abbrev envelopes : List (CollectorEnvelope ℕ)
envelopes = envelope termination_pdu ∷ envelope other_version ∷ []

abbrev sent_bytes : List ℕ
sent_bytes = drop 1 (forward_session codec vec_buf_mut sink (7 ∷ []) envelopes).1

handle_collector_conn-forward_session_example :
    handle_collector_conn env slice_buf plain_ipnet attributes codec
      (λ n. false)
      (λ n. false)
      3
      0
      (record { bytes = sent_bytes; breaks = false })
    ≡ (messages env slice_buf plain_ipnet attributes codec envelopes, closed)
unfolding forward_session
handle_collector_conn-forward_session_example =
    handle_collector_conn-forward_session env slice_buf plain_ipnet attributes codec vec_buf_mut
      sink (7 ∷ []) envelopes sent_bytes 3 0 refl refl
      (parses termination_pdu refl, (parses other_version refl, tt)) (omega arith)

abbrev config : CollectorCfg
config = record { collector_id = 99 ∷ []; site = [] }

-- The buffer is full when the second message comes.
abbrev full : ℕ → Bool
full n = n == 1
