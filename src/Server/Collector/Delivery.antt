-- ===== src/Server/Collector/Delivery.antt =====
-- The collector and the core together: what the one writes on a connection, the other delivers.
use rustybmp.Base.{
  ℕ, zero, suc, ◌<◌, ◌≡◌, refl, sym, ap, ◌∙◌, true, false, List, [], ◌∷◌, ◌++◌, arith, nat_eq,
  length, All, drop, drop-append,
}
use mathlib.Core.List.{append_assoc, append-nil}
use rustybmp.Core.Error.{Result, ok, err, panic, stuck, Returns}
use rustybmp.Core.Buf.{Buf}
use rustybmp.Core.BufMut.{BufMut}
use rustybmp.Core.Ipnet.{Ipnet}
use rustybmp.Core.Bgp.Attributes.{PathAttributes}
use rustybmp.Core.Bmp.Types.{BmpPayload}
use rustybmp.Core.Bmp.Parser.{Env, parse_bmp_message}
use rustybmp.Core.Collector.{CollectorEnvelope, RmpSerde, AsyncWrite, write_frame}
use rustybmp.Core.Collector.Frames.{AreFrames, write_frame-IsFrame, read_frame-IsFrame}
use rustybmp.Rib.Manager.{BmpMessage}
use rustybmp.Server.Collector.{
  closed, default_max_frame, forward_session, deliver, on_frame, handle_collector_conn,
}

module _ {Time : Type 0} (serde : RmpSerde (CollectorEnvelope Time)) (bytes : BufMut)
    (out : AsyncWrite) where
  Extends : out.Writer → List (CollectorEnvelope Time) → out.Writer → Type 0
  Extends w envs w' =
      (sent : List ℕ) × (AreFrames serde envs sent × (out.contents w' ≡ out.contents w ++ sent))

  Extends-cons :
      (w : out.Writer) (env : CollectorEnvelope Time) (envs : List (CollectorEnvelope Time))
      (w' : out.Writer)
      → (write_frame serde bytes out w env).0 ≡ ok tt
      → Extends (write_frame serde bytes out w env).1 envs w'
      → Extends w (env ∷ envs) w'
  unfolding Extends
  Extends-cons w env envs w' h (sent, (frames, eq)) =
      let (buf, (frame, first)) = write_frame-IsFrame serde bytes out w env h in
      (
        buf ++ sent,
        (
          (buf, (sent, (frame, (frames, refl)))),
          eq ∙ rw first (append_assoc (out.contents w) buf sent),
        ),
      )

  go_forward :
      (w : out.Writer) (env : CollectorEnvelope Time) (envs : List (CollectorEnvelope Time))
      (o : Result {0} Unit)
      → (write_frame serde bytes out w env).0 ≡ o
      → (forward_session serde bytes out w (env ∷ envs)).0 ≡ true
      → o ≡ ok tt
  unfolding forward_session
  go_forward w env envs (ok tt) e h = refl
  go_forward w env envs (err x) e h = absurd (ground (arith, e, h))
  go_forward w env envs panic e h = absurd (ground (arith, e, h))
  go_forward w env envs stuck e h = absurd (ground (arith, e, h))

  forward_session-cons :
      (w : out.Writer) (env : CollectorEnvelope Time) (envs : List (CollectorEnvelope Time))
      → (write_frame serde bytes out w env).0 ≡ ok tt
      → forward_session serde bytes out w (env ∷ envs)
        ≡ forward_session serde bytes out (write_frame serde bytes out w env).1 envs
  unfolding forward_session
  forward_session-cons w env envs h = rw (h, forward_session) refl

  forward_session-Extends :
      (w : out.Writer) (envs : List (CollectorEnvelope Time))
      → (forward_session serde bytes out w envs).0 ≡ true
      → Extends w envs (forward_session serde bytes out w envs).1
  unfolding Extends forward_session
  forward_session-Extends w [] h = ([], (refl, sym (append-nil (out.contents w))))
  forward_session-Extends w (env ∷ envs) h =
      let e = go_forward w env envs (write_frame serde bytes out w env).0 refl h in
      let step = forward_session-cons w env envs e in
      let w' = (write_frame serde bytes out w env).1 in
      rw step (
        Extends-cons w env envs (forward_session serde bytes out w' envs).1 e
          (forward_session-Extends w' envs (ap (λ p. p.0) (sym step) ∙ h)))

module _ (env : Env) (buffer : Buf) (ipnet : Ipnet) {Families : Type 0}
    (parse_path_attributes : List ℕ → Result (PathAttributes Families))
    (serde : RmpSerde (CollectorEnvelope env.Time)) where
  abbrev pub parsed : CollectorEnvelope env.Time → Result (BmpPayload env.Time Families)
  parsed e = parse_bmp_message env buffer ipnet parse_path_attributes e.raw_bmp default_max_frame

  abbrev pub message_of :
      CollectorEnvelope env.Time
      → Result (BmpPayload env.Time Families)
      → List (BmpMessage env.Time Families)
  message_of e (ok payload) =
      record { received_at = e.received_at; speaker_addr = e.speaker_addr; payload = payload } ∷ []
  message_of e _ = []

  -- The messages of the envelopes whose PDU is one, with the time and the speaker of the envelope.
  abbrev pub messages : List (CollectorEnvelope env.Time) → List (BmpMessage env.Time Families)
  messages [] = []
  messages (e ∷ es) = message_of e (parsed e) ++ messages es

  go_deliver :
      (e : CollectorEnvelope env.Time) (o : Result (BmpPayload env.Time Families))
      (msgs : List (BmpMessage env.Time Families))
      → Returns o
      → deliver env buffer ipnet parse_path_attributes serde false e o (msgs, closed)
        ≡ (message_of e o ++ msgs, closed)
  unfolding deliver
  go_deliver e (ok payload) msgs h = refl
  go_deliver e (err x) msgs h = refl
  go_deliver e panic msgs h = cc
  go_deliver e stuck msgs h = cc

  handle_collector_conn-AreFrames :
      (envs : List (CollectorEnvelope env.Time)) (sent : List ℕ) (fuel round : ℕ)
      → AreFrames serde envs sent
      → All (λ e. Returns (parsed e)) envs
      → length envs < fuel
      → handle_collector_conn env buffer ipnet parse_path_attributes serde
          (λ n. false)
          (λ n. false)
          fuel
          round
          (record { bytes = sent; breaks = false })
        ≡ (messages envs, closed)
  unfolding handle_collector_conn on_frame
  handle_collector_conn-AreFrames envs sent zero round a p h = absurd (omega arith)
  handle_collector_conn-AreFrames [] sent (suc fuel) round a p h = rw a refl
  handle_collector_conn-AreFrames (e ∷ es) sent (suc fuel) round
        (buf, (rest, (frame, (frames, eq)))) (p, ps) h =
      let first = read_frame-IsFrame serde e buf rest false frame in
      let ih = handle_collector_conn-AreFrames es rest fuel (suc round) frames ps (omega arith) in
      rw eq (rw (first, handle_collector_conn) (rw ih (go_deliver e (parsed e) (messages es) p)))

  -- What a collector writes on a connection when it writes all of some envelopes, the core takes for
  -- them: if the bytes behind those that the sink had, and no others, reach the core, if no PDU of
  -- the envelopes makes the parser panic, and if the loop is neither cancelled nor finds the
  -- receiver of the channel gone, then the messages sent to the channel are those of the PDUs that
  -- parse, in the order of the envelopes, each with the time and the speaker of its envelope, a PDU
  -- that does not parse is passed over, and the loop is left at the end of the bytes, with fuel that
  -- exceeds the number of the envelopes.
  pub handle_collector_conn-forward_session :
      (bytes : BufMut) (out : AsyncWrite) (w : out.Writer)
      (envs : List (CollectorEnvelope env.Time)) (sent : List ℕ) (fuel round : ℕ)
      → (forward_session serde bytes out w envs).0 ≡ true
      → out.contents (forward_session serde bytes out w envs).1 ≡ out.contents w ++ sent
      → All (λ e. Returns (parsed e)) envs
      → length envs < fuel
      → handle_collector_conn env buffer ipnet parse_path_attributes serde
          (λ n. false)
          (λ n. false)
          fuel
          round
          (record { bytes = sent; breaks = false })
        ≡ (messages envs, closed)
  unfolding Extends
  handle_collector_conn-forward_session bytes out w envs sent fuel round all behind p h =
      let (made, (frames, eq)) = forward_session-Extends serde bytes out w envs all in
      let same : sent ≡ made =
        sym (drop-append (out.contents w) sent)
        ∙ ap (drop (length (out.contents w))) (sym behind ∙ eq)
        ∙ drop-append (out.contents w) made in
      rw same (handle_collector_conn-AreFrames envs made fuel round frames p h)
