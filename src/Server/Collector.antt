-- ===== src/Server/Collector.antt =====
-- crates/rbmp-server/src/main.rs, `handle_collector_conn`, and the loop of `run_forwarder` over one
-- connection, in crates/rbmp-server/src/bin/collector.rs.
pub mod Delivery
use rustybmp.Base.{
  ℕ, zero, suc, Bool, true, false, Option, none, some, List, [], ◌∷◌, if◌then◌else◌, nat_eq,
}
use rustybmp.Core.Error.{Result, ok, err, panic, stuck}
use rustybmp.Core.Buf.{Buf}
use rustybmp.Core.BufMut.{BufMut}
use rustybmp.Core.Ipnet.{Ipnet}
use rustybmp.Core.Io.{Source}
use rustybmp.Core.Bgp.Attributes.{PathAttributes}
use rustybmp.Core.Bmp.Types.{BmpPayload}
use rustybmp.Core.Bmp.Parser.{Env, parse_bmp_message}
use rustybmp.Core.Collector.{CollectorEnvelope, RmpSerde, AsyncWrite, read_frame, write_frame}
use rustybmp.Rib.Manager.{BmpMessage}

-- How the task of a connection ends: its loop is left, or its thread panics; `hung` is a loop of the
-- model that ran out of fuel.
pub data Ending : Type 0 where
  closed panicked hung : Ending

abbrev pub default_max_frame : ℕ
default_max_frame = 65535

module _ {Time : Type 0} (serde : RmpSerde (CollectorEnvelope Time)) (bytes : BufMut)
    (out : AsyncWrite) where
  -- The envelopes that are received while one connection lasts, with whether all were written; the
  -- one that is not is not tried again.
  unfoldable pub forward_session : out.Writer → List (CollectorEnvelope Time) → Bool × out.Writer
  unfolding write_frame
  forward_session w [] = (true, w)
  forward_session w (env ∷ envs) =
      let sent = write_frame serde bytes out w env in
      let rest = forward_session sent.1 envs in
      elim sent.0 [
        | ok u ↦ rest
        | err e ↦ (false, sent.1)
        | panic ↦ (false, sent.1)
        | stuck ↦ (false, sent.1)
      ]

module _ (env : Env) (buffer : Buf) (ipnet : Ipnet) {Families : Type 0}
    (parse_path_attributes : List ℕ → Result (PathAttributes Families))
    (serde : RmpSerde (CollectorEnvelope env.Time)) where
  -- A frame's message goes to the channel, unless its receiver is gone.
  unfoldable pub deliver :
      (gone : Bool)
      → CollectorEnvelope env.Time
      → Result (BmpPayload env.Time Families)
      → (rest : List (BmpMessage env.Time Families) × Ending)
      → List (BmpMessage env.Time Families) × Ending
  deliver gone e (ok payload) rest =
      let msg : BmpMessage env.Time Families = record {
        received_at = e.received_at;
        speaker_addr = e.speaker_addr;
        payload = payload;
      } in
      if gone then ([], closed) else (msg ∷ rest.0, rest.1)
  deliver gone e (err x) rest = rest
  deliver gone e panic rest = ([], panicked)
  deliver gone e stuck rest = ([], hung)

  unfoldable pub on_frame :
      (gone : Bool)
      → Result (Option (CollectorEnvelope env.Time))
      → (rest : List (BmpMessage env.Time Families) × Ending)
      → List (BmpMessage env.Time Families) × Ending
  unfolding deliver
  on_frame gone (ok (some e)) rest =
      deliver gone e
        (parse_bmp_message env buffer ipnet parse_path_attributes e.raw_bmp default_max_frame) rest
  on_frame gone (ok none) rest = ([], closed)
  on_frame gone (err x) rest = ([], closed)
  on_frame gone panic rest = ([], panicked)
  on_frame gone stuck rest = ([], hung)

  -- The messages sent, with fuel. `cancelled` and `gone` say in which rounds the loop is cancelled,
  -- and finds the receiver of the channel gone.
  unfoldable pub handle_collector_conn :
      (cancelled gone : ℕ → Bool) (fuel round : ℕ)
      → Source
      → List (BmpMessage env.Time Families) × Ending
  unfolding read_frame on_frame
  handle_collector_conn cancelled gone zero round r = ([], hung)
  handle_collector_conn cancelled gone (suc fuel) round r =
      let next = read_frame serde r in
      let rest = handle_collector_conn cancelled gone fuel (suc round) next.1 in
      if cancelled round then ([], closed) else on_frame (gone round) next.0 rest
