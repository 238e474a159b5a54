-- ===== src/Core/Collector.antt =====
-- crates/rbmp-core/src/collector_protocol.rs: the frames between a collector and the core.
pub mod Frames
pub mod Bounds
use rustybmp.Base.{
  ℕ, ◌%◌, ◌^◌, ◌≡◌, ◌⊎◌, inl, inr, Bool, true, false, Option, none, some, List, [], ◌++◌, ltb,
  if◌then◌else◌, nat_eq, length,
}
use rustybmp.Base.Text.{Text, codes}
use rustybmp.Core.Error.{Result, ok, err, panic, stuck, bmp_parse, frame_too_large, io, ◌>>=◌}
use rustybmp.Core.Slice.{be32, byte}
use rustybmp.Core.Net.{IpAddr}
use rustybmp.Core.BufMut.{BufMut}
use rustybmp.Core.Io.{unexpected_eof, other, Source, read_exact}

abbrev pub max_frame_bytes : ℕ
max_frame_bytes = 8388608

pub record CollectorEnvelope (Time : Type 0) : Type 0 where
  pub collector_id : Text
  pub site : Text
  pub speaker_addr : IpAddr
  pub received_at : Time
  pub raw_bmp : List ℕ

-- The crate rmp_serde at a type: errors are given by their texts, and what it writes it reads back.
pub record RmpSerde (Value : Type 0) : Type 0 where
  pub to_vec : Value → Text ⊎ List ℕ
  pub from_slice : List ℕ → Text ⊎ Value
  pub from_slice-to_vec : (v : Value) (b : List ℕ) → to_vec v ≡ inr b → from_slice b ≡ inr v

-- tokio's `AsyncWrite`, to its sink: `contents` is what the sink was given, and a call that reports
-- success has given all of its bytes, or none for `flush`.
pub record AsyncWrite : Type 1 where
  pub Writer : Type 0
  pub contents : Writer → List ℕ
  pub write_all : Writer → List ℕ → Bool × Writer
  pub flush : Writer → Bool × Writer
  pub write_all_appends :
      (w : Writer) (b : List ℕ)
      → (write_all w b).0 ≡ true
      → contents (write_all w b).1 ≡ contents w ++ b
  pub flush_keeps : (w : Writer) → (flush w).0 ≡ true → contents (flush w).1 ≡ contents w

module _ {Time : Type 0} (serde : RmpSerde (CollectorEnvelope Time)) where
  unfoldable pub encode_frame : BufMut → CollectorEnvelope Time → Result (List ℕ)
  encode_frame bytes env = elim (serde.to_vec env) [
    | inl e ↦ err (bmp_parse (codes "msgpack encode: " ++ e))
    | inr payload ↦
        if ltb max_frame_bytes (length payload)
        then err (frame_too_large (length payload % 2 ^ 32) max_frame_bytes)
        else ok (bytes.put_slice (bytes.put_u32 [] (length payload % 2 ^ 32)) payload)
  ]

  unfoldable pub decode_body : List ℕ → Result (CollectorEnvelope Time)
  decode_body body = elim (serde.from_slice body) [
    | inl e ↦ err (bmp_parse (codes "msgpack decode: " ++ e))
    | inr env ↦ ok env
  ]

  -- From the four bytes of the length on.
  unfoldable pub read_frame_body :
      (len_buf : List ℕ) → Source → Result (Option (CollectorEnvelope Time)) × Source
  unfolding read_exact decode_body
  read_frame_body len_buf r =
      let len = be32 (byte len_buf 0) (byte len_buf 1) (byte len_buf 2) (byte len_buf 3) in
      let next = read_exact len r in
      if ltb max_frame_bytes len
      then (err (frame_too_large len max_frame_bytes), r)
      else elim next.0 [
        | inl e ↦ (err io, next.1)
        | inr body ↦ ((do env ← decode_body body; ok (some env)), next.1)
      ]

  unfoldable pub read_frame : Source → Result (Option (CollectorEnvelope Time)) × Source
  unfolding read_exact read_frame_body
  read_frame r =
      let len_buf = read_exact 4 r in
      elim len_buf.0 [
        | inl unexpected_eof ↦ (ok none, len_buf.1)
        | inl other ↦ (err io, len_buf.1)
        | inr b ↦ read_frame_body b len_buf.1
      ]

  -- The two calls on the writer, with the state that an error leaves.
  unfoldable pub send_frame :
      (out : AsyncWrite) → out.Writer → List ℕ → Result {0} Unit × out.Writer
  send_frame out w buf =
      let written = out.write_all w buf in
      let flushed = out.flush written.1 in
      if written.0
      then if flushed.0 then (ok tt, flushed.1) else (err io, flushed.1)
      else (err io, written.1)

  unfoldable pub write_frame :
      BufMut
      → (out : AsyncWrite) → out.Writer
      → CollectorEnvelope Time
      → Result {0} Unit × out.Writer
  unfolding encode_frame send_frame
  write_frame bytes out w env = elim (encode_frame bytes env) [
    | ok buf ↦ send_frame out w buf
    | err e ↦ (err e, w)
    | panic ↦ (panic, w)
    | stuck ↦ (stuck, w)
  ]
