-- ===== src/Core/Collector/Frames.antt =====
-- The frames as bytes: what `encode_frame` makes, `read_frame` reads back, one frame after another,
-- and how far it reads.
use rustybmp.Base.{
  ℕ, ◌%◌, ◌^◌, ◌≤◌, ◌<◌, ◌≡◌, refl, ◌∙◌, ◌⊎◌, inl, inr, Bool, some, List, [], ◌∷◌, ◌++◌, arith,
  nat_eq, length, take, drop, take-append, drop-append, length-append,
}
use rustybmp.Base.Text.{Text}
use rustybmp.Core.Error.{Result, ok, err, panic, stuck, ◌>>=◌}
use rustybmp.Core.Slice.{be32, byte}
use rustybmp.Core.BufMut.{BufMut, u32_bytes, be32-u32_bytes}
use rustybmp.Core.Io.{Source, read_exact}
use rustybmp.Core.Collector.{
  max_frame_bytes, CollectorEnvelope, RmpSerde, AsyncWrite, encode_frame, decode_body,
  read_frame_body, read_frame, send_frame, write_frame,
}

module _ {Time : Type 0} (serde : RmpSerde (CollectorEnvelope Time)) where
  unfoldable pub length_of : List ℕ → ℕ
  length_of hdr = be32 (byte hdr 0) (byte hdr 1) (byte hdr 2) (byte hdr 3)

  pub read_frame_body_at :
      (hdr : List ℕ) (r : Source)
      → length_of hdr ≤ max_frame_bytes
      → length_of hdr ≤ length r.bytes
      → read_frame_body serde hdr r ≡ (
        (do env ← decode_body serde (take (length_of hdr) r.bytes); ok (some env)),
        record r { bytes = drop (length_of hdr) r.bytes },
      )
  unfolding read_frame_body read_exact length_of
  read_frame_body_at hdr r h k = ground arith

  length_of-u32_bytes : (n : ℕ) → n < 4294967296 → length_of (u32_bytes n) ≡ n
  unfolding length_of
  length_of-u32_bytes n h = be32-u32_bytes n h

  decode_body_lem :
      (env : CollectorEnvelope Time) (payload : List ℕ)
      → serde.to_vec env ≡ inr payload
      → decode_body serde payload ≡ ok env
  unfolding decode_body
  decode_body_lem env payload e = rw (serde.from_slice-to_vec env payload e, decode_body) refl

  read_frame_body_ok :
      (payload tail : List ℕ) (breaks : Bool) (env : CollectorEnvelope Time)
      → length payload ≤ max_frame_bytes
      → serde.to_vec env ≡ inr payload
      → read_frame_body serde
          (u32_bytes (length payload))
          (record { bytes = payload ++ tail; breaks = breaks })
        ≡ (ok (some env), record { bytes = tail; breaks = breaks })
  read_frame_body_ok payload tail breaks env h e =
      let src : Source = record { bytes = payload ++ tail; breaks = breaks } in
      let n = length_of-u32_bytes (length payload) (omega arith) in
      let at = read_frame_body_at (u32_bytes (length payload)) src in
      at (omega (arith, n)) (omega (arith, n, length-append payload tail))
      ∙ rw n (
          rw (take-append payload tail)
            (rw (drop-append payload tail) (rw (decode_body_lem env payload e) refl)))

  pub read_frame_header :
      (r : Source)
      → 4 ≤ length r.bytes
      → read_frame serde r
        ≡ read_frame_body serde (take 4 r.bytes) (record r { bytes = drop 4 r.bytes })
  unfolding read_frame read_exact
  read_frame_header r h = ground arith

  pub frame_of_cases :
      {V : Type 0} (v : Text ⊎ V) → ((e : Text) × (v ≡ inl e)) ⊎ ((p : V) × (v ≡ inr p))
  frame_of_cases (inl e) = inl (e, refl)
  frame_of_cases (inr p) = inr (p, refl)

  -- The bytes are the frame of the envelope, by a payload of at most the greatest size.
  abbrev pub IsFrame : CollectorEnvelope Time → List ℕ → Type 0
  IsFrame env buf =
      (payload : List ℕ) × ((serde.to_vec env ≡ inr payload)
        × (length payload ≤ max_frame_bytes)
        × (buf ≡ u32_bytes (length payload) ++ payload))

  pub encode_frame-IsFrame :
      (bytes : BufMut) (env : CollectorEnvelope Time) (buf : List ℕ)
      → encode_frame serde bytes env ≡ ok buf
      → IsFrame env buf
  unfolding encode_frame
  encode_frame-IsFrame bytes env buf h = elim (frame_of_cases (serde.to_vec env)) [
    | inl (x, e) ↦ absurd (ground (arith, e, h))
    | inr (p, e) ↦ (
      p,
      (
        e,
        ground (arith, e, h),
        ground (
          arith,
          e,
          h,
          bytes.put_u32_appends [] (length p % 2 ^ 32),
          bytes.put_slice_appends (u32_bytes (length p % 2 ^ 32)) p,
        ),
      ),
    )
  ]

  -- `read_frame` gives the envelope of a frame, and leaves what is behind it.
  pub read_frame-IsFrame :
      (env : CollectorEnvelope Time) (buf tail : List ℕ) (breaks : Bool)
      → IsFrame env buf
      → read_frame serde (record { bytes = buf ++ tail; breaks = breaks })
        ≡ (ok (some env), record { bytes = tail; breaks = breaks })
  read_frame-IsFrame env buf tail breaks (payload, (e, h, eq)) =
      let src : Source = record {
        bytes = u32_bytes (length payload) ++ (payload ++ tail);
        breaks = breaks;
      } in
      rw eq (read_frame_header src (omega arith) ∙ read_frame_body_ok payload tail breaks env h e)

  send_frame-contents :
      (out : AsyncWrite) (w : out.Writer) (buf : List ℕ)
      → (send_frame serde out w buf).0 ≡ ok tt
      → out.contents (send_frame serde out w buf).1 ≡ out.contents w ++ buf
  unfolding send_frame
  send_frame-contents out w buf h =
      ground (arith, h, out.write_all_appends w buf, out.flush_keeps (out.write_all w buf).1)

  go_write_frame :
      (bytes : BufMut) (out : AsyncWrite) (w : out.Writer) (env : CollectorEnvelope Time)
      (encoded : Result (List ℕ))
      → encode_frame serde bytes env ≡ encoded
      → (write_frame serde bytes out w env).0 ≡ ok tt
      → (buf : List ℕ) × (IsFrame env buf
          × (out.contents (write_frame serde bytes out w env).1 ≡ out.contents w ++ buf))
  unfolding write_frame
  go_write_frame bytes out w env (ok buf) e h = (
    buf,
    (encode_frame-IsFrame bytes env buf e, ground (arith, e, h, send_frame-contents out w buf)),
  )
  go_write_frame bytes out w env (err x) e h = absurd (ground (arith, e, h))
  go_write_frame bytes out w env panic e h = absurd (ground (arith, e, h))
  go_write_frame bytes out w env stuck e h = absurd (ground (arith, e, h))

  -- The bytes are the frames of the envelopes, one after another.
  abbrev pub AreFrames : List (CollectorEnvelope Time) → List ℕ → Type 0
  AreFrames [] b = b ≡ []
  AreFrames (env ∷ envs) b =
      (buf : List ℕ) × ((rest : List ℕ) × (IsFrame env buf
          × (AreFrames envs rest × (b ≡ buf ++ rest))))

  -- A frame that is written without an error stands behind what the sink had.
  pub write_frame-IsFrame :
      (bytes : BufMut) (out : AsyncWrite) (w : out.Writer) (env : CollectorEnvelope Time)
      → (write_frame serde bytes out w env).0 ≡ ok tt
      → (buf : List ℕ) × (IsFrame env buf
          × (out.contents (write_frame serde bytes out w env).1 ≡ out.contents w ++ buf))
  write_frame-IsFrame bytes out w env h =
      go_write_frame bytes out w env (encode_frame serde bytes env) refl h
