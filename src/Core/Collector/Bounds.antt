-- ===== src/Core/Collector/Bounds.antt =====
-- How far `read_frame` reads, and that it returns.
use rustybmp.Base.{
  ℕ, ◌+◌, ◌≤◌, ◌<◌, ◌≡◌, ◌≢◌, refl, inl, inr, Bool, true, false, Option, none, some, List, [],
  arith, ltb, leb, Bool-cases, if◌then◌else◌, nat_eq, length, take, drop, length-drop,
}
use rustybmp.Core.Error.{Result, ok, err, frame_too_large, io, Returns, ◌>>=◌}
use rustybmp.Core.Io.{Source, read_exact}
use rustybmp.Core.Collector.{
  max_frame_bytes, CollectorEnvelope, RmpSerde, decode_body, read_frame_body, read_frame,
}
use rustybmp.Core.Collector.Frames.{
  length_of, read_frame_body_at, read_frame_header, frame_of_cases,
}

module _ {Time : Type 0} (serde : RmpSerde (CollectorEnvelope Time)) where
  go_decode_body-Returns : (b : List ℕ) → Returns (do env ← decode_body serde b; ok (some env))
  unfolding decode_body
  go_decode_body-Returns b = elim (frame_of_cases serde (serde.from_slice b)) [
    | inl (x, e) ↦ ground (arith, e)
    | inr (v, e) ↦ ground (arith, e)
  ]

  read_frame_body_large :
      (hdr : List ℕ) (r : Source)
      → max_frame_bytes < length_of serde hdr
      → read_frame_body serde hdr r
        ≡ (err (frame_too_large (length_of serde hdr) max_frame_bytes), r)
  unfolding read_frame_body length_of
  read_frame_body_large hdr r h = ground arith

  read_frame_body_short :
      (hdr : List ℕ) (r : Source)
      → length_of serde hdr ≤ max_frame_bytes
      → length r.bytes < length_of serde hdr
      → read_frame_body serde hdr r ≡ (err io, record r { bytes = [] })
  unfolding read_frame_body length_of read_exact
  read_frame_body_short hdr r h k = ground arith

  -- The outcome is a value or an error, and between `low` and `high` bytes of the source are used.
  abbrev IsWithin {ℓ} : {A : Type ℓ} → (low high : ℕ) → Source → Result A × Source → Type 0
  IsWithin low high r m =
      Returns m.0
      × ((length m.1.bytes + low ≤ length r.bytes) × (length r.bytes ≤ length m.1.bytes + high))

  read_frame_body-IsWithin :
      (hdr : List ℕ) (r : Source) → IsWithin 0 max_frame_bytes r (read_frame_body serde hdr r)
  read_frame_body-IsWithin hdr r =
      let n = length_of serde hdr in
      elim (Bool-cases (ltb max_frame_bytes n)) [
        | inl large ↦
            rw (read_frame_body_large hdr r (ground arith)) (refl, (omega arith, omega arith))
        | inr small ↦ elim (Bool-cases (leb n (length r.bytes))) [
          | inl fits ↦ rw (read_frame_body_at serde hdr r (ground arith) (ground arith)) (
            go_decode_body-Returns (take n r.bytes),
            (ground (arith, length-drop n r.bytes), ground (arith, length-drop n r.bytes)),
          )
          | inr short ↦
              rw (read_frame_body_short hdr r (ground arith) (ground arith))
                (refl, (omega arith, ground arith))
        ]
      ]

  read_frame_cut :
      (r : Source)
      → length r.bytes < 4
      → read_frame serde r ≡ (if r.breaks then err io else ok none, record r { bytes = [] })
  unfolding read_frame read_exact
  read_frame_cut r h = elim (Bool-cases r.breaks) [
    | inl e ↦ ground (arith, e)
    | inr e ↦ ground (arith, e)
  ]

  go_cut :
      (breaks : Bool) (o : Result (Option (CollectorEnvelope Time)))
      → o ≡ (if breaks then err io else ok none)
      → Returns o × ((env : CollectorEnvelope Time) → o ≢ ok (some env))
  go_cut true o h = rw h (refl, λ env e. ground (arith, e))
  go_cut false o h = rw h (refl, λ env e. ground (arith, e))

  -- Whatever the bytes, `read_frame` returns, with an envelope, with none or with an error, and
  -- takes no more than a length and the greatest payload from the source; if it gives an envelope,
  -- it has taken the four bytes of the length at least.
  pub read_frame_bounded :
      (r : Source)
      → Returns (read_frame serde r).0
        × ((length r.bytes ≤ length (read_frame serde r).1.bytes + (4 + max_frame_bytes))
            × ((env : CollectorEnvelope Time)
                → (read_frame serde r).0 ≡ ok (some env)
                → length (read_frame serde r).1.bytes + 4 ≤ length r.bytes))
  read_frame_bounded r = elim (Bool-cases (leb 4 (length r.bytes))) [
    | inl whole ↦
        let left = record r { bytes = drop 4 r.bytes } in
        let (h, (low, high)) = read_frame_body-IsWithin (take 4 r.bytes) left in
        rw (read_frame_header serde r (ground arith)) (
          h,
          (
            ground (arith, high, length-drop 4 r.bytes),
            λ env e. ground (arith, low, length-drop 4 r.bytes),
          ),
        )
    | inr cut ↦
        let (h, no_env) = go_cut r.breaks (if r.breaks then err io else ok none) refl in
        rw (read_frame_cut r (ground arith)) (h, (ground arith, λ env e. absurd (no_env env e)))
  ]
