-- ===== src/Mrt/Sequence.antt =====
-- The iterator over the records of a file: it ends on every input, and gives the records in order.
use rustybmp.Base.{
  ℕ, zero, suc, ◌+◌, ◌^◌, ◌≤◌, ◌<◌, ◌≡◌, ◌-◌, ◌∙◌, if◌then◌else◌, inl, inr, Bool-cases, refl, Bool,
  true, false, Option, none, some, List, [], ◌∷◌, ◌++◌, map, arith, nat_eq, length, take, drop, All,
  length-drop,
}
use rustybmp.Core.Slice.{be32, byte}
use rustybmp.Mrt.Error.{Outcome, io, other, done, failed, panicked, hung, returns}
use rustybmp.Mrt.Types.{Chrono}
use rustybmp.Mrt.Reader.{
  Source, MrtRecord, read_exact, read_body, read_record, item, next, collect_step, collect,
}
use rustybmp.Mrt.Frames.{frame, read_record-frame}

is_some_record : {Rec : Type 0} → Outcome (Option Rec) → Bool
is_some_record (done (some rec)) = true
is_some_record _ = false

-- The item is a record.
is_record : {Rec : Type 0} → Option (Outcome Rec) → Bool
is_record (some (done rec)) = true
is_record _ = false

-- The item, if there is one, is a record or an error.
item_returns : {Rec : Type 0} → Option (Outcome Rec) → Bool
item_returns none = true
item_returns (some o) = returns o

-- What `next` says of the bytes that are left: a record uses up its header at least.
module _ (chrono : Chrono) where
  read_body-returns : (hdr : List ℕ) (r : Source) → returns (read_body chrono hdr r).0 ≡ true
  unfolding read_body read_exact
  read_body-returns hdr r = ground arith

  read_body_uses :
      (hdr : List ℕ) (r : Source) → length (read_body chrono hdr r).1.bytes ≤ length r.bytes
  unfolding read_body read_exact
  read_body_uses hdr r =
      ground
        (arith, length-drop (be32 (byte hdr 8) (byte hdr 9) (byte hdr 10) (byte hdr 11)) r.bytes)

  read_record-returns : (r : Source) → returns (read_record chrono r).0 ≡ true
  unfolding read_record read_exact
  read_record-returns r =
      ground (arith, read_body-returns (take 12 r.bytes) (record r { bytes = drop 12 r.bytes }))

  read_record_uses :
      (r : Source)
      → is_some_record (read_record chrono r).0 ≡ true
      → length (read_record chrono r).1.bytes + 12 ≤ length r.bytes
  unfolding read_record read_exact is_some_record
  read_record_uses r h = ground (
    arith,
    length-drop 12 r.bytes,
    read_body_uses (take 12 r.bytes) (record r { bytes = drop 12 r.bytes }),
  )

  item_returns_of :
      (p : Outcome (Option (MrtRecord chrono.Time)) × Source)
      → returns p.0 ≡ true
      → item_returns (item chrono p).0 ≡ true
  unfolding item_returns
  item_returns_of (done (some rec), r) h = refl
  item_returns_of (done none, r) h = refl
  item_returns_of (failed e, r) h = refl
  item_returns_of (panicked, r) h = cc
  item_returns_of (hung, r) h = cc

  item_uses :
      (n : ℕ) (p : Outcome (Option (MrtRecord chrono.Time)) × Source)
      → (is_some_record p.0 ≡ true → length p.1.bytes + 12 ≤ n)
      → is_record (item chrono p).0 ≡ true
      → length (item chrono p).1.bytes + 12 ≤ n
  unfolding is_record is_some_record
  item_uses n (done (some rec), r) h e = h refl
  item_uses n (done none, r) h e = cc
  item_uses n (failed x, r) h e = cc
  item_uses n (panicked, r) h e = cc
  item_uses n (hung, r) h e = cc

  collect_step-returns :
      (o : Option (Outcome (MrtRecord chrono.Time))) (rest : Outcome (List (MrtRecord chrono.Time)))
      → item_returns o ≡ true
      → (is_record o ≡ true → returns rest ≡ true)
      → returns (collect_step chrono o rest) ≡ true
  unfolding item_returns is_record
  collect_step-returns none rest h k = refl
  collect_step-returns (some (done rec)) (done recs) h k = refl
  collect_step-returns (some (done rec)) (failed e) h k = refl
  collect_step-returns (some (done rec)) panicked h k = k refl
  collect_step-returns (some (done rec)) hung h k = k refl
  collect_step-returns (some (failed e)) rest h k = refl
  collect_step-returns (some panicked) rest h k = h
  collect_step-returns (some hung) rest h k = h

  collect_ends :
      (fuel : ℕ) (r : Source) → length r.bytes < fuel → returns (collect chrono fuel r) ≡ true
  unfolding collect next
  collect_ends zero r h = absurd (omega arith)
  collect_ends (suc fuel) r h =
      let uses = item_uses (length r.bytes) (read_record chrono r) (read_record_uses r) in
      collect_step-returns (next chrono r).0 (collect chrono fuel (next chrono r).1)
        (item_returns_of (read_record chrono r) (read_record-returns r))
        (λ e. collect_ends fuel (next chrono r).1 (omega (arith, uses e)))

  -- Collecting a file to its first error comes to an end on every source, with a list of records or
  -- with an error, in a number of steps that is bounded by the number of bytes.
  pub collect-returns : (r : Source) → returns (collect chrono (suc (length r.bytes)) r) ≡ true
  collect-returns r = collect_ends (suc (length r.bytes)) r (omega arith)

  item_source : (p : Outcome (Option (MrtRecord chrono.Time)) × Source) → (item chrono p).1 ≡ p.1
  item_source (done (some rec), r) = refl
  item_source (done none, r) = refl
  item_source (failed e, r) = refl
  item_source (panicked, r) = refl
  item_source (hung, r) = refl

  read_record_ended :
      (r : Source)
      → length r.bytes < 12
      → read_record chrono r
        ≡ ((if r.breaks then failed (io other) else done none), record r { bytes = [] })
  unfolding read_record read_exact
  read_record_ended r h = elim (Bool-cases r.breaks) [
    | inl e ↦ ground (arith, e)
    | inr e ↦ ground (arith, e)
  ]

  -- A source without bytes says that it has ended, or that it is broken.
  next_ended :
      (r : Source)
      → length r.bytes < 12
      → (next chrono r).0 ≡ (if r.breaks then some (failed (io other)) else none)
  unfolding next
  next_ended r h =
      rw (read_record_ended r h)
        (elim (Bool-cases r.breaks) [ inl e ↦ rw e refl | inr e ↦ rw e refl ])

  read_record_shrinks : (r : Source) → length (read_record chrono r).1.bytes ≤ length r.bytes - 1
  unfolding read_record read_exact
  read_record_shrinks r = ground (
    arith,
    length-drop 12 r.bytes,
    read_body_uses (take 12 r.bytes) (record r { bytes = drop 12 r.bytes }),
  )

  read_body-breaks : (hdr : List ℕ) (r : Source) → (read_body chrono hdr r).1.breaks ≡ r.breaks
  unfolding read_body read_exact
  read_body-breaks hdr r = ground arith

  read_record-breaks : (r : Source) → (read_record chrono r).1.breaks ≡ r.breaks
  unfolding read_record read_exact
  read_record-breaks r =
      ground (arith, read_body-breaks (take 12 r.bytes) (record r { bytes = drop 12 r.bytes }))

  next_source : (r : Source) → (next chrono r).1 ≡ (read_record chrono r).1
  unfolding next
  next_source r = item_source (read_record chrono r)

  -- The source after so many steps of the iterator.
  abbrev pub after : ℕ → Source → Source
  after zero r = r
  after (suc n) r = after n (next chrono r).1

  -- The iterator over the records of a file comes to its end: from the step on whose number is the
  -- number of bytes of the source, it gives none at every step, if the source ends behind its bytes;
  -- on a source that is broken behind them it gives the error of the source at every step instead,
  -- so a loop that goes on after errors does not end there.
  pub next-after :
      (r : Source) (n : ℕ)
      → length r.bytes ≤ n
      → (next chrono (after n r)).0 ≡ (if r.breaks then some (failed (io other)) else none)
  next-after r zero h = next_ended r (omega (arith, h))
  next-after r (suc n) h =
      let less = read_record_shrinks r in
      let src = next_source r in
      next-after (next chrono r).1 n (rw src (omega (arith, h, less)))
      ∙ rw src (rw (read_record-breaks r) refl)

-- Records whose times are seconds, as a file has them.
abbrev pub timed : (chrono : Chrono) → MrtRecord ℕ → MrtRecord chrono.Time
timed chrono rec = record {
  timestamp = chrono.time_of rec.timestamp;
  mrt_type = rec.mrt_type;
  subtype = rec.subtype;
  body = rec.body;
}

abbrev pub file_bytes : List (MrtRecord ℕ) → List ℕ
file_bytes [] = []
file_bytes (r ∷ rs) = frame r.timestamp r.mrt_type r.subtype r.body ++ file_bytes rs

-- The fields of a record fit their widths.
abbrev pub FitsHeader : MrtRecord ℕ → Type 0
FitsHeader r =
    (r.timestamp < 2 ^ 32) × (r.mrt_type < 2 ^ 16) × (r.subtype < 2 ^ 16) × (length r.body < 2 ^ 32)

module _ (chrono : Chrono) where
  -- The records of a file whose fields fit their widths are given in order, each with its time, its
  -- types and its body, and nothing else is given, provided the fuel exceeds their number.
  pub collect-file_bytes :
      (rs : List (MrtRecord ℕ)) (fuel : ℕ)
      → All FitsHeader rs
      → length rs < fuel
      → collect chrono fuel (record { bytes = file_bytes rs; breaks = false })
        ≡ done (map (timed chrono) rs)
  unfolding collect next
  collect-file_bytes rs zero h k = absurd (omega arith)
  collect-file_bytes [] (suc fuel) h k = refl
  collect-file_bytes (r ∷ rs) (suc fuel) ((t, m, s, b), hs) k =
      let first =
        read_record-frame chrono r.timestamp r.mrt_type r.subtype r.body (file_bytes rs) false t m s
          b in
      let ih = collect-file_bytes rs fuel hs (omega (arith, k)) in rw first (rw ih refl)
