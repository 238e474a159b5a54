-- ===== src/Core/Io.antt =====
-- `std::io::Read`, and tokio's `AsyncRead`, which reads alike: the bytes that a source gives, and
-- how `read_exact` ends.
use rustybmp.Base.{
  ℕ, ◌≤◌, ◌≡◌, ◌⊎◌, inl, inr, Bool, List, [], arith, leb, if◌then◌else◌, length, take, drop,
}

-- `std::io::Error`, by its kind: the end of the input, or any other.
pub data IoError : Type 0 where
  unexpected_eof other : IoError

-- A source: the bytes that it still gives, and whether it ends or breaks behind them.
pub record Source : Type 0 where
  pub bytes : List ℕ
  pub breaks : Bool

-- `read_exact`: all the bytes asked for, or the error; the bytes left are used up on an error.
unfoldable pub read_exact : ℕ → Source → (IoError ⊎ List ℕ) × Source
read_exact n r =
    if leb n (length r.bytes)
    then (inr (take n r.bytes), record r { bytes = drop n r.bytes })
    else (inl (if r.breaks then other else unexpected_eof), record r { bytes = [] })

pub read_exact_ok :
    (n : ℕ) (r : Source)
    → n ≤ length r.bytes
    → read_exact n r ≡ (inr (take n r.bytes), record r { bytes = drop n r.bytes })
unfolding read_exact
read_exact_ok n r h = ground arith
