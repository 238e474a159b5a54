-- ===== src/Mrt/Reader.antt =====
-- crates/rbmp-mrt/src/reader.rs: the reader of MRT files.
use rustybmp.Base.{
  ℕ, zero, suc, ◌*◌, inl, inr, Bool, true, false, Option, none, some, List, [], ◌∷◌, ltb, ◌==◌,
  if◌then◌else◌, nat_eq, length,
}
use rustybmp.Core.Slice.{be16, be32, be_value, byte, slice, u32_at, u16_at, slice_from}
use rustybmp.Core.Net.{IpAddr, v4, v6}
use rustybmp.Core.Buf.{Buf}
pub use rustybmp.Core.Io.{Source}
unfoldable pub use rustybmp.Core.Io.{read_exact}
use rustybmp.Mrt.Error.{
  unexpected_eof, other, io, too_short, Outcome, done, failed, panicked, hung, ◌>>=◌, lift,
}
use rustybmp.Mrt.Types.{Chrono, mrt_type_as_u16, table_dump_v2, bgp4_mp}

pub record MrtRecord (Time : Type 0) : Type 0 where
  pub timestamp : Time
  pub mrt_type : ℕ
  pub subtype : ℕ
  pub body : List ℕ

unfoldable pub is_table_dump_v2 : {Time : Type 0} → MrtRecord Time → Bool
unfolding mrt_type_as_u16
is_table_dump_v2 r = r.mrt_type == mrt_type_as_u16 table_dump_v2

unfoldable pub is_bgp4mp : {Time : Type 0} → MrtRecord Time → Bool
unfolding mrt_type_as_u16
is_bgp4mp r = r.mrt_type == mrt_type_as_u16 bgp4_mp

module _ (chrono : Chrono) where
  -- `timestamp_opt(..).single().unwrap_or_else(Utc::now)`
  unfoldable pub time_at : ℕ → chrono.Time
  time_at secs = elim (chrono.timestamp_opt secs) [ none ↦ chrono.utc_now | some t ↦ t ]

  -- From the twelve bytes of the header on.
  unfoldable pub read_body :
      (hdr : List ℕ) → Source → Outcome (Option (MrtRecord chrono.Time)) × Source
  unfolding time_at read_exact
  read_body hdr r =
      let len = be32 (byte hdr 8) (byte hdr 9) (byte hdr 10) (byte hdr 11) in
      let next = read_exact len r in
      elim next.0 [
        | inl e ↦ (failed (io e), next.1)
        | inr body ↦ (
          done (
              some (record {
                timestamp = time_at (be32 (byte hdr 0) (byte hdr 1) (byte hdr 2) (byte hdr 3));
                mrt_type = be16 (byte hdr 4) (byte hdr 5);
                subtype = be16 (byte hdr 6) (byte hdr 7);
                body = body;
              })),
          next.1,
        )
      ]

  unfoldable pub read_record : Source → Outcome (Option (MrtRecord chrono.Time)) × Source
  unfolding read_exact read_body
  read_record r =
      let hdr = read_exact 12 r in
      elim hdr.0 [
        | inl unexpected_eof ↦ (done none, hdr.1)
        | inl other ↦ (failed (io other), hdr.1)
        | inr h ↦ read_body h hdr.1
      ]

  -- `match read_record(..)` of `MrtReader::next`
  abbrev pub item :
      Outcome (Option (MrtRecord chrono.Time)) × Source
      → Option (Outcome (MrtRecord chrono.Time)) × Source
  item (done (some rec), r) = (some (done rec), r)
  item (done none, r) = (none, r)
  item (failed e, r) = (some (failed e), r)
  item (panicked, r) = (some panicked, r)
  item (hung, r) = (some hung, r)

  unfoldable pub next : Source → Option (Outcome (MrtRecord chrono.Time)) × Source
  unfolding read_record
  next r = item (read_record r)

  -- One step of `collect::<Result<Vec<_>>>()`, which stops at the first error.
  abbrev pub collect_step :
      Option (Outcome (MrtRecord chrono.Time))
      → Outcome (List (MrtRecord chrono.Time))
      → Outcome (List (MrtRecord chrono.Time))
  collect_step none rest = done []
  collect_step (some first) rest = do rec ← first; recs ← rest; done (rec ∷ recs)

  -- The iterator to its end, with fuel.
  unfoldable pub collect : ℕ → Source → Outcome (List (MrtRecord chrono.Time))
  unfolding next
  collect zero r = hung
  collect (suc fuel) r = let rest = collect fuel (next r).1 in collect_step (next r).0 rest

pub record Bgp4MpHeader : Type 0 where
  pub peer_as : ℕ
  pub local_as : ℕ
  pub interface : ℕ
  pub peer_addr : IpAddr
  pub local_addr : IpAddr

-- An address from the front of the bytes: sixteen bytes, or four.
unfoldable pub take_addr : (six : Bool) → List ℕ → Outcome (IpAddr × List ℕ)
unfolding slice u32_at slice_from
take_addr true b = do
  a ← lift (slice b 0 16)
  rest ← lift (slice_from b 16)
  done (v6 (be_value 0 a), rest)
take_addr false b = do a ← lift (u32_at b 0); rest ← lift (slice_from b 4); done (v4 a, rest)

-- From the addresses on, whose width the address family tells.
unfoldable pub parse_addrs :
    (peer_as local_as interface afi : ℕ) → List ℕ → Outcome (Bgp4MpHeader × List ℕ)
unfolding take_addr
parse_addrs peer_as local_as interface afi b =
    let addr_len = if afi == 2 then 16 else 4 in
    let addrs = (do
      (peer_addr, b) ← take_addr (afi == 2) b
      (local_addr, b) ← take_addr (afi == 2) b
      done (
        record {
          peer_as = peer_as;
          local_as = local_as;
          interface = interface;
          peer_addr = peer_addr;
          local_addr = local_addr;
        },
        b,
      )) in
    if ltb (length b) (addr_len * 2) then failed (too_short (addr_len * 2) (length b)) else addrs

module _ (buf : Buf) where
  unfoldable pub parse_bgp4mp_header : List ℕ → Outcome (Bgp4MpHeader × List ℕ)
  unfolding parse_addrs
  parse_bgp4mp_header body =
      let fields = (do
        (peer_as, b) ← lift (buf.get_u32 body)
        (local_as, b) ← lift (buf.get_u32 b)
        (interface, b) ← lift (buf.get_u16 b)
        (afi, b) ← lift (buf.get_u16 b)
        parse_addrs peer_as local_as interface afi b) in
      if ltb (length body) 12 then failed (too_short 12 (length body)) else fields

  unfoldable pub parse_bgp4mp_message : List ℕ → Outcome (Bgp4MpHeader × List ℕ)
  unfolding parse_bgp4mp_header
  parse_bgp4mp_message body = parse_bgp4mp_header body

  unfoldable pub parse_bgp4mp_state_change : List ℕ → Outcome (Bgp4MpHeader × (ℕ × ℕ))
  unfolding parse_bgp4mp_header u16_at
  parse_bgp4mp_state_change body = do
    (hdr, rest) ← parse_bgp4mp_header body
    let states = (do old ← lift (u16_at rest 0); new ← lift (u16_at rest 2); done (hdr, (old, new)))
    if ltb (length rest) 4 then failed (too_short 4 (length rest)) else states
