-- ===== src/Mrt/Frames.antt =====
-- Records as bytes: the frame that every writer makes, and what `read_record` makes of a frame.
use rustybmp.Base.{
  ℕ, ◌+◌, ◌*◌, ◌%◌, ◌^◌, ◌≤◌, ◌<◌, ◌≡◌, refl, ◌∙◌, Bool, false, some, List, [], ◌++◌, arith,
  if◌then◌else◌, nat_eq, length, take, drop, take-append, drop-append, length-append,
}
use mathlib.Core.List.{append_assoc}
use rustybmp.Core.Slice.{be16, be32, byte}
use rustybmp.Core.BufMut.{
  BufMut, u16_bytes, u32_bytes, ip_octets, be16-u16_bytes, be32-u32_bytes, length-octets,
}
use rustybmp.Core.Io.{read_exact_ok}
use rustybmp.Core.Net.{IpAddr, v4, v6}
use rustybmp.Mrt.Error.{unexpected_eof, other, io, Outcome, done, failed}
use rustybmp.Mrt.Types.{
  Chrono, epoch_secs, BgpState, bgp_state_as_u16, mrt_type_as_u16, bgp4mp_as_u16,
}
use rustybmp.Mrt.Reader.{Source, read_exact, time_at, read_body, read_record}
use rustybmp.Mrt.Writer.{
  is_ipv6_addr, addr_len, write_mrt_header, write_ip, write_bgp4mp_fields, write_bgp4mp_message,
  write_bgp4mp_state_change, write_dump,
}

-- `write_all` of a `Vec<u8>`.
abbrev pub vec_write : List ℕ → List ℕ → Outcome (List ℕ)
vec_write out b = done (out ++ b)

abbrev pub header_bytes : (ts mrt_type subtype len : ℕ) → List ℕ
header_bytes ts mrt_type subtype len =
    u32_bytes ts ++ u16_bytes mrt_type ++ u16_bytes subtype ++ u32_bytes len

abbrev pub frame : (ts mrt_type subtype : ℕ) (body : List ℕ) → List ℕ
frame ts mrt_type subtype body = header_bytes ts mrt_type subtype (length body) ++ body

abbrev pub afi_of : IpAddr → ℕ
afi_of a = if is_ipv6_addr a then 2 else 1

abbrev pub bgp4mp_body :
    (peer_as local_as interface : ℕ) (peer_addr local_addr : IpAddr) (rest : List ℕ) → List ℕ
bgp4mp_body peer_as local_as interface peer_addr local_addr rest =
    u32_bytes peer_as
    ++ u32_bytes local_as
    ++ u16_bytes interface
    ++ u16_bytes (afi_of peer_addr)
    ++ (ip_octets peer_addr ++ (ip_octets local_addr ++ rest))

pub length-ip_octets : (a : IpAddr) → length (ip_octets a) ≡ addr_len a
unfolding ip_octets is_ipv6_addr
length-ip_octets (v4 a) = length-octets 4 a
length-ip_octets (v6 a) = length-octets 16 a

module _ (bytes : BufMut) where
  pub write_mrt_header_lem :
      (ts mrt_type subtype len : ℕ)
      → write_mrt_header bytes [] ts mrt_type subtype len ≡ header_bytes ts mrt_type subtype len
  unfolding write_mrt_header
  write_mrt_header_lem ts mrt_type subtype len = simp (bytes.put_u32_appends, bytes.put_u16_appends)

  write_bgp4mp_fields_lem :
      (front : List ℕ) (peer_as local_as interface : ℕ) (peer_addr local_addr : IpAddr)
      (rest : List ℕ)
      → write_bgp4mp_fields bytes front peer_as local_as interface peer_addr local_addr ++ rest
        ≡ front ++ bgp4mp_body peer_as local_as interface peer_addr local_addr rest
  unfolding write_bgp4mp_fields write_ip
  write_bgp4mp_fields_lem front peer_as local_as interface peer_addr local_addr rest =
      simp (bytes.put_u32_appends, bytes.put_u16_appends, bytes.put_slice_appends, append_assoc)

  module _ (chrono : Chrono) where
    -- What the writers append when the length of the body is the one that they compute.
    pub write_bgp4mp_message_lem :
        (out : List ℕ) (ts : chrono.Time) (peer_as local_as interface : ℕ)
        (peer_addr local_addr : IpAddr) (pdu : List ℕ)
        → let body = bgp4mp_body peer_as local_as interface peer_addr local_addr pdu in
          (12 + 2 * addr_len peer_addr + length pdu) % 2 ^ 32 ≡ length body
          → write_bgp4mp_message bytes chrono vec_write out ts peer_as local_as interface peer_addr
              local_addr pdu
            ≡ done (out ++ frame (epoch_secs chrono ts) 16 4 body)
    unfolding write_bgp4mp_message mrt_type_as_u16 bgp4mp_as_u16
    write_bgp4mp_message_lem out ts peer_as local_as interface peer_addr local_addr pdu h =
        let n : (12 + addr_len peer_addr + addr_len peer_addr + length pdu) % 2 ^ 32
            ≡ length (bgp4mp_body peer_as local_as interface peer_addr local_addr pdu) =
          omega (arith, h) in
        simp
          (bytes.put_u32_appends, bytes.put_u16_appends, bytes.put_slice_appends, append_assoc, n)

    pub write_bgp4mp_state_change_lem :
        (out : List ℕ) (ts : chrono.Time) (peer_as local_as : ℕ) (peer_addr local_addr : IpAddr)
        (old new : BgpState)
        → let states = u16_bytes (bgp_state_as_u16 old) ++ u16_bytes (bgp_state_as_u16 new) in
          write_bgp4mp_state_change bytes chrono vec_write out ts peer_as local_as peer_addr
            local_addr old new
          ≡ done (
              out
              ++ (header_bytes (epoch_secs chrono ts) 16 5 (16 + 2 * addr_len peer_addr)
                  ++ bgp4mp_body peer_as local_as 0 peer_addr local_addr states))
    unfolding write_bgp4mp_state_change mrt_type_as_u16 bgp4mp_as_u16 is_ipv6_addr
    write_bgp4mp_state_change_lem out ts peer_as local_as (v4 p) local_addr old new =
        simp (bytes.put_u32_appends, bytes.put_u16_appends, bytes.put_slice_appends, append_assoc)
    write_bgp4mp_state_change_lem out ts peer_as local_as (v6 p) local_addr old new =
        simp (bytes.put_u32_appends, bytes.put_u16_appends, bytes.put_slice_appends, append_assoc)

    pub write_dump_lem :
        (out : List ℕ) (ts : chrono.Time) (subtype : ℕ) (body : List ℕ)
        → length body < 2 ^ 32
        → write_dump bytes chrono vec_write out ts subtype body
          ≡ done (out ++ frame (epoch_secs chrono ts) 13 subtype body)
    unfolding write_dump mrt_type_as_u16
    write_dump_lem out ts subtype body h =
        let n : length body % 2 ^ 32 ≡ length body = omega (arith, h) in
        simp (bytes.put_u32_appends, bytes.put_u16_appends, append_assoc, n)

module _ (chrono : Chrono) where
  time_at_lem : (secs : ℕ) → secs < 2 ^ 32 → time_at chrono secs ≡ chrono.time_of secs
  unfolding time_at
  time_at_lem secs h = rw (chrono.timestamp_opt_accepts secs h, time_at)

  length_of : (hdr : List ℕ) → ℕ
  length_of hdr = be32 (byte hdr 8) (byte hdr 9) (byte hdr 10) (byte hdr 11)

  read_body_ok :
      (hdr : List ℕ) (r : Source)
      → length_of hdr ≤ length r.bytes
      → read_body chrono hdr r ≡ (
        done (
            some (record {
              timestamp = time_at chrono (be32 (byte hdr 0) (byte hdr 1) (byte hdr 2) (byte hdr 3));
              mrt_type = be16 (byte hdr 4) (byte hdr 5);
              subtype = be16 (byte hdr 6) (byte hdr 7);
              body = take (length_of hdr) r.bytes;
            })),
        record r { bytes = drop (length_of hdr) r.bytes },
      )
  unfolding read_body read_exact length_of
  read_body_ok hdr r h = ground arith

  read_body_short :
      (hdr : List ℕ) (r : Source)
      → length r.bytes < length_of hdr
      → read_body chrono hdr r
        ≡ (failed (io (if r.breaks then other else unexpected_eof)), record r { bytes = [] })
  unfolding read_body read_exact length_of
  read_body_short hdr r h = ground arith

  read_record_body :
      (ts mrt_type subtype len : ℕ) (tail : List ℕ) (breaks : Bool)
      → let hdr = header_bytes ts mrt_type subtype len in
        read_record chrono (record { bytes = hdr ++ tail; breaks = breaks })
        ≡ read_body chrono hdr (record { bytes = tail; breaks = breaks })
  unfolding read_record
  read_record_body ts mrt_type subtype len tail breaks =
      let src : Source = record {
        bytes = header_bytes ts mrt_type subtype len ++ tail;
        breaks = breaks;
      } in
      let e = read_exact_ok 12 src (omega arith) in rw (e, read_record) (rw e refl)

  -- The record of a header whose length the bytes behind it reach.
  pub read_record_lem :
      (ts mrt_type subtype len : ℕ) (tail : List ℕ) (breaks : Bool)
      → ts < 2 ^ 32
      → mrt_type < 2 ^ 16
      → subtype < 2 ^ 16
      → len < 2 ^ 32
      → len ≤ length tail
      → read_record chrono
          (record { bytes = header_bytes ts mrt_type subtype len ++ tail; breaks = breaks })
        ≡ (
          done (
              some (record {
                timestamp = chrono.time_of ts;
                mrt_type = mrt_type;
                subtype = subtype;
                body = take len tail;
              })),
          record { bytes = drop len tail; breaks = breaks },
        )
  unfolding length_of
  read_record_lem ts mrt_type subtype len tail breaks h i j k l =
      read_record_body ts mrt_type subtype len tail breaks
      ∙ read_body_ok (header_bytes ts mrt_type subtype len)
          (record { bytes = tail; breaks = breaks }) (rw (be32-u32_bytes len k) l)
      ∙ rw (
        be32-u32_bytes ts h,
        be16-u16_bytes mrt_type i,
        be16-u16_bytes subtype j,
        be32-u32_bytes len k,
        time_at_lem ts h,
      )

  -- And where they end before it.
  pub read_record-short :
      (ts mrt_type subtype len : ℕ) (tail : List ℕ)
      → len < 2 ^ 32
      → length tail < len
      → read_record chrono
          (record { bytes = header_bytes ts mrt_type subtype len ++ tail; breaks = false })
        ≡ (failed (io unexpected_eof), record { bytes = []; breaks = false })
  unfolding length_of
  read_record-short ts mrt_type subtype len tail k l =
      read_record_body ts mrt_type subtype len tail false
      ∙ read_body_short (header_bytes ts mrt_type subtype len)
          (record { bytes = tail; breaks = false }) (rw (be32-u32_bytes len k) l)

  pub read_record-frame :
      (ts mrt_type subtype : ℕ) (body rest : List ℕ) (breaks : Bool)
      → ts < 2 ^ 32
      → mrt_type < 2 ^ 16
      → subtype < 2 ^ 16
      → length body < 2 ^ 32
      → read_record chrono
          (record { bytes = frame ts mrt_type subtype body ++ rest; breaks = breaks })
        ≡ (
          done (
              some (record {
                timestamp = chrono.time_of ts;
                mrt_type = mrt_type;
                subtype = subtype;
                body = body;
              })),
          record { bytes = rest; breaks = breaks },
        )
  read_record-frame ts mrt_type subtype body rest breaks h i j k =
      read_record_lem ts mrt_type subtype (length body) (body ++ rest) breaks h i j k
        (omega (arith, length-append body rest))
      ∙ rw (take-append body rest, drop-append body rest)
