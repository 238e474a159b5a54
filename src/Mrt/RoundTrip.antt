-- ===== src/Mrt/RoundTrip.antt =====
-- What the reader makes of the BGP4MP records that the writer writes.
use rustybmp.Base.{
  ℕ, ◌+◌, ◌-◌, ◌*◌, ◌/◌, ◌%◌, ◌^◌, ◌<◌, ◌≡◌, refl, ap, ◌∙◌, Bool, false, some, List, ◌++◌, arith,
  ltb, ltb-false, ◌==◌, if◌then◌else◌, nat_eq, length, take-append, drop-append, length-append,
  subst,
}
use rustybmp.Core.Error.{ok}
use rustybmp.Core.Slice.{be32, be16, be_value, slice, slice_from, slice_ok, slice_from_ok}
use rustybmp.Core.Buf.{Buf}
use rustybmp.Core.BufMut.{
  BufMut, u16_bytes, octets, ip_octets, be16-u16_bytes, be32-u32_bytes, be_value-octets,
}
use rustybmp.Core.Net.{IpAddr, v4, v6}
use rustybmp.Rib.Table.{pos}
use rustybmp.Mrt.Error.{done}
use rustybmp.Mrt.Types.{
  Chrono, epoch_of, epoch_secs, BgpState, bgp_state_as_u16, idle, connect, active, open_sent,
  open_confirm, established,
}
use rustybmp.Mrt.Reader.{
  read_record, take_addr, parse_addrs, parse_bgp4mp_header, parse_bgp4mp_message,
  parse_bgp4mp_state_change,
}
use rustybmp.Mrt.Writer.{is_ipv6_addr, addr_len, write_bgp4mp_message, write_bgp4mp_state_change}
use rustybmp.Mrt.Frames.{
  vec_write, header_bytes, frame, afi_of, bgp4mp_body, length-ip_octets, write_bgp4mp_message_lem,
  write_bgp4mp_state_change_lem, read_record-frame,
}

abbrev pub addr_bound : IpAddr → ℕ
addr_bound (v4 a) = 2 ^ 32
addr_bound (v6 a) = 2 ^ 128

abbrev pub addr_number : IpAddr → ℕ
addr_number (v4 a) = a
addr_number (v6 a) = a

-- The number of an address fits its octets.
abbrev pub IsAddr : IpAddr → Type 0
IsAddr a = addr_number a < addr_bound a

slice-append : (xs ys : List ℕ) → slice (xs ++ ys) 0 (length xs) ≡ ok xs
slice-append xs ys =
    slice_ok (xs ++ ys) 0 (length xs) (omega arith) (omega (arith, length-append xs ys))
    ∙ let z : length xs - 0 ≡ length xs = omega arith in rw z (ap ok (take-append xs ys))

slice_from-append : (xs ys : List ℕ) → slice_from (xs ++ ys) (length xs) ≡ ok ys
slice_from-append xs ys =
    slice_from_ok (xs ++ ys) (length xs) (omega (arith, length-append xs ys))
    ∙ ap ok (drop-append xs ys)

-- The address that was written is taken, whatever follows it.
take_addr-ip_octets :
    (a : IpAddr) (rest : List ℕ)
    → IsAddr a
    → take_addr (is_ipv6_addr a) (ip_octets a ++ rest) ≡ done (a, rest)
unfolding take_addr ip_octets is_ipv6_addr
take_addr-ip_octets (v4 a) rest h =
    let e : be32 (a / 256 / 256 / 256 % 256) (a / 256 / 256 % 256) (a / 256 % 256) (a % 256) ≡ a =
      omega (arith, h) in
    let f : slice_from (octets 4 a ++ rest) 4 ≡ ok rest = slice_from-append (octets 4 a) rest in
    rw (f, e) refl
take_addr-ip_octets (v6 a) rest h =
    let e : be_value 0 (octets 16 a) ≡ a = be_value-octets 16 a h in
    let s : slice (octets 16 a ++ rest) 0 16 ≡ ok (octets 16 a) = slice-append (octets 16 a) rest in
    let f : slice_from (octets 16 a ++ rest) 16 ≡ ok rest = slice_from-append (octets 16 a) rest in
    rw (s, f, e, take_addr)

take_addr-same :
    (six : Bool) (a : IpAddr) (rest : List ℕ)
    → is_ipv6_addr a ≡ six
    → IsAddr a
    → take_addr six (ip_octets a ++ rest) ≡ done (a, rest)
take_addr-same six a rest e h =
    subst (λ s. take_addr s (ip_octets a ++ rest) ≡ done (a, rest)) e (take_addr-ip_octets a rest h)

afi_of-is_ipv6_addr : (a : IpAddr) → (afi_of a == 2) ≡ is_ipv6_addr a
unfolding is_ipv6_addr
afi_of-is_ipv6_addr (v4 a) = refl
afi_of-is_ipv6_addr (v6 a) = refl

length-bgp4mp_body :
    (peer_as local_as interface : ℕ) (peer_addr local_addr : IpAddr) (rest : List ℕ)
    → is_ipv6_addr local_addr ≡ is_ipv6_addr peer_addr
    → length (bgp4mp_body peer_as local_as interface peer_addr local_addr rest)
      ≡ 12 + 2 * addr_len peer_addr + length rest
length-bgp4mp_body peer_as local_as interface peer_addr local_addr rest e = omega (
  arith,
  length-append (ip_octets peer_addr) (ip_octets local_addr ++ rest),
  length-append (ip_octets local_addr) rest,
  length-ip_octets peer_addr,
  length-ip_octets local_addr,
  ap {B = ℕ} (λ s. if s then 16 else 4) e,
)

parse_addrs_lem :
    (peer_as local_as interface : ℕ) (peer_addr local_addr : IpAddr) (rest : List ℕ)
    → IsAddr peer_addr
    → IsAddr local_addr
    → is_ipv6_addr local_addr ≡ is_ipv6_addr peer_addr
    → parse_addrs peer_as local_as interface
        (afi_of peer_addr)
        (ip_octets peer_addr ++ (ip_octets local_addr ++ rest))
      ≡ done (
        record {
          peer_as = peer_as;
          local_as = local_as;
          interface = interface;
          peer_addr = peer_addr;
          local_addr = local_addr;
        },
        rest,
      )
unfolding parse_addrs
parse_addrs_lem peer_as local_as interface peer_addr local_addr rest h k e =
    let six = afi_of-is_ipv6_addr peer_addr in
    let first = take_addr-ip_octets peer_addr (ip_octets local_addr ++ rest) h in
    let second = take_addr-same (is_ipv6_addr peer_addr) local_addr rest e k in
    let l : length (ip_octets peer_addr ++ (ip_octets local_addr ++ rest))
        ≡ addr_len peer_addr + (addr_len peer_addr + length rest) =
      omega (
        arith,
        length-append (ip_octets peer_addr) (ip_octets local_addr ++ rest),
        length-append (ip_octets local_addr) rest,
        length-ip_octets peer_addr,
        length-ip_octets local_addr,
        ap {B = ℕ} (λ s. if s then 16 else 4) e,
      ) in
    let enough : ltb (addr_len peer_addr + (addr_len peer_addr + length rest))
          (addr_len peer_addr * 2)
        ≡ false =
      ltb-false _ _ (omega arith) in
    rw (six, l, enough, parse_addrs) (rw (first, second) refl)

bgp_state_bytes :
    (st : BgpState)
    → be16 (bgp_state_as_u16 st / 256 % 256) (bgp_state_as_u16 st % 256) ≡ bgp_state_as_u16 st
unfolding bgp_state_as_u16
bgp_state_bytes idle = refl
bgp_state_bytes connect = refl
bgp_state_bytes active = refl
bgp_state_bytes open_sent = refl
bgp_state_bytes open_confirm = refl
bgp_state_bytes established = refl

pub epoch_secs_lem :
    (chrono : Chrono) (ts : chrono.Time) (secs : ℕ)
    → chrono.timestamp ts ≡ pos secs
    → secs < 2 ^ 32
    → epoch_secs chrono ts ≡ secs
unfolding epoch_secs epoch_of
epoch_secs_lem chrono ts secs e h = rw e (omega (arith, h))

module _ (buf : Buf) where
  parse_bgp4mp_header_lem :
      (peer_as local_as interface : ℕ) (peer_addr local_addr : IpAddr) (rest : List ℕ)
      → peer_as < 2 ^ 32
      → local_as < 2 ^ 32
      → interface < 2 ^ 16
      → IsAddr peer_addr
      → IsAddr local_addr
      → is_ipv6_addr local_addr ≡ is_ipv6_addr peer_addr
      → parse_bgp4mp_header buf (bgp4mp_body peer_as local_as interface peer_addr local_addr rest)
        ≡ done (
          record {
            peer_as = peer_as;
            local_as = local_as;
            interface = interface;
            peer_addr = peer_addr;
            local_addr = local_addr;
          },
          rest,
        )
  unfolding parse_bgp4mp_header
  parse_bgp4mp_header_lem peer_as local_as interface peer_addr local_addr rest h i j k l e =
      let enough : ltb (length (bgp4mp_body peer_as local_as interface peer_addr local_addr rest))
            12
          ≡ false =
        ground arith in
      simp (
        enough,
        buf.get_u32_reads,
        buf.get_u16_reads,
        be32-u32_bytes peer_as h,
        be32-u32_bytes local_as i,
        be16-u16_bytes interface j,
        be16-u16_bytes (afi_of peer_addr) (ground arith),
        parse_addrs_lem peer_as local_as interface peer_addr local_addr rest k l e,
      )

  module _ (bytes : BufMut) (chrono : Chrono) where
    -- A BGP message that is written with a time of the years that a u32 of seconds reaches, with
    -- two addresses of one family, and with fewer than 2^32 - 44 bytes, is read back: the writer
    -- appends a record, the reader takes just that record from the front of the bytes and leaves
    -- what follows, with the type and subtype of BGP4MP_MESSAGE_AS4 and the second that was
    -- written, and the parser of its body gives the header fields and the bytes of the message.
    pub read_record-write_bgp4mp_message :
        (out rest pdu : List ℕ) (breaks : Bool) (ts : chrono.Time)
        (secs peer_as local_as interface : ℕ) (peer_addr local_addr : IpAddr)
        → chrono.timestamp ts ≡ pos secs
        → secs < 2 ^ 32
        → peer_as < 2 ^ 32
        → local_as < 2 ^ 32
        → interface < 2 ^ 16
        → IsAddr peer_addr
        → IsAddr local_addr
        → is_ipv6_addr local_addr ≡ is_ipv6_addr peer_addr
        → length pdu + 44 < 2 ^ 32
        → let body = bgp4mp_body peer_as local_as interface peer_addr local_addr pdu in
          (write_bgp4mp_message bytes chrono vec_write out ts peer_as local_as interface peer_addr
              local_addr pdu
            ≡ done (out ++ frame secs 16 4 body))
          × (read_record chrono (record { bytes = frame secs 16 4 body ++ rest; breaks = breaks })
              ≡ (
                done (
                    some (record {
                      timestamp = chrono.time_of secs;
                      mrt_type = 16;
                      subtype = 4;
                      body = body;
                    })),
                record { bytes = rest; breaks = breaks },
              ))
          × (parse_bgp4mp_message buf body
              ≡ done (
                record {
                  peer_as = peer_as;
                  local_as = local_as;
                  interface = interface;
                  peer_addr = peer_addr;
                  local_addr = local_addr;
                },
                pdu,
              ))
    unfolding parse_bgp4mp_message
    read_record-write_bgp4mp_message out rest pdu breaks ts secs peer_as local_as interface
          peer_addr local_addr t s p l i pa la same n =
        let body = bgp4mp_body peer_as local_as interface peer_addr local_addr pdu in
        let size : length body ≡ 12 + 2 * addr_len peer_addr + length pdu =
          length-bgp4mp_body peer_as local_as interface peer_addr local_addr pdu same in
        let fits : (12 + 2 * addr_len peer_addr + length pdu) % 2 ^ 32 ≡ length body =
          ground arith in
        let written =
          write_bgp4mp_message_lem bytes chrono out ts peer_as local_as interface peer_addr
            local_addr pdu fits in
        (
          written ∙ ap (λ e. done (out ++ frame e 16 4 body)) (epoch_secs_lem chrono ts secs t s),
          read_record-frame chrono secs 16 4 body rest breaks s (omega arith) (omega arith)
              (ground arith),
          parse_bgp4mp_header_lem peer_as local_as interface peer_addr local_addr pdu p l i pa la
              same,
        )

    -- A change of state that is written with a time of the years that a u32 of seconds reaches, and
    -- with two addresses of one family, is read back: the writer appends a record, the reader takes
    -- just that record and leaves what follows, with the type and subtype of
    -- BGP4MP_STATE_CHANGE_AS4 and the second that was written, and the parser of its body gives the
    -- AS numbers, interface 0, the addresses and the numbers of the two states.
    pub read_record-write_bgp4mp_state_change :
        (out rest : List ℕ) (breaks : Bool) (ts : chrono.Time) (secs peer_as local_as : ℕ)
        (peer_addr local_addr : IpAddr) (old new : BgpState)
        → chrono.timestamp ts ≡ pos secs
        → secs < 2 ^ 32
        → peer_as < 2 ^ 32
        → local_as < 2 ^ 32
        → IsAddr peer_addr
        → IsAddr local_addr
        → is_ipv6_addr local_addr ≡ is_ipv6_addr peer_addr
        → let states = u16_bytes (bgp_state_as_u16 old) ++ u16_bytes (bgp_state_as_u16 new) in
          let body = bgp4mp_body peer_as local_as 0 peer_addr local_addr states in
          (write_bgp4mp_state_change bytes chrono vec_write out ts peer_as local_as peer_addr
              local_addr old new
            ≡ done (out ++ frame secs 16 5 body))
          × (read_record chrono (record { bytes = frame secs 16 5 body ++ rest; breaks = breaks })
              ≡ (
                done (
                    some (record {
                      timestamp = chrono.time_of secs;
                      mrt_type = 16;
                      subtype = 5;
                      body = body;
                    })),
                record { bytes = rest; breaks = breaks },
              ))
          × (parse_bgp4mp_state_change buf body
              ≡ done (
                record {
                  peer_as = peer_as;
                  local_as = local_as;
                  interface = 0;
                  peer_addr = peer_addr;
                  local_addr = local_addr;
                },
                (bgp_state_as_u16 old, bgp_state_as_u16 new),
              ))
    unfolding parse_bgp4mp_state_change
    read_record-write_bgp4mp_state_change out rest breaks ts secs peer_as local_as peer_addr
          local_addr old new t s p l pa la same =
        let states = u16_bytes (bgp_state_as_u16 old) ++ u16_bytes (bgp_state_as_u16 new) in
        let body = bgp4mp_body peer_as local_as 0 peer_addr local_addr states in
        let size : 16 + 2 * addr_len peer_addr ≡ length body =
          omega (arith, length-bgp4mp_body peer_as local_as 0 peer_addr local_addr states same) in
        let fits : length body < 2 ^ 32 = ground arith in
        let written =
          write_bgp4mp_state_change_lem bytes chrono out ts peer_as local_as peer_addr local_addr
            old new in
        (
          written
              ∙ ap (λ e. done (out ++ (header_bytes e 16 5 (16 + 2 * addr_len peer_addr) ++ body)))
                  (epoch_secs_lem chrono ts secs t s)
              ∙ ap (λ n. done (out ++ (header_bytes secs 16 5 n ++ body))) size,
          read_record-frame chrono secs 16 5 body rest breaks s (omega arith) (omega arith) fits,
          rw
              (
                parse_bgp4mp_header_lem peer_as local_as 0 peer_addr local_addr states p l
                    (omega arith) pa la same,
                parse_bgp4mp_state_change,
              )
              (ap
                (λ r. done (
                  record {
                    peer_as = peer_as;
                    local_as = local_as;
                    interface = 0;
                    peer_addr = peer_addr;
                    local_addr = local_addr;
                  },
                  r,
                ))
                (rw (bgp_state_bytes old, bgp_state_bytes new))),
        )
