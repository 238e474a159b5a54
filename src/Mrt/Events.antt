-- ===== src/Mrt/Events.antt =====
-- The records of the events: `rib_event_to_mrt` writes the local address 0.0.0.0 for every peer.
use rustybmp.Base.{
  ℕ, ◌^◌, ◌≤◌, ◌<◌, ◌≡◌, refl, ap, ◌∙◌, false, List, [], ◌++◌, arith, nat_eq, length, take, drop,
  length-append, some,
}
use rustybmp.Base.Text.{Text}
use rustybmp.Core.Net.{IpAddr, v4, v6}
use rustybmp.Core.BufMut.{BufMut, u16_bytes, ip_octets}
use rustybmp.Core.Bmp.Types.{PeerHeader}
use rustybmp.Rib.Table.{pos}
use rustybmp.Rib.Manager.{peer_down}
use rustybmp.Mrt.Error.{io, unexpected_eof, done, failed}
use rustybmp.Mrt.Types.{Chrono, established, idle, bgp_state_as_u16}
use rustybmp.Mrt.Reader.{read_record}
use rustybmp.Mrt.Writer.{rib_event_to_mrt, is_ipv6_addr, write_bgp4mp_state_change}
use rustybmp.Mrt.Frames.{
  vec_write, header_bytes, bgp4mp_body, write_bgp4mp_state_change_lem, read_record_lem,
  read_record-short,
}
use rustybmp.Mrt.RoundTrip.{epoch_secs_lem}

-- Established is 6 and Idle is 1.
abbrev pub down_body : (peer_as : ℕ) → IpAddr → List ℕ
down_body peer_as peer = bgp4mp_body peer_as 0 0 peer (v4 0) (u16_bytes 6 ++ u16_bytes 1)

length-down_body : (peer_as a : ℕ) → length (down_body peer_as (v6 a)) ≡ 36
unfolding ip_octets
length-down_body peer_as a = refl

module _ (bytes : BufMut) (chrono : Chrono) {Time : Type 0} where
  -- The end of a session with an IPv6 peer is written as a record that cannot be read back: its
  -- header tells 48 bytes, as for two IPv6 addresses, and 36 are written. At the end of a file the
  -- reader fails on it; before anything of twelve bytes or more, such as another record, it takes the first
  -- twelve bytes of what follows into the body and goes on behind them.
  pub rib_event_to_mrt_v6 :
      (Families : Type 0) (out rest : List ℕ) (ts : chrono.Time) (secs a : ℕ)
      (hdr : PeerHeader Time) (reason : Text)
      → hdr.peer_address ≡ v6 a
      → chrono.timestamp ts ≡ pos secs
      → secs < 2 ^ 32
      → 12 ≤ length rest
      → let written = header_bytes secs 16 5 48 ++ down_body hdr.peer_as (v6 a) in
        (rib_event_to_mrt bytes chrono vec_write {Time = Time} {Families = Families} out ts
            (peer_down hdr reason)
          ≡ done (out ++ written))
        × (read_record chrono (record { bytes = written; breaks = false })
            ≡ (failed (io unexpected_eof), record { bytes = []; breaks = false }))
        × (read_record chrono (record { bytes = written ++ rest; breaks = false }) ≡ (
          done (
              some (record {
                timestamp = chrono.time_of secs;
                mrt_type = 16;
                subtype = 5;
                body = down_body hdr.peer_as (v6 a) ++ take 12 rest;
              })),
          record { bytes = drop 12 rest; breaks = false },
        ))
  unfolding rib_event_to_mrt bgp_state_as_u16 is_ipv6_addr
  rib_event_to_mrt_v6 Families out rest ts secs a hdr reason e t s n =
      let body = down_body hdr.peer_as (v6 a) in
      let change = λ (p : IpAddr).
        write_bgp4mp_state_change bytes chrono vec_write out ts hdr.peer_as 0 p (v4 0) established
          idle in
      let written =
        write_bgp4mp_state_change_lem bytes chrono out ts hdr.peer_as 0 (v6 a) (v4 0) established
          idle in
      let longer : 48 ≤ length (body ++ rest) =
        omega (arith, length-append body rest, length-down_body hdr.peer_as a, n) in
      (
        ap change e
            ∙ written
            ∙ ap (λ n. done (out ++ (header_bytes n 16 5 48 ++ body)))
                (epoch_secs_lem chrono ts secs t s),
        read_record-short chrono secs 16 5 48 body (omega arith)
            (omega (arith, length-down_body hdr.peer_as a)),
        read_record_lem chrono secs 16 5 48 (body ++ rest) false s (omega arith) (omega arith)
            (omega arith) longer,
      )
