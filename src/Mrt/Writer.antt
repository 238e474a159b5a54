-- ===== src/Mrt/Writer.antt =====
-- crates/rbmp-mrt/src/writer.rs: the writer of MRT files.
use rustybmp.Base.{ℕ, ◌+◌, ◌/◌, ◌%◌, ◌^◌, Bool, true, false, List, [], ◌∷◌, if◌then◌else◌, length}
use rustybmp.Base.Text.{Text}
use rustybmp.Core.Slice.{slice}
use rustybmp.Core.BufMut.{BufMut, octets, ip_octets}
use rustybmp.Core.Net.{IpAddr, v4, v6}
use rustybmp.Core.Bgp.Nlri.{Prefix, labeled, vpn}
use rustybmp.Rib.Manager.{RibEventPayload, peer_up, peer_down}
use rustybmp.Mrt.Error.{Outcome, done, ◌>>=◌, lift}
use rustybmp.Mrt.Types.{
  Chrono, epoch_secs, mrt_type_as_u16, bgp4_mp, table_dump_v2, bgp4mp_as_u16, message_as4,
  state_change_as4, table_dump_as_u16, peer_index_table, rib_ipv4_unicast, rib_ipv6_unicast,
  BgpState, bgp_state_as_u16, idle, active, established,
}

pub record MrtPeerEntry : Type 0 where
  pub bgp_id : ℕ
  pub addr : IpAddr
  pub peer_as : ℕ

pub record MrtRibEntry (Time : Type 0) : Type 0 where
  pub peer_index : ℕ
  pub originated : Time
  pub path_attrs : List ℕ

unfoldable pub is_ipv6_addr : IpAddr → Bool
is_ipv6_addr (v4 a) = false
is_ipv6_addr (v6 a) = true

abbrev pub addr_len : IpAddr → ℕ
addr_len a = if is_ipv6_addr a then 16 else 4

-- `matches!(prefix, Prefix::V6(_))`
unfoldable pub is_v6_prefix : Prefix → Bool
is_v6_prefix (Prefix.v6 n) = true
is_v6_prefix _ = false

module _ (bytes : BufMut) where
  unfoldable pub write_mrt_header : List ℕ → (ts mrt_type subtype len : ℕ) → List ℕ
  write_mrt_header buf ts mrt_type subtype len =
      bytes.put_u32 (bytes.put_u16 (bytes.put_u16 (bytes.put_u32 buf ts) mrt_type) subtype) len

  -- `write_ipv4` and `write_ipv6`, by the variant of the address.
  unfoldable pub write_ip : List ℕ → IpAddr → List ℕ
  unfolding ip_octets
  write_ip buf a = bytes.put_slice buf (ip_octets a)

  -- The length byte, and the octets that it counts.
  unfoldable pub write_net : (size prefix_len addr : ℕ) → List ℕ → Outcome (List ℕ)
  unfolding octets slice
  write_net size prefix_len addr buf = do
    front ← lift (slice (octets size addr) 0 ((prefix_len + 7) / 8))
    done (bytes.put_slice (bytes.put_u8 buf prefix_len) front)

  unfoldable pub write_prefix_nlri : List ℕ → Prefix → Outcome (List ℕ)
  unfolding write_net
  write_prefix_nlri buf (Prefix.v4 n) = write_net 4 n.prefix_len n.addr buf
  write_prefix_nlri buf (Prefix.v6 n) = write_net 16 n.prefix_len n.addr buf
  write_prefix_nlri buf (labeled p labels) = write_prefix_nlri buf p
  write_prefix_nlri buf (vpn rd p labels) = write_prefix_nlri buf p

  -- The fields that BGP4MP records start with, from the AS numbers to the addresses.
  unfoldable pub write_bgp4mp_fields :
      List ℕ → (peer_as local_as interface : ℕ) (peer_addr local_addr : IpAddr) → List ℕ
  unfolding write_ip
  write_bgp4mp_fields buf peer_as local_as interface peer_addr local_addr =
      let buf = bytes.put_u32 (bytes.put_u32 buf peer_as) local_as in
      let buf =
        bytes.put_u16 (bytes.put_u16 buf interface) (if is_ipv6_addr peer_addr then 2 else 1) in
      write_ip (write_ip buf peer_addr) local_addr

  -- `peer_type_byte`, the byte that tells the width of an address and of an AS number.
  unfoldable pub peer_type_byte : IpAddr → ℕ
  peer_type_byte a = (if is_ipv6_addr a then 1 else 0) + 2

  unfoldable pub write_peers : List ℕ → List MrtPeerEntry → List ℕ
  unfolding write_ip peer_type_byte octets
  write_peers body [] = body
  write_peers body (p ∷ peers) =
      let body = bytes.put_slice (bytes.put_u8 body (peer_type_byte p.addr)) (octets 4 p.bgp_id) in
      write_peers (bytes.put_u32 (write_ip body p.addr) p.peer_as) peers

  module _ (chrono : Chrono) where
    unfoldable pub write_entries : List ℕ → List (MrtRibEntry chrono.Time) → List ℕ
    unfolding epoch_secs
    write_entries body [] = body
    write_entries body (e ∷ entries) =
        let body =
          bytes.put_u32 (bytes.put_u16 body e.peer_index) (epoch_secs chrono e.originated) in
        let body = bytes.put_u16 body (length e.path_attrs % 2 ^ 16) in
        write_entries (bytes.put_slice body e.path_attrs) entries

    -- `write_all` of the sink, a `std::io::Write`, is a parameter: it may fail.
    module _ {Sink : Type 0} (write_all : Sink → List ℕ → Outcome Sink) where
      unfoldable pub write_bgp4mp_message :
          Sink
          → (ts : chrono.Time) (peer_as local_as interface : ℕ) (peer_addr local_addr : IpAddr)
            (bgp_bytes : List ℕ)
          → Outcome Sink
      unfolding write_mrt_header write_bgp4mp_fields epoch_secs mrt_type_as_u16 bgp4mp_as_u16
      write_bgp4mp_message out ts peer_as local_as interface peer_addr local_addr bgp_bytes =
          let body_len =
            4 + 4 + 2 + 2 + addr_len peer_addr + addr_len peer_addr + length bgp_bytes in
          let buf =
            write_mrt_header [] (epoch_secs chrono ts) (mrt_type_as_u16 bgp4_mp)
              (bgp4mp_as_u16 message_as4) (body_len % 2 ^ 32) in
          let buf = write_bgp4mp_fields buf peer_as local_as interface peer_addr local_addr in
          write_all out (bytes.put_slice buf bgp_bytes)

      unfoldable pub write_bgp4mp_state_change :
          Sink
          → (ts : chrono.Time) (peer_as local_as : ℕ) (peer_addr local_addr : IpAddr)
            (old_state new_state : BgpState)
          → Outcome Sink
      unfolding write_mrt_header write_bgp4mp_fields epoch_secs mrt_type_as_u16 bgp4mp_as_u16
          bgp_state_as_u16
      write_bgp4mp_state_change out ts peer_as local_as peer_addr local_addr old_state new_state =
          let body_len = 4 + 4 + 2 + 2 + addr_len peer_addr + addr_len peer_addr + 4 in
          let buf =
            write_mrt_header [] (epoch_secs chrono ts) (mrt_type_as_u16 bgp4_mp)
              (bgp4mp_as_u16 state_change_as4) (body_len % 2 ^ 32) in
          let buf = write_bgp4mp_fields buf peer_as local_as 0 peer_addr local_addr in
          let buf = bytes.put_u16 buf (bgp_state_as_u16 old_state) in
          write_all out (bytes.put_u16 buf (bgp_state_as_u16 new_state))

      -- The header of a TABLE_DUMP_V2 record, and the body behind it.
      unfoldable pub write_dump : Sink → chrono.Time → (subtype : ℕ) (body : List ℕ) → Outcome Sink
      unfolding write_mrt_header epoch_secs mrt_type_as_u16
      write_dump out ts subtype body = do
        out ← write_all out (
            write_mrt_header [] (epoch_secs chrono ts) (mrt_type_as_u16 table_dump_v2) subtype
              (length body % 2 ^ 32))
        write_all out body

      unfoldable pub write_peer_index_table :
          Sink
          → chrono.Time
          → (collector_id : ℕ) (view_name : Text) (peers : List MrtPeerEntry) → Outcome Sink
      unfolding write_dump write_peers table_dump_as_u16 octets
      write_peer_index_table out ts collector_id view_name peers =
          let body = bytes.put_slice [] (octets 4 collector_id) in
          let body = bytes.put_u16 body (length view_name % 2 ^ 16) in
          let body = bytes.put_slice body view_name in
          let body = bytes.put_u16 body (length peers % 2 ^ 16) in
          write_dump out ts (table_dump_as_u16 peer_index_table) (write_peers body peers)

      unfoldable pub write_rib_entry :
          Sink
          → chrono.Time
          → (seq : ℕ) (prefix : Prefix) (entries : List (MrtRibEntry chrono.Time)) → Outcome Sink
      unfolding write_dump write_prefix_nlri write_entries is_v6_prefix table_dump_as_u16
      write_rib_entry out ts seq prefix entries = do
        body ← write_prefix_nlri (bytes.put_u32 [] seq) prefix
        let body = write_entries (bytes.put_u16 body (length entries % 2 ^ 16)) entries
        let subtype =
            if is_v6_prefix prefix
            then table_dump_as_u16 rib_ipv6_unicast
            else table_dump_as_u16 rib_ipv4_unicast
        write_dump out ts subtype body

      -- `rib_event_to_mrt`, with the time of the event.
      unfoldable pub rib_event_to_mrt :
          {Time Families : Type 0}
          → Sink
          → chrono.Time
          → RibEventPayload Time Families
          → Outcome Sink
      unfolding write_bgp4mp_state_change
      rib_event_to_mrt out ts (peer_up hdr _ _ _ _) =
          write_bgp4mp_state_change out ts hdr.peer_as 0 hdr.peer_address (v4 0) active established
      rib_event_to_mrt out ts (peer_down hdr _) =
          write_bgp4mp_state_change out ts hdr.peer_as 0 hdr.peer_address (v4 0) established idle
      rib_event_to_mrt out ts _ = done out
