-- ===== src/Mrt/Tests.antt =====
-- The records of two neighbours with the addresses 10.0.0.1 and 10.0.0.2, written and read.
use rustybmp.Base.{
  ℕ, arith, ◌≡◌, refl, true, false, some, List, [], ◌∷◌, ◌++◌, map, nat_eq, length, take, drop,
}
use rustybmp.Core.Error.{ok}
use rustybmp.Core.Net.{IpAddr, v4, v6}
use rustybmp.Core.Buf.{slice_buf}
use rustybmp.Core.BufMut.{vec_buf_mut, u16_bytes}
use rustybmp.Core.Ipnet.{plain_ipnet}
use rustybmp.Core.Bmp.Types.{PeerHeader, global_instance, adj_rib_in_pre_policy}
use rustybmp.Core.Bgp.Nlri.{Prefix, decode_entry, addr_family}
use rustybmp.Rib.Manager.{peer_down}
use rustybmp.Mrt.Error.{io, unexpected_eof, other, done, failed}
use rustybmp.Mrt.Types.{seconds, active, established, bgp_state_as_u16}
use rustybmp.Mrt.Reader.{
  Source, MrtRecord, read_record, next, collect, parse_bgp4mp_message, parse_bgp4mp_state_change,
}
use rustybmp.Mrt.Writer.{
  MrtRibEntry, is_ipv6_addr, write_bgp4mp_message, write_bgp4mp_state_change, rib_event_to_mrt,
  write_prefix_nlri,
}
use rustybmp.Mrt.Frames.{vec_write, header_bytes, frame, bgp4mp_body}
use rustybmp.Mrt.RoundTrip.{read_record-write_bgp4mp_message, read_record-write_bgp4mp_state_change}
use rustybmp.Mrt.Sequence.{timed, file_bytes, after, next-after, collect-file_bytes}
use rustybmp.Mrt.Events.{down_body, rib_event_to_mrt_v6}
use rustybmp.Mrt.Prefixes.{prefix_bytes, decode_entry-write_prefix_nlri}

abbrev neighbour : IpAddr
neighbour = v4 167772161

abbrev own : IpAddr
own = v4 167772162

abbrev pdu : List ℕ
pdu = 255 ∷ 255 ∷ 2 ∷ []

abbrev message_body : List ℕ
message_body = bgp4mp_body 65001 65000 0 neighbour own pdu

read_record-write_bgp4mp_message_example :
    (write_bgp4mp_message vec_buf_mut seconds vec_write [] 1700000000 65001 65000 0 neighbour own
        pdu
      ≡ done ([] ++ frame 1700000000 16 4 message_body))
    × (read_record seconds
          (record { bytes = frame 1700000000 16 4 message_body ++ 7 ∷ []; breaks = false })
        ≡ (
          done (
              some (record {
                timestamp = 1700000000;
                mrt_type = 16;
                subtype = 4;
                body = message_body;
              })),
          record { bytes = 7 ∷ []; breaks = false },
        ))
    × (parse_bgp4mp_message slice_buf message_body
        ≡ done (
          record {
            peer_as = 65001;
            local_as = 65000;
            interface = 0;
            peer_addr = neighbour;
            local_addr = own;
          },
          pdu,
        ))
unfolding is_ipv6_addr
read_record-write_bgp4mp_message_example =
    read_record-write_bgp4mp_message slice_buf vec_buf_mut seconds [] (7 ∷ []) pdu false 1700000000
      1700000000 65001 65000 0 neighbour own refl (omega arith) (omega arith) (omega arith)
      (omega arith) (omega arith) (omega arith) refl (omega arith)

abbrev states : List ℕ
states = u16_bytes (bgp_state_as_u16 active) ++ u16_bytes (bgp_state_as_u16 established)

abbrev change_body : List ℕ
change_body = bgp4mp_body 65001 65000 0 neighbour own states

read_record-write_bgp4mp_state_change_example :
    (write_bgp4mp_state_change vec_buf_mut seconds vec_write [] 5 65001 65000 neighbour own active
        established
      ≡ done ([] ++ frame 5 16 5 change_body))
    × (read_record seconds (record { bytes = frame 5 16 5 change_body ++ []; breaks = true }) ≡ (
      done (some (record { timestamp = 5; mrt_type = 16; subtype = 5; body = change_body })),
      record { bytes = []; breaks = true },
    ))
    × (parse_bgp4mp_state_change slice_buf change_body
        ≡ done (
          record {
            peer_as = 65001;
            local_as = 65000;
            interface = 0;
            peer_addr = neighbour;
            local_addr = own;
          },
          (bgp_state_as_u16 active, bgp_state_as_u16 established),
        ))
unfolding is_ipv6_addr
read_record-write_bgp4mp_state_change_example =
    read_record-write_bgp4mp_state_change slice_buf vec_buf_mut seconds [] [] true 5 5 65001 65000
      neighbour own active established refl (omega arith) (omega arith) (omega arith) (omega arith)
      (omega arith) refl

abbrev two_records : List (MrtRecord ℕ)
two_records =
    record { timestamp = 5; mrt_type = 16; subtype = 4; body = 1 ∷ 2 ∷ [] }
    ∷ record { timestamp = 6; mrt_type = 13; subtype = 1; body = [] }
    ∷ []

-- A file that breaks within its second record.
abbrev broken_file : Source
broken_file = record { bytes = take 20 (file_bytes two_records); breaks = true }

next-after_example :
    (next seconds (after seconds (length broken_file.bytes) broken_file)).0
    ≡ some (failed (io other))
next-after_example = next-after seconds broken_file (length broken_file.bytes) (omega arith)

collect-file_bytes_example :
    collect seconds 3 (record { bytes = file_bytes two_records; breaks = false })
    ≡ done (map (timed seconds) two_records)
collect-file_bytes_example =
    collect-file_bytes seconds two_records 3
      (
        (omega arith, omega arith, omega arith, omega arith),
        ((omega arith, omega arith, omega arith, omega arith), tt),
      )
      (omega arith)

abbrev six_header : PeerHeader ℕ
six_header = record {
  peer_type = global_instance;
  peer_flags = 128;
  peer_distinguisher = [];
  peer_address = v6 1;
  peer_as = 65001;
  peer_bgp_id = 0;
  timestamp = 0;
  rib_type = adj_rib_in_pre_policy;
}

abbrev six_down : List ℕ
six_down = header_bytes 5 16 5 48 ++ down_body 65001 (v6 1)

abbrev follow : List ℕ
follow = frame 6 13 1 (9 ∷ [])

rib_event_to_mrt_v6_example :
    (rib_event_to_mrt vec_buf_mut seconds vec_write {Time = ℕ} {Families = ℕ} [] 5
        (peer_down six_header [])
      ≡ done ([] ++ six_down))
    × (read_record seconds (record { bytes = six_down; breaks = false })
        ≡ (failed (io unexpected_eof), record { bytes = []; breaks = false }))
    × (read_record seconds (record { bytes = six_down ++ follow; breaks = false }) ≡ (
      done (
          some (record {
            timestamp = 5;
            mrt_type = 16;
            subtype = 5;
            body = down_body 65001 (v6 1) ++ take 12 follow;
          })),
      record { bytes = drop 12 follow; breaks = false },
    ))
rib_event_to_mrt_v6_example =
    rib_event_to_mrt_v6 vec_buf_mut seconds ℕ [] follow 5 5 1 six_header [] refl refl (omega arith)
      (omega arith)

-- 10.1.0.0/16
abbrev ten : Prefix
ten = Prefix.v4 (record { addr = 167837696; prefix_len = 16 })

decode_entry-write_prefix_nlri_example :
    (write_prefix_nlri vec_buf_mut (3 ∷ []) ten ≡ done (3 ∷ [] ++ prefix_bytes ten))
    × (decode_entry slice_buf plain_ipnet (addr_family ten) (prefix_bytes ten ++ 7 ∷ [])
        ≡ ok (ten, 7 ∷ []))
unfolding addr_family
decode_entry-write_prefix_nlri_example =
    decode_entry-write_prefix_nlri vec_buf_mut slice_buf plain_ipnet ten (3 ∷ []) (7 ∷ [])
      (refl, (omega arith, omega arith, refl))

abbrev best : List (MrtRibEntry ℕ)
best = record { peer_index = 1; originated = 4; path_attrs = 64 ∷ 1 ∷ 1 ∷ 0 ∷ [] } ∷ []
