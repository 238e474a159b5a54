-- ===== src/Core/Bgp/Nlri.antt =====
-- crates/rbmp-core/src/bgp/nlri.rs, and the prefixes and route distinguishers of bgp/types.rs.
pub mod Total
pub mod Canonical
pub mod Panics
pub mod AddPath
use rustybmp.Base.{
  ℕ, zero, suc, ◌+◌, ◌-◌, ◌*◌, ◌/◌, ◌%◌, ◌^◌, ◌≤◌, ◌<◌, ◌≡◌, ◌≢◌, refl, sym, ap, subst, ◌∙◌, ◌↔◌,
  ◌⊎◌, inl, inr, Bool, true, false, not, ◌&&◌, ◌||◌, Option, none, some, List, [], ◌∷◌, ◌++◌, map,
  arith, ltb, leb, ◌==◌, if◌then◌else◌, ==_iff, Bool-cases, Option-cases, Eq, beq_refl, nat_eq,
  length, get_elem?, get_or, take, drop, replicate, is_empty, any, All, Any, filter, any_iff,
  any-filter, is_empty-filter, length-append, take-append-drop, length-take, length-drop,
}
use rustybmp.Core.Error.{
  Error, unexpected_eof, invalid_prefix_len, Result, ok, err, panic, stuck, ◌>>=◌,
}
use rustybmp.Core.Slice.{be16, be32, be_value, slice}
use rustybmp.Core.Buf.{Buf}
use rustybmp.Core.Ipnet.{Net, Ipnet}
use rustybmp.Core.Net.{IpAddr}
use rustybmp.Core.Bgp.Family.{Afi, ipv4, ipv6, l2_vpn, afi_as_u16}

-- A route distinguisher is its eight bytes.
pub data Prefix : Type 0 where
  v4 : Net → Prefix
  v6 : Net → Prefix
  labeled : (prefix : Prefix) (labels : List ℕ) → Prefix
  vpn : (rd : List ℕ) (prefix : Prefix) (labels : List ℕ) → Prefix

unfoldable pub addr_family : Prefix → Afi
addr_family (v4 n) = ipv4
addr_family (v6 n) = ipv6
addr_family (labeled p labels) = addr_family p
addr_family (vpn rd p labels) = addr_family p

-- `match afi { Afi::Ipv6 => .., _ => .. }`
abbrev pub is_ipv6 : Afi → Bool
is_ipv6 ipv6 = true
is_ipv6 _ = false

abbrev pub addr_size : Afi → ℕ
addr_size afi = if is_ipv6 afi then 16 else 4

abbrev pub max_bits : Afi → ℕ
max_bits afi = if is_ipv6 afi then 128 else 32

-- `let mut addr = [0u8; size]; addr[..octets].copy_from_slice(&chunk)`, as a number.
unfoldable pub fill : (size : ℕ) (chunk : List ℕ) → Result ℕ
fill size chunk =
    if leb (length chunk) size
    then ok (be_value 0 (chunk ++ replicate (size - length chunk) 0))
    else panic

abbrev pub octets_of : ℕ → ℕ
octets_of prefix_len = (prefix_len + 7) / 8

module _ (buf : Buf) (ipnet : Ipnet) where
  -- The `match afi` block that ends each decoder: it takes `octets` bytes, and makes the network.
  unfoldable pub decode_net : Afi → (prefix_len : ℕ) → List ℕ → Result (Prefix × List ℕ)
  decode_net afi prefix_len b = do
    (chunk, b) ← buf.copy_to_bytes (octets_of prefix_len) b
    addr ← fill (addr_size afi) chunk
    let bad = err (invalid_prefix_len prefix_len (afi_as_u16 afi))
    elim (ipnet.new (max_bits afi) addr prefix_len) [
      | none ↦ bad
      | some net ↦
          if is_ipv6 afi then ok (v6 (ipnet.trunc 128 net), b) else ok (v4 (ipnet.trunc 32 net), b)
    ]

  -- The checks on one entry of `decode_nlri`, from its length byte on.
  unfoldable pub decode_entry : Afi → List ℕ → Result (Prefix × List ℕ)
  decode_entry afi b = do
    (prefix_len, b) ← buf.get_u8 b
    let net = decode_net afi prefix_len b
    if ltb (length b) (octets_of prefix_len)
        then err (unexpected_eof (octets_of prefix_len) (length b))
        else if ltb (max_bits afi) prefix_len
        then err (invalid_prefix_len prefix_len (afi_as_u16 afi))
        else net

  -- `while buf.remaining() > 0`; each round takes a byte at least.
  unfoldable pub decode_nlri_loop : ℕ → Afi → List ℕ → Result (List Prefix)
  decode_nlri_loop fuel afi [] = ok []
  decode_nlri_loop zero afi (x ∷ b) = stuck
  decode_nlri_loop (suc fuel) afi (x ∷ b) = do
    (p, b') ← decode_entry afi (x ∷ b)
    rest ← decode_nlri_loop fuel afi b'
    ok (p ∷ rest)

  unfoldable pub decode_nlri : List ℕ → Afi → Result (List Prefix)
  decode_nlri b afi = decode_nlri_loop (length b) afi b

  -- The path identifier before an entry, where Add-Path is on.
  unfoldable pub decode_path_id : Bool → List ℕ → Result (Option ℕ × List ℕ)
  decode_path_id false b = ok (none, b)
  decode_path_id true b =
      let id = (do (id, b) ← buf.get_u32 b; ok (some id, b)) in
      if ltb (length b) 4 then err (unexpected_eof 4 (length b)) else id

  unfoldable pub decode_nlri_with_path_id_loop :
      ℕ → Afi → Bool → List ℕ → Result (List (Prefix × Option ℕ))
  decode_nlri_with_path_id_loop fuel afi add_path [] = ok []
  decode_nlri_with_path_id_loop zero afi add_path (x ∷ b) = stuck
  decode_nlri_with_path_id_loop (suc fuel) afi add_path (x ∷ b) = do
    (path_id, b') ← decode_path_id add_path (x ∷ b)
    (p, b') ← decode_entry afi b'
    rest ← decode_nlri_with_path_id_loop fuel afi add_path b'
    ok ((p, path_id) ∷ rest)

  unfoldable pub decode_nlri_with_path_id : List ℕ → Afi → Bool → Result (List (Prefix × Option ℕ))
  decode_nlri_with_path_id b afi add_path = decode_nlri_with_path_id_loop (length b) afi add_path b

  -- The label loop of `decode_labeled_nlri`: labels up to the one with the bottom-of-stack bit.
  unfoldable pub label_loop : ℕ → List ℕ → Result (List ℕ × List ℕ)
  label_loop zero b = stuck
  label_loop (suc fuel) b =
      let next = (do
        (l, b) ← buf.copy_to_bytes 3 b
        let raw = be32 0 (get_or l 0 0) (get_or l 1 0) (get_or l 2 0)
        let more = (do (labels, b) ← label_loop fuel b; ok ((raw / 16) ∷ labels, b))
        if raw % 2 == 1 then ok ((raw / 16) ∷ [], b) else more) in
      if ltb (length b) 3 then err (unexpected_eof 3 (length b)) else next

  -- What remains of the length byte is converted to a u8; the length byte is below 256.
  unfoldable pub decode_labeled_entry : Afi → List ℕ → Result (Prefix × List ℕ)
  decode_labeled_entry afi b = do
    (total_len, b) ← buf.get_u8 b
    (labels, b) ← label_loop (suc (length b)) b
    let prefix_len = (total_len - length labels * 24) % 256
    let inner = (do (p, b) ← decode_net afi prefix_len b; ok (labeled p labels, b))
    if ltb (length b) (octets_of prefix_len)
        then err (unexpected_eof (octets_of prefix_len) (length b))
        else inner

  unfoldable pub decode_labeled_nlri_loop : ℕ → Afi → List ℕ → Result (List Prefix)
  decode_labeled_nlri_loop fuel afi [] = ok []
  decode_labeled_nlri_loop zero afi (x ∷ b) = stuck
  decode_labeled_nlri_loop (suc fuel) afi (x ∷ b) = do
    (p, b') ← decode_labeled_entry afi (x ∷ b)
    rest ← decode_labeled_nlri_loop fuel afi b'
    ok (p ∷ rest)

  unfoldable pub decode_labeled_nlri : List ℕ → Afi → Result (List Prefix)
  decode_labeled_nlri b afi = decode_labeled_nlri_loop (length b) afi b

  -- An entry of `decode_vpn_nlri` in three parts: the prefix, the route distinguisher before it, and
  -- the length byte with the one label before that.
  unfoldable pub decode_vpn_prefix :
      Afi → (prefix_len label : ℕ) (rd : List ℕ) → List ℕ → Result (Prefix × List ℕ)
  decode_vpn_prefix afi prefix_len label rd b =
      let inner = (do (p, b) ← decode_net afi prefix_len b; ok (vpn rd p (label ∷ []), b)) in
      if ltb (length b) (octets_of prefix_len)
      then err (unexpected_eof (octets_of prefix_len) (length b))
      else inner

  unfoldable pub decode_vpn_rd : Afi → (prefix_len label : ℕ) → List ℕ → Result (Prefix × List ℕ)
  decode_vpn_rd afi prefix_len label b =
      let next = (do
        (rd, b) ← buf.copy_to_bytes 8 b
        decode_vpn_prefix afi prefix_len label rd b) in
      if ltb (length b) 8 then err (unexpected_eof 8 (length b)) else next

  unfoldable pub decode_vpn_entry : Afi → List ℕ → Result (Prefix × List ℕ)
  decode_vpn_entry afi b = do
    (total_len, b) ← buf.get_u8 b
    let next = (do
      (l, b) ← buf.copy_to_bytes 3 b
      let label = be32 0 (get_or l 0 0) (get_or l 1 0) (get_or l 2 0) / 16
      decode_vpn_rd afi ((total_len - (24 + 64)) % 256) label b)
    if ltb (length b) 3 then err (unexpected_eof 3 (length b)) else next

  unfoldable pub decode_vpn_nlri_loop : ℕ → Afi → List ℕ → Result (List Prefix)
  decode_vpn_nlri_loop fuel afi [] = ok []
  decode_vpn_nlri_loop zero afi (x ∷ b) = stuck
  decode_vpn_nlri_loop (suc fuel) afi (x ∷ b) = do
    (p, b') ← decode_vpn_entry afi (x ∷ b)
    rest ← decode_vpn_nlri_loop fuel afi b'
    ok (p ∷ rest)

  unfoldable pub decode_vpn_nlri : List ℕ → Afi → Result (List Prefix)
  decode_vpn_nlri b afi = decode_vpn_nlri_loop (length b) afi b
