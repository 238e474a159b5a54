-- ===== src/Mrt/Prefixes.antt =====
-- The prefixes that the writer encodes against the decoder of `rbmp-core`.
use rustybmp.Base.{
  ℕ, ◌+◌, ◌-◌, ◌*◌, ◌/◌, ◌%◌, ◌^◌, ◌≤◌, ◌<◌, ◌≡◌, refl, sym, ap, ◌∙◌, false, List, [], ◌∷◌, ◌++◌,
  arith, nat_eq, length, take, drop, replicate, take-append, drop-append, length-append,
  length-take, subst, ltb, ltb-false,
}
use native.Mathlib.Nat.{mod-add-div'}
use mathlib.Core.List.{append_assoc}
use rustybmp.Core.Error.{ok}
use rustybmp.Core.Slice.{be_value, slice, slice_ok}
use rustybmp.Core.Buf.{Buf}
use rustybmp.Core.BufMut.{BufMut, octets, length-octets}
use rustybmp.Core.Ipnet.{Net, Ipnet}
use rustybmp.Core.Bgp.Family.{Afi, ipv4, ipv6}
use rustybmp.Core.Bgp.Nlri.{
  Prefix, v4, v6, labeled, vpn, octets_of, addr_size, max_bits, addr_family, decode_entry,
}
use rustybmp.Core.Bgp.Nlri.Total.{truncated, network_of, decode_entry_lem}
use rustybmp.Core.Bgp.Nlri.Canonical.{IsNetwork, IsPlain}
use rustybmp.Mrt.Octets.{be_value-take-octets}
use rustybmp.Mrt.Error.{done}
use rustybmp.Mrt.Writer.{write_net, write_prefix_nlri}

-- What the decoder spells of an address that was written up to its prefix length.
spelled_back :
    (size n addr : ℕ) (rest : List ℕ)
    → n ≤ 8 * size
    → addr < 256 ^ size
    → addr % 2 ^ (8 * size - n) ≡ 0
    → be_value 0 (
        take (octets_of n) (take (octets_of n) (octets size addr) ++ rest)
        ++ replicate (size - octets_of n) 0)
      ≡ addr
spelled_back size n addr rest h b e =
    let k = octets_of n in
    let fits : k ≤ size = omega (arith, h) in
    let len : length (take k (octets size addr)) ≡ k =
      omega (arith, length-take k (octets size addr), length-octets size addr) in
    let front : take k (take k (octets size addr) ++ rest) ≡ take k (octets size addr) =
      subst (λ m. take m (take k (octets size addr) ++ rest) ≡ take k (octets size addr)) len
        (take-append (take k (octets size addr)) rest) in
    let whole : k + (size - k) ≡ size = omega arith in
    rw front (
      subst (λ m. be_value 0 (take k (octets m addr) ++ replicate (size - k) 0) ≡ addr) whole
        (be_value-take-octets k (size - k) (8 * size - n) addr
          (subst (λ m. addr < 256 ^ m) (sym whole) b) (omega arith) e))

truncated_back :
    (width : ℕ) (net : Net) → IsNetwork width net → truncated width net.prefix_len net.addr ≡ net
truncated_back width net (h, b, e) =
    let d = 2 ^ (width - net.prefix_len) in
    let whole : net.addr / d * d ≡ net.addr = omega (arith, mod-add-div' net.addr d, e) in
    ap (λ a. record { addr = a; prefix_len = net.prefix_len }) whole

-- The length byte with the octets that it counts.
abbrev pub net_bytes : ℕ → Net → List ℕ
net_bytes size net = net.prefix_len ∷ take (octets_of net.prefix_len) (octets size net.addr)

module _ (bytes : BufMut) where
  write_net_lem :
      (size : ℕ) (net : Net) (front : List ℕ)
      → net.prefix_len < 256
      → net.prefix_len ≤ 8 * size
      → write_net bytes size net.prefix_len net.addr front ≡ done (front ++ net_bytes size net)
  unfolding write_net
  write_net_lem size net front byte h =
      let k = octets_of net.prefix_len in
      let s : slice (octets size net.addr) 0 k ≡ ok (take k (octets size net.addr)) =
        slice_ok (octets size net.addr) 0 k (omega arith)
          (omega (arith, h, length-octets size net.addr))
        ∙ ap (λ m. ok (take m (octets size net.addr))) (omega arith) in
      rw (s, bytes.put_u8_appends front net.prefix_len byte, bytes.put_slice_appends)
        (ap done (append_assoc front (net.prefix_len ∷ []) (take k (octets size net.addr))))

-- The octets of the inner prefix alone are written of a labelled one.
abbrev pub prefix_bytes : Prefix → List ℕ
prefix_bytes (v4 n) = net_bytes 4 n
prefix_bytes (v6 n) = net_bytes 16 n
prefix_bytes (labeled p labels) = prefix_bytes p
prefix_bytes (vpn rd p labels) = prefix_bytes p

module _ (bytes : BufMut) (buf : Buf) (ipnet : Ipnet) where
  decode_net_bytes :
      (afi : Afi) (size : ℕ) (net : Net) (rest : List ℕ)
      → size ≡ addr_size afi
      → max_bits afi ≡ 8 * size
      → net.prefix_len ≤ 8 * size
      → decode_entry buf ipnet afi (net_bytes size net ++ rest)
        ≡ ok (
          network_of afi net.prefix_len
              (take (octets_of net.prefix_len) (octets size net.addr) ++ rest),
          rest,
        )
  decode_net_bytes afi size net rest e m h =
      let k = octets_of net.prefix_len in
      let len : length (take k (octets size net.addr)) ≡ k =
        omega (arith, h, length-take k (octets size net.addr), length-octets size net.addr) in
      let enough : ltb (length (take k (octets size net.addr) ++ rest)) k ≡ false =
        ltb-false _ _ (omega (arith, len, length-append (take k (octets size net.addr)) rest)) in
      let short : ltb (max_bits afi) net.prefix_len ≡ false = ltb-false _ _ (omega (arith, m, h)) in
      let back : drop k (take k (octets size net.addr) ++ rest) ≡ rest =
        subst (λ n. drop n (take k (octets size net.addr) ++ rest) ≡ rest) len
          (drop-append (take k (octets size net.addr)) rest) in
      decode_entry_lem buf ipnet afi net.prefix_len (take k (octets size net.addr) ++ rest)
      ∙ rw (enough, short, back) refl

  -- A plain prefix that is a network of its family is written as an NLRI entry: the bytes are
  -- appended, and the decoder for its family takes just these bytes and gives the prefix back.
  pub decode_entry-write_prefix_nlri :
      (p : Prefix) (front rest : List ℕ)
      → IsPlain (addr_family p) p
      → (write_prefix_nlri bytes front p ≡ done (front ++ prefix_bytes p))
        × (decode_entry buf ipnet (addr_family p) (prefix_bytes p ++ rest) ≡ ok (p, rest))
  unfolding write_prefix_nlri addr_family
  decode_entry-write_prefix_nlri (v4 n) front rest (f, (h, b, e)) = (
    write_net_lem bytes 4 n front (omega (arith, h)) h,
    decode_net_bytes ipv4 4 n rest refl refl h
        ∙ ap (λ q. ok (v4 q, rest))
            (ap (λ a. truncated 32 n.prefix_len a) (spelled_back 4 n.prefix_len n.addr rest h b e)
              ∙ truncated_back 32 n (h, b, e)),
  )
  decode_entry-write_prefix_nlri (v6 n) front rest (f, (h, b, e)) = (
    write_net_lem bytes 16 n front (omega (arith, h)) h,
    decode_net_bytes ipv6 16 n rest refl refl h
        ∙ ap (λ q. ok (v6 q, rest))
            (ap (λ a. truncated 128 n.prefix_len a) (spelled_back 16 n.prefix_len n.addr rest h b e)
              ∙ truncated_back 128 n (h, b, e)),
  )
  decode_entry-write_prefix_nlri (labeled p labels) front rest h = elim h [ ]
  decode_entry-write_prefix_nlri (vpn rd p labels) front rest h = elim h [ ]
