-- ===== src/Core/Bgp/Nlri/Panics.antt =====
-- The decoder of labelled prefixes on a length that is too long for the family.
use rustybmp.Base.{
  ℕ, suc, ◌+◌, ◌-◌, ◌*◌, ◌/◌, ◌%◌, ◌≤◌, ◌<◌, ◌≡◌, refl, true, false, List, [], ◌∷◌, arith, ltb, leb,
  ltb-false, ◌==◌, nat_eq, length, take, length-take,
}
use rustybmp.Core.Error.{ok, panic}
use rustybmp.Core.Slice.{be32}
use rustybmp.Core.Buf.{Buf}
use rustybmp.Core.Ipnet.{Ipnet}
use rustybmp.Core.Bgp.Family.{Afi}
use rustybmp.Core.Bgp.Nlri.{
  addr_size, octets_of, fill, decode_net, label_loop, decode_labeled_entry,
  decode_labeled_nlri_loop, decode_labeled_nlri,
}

fill_panic : (size : ℕ) (chunk : List ℕ) → size < length chunk → fill size chunk ≡ panic
unfolding fill
fill_panic size chunk h = ground arith

module _ (buf : Buf) (ipnet : Ipnet) where
  decode_net_panic :
      (afi : Afi) (n : ℕ) (b : List ℕ)
      → addr_size afi < octets_of n
      → octets_of n ≤ length b
      → decode_net buf ipnet afi n b ≡ panic
  unfolding decode_net
  decode_net_panic afi n b h k =
      let all : leb (octets_of n) (length b) ≡ true = ground arith in
      let f : fill (addr_size afi) (take (octets_of n) b) ≡ panic =
        fill_panic (addr_size afi) (take (octets_of n) b)
          (omega (arith, h, k, length-take (octets_of n) b)) in
      rw (buf.copy_to_bytes_reads (octets_of n) b, all, f, decode_net) refl

  -- One label with the bottom of the stack.
  label_loop_one :
      (fuel x y z : ℕ) (b : List ℕ)
      → z % 2 ≡ 1
      → label_loop buf ipnet (suc fuel) (x ∷ y ∷ z ∷ b) ≡ ok (be32 0 x y z / 16 ∷ [], b)
  unfolding label_loop
  label_loop_one fuel x y z b h =
      let l = x ∷ y ∷ z ∷ b in
      let enough : ltb (length l) 3 ≡ false = ltb-false _ _ (omega arith) in
      let all : leb 3 (length l) ≡ true = ground arith in
      let bottom : (be32 0 x y z % 2 == 1) ≡ true = ground arith in
      rw (enough, buf.copy_to_bytes_reads 3 l, all, bottom, label_loop) refl

  -- A labelled prefix that claims more octets than an address of its family has, with one label and
  -- these octets behind it, makes the decoder panic: the octets are copied into the address before
  -- its length is checked.
  pub decode_labeled_nlri-panic :
      (afi : Afi) (n x y z : ℕ) (b : List ℕ)
      → z % 2 ≡ 1
      → n < 232
      → addr_size afi < octets_of n
      → octets_of n ≤ length b
      → decode_labeled_nlri buf ipnet ((24 + n) ∷ x ∷ y ∷ z ∷ b) afi ≡ panic
  unfolding decode_labeled_nlri decode_labeled_nlri_loop decode_labeled_entry
  decode_labeled_nlri-panic afi n x y z b bottom m h k =
      let d = x ∷ y ∷ z ∷ b in
      let len : (24 + n - 1 * 24) % 256 ≡ n = omega arith in
      let enough : ltb (length b) (octets_of n) ≡ false = ltb-false _ _ k in
      rw
        (
          buf.get_u8_reads ((24 + n) ∷ d),
          label_loop_one (length d) x y z b bottom,
          len,
          enough,
          decode_net_panic afi n b h k,
          decode_labeled_entry,
        )
        refl
