-- ===== src/Core/Ipnet.antt =====
-- The crate `ipnet`, of which the program uses the networks and three of their operations. The
-- crate is a parameter of the model: `Ipnet` has its operations, each with its documentation.
use rustybmp.Base.{
  ℕ, ◌-◌, ◌*◌, ◌/◌, ◌^◌, ◌≤◌, ◌<◌, ◌≡◌, refl, ◌↔◌, Bool, true, false, ◌&&◌, Option, none, some,
  arith, leb, ◌==◌, if◌then◌else◌, nat_eq,
}

-- `Ipv4Net` and `Ipv6Net`: an address, as a number, with a prefix length.
pub record Net : Type 0 where
  pub addr : ℕ
  pub prefix_len : ℕ

-- `#[derive(PartialEq)]`
abbrev pub net_beq : Net → Net → Bool
net_beq a b = (a.addr == b.addr) && (a.prefix_len == b.prefix_len)

pub net_beq_iff : (a b : Net) → (net_beq a b ≡ true) ↔ (a ≡ b)
net_beq_iff a b = ground arith

-- `IpNet`
pub data IpNet : Type 0 where
  v4 : Net → IpNet
  v6 : Net → IpNet

abbrev pub ip_net_beq : IpNet → IpNet → Bool
ip_net_beq (v4 a) (v4 b) = net_beq a b
ip_net_beq (v6 a) (v6 b) = net_beq a b
ip_net_beq _ _ = false

abbrev pub prefix_len : IpNet → ℕ
prefix_len (v4 n) = n.prefix_len
prefix_len (v6 n) = n.prefix_len

-- The network bits of an address: those above the `width - len` host bits.
abbrev pub network : (width len addr : ℕ) → ℕ
network width len addr = addr / 2 ^ (width - len)

-- `width` is 32 for `Ipv4Net` and 128 for `Ipv6Net`.
pub record Ipnet : Type 0 where
  -- `new` refuses a prefix length above the width.
  pub new : (width addr len : ℕ) → Option Net
  pub new_accepts :
      (width addr len : ℕ)
      → len ≤ width
      → new width addr len ≡ some (record { addr = addr; prefix_len = len })
  pub new_refuses : (width addr len : ℕ) → width < len → new width addr len ≡ none
  -- `trunc` clears the host bits.
  pub trunc : (width : ℕ) → Net → Net
  pub trunc_clears :
      (width : ℕ) (n : Net)
      → trunc width n ≡ record {
        addr = network width n.prefix_len n.addr * 2 ^ (width - n.prefix_len);
        prefix_len = n.prefix_len;
      }
  -- `contains`: the other network is this one, or a part of it.
  pub contains : (width : ℕ) → Net → Net → Bool
  pub contains_iff :
      (width : ℕ) (a b : Net)
      → (contains width a b ≡ true) ↔ (
          (a.prefix_len ≤ b.prefix_len)
          × (network width a.prefix_len b.addr ≡ network width a.prefix_len a.addr))

pub ip_net_beq_iff : (a b : IpNet) → (ip_net_beq a b ≡ true) ↔ (a ≡ b)
ip_net_beq_iff (v4 a) (v4 b) = ground (arith, net_beq_iff a b)
ip_net_beq_iff (v4 a) (v6 b) = ground arith
ip_net_beq_iff (v6 a) (v4 b) = ground arith
ip_net_beq_iff (v6 a) (v6 b) = ground (arith, net_beq_iff a b)

-- An implementation of the documentation, which shows that it can be met.
pub plain_contains : ℕ → Net → Net → Bool
plain_contains width a b =
    leb a.prefix_len b.prefix_len
    && (network width a.prefix_len b.addr == network width a.prefix_len a.addr)

pub plain_contains_iff :
    (width : ℕ) (a b : Net)
    → (plain_contains width a b ≡ true) ↔ (
        (a.prefix_len ≤ b.prefix_len)
        × (network width a.prefix_len b.addr ≡ network width a.prefix_len a.addr))
unfolding plain_contains
plain_contains_iff width a b = ground arith

pub plain_new : ℕ → ℕ → ℕ → Option Net
plain_new width addr len =
    if leb len width then some (record { addr = addr; prefix_len = len }) else none

pub plain_new_accepts :
    (width addr len : ℕ)
    → len ≤ width
    → plain_new width addr len ≡ some (record { addr = addr; prefix_len = len })
unfolding plain_new
plain_new_accepts width addr len h = ground arith

pub plain_new_refuses : (width addr len : ℕ) → width < len → plain_new width addr len ≡ none
unfolding plain_new
plain_new_refuses width addr len h = ground arith

unfoldable pub plain_ipnet : Ipnet
unfolding plain_contains plain_new
plain_ipnet = record {
  new = plain_new;
  new_accepts = plain_new_accepts;
  new_refuses = plain_new_refuses;
  trunc = λ width n. record {
    addr = network width n.prefix_len n.addr * 2 ^ (width - n.prefix_len);
    prefix_len = n.prefix_len;
  };
  trunc_clears = λ width n. refl;
  contains = plain_contains;
  contains_iff = plain_contains_iff;
}
