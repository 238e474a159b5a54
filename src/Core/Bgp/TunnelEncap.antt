-- ===== src/Core/Bgp/TunnelEncap.antt =====
-- crates/rbmp-core/src/bgp/attributes.rs: the attribute of tunnel encapsulation.
use rustybmp.Base.{
  ℕ, zero, suc, ◌<◌, Option, none, some, List, [], ◌∷◌, ◌&&◌, arith, ltb, leb, ◌==◌, if◌then◌else◌,
  nat_eq, length, take, drop, length-drop, Bool-cases, inl, inr,
}
use rustybmp.Base.Text.{Text, codes}
use rustybmp.Core.Error.{Result, ok, stuck, ◌>>=◌, Yields, Yields-bind}
use rustybmp.Core.Slice.{be16, be32, be_value, byte}
use rustybmp.Core.Net.{IpAddr, v4, v6}

pub record TunnelEncapEntry : Type 0 where
  pub tunnel_type : ℕ
  pub tunnel_type_name : Text
  pub endpoint : Option IpAddr
  pub color : Option ℕ

-- `tunnel_type_name(t)`
unfoldable pub name_of_tunnel : ℕ → Text
name_of_tunnel t =
    if t == 1
    then codes "l2tpv3-over-ip"
    else if t == 2
    then codes "gre"
    else if t == 3
    then codes "transmit-tunnel-endpoint"
    else if t == 4
    then codes "ipsec-in-tunnel-mode"
    else if t == 5
    then codes "ip-in-ip-with-ipsec"
    else if t == 6
    then codes "mpls-in-ip-with-ipsec"
    else if t == 7
    then codes "ip-in-ip"
    else if t == 8
    then codes "vxlan"
    else if t == 9
    then codes "nvgre"
    else if t == 10
    then codes "mpls"
    else if t == 11
    then codes "mpls-in-gre"
    else if t == 12
    then codes "vxlan-gpe"
    else if t == 13
    then codes "mpls-in-udp"
    else if t == 14
    then codes "ipv6-tunnel"
    else if t == 15
    then codes "sr-mpls"
    else if t == 16
    then codes "geneve"
    else if t == 17
    then codes "endpoint"
    else if t == 23
    then codes "srv6"
    else codes "unknown"

abbrev pub Subtlvs : Type 0
Subtlvs = Option IpAddr × Option ℕ

-- The match of one sub-TLV, on what the ones before it set.
unfoldable pub subtlv : (sub_type : ℕ) (d : List ℕ) → Subtlvs → Subtlvs
subtlv sub_type d (endpoint, color) =
    if (sub_type == 1) && (length d == 4)
    then (some (v4 (be32 (byte d 0) (byte d 1) (byte d 2) (byte d 3))), color)
    else if (sub_type == 1) && (length d == 16)
    then (some (v6 (be_value 0 d)), color)
    else if (sub_type == 9) && leb 4 (length d)
    then (
      endpoint,
      if leb 6 (length d) then some (be32 (byte d 2) (byte d 3) (byte d 4) (byte d 5)) else color,
    )
    else (endpoint, color)

-- The loop of `parse_tunnel_subtlvs` on the bytes from `pos` on.
unfoldable pub subtlv_loop : ℕ → List ℕ → Subtlvs → Result Subtlvs
unfolding subtlv
subtlv_loop zero b found = stuck
subtlv_loop (suc fuel) (sub_type ∷ sub_len ∷ b) found =
    let rest = subtlv_loop fuel (drop sub_len b) (subtlv sub_type (take sub_len b) found) in
    if ltb (length b) sub_len then ok found else rest
subtlv_loop (suc fuel) _ found = ok found

unfoldable pub parse_tunnel_subtlvs : List ℕ → Result Subtlvs
unfolding subtlv_loop
parse_tunnel_subtlvs b = subtlv_loop (suc (length b)) b (none, none)

-- The loop of `parse_tunnel_encap` on the bytes from `pos` on.
unfoldable pub tunnel_loop : ℕ → List ℕ → Result (List TunnelEncapEntry)
unfolding parse_tunnel_subtlvs name_of_tunnel
tunnel_loop zero b = stuck
tunnel_loop (suc fuel) (t1 ∷ t0 ∷ l1 ∷ l0 ∷ b) =
    let len = be16 l1 l0 in
    let next = (do
      (endpoint, color) ← parse_tunnel_subtlvs (take len b)
      entries ← tunnel_loop fuel (drop len b)
      ok (
          record {
            tunnel_type = be16 t1 t0;
            tunnel_type_name = name_of_tunnel (be16 t1 t0);
            endpoint = endpoint;
            color = color;
          }
          ∷ entries)) in
    if ltb (length b) len then ok [] else next
tunnel_loop (suc fuel) _ = ok []

unfoldable pub parse_tunnel_encap : List ℕ → Result (List TunnelEncapEntry)
unfolding tunnel_loop
parse_tunnel_encap b = tunnel_loop (suc (length b)) b

-- A value is computed.
abbrev pub IsOk {ℓ} : {A : Type ℓ} → Result A → Type 0
IsOk m = Yields (λ a. Unit) m

subtlv_loop-IsOk :
    (fuel : ℕ) (b : List ℕ) (found : Subtlvs) → length b < fuel → IsOk (subtlv_loop fuel b found)
unfolding subtlv_loop
subtlv_loop-IsOk zero b found h = absurd (omega arith)
subtlv_loop-IsOk (suc fuel) [] found h = tt
subtlv_loop-IsOk (suc fuel) (t ∷ []) found h = tt
subtlv_loop-IsOk (suc fuel) (t ∷ n ∷ b) found h =
    let ih =
      subtlv_loop-IsOk fuel (drop n b) (subtlv t (take n b) found)
        (omega (arith, length-drop n b)) in
    elim (Bool-cases (ltb (length b) n)) [ inl short ↦ rw short tt | inr enough ↦ rw enough ih ]

tunnel_loop-IsOk : (fuel : ℕ) (b : List ℕ) → length b < fuel → IsOk (tunnel_loop fuel b)
unfolding tunnel_loop parse_tunnel_subtlvs
tunnel_loop-IsOk zero b h = absurd (omega arith)
tunnel_loop-IsOk (suc fuel) [] h = tt
tunnel_loop-IsOk (suc fuel) (a ∷ []) h = tt
tunnel_loop-IsOk (suc fuel) (a ∷ b ∷ []) h = tt
tunnel_loop-IsOk (suc fuel) (a ∷ b ∷ c ∷ []) h = tt
tunnel_loop-IsOk (suc fuel) (t1 ∷ t0 ∷ l1 ∷ l0 ∷ b) h =
    let len = be16 l1 l0 in
    let subs =
      subtlv_loop-IsOk (suc (length (take len b))) (take len b) (none, none) (omega arith) in
    let ih = tunnel_loop-IsOk fuel (drop len b) (omega (arith, length-drop len b)) in
    elim (Bool-cases (ltb (length b) len)) [
      | inl short ↦ rw short tt
      | inr enough ↦ rw enough (
          Yields-bind (λ a. Unit) (λ a. Unit) (parse_tunnel_subtlvs (take len b)) _ subs
            λ found u.
              Yields-bind (λ a. Unit) (λ a. Unit) (tunnel_loop fuel (drop len b)) _ ih
                λ entries v. tt)
    ]

-- The parser of tunnels gives a list on every byte string, with no error.
pub parse_tunnel_encap-IsOk : (b : List ℕ) → IsOk (parse_tunnel_encap b)
unfolding parse_tunnel_encap
parse_tunnel_encap-IsOk b = tunnel_loop-IsOk (suc (length b)) b (omega arith)
