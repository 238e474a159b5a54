-- ===== src/Rib/Session.antt =====
-- crates/rbmp-rib/src/session.rs: the sessions of the peers and of the BMP speakers.
pub mod Llgr
use rustybmp.Base.{
  ℕ, suc, ◌+◌, ◌*◌, ◌%◌, ◌^◌, Bool, true, false, Option, none, some, List, [], ◌∷◌, ltb,
  if◌then◌else◌, nat_eq, length, any,
}
use rustybmp.Base.Text.{Text}
use rustybmp.Base.Table.{Table}
use rustybmp.Core.Net.{IpAddr, ip_eq}
use rustybmp.Core.Bgp.Family.{AfiSafi, afi_safi_beq}
use rustybmp.Core.Bgp.Capability.{BgpCapability, add_path, long_lived_graceful_restart}
use rustybmp.Core.Bmp.Types.{RibType, PeerHeader}

pub data PeerState : Type 0 where
  up down unknown : PeerState

abbrev pub is_up : PeerState → Bool
is_up up = true
is_up _ = false

pub record PeerSession (Time : Type 0) : Type 0 where
  pub peer_address : IpAddr
  pub peer_as : ℕ
  pub peer_bgp_id : ℕ
  pub local_as : ℕ
  pub hold_time : ℕ
  pub state : PeerState
  pub up_at : Option Time
  pub down_at : Option Time
  pub capabilities : List BgpCapability
  pub route_counts : Table RibType ℕ
  pub flap_count : ℕ
  pub add_path_families : List (AfiSafi × ℕ)
  pub llgr_stale_secs : ℕ
  pub llgr_active : Bool

-- `PeerSession::new`
unfoldable pub new_peer : {Time : Type 0} → PeerHeader Time → PeerSession Time
new_peer hdr = record {
  peer_address = hdr.peer_address;
  peer_as = hdr.peer_as;
  peer_bgp_id = hdr.peer_bgp_id;
  local_as = 0;
  hold_time = 0;
  state = unknown;
  up_at = none;
  down_at = none;
  capabilities = [];
  route_counts = [];
  flap_count = 0;
  add_path_families = [];
  llgr_stale_secs = 0;
  llgr_active = false;
}

-- `find_map(..).unwrap_or_default()` over the Add-Path capabilities
unfoldable pub find_add_path : List BgpCapability → List (AfiSafi × ℕ)
find_add_path [] = []
find_add_path (add_path entries ∷ caps) = entries
find_add_path (_ ∷ caps) = find_add_path caps

-- The loop over the entries of the LLGR capability, seven bytes each, with the maximum so far.
unfoldable pub max_stale : (max_secs : ℕ) → List ℕ → ℕ
max_stale m (a ∷ a' ∷ s ∷ f ∷ t2 ∷ t1 ∷ t0 ∷ rest) =
    let t = (t2 * 256 + t1) * 256 + t0 in max_stale (if ltb m t then t else m) rest
max_stale m _ = m

-- `find_map(..).unwrap_or(0)` over the LLGR capabilities
unfoldable pub find_stale_secs : List BgpCapability → ℕ
unfolding max_stale
find_stale_secs [] = 0
find_stale_secs (long_lived_graceful_restart entries ∷ caps) = max_stale 0 entries
find_stale_secs (_ ∷ caps) = find_stale_secs caps

module _ {Time : Type 0} where
  -- `flap_count += 1` wraps in a release build.
  unfoldable pub on_up :
      (local_as hold_time : ℕ) → List BgpCapability → Time → PeerSession Time → PeerSession Time
  unfolding find_add_path find_stale_secs
  on_up local_as hold_time caps at p = record p {
    flap_count = if is_up p.state then (p.flap_count + 1) % 2 ^ 32 else p.flap_count;
    state = up;
    up_at = some at;
    local_as = local_as;
    hold_time = hold_time;
    add_path_families = find_add_path caps;
    llgr_stale_secs = find_stale_secs caps;
    llgr_active = ltb 0 (find_stale_secs caps);
    capabilities = caps;
  }

  unfoldable pub add_path_active_for : AfiSafi → PeerSession Time → Bool
  unfolding afi_safi_beq
  add_path_active_for f p = any (λ e. afi_safi_beq (e.0) f) p.add_path_families

  unfoldable pub on_down : Time → PeerSession Time → PeerSession Time
  on_down at p = record p { state = down; down_at = some at; route_counts = [] }

pub record BmpSession (Time : Type 0) : Type 0 where
  pub speaker_addr : IpAddr
  pub sys_name : Option Text
  pub sys_descr : Option Text
  pub connected_at : Time
  pub peers : Table IpAddr (PeerSession Time)

-- `BmpSession::new`
unfoldable pub new_session : {Time : Type 0} → IpAddr → Time → BmpSession Time
new_session speaker_addr at = record {
  speaker_addr = speaker_addr;
  sys_name = none;
  sys_descr = none;
  connected_at = at;
  peers = [];
}

module _ {Time : Type 0} where
  unfoldable pub peer_count : BmpSession Time → ℕ
  peer_count s = length s.peers

  count_up : Table IpAddr (PeerSession Time) → ℕ
  count_up [] = 0
  count_up ((a, p) ∷ ps) = if is_up p.state then suc (count_up ps) else count_up ps

  unfoldable pub up_peer_count : BmpSession Time → ℕ
  unfolding count_up
  up_peer_count s = count_up s.peers
