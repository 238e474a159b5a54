-- ===== src/Rib/Tests.antt =====
-- Runs of the routing tables on concrete routes.
use rustybmp.Base.{
  ◌≢◌, ◌⊎◌, inl, inr, arith, All, List, ◌<◌, ℕ, ◌-◌, ◌≡◌, ◌↔◌, refl, true, ◌&&◌, Option, none, some,
  [], ◌∷◌, ◌++◌, if◌then◌else◌, nat_eq,
}
use rustybmp.Base.Text.{Text, codes, decimal}
use rustybmp.Base.Table.{lookup, insert, contains_key, is_some, map_option}
use rustybmp.Core.Error.{ok, Yields}
use rustybmp.Core.Net.{IpAddr, ip_beq, ip_eq}
use rustybmp.Core.Net
use rustybmp.Core.Buf.{slice_buf}
use rustybmp.Core.Ipnet.{plain_ipnet}
use rustybmp.Core.Bgp.Family.{ipv4}
use rustybmp.Rib.Key.Decoded.{IfOk, decode_labeled_nlri-HasLabels}
use rustybmp.Core.Bgp.Nlri.{Prefix, v4, decode_labeled_nlri, decode_vpn_nlri}
use rustybmp.Core.Bgp.Attributes.{
  BgpUpdate, no_attributes, all_announced_with_path_id, all_withdrawn_with_path_id, zip_ids, is_eor,
}
use rustybmp.Core.Bmp.Types.{
  RibType, PeerType, PeerHeader, BmpPayload, rib_type_beq, adj_rib_in_pre_policy, route_monitoring,
  termination, peer_de_configured,
}
use rustybmp.Rib.Key.{Display, show_prefix, entry_key}
use rustybmp.Rib.Key.Labels.{HasLabels, HaveLabels}
use rustybmp.Rib.Table.{
  Clock, pos, RibEntry, RibTable, Routes, normal, insert_route, recompute_best_path,
  recompute_routes, drain_deleted_stale, flag_best, set_best,
}
use rustybmp.Rib.Table.Routes.{route_at}
use rustybmp.Rib.Table.Best.{
  forget_best, Chooses, recompute_routes-Chooses, recompute_best_path-forget_best,
}
use rustybmp.Rib.Table.Stale.{Drained, drain_deleted_stale_lem}
use rustybmp.Core.Bgp.Capability.{long_lived_graceful_restart}
use rustybmp.Rib.Session.{new_session, new_peer, on_up}
use rustybmp.Rib.Session.Llgr.{stale_times, IsMaximum, on_up-IsMaximum}
use rustybmp.Rib.Manager.{
  Filters, Outside, RibEvent, route_change, announce, withdraw_routes, announce_routes,
  recompute_if, RibManager, BmpMessage, default, process, process_update, filter_verdict, or_else,
}
use rustybmp.Rib.Manager.Routing.{
  peer_view, announced, announced_in, withdrawn_from, process_update-peer_view,
}
use rustybmp.Rib.Manager.Order.{
  LlgrActive, MarkedAt, peer_route, process-peer_down, process-termination,
}
use rustybmp.Rib.Manager.Invariant.{EntryIsWellFormed, RibsAreWellFormed}
use rustybmp.Rib.Manager.Reachable.{
  start, receive, process-RibsAreWellFormed, Reachable-RibsAreWellFormed,
}

abbrev display : Display
display = record {
  show_net4 = λ n. decimal n.addr ++ (codes "/" ++ decimal n.prefix_len);
  show_net6 = λ n. codes "::" ++ (decimal n.addr ++ (codes "/" ++ decimal n.prefix_len));
  show_addr4 = λ a. decimal a;
  hex = λ bytes. bytes;
}

abbrev clock : Clock
clock = record { Time = ℕ; seconds_since = λ now at. pos (now - at) }

abbrev filters : Filters ℕ
filters = record {
  FilterEngine = ℕ;
  RotoFilterEngine = ℕ;
  apply = λ engine prefix peer_as peer attributes. default;
  evaluate = λ engine prefix peer_as peer rib attributes. default;
}

abbrev outside : Outside ℕ
outside = record {
  clock = clock;
  display = display;
  filters = filters;
  debug_reason = λ reason. codes "reason";
}

abbrev peer : IpAddr
peer = Net.v4 1

abbrev speaker : IpAddr
speaker = Net.v4 9

-- 10.0.0.0/8
abbrev prefix : Prefix
prefix = v4 (record { addr = 167772160; prefix_len = 8 })

abbrev entry : Option ℕ → RibEntry ℕ ℕ
entry path_id = record {
  prefix = prefix;
  path_id = path_id;
  attributes = no_attributes 0;
  received_at = 0;
  peer_addr = peer;
  peer_as = 65001;
  is_best = true;
  llgr_state = normal;
  stale_at = none;
}

abbrev text : Text
text = codes "167772160/8"

abbrev routes : Routes ℕ ℕ
routes =
    (text ++ codes "@1", entry (some 1))
    ∷ (
      text ++ codes "@2",
      record (entry (some 2)) { attributes = record (no_attributes 0) { local_pref = some 200 } },
    )
    ∷ []

abbrev tables : RibTable ℕ ℕ
tables = (adj_rib_in_pre_policy, routes) ∷ []

abbrev header : PeerHeader ℕ
header = record {
  peer_type = PeerType.global_instance;
  peer_flags = 0;
  peer_distinguisher = [];
  peer_address = peer;
  peer_as = 65001;
  peer_bgp_id = 7;
  timestamp = 0;
  rib_type = adj_rib_in_pre_policy;
}

abbrev update : BgpUpdate ℕ
update = record {
  withdrawn = prefix ∷ [];
  withdrawn_path_ids = some 1 ∷ [];
  attributes = no_attributes 0;
  announced = prefix ∷ [];
  announced_path_ids = some 3 ∷ [];
}

abbrev manager : RibManager ℕ outside
manager = record {
  speakers = (speaker, new_session speaker 0) ∷ [];
  ribs = (peer, tables) ∷ [];
  filter = some 0;
  roto_filter = none;
}

text-show_prefix : show_prefix display prefix ≡ ok text
unfolding show_prefix decimal
text-show_prefix = refl

text-entry_key : entry_key display prefix none ≡ ok text
unfolding entry_key show_prefix decimal
text-entry_key = refl

labels : HasLabels prefix
unfolding HasLabels
labels = tt

recompute_best_path-forget_best_example :
    Yields
      (λ after.
        (rib' : RibType) (key : Text)
        → map_option forget_best (route_at rib' key after)
          ≡ map_option forget_best (route_at rib' key tables))
      (recompute_best_path display adj_rib_in_pre_policy prefix tables)
recompute_best_path-forget_best_example =
    recompute_best_path-forget_best display adj_rib_in_pre_policy prefix text tables
      text-show_prefix

recompute_routes-Chooses_example : Chooses text routes (recompute_routes text routes)
recompute_routes-Chooses_example =
    recompute_routes-Chooses text routes
      ((omega arith, omega arith), ((omega arith, omega arith), tt)) (inl (inr (49 ∷ [], refl)))

drain_deleted_stale_lem_example :
    Drained clock 9 3 tables
      (drain_deleted_stale clock 9 3 tables).0
      (drain_deleted_stale clock 9 3 tables).1
drain_deleted_stale_lem_example = drain_deleted_stale_lem clock 9 3 tables

withdrawn-HaveLabels : HaveLabels (all_withdrawn_with_path_id update)
unfolding all_withdrawn_with_path_id zip_ids
withdrawn-HaveLabels = (labels, tt)

announced-HaveLabels : HaveLabels (all_announced_with_path_id update)
unfolding all_announced_with_path_id zip_ids
announced-HaveLabels = (labels, tt)

process_update-peer_view_example :
    Yields
      (λ after.
        (after.0.speakers ≡ manager.speakers)
        × ((p : IpAddr) (rib : RibType) (key : Text)
            → peer_view outside p rib key (after.0) ≡ (
                if ip_beq peer p && rib_type_beq adj_rib_in_pre_policy rib
                then announced_in display
                    (filter_verdict outside manager header update.attributes)
                    (announced outside header 4 update.attributes)
                    key
                    (all_announced_with_path_id update)
                    (withdrawn_from display key
                      (all_withdrawn_with_path_id update)
                      (peer_view outside p rib key manager))
                else peer_view outside p rib key manager)))
      (process_update outside speaker 4 header update manager)
process_update-peer_view_example =
    process_update-peer_view outside speaker 4 header update manager withdrawn-HaveLabels
      announced-HaveLabels

process-peer_down_example :
    Yields
      (λ after.
        (rib : RibType) (key : Text)
        → ((LlgrActive outside speaker peer manager.speakers
              × MarkedAt outside 6
                  (peer_route peer rib key manager.ribs)
                  (peer_route peer rib key after.0.ribs))
            ⊎ (¬ (LlgrActive outside speaker peer manager.speakers)
                × (peer_route peer rib key after.0.ribs ≡ none)))
          × (((p : IpAddr)
              → p ≢ peer
              → peer_route p rib key after.0.ribs ≡ peer_route p rib key manager.ribs)))
      (process outside
        (record {
          received_at = 6;
          speaker_addr = speaker;
          payload = BmpPayload.peer_down header peer_de_configured;
        })
        manager)
process-peer_down_example = process-peer_down outside 6 speaker header peer_de_configured manager

process-termination_example :
    Yields
      (λ after.
        ((other : IpAddr)
          → lookup other after.0.speakers
            ≡ (if ip_beq speaker other then none else lookup other manager.speakers))
        × ((p : IpAddr)
            → lookup p after.0.ribs ≡ (
                if is_some (
                  lookup p
                    (or_else (new_session speaker 7) (lookup speaker manager.speakers)).peers)
                then none
                else lookup p manager.ribs)))
      (process outside
        (record { received_at = 7; speaker_addr = speaker; payload = termination 0 none })
        manager)
process-termination_example = process-termination outside 7 speaker 0 none manager

manager-RibsAreWellFormed : RibsAreWellFormed manager.ribs
unfolding EntryIsWellFormed
manager-RibsAreWellFormed = ((((refl, tt), ((refl, tt), tt)), tt), tt)

process-RibsAreWellFormed_example :
    Yields
      (λ after. RibsAreWellFormed after.0.ribs)
      (process outside
        (record {
          received_at = 4;
          speaker_addr = speaker;
          payload = route_monitoring header update;
        })
        manager)
process-RibsAreWellFormed_example =
    process-RibsAreWellFormed outside
      (record { received_at = 4; speaker_addr = speaker; payload = route_monitoring header update })
      manager (withdrawn-HaveLabels, announced-HaveLabels) manager-RibsAreWellFormed

abbrev empty_manager : RibManager ℕ outside
empty_manager = record { speakers = []; ribs = []; filter = none; roto_filter = none }

abbrev announcement : BgpUpdate ℕ
announcement = record update { withdrawn = []; withdrawn_path_ids = [] }

abbrev announcing : BmpMessage ℕ ℕ
announcing = record {
  received_at = 4;
  speaker_addr = speaker;
  payload = route_monitoring header announcement;
}

-- The manager after the announcement.
abbrev one_route : RibManager ℕ outside
one_route = record {
  speakers = [];
  ribs =
      (
        peer,
        (
          adj_rib_in_pre_policy,
          (text ++ codes "@3", record (entry (some 3)) { received_at = 4 }) ∷ [],
        )
            ∷ [],
      )
      ∷ [];
  filter = none;
  roto_filter = none;
}

abbrev route_announced : RibEvent ℕ ℕ
route_announced = record {
  speaker = speaker;
  payload = route_change announce header adj_rib_in_pre_policy prefix (some (no_attributes 0));
}

process-announcing : process outside announcing empty_manager ≡ ok (one_route, route_announced ∷ [])
unfolding process process_update withdraw_routes announce_routes insert_route recompute_if
    recompute_best_path recompute_routes flag_best set_best filter_verdict is_eor
    all_announced_with_path_id all_withdrawn_with_path_id zip_ids entry_key show_prefix decimal
    lookup insert contains_key
process-announcing = refl

announcement-HaveLabels :
    HaveLabels (all_withdrawn_with_path_id announcement)
    × HaveLabels (all_announced_with_path_id announcement)
unfolding all_withdrawn_with_path_id all_announced_with_path_id zip_ids
announcement-HaveLabels = (tt, (labels, tt))

Reachable-RibsAreWellFormed_example : RibsAreWellFormed one_route.ribs
Reachable-RibsAreWellFormed_example = Reachable-RibsAreWellFormed outside one_route (
    receive empty_manager one_route announcing (route_announced ∷ []) (start none none)
      announcement-HaveLabels process-announcing)

-- One family with a stale time of 3600 seconds.
abbrev llgr_entry : List ℕ
llgr_entry = 0 ∷ 1 ∷ 1 ∷ 128 ∷ 0 ∷ 14 ∷ 16 ∷ []

on_up-IsMaximum_example :
    IsMaximum 0
      (on_up 65000 90
        (long_lived_graceful_restart llgr_entry ∷ [])
        3
        (new_peer header)).llgr_stale_secs
      (stale_times llgr_entry)
    × (((on_up 65000 90
            (long_lived_graceful_restart llgr_entry ∷ [])
            3
            (new_peer header)).llgr_active
          ≡ true)
        ↔ (0
            < (on_up 65000 90
                (long_lived_graceful_restart llgr_entry ∷ [])
                3
                (new_peer header)).llgr_stale_secs))
on_up-IsMaximum_example = on_up-IsMaximum 65000 90 llgr_entry [] 3 (new_peer header)

-- A label with the bottom of the stack, and eight bits of a prefix.
decode_labeled_nlri-HasLabels_example :
    IfOk
      (All HasLabels)
      (decode_labeled_nlri slice_buf plain_ipnet (32 ∷ 0 ∷ 16 ∷ 1 ∷ 10 ∷ []) ipv4)
    × IfOk (All HasLabels) (decode_vpn_nlri slice_buf plain_ipnet (32 ∷ 0 ∷ 16 ∷ 1 ∷ 10 ∷ []) ipv4)
decode_labeled_nlri-HasLabels_example =
    decode_labeled_nlri-HasLabels slice_buf plain_ipnet (32 ∷ 0 ∷ 16 ∷ 1 ∷ 10 ∷ []) ipv4
