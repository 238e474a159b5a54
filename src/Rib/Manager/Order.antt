-- ===== src/Rib/Manager/Order.antt =====
-- The messages that end a session: Peer Down and Termination.
use mathlib.Core.Bool.{false≢true}
use mathlib.Core.Option.{none-ne-some, some-injective}
use rustybmp.Base.{
  ap, ◌⊎◌, arith, ℕ, ◌≡◌, ◌≢◌, ◌↔◌, refl, sym, subst, ◌∙◌, inl, inr, Bool, true, false, Option,
  none, some, [], ◌∷◌, if◌then◌else◌, Bool-cases, Option-cases, nat_eq,
}
use rustybmp.Base.Text.{Text, text_eq}
use rustybmp.Base.Table.{Table, lookup, erase, is_some, map_option, lookup-insert, lookup-erase}
use rustybmp.Core.Error.{Yields}
use rustybmp.Core.Net.{IpAddr, ip_eq, ip_beq, ip_beq_iff}
use rustybmp.Core.Bmp.Types.{RibType, PeerHeader, PeerDownReason, BmpPayload, termination}
use rustybmp.Rib.Table.{
  normal, stale_marked, LlgrState, is_normal, deleted, RibEntry, RibTable, or_empty, mark_stale,
  mark_stale_all, clear_all,
}
use rustybmp.Rib.Table.Routes.{route_at}
use rustybmp.Rib.Table.Stale.{mark_stale_all-route_at}
use rustybmp.Rib.Session.{PeerSession, BmpSession, new_session}
use rustybmp.Rib.Manager.{
  Outside, RibManager, process, down_ribs, llgr_active_for, disconnect, remove_ribs, or_else,
}

-- The route of a peer.
abbrev pub peer_route :
    {Time Families : Type 0}
    → IpAddr
    → RibType
    → Text
    → Table IpAddr (RibTable Time Families)
    → Option (RibEntry Time Families)
peer_route peer rib key ribs = route_at rib key (or_empty (lookup peer ribs))

peer_route-none :
    {Time Families : Type 0} (peer : IpAddr) (rib : RibType) (key : Text)
    (ribs : Table IpAddr (RibTable Time Families))
    → lookup peer ribs ≡ none
    → peer_route peer rib key ribs ≡ none
unfolding route_at lookup
peer_route-none peer rib key ribs absent = rw absent

route_at-empty :
    {Time Families : Type 0} (rib : RibType) (key : Text)
    → route_at {Time = Time} {Families = Families} rib key [] ≡ none
unfolding route_at lookup
route_at-empty rib key = refl

-- A key without a value stays one.
lookup-none {ℓ} :
    {V : Type ℓ} (peer other : IpAddr) (m : Table IpAddr V)
    → lookup peer m ≡ none
    → lookup other m ≡ (if ip_beq peer other then none else lookup other m)
lookup-none peer other m absent = elim (Bool-cases (ip_beq peer other)) [
  | inl same ↦ rw same (subst (λ x. lookup x m ≡ none) ((ip_beq_iff peer other).0 same) absent)
  | inr differ ↦ rw differ
]

erase-if {ℓ κ} :
    {A : Type ℓ} {B : Type κ} (b : Bool) (a : A) (o : Option A) (r : Option B)
    → (if is_some o then none else (if b then none else r))
      ≡ (if is_some (if b then some a else o) then none else r)
erase-if true a none r = refl
erase-if true a (some x) r = refl
erase-if false a o r = refl

remove_ribs_lem {ℓ κ} :
    {V : Type ℓ} {W : Type κ} (peers : Table IpAddr V) (ribs : Table IpAddr W) (peer : IpAddr)
    → lookup peer (remove_ribs peers ribs)
      ≡ (if is_some (lookup peer peers) then none else lookup peer ribs)
unfolding remove_ribs lookup
remove_ribs_lem [] ribs peer = refl
remove_ribs_lem ((j, s) ∷ peers) ribs peer =
    remove_ribs_lem peers (erase j ribs) peer
    ∙ rw (lookup-erase j peer ribs)
        (erase-if (ip_beq j peer) s (lookup peer peers) (lookup peer ribs))

normal_cases : (s : LlgrState) → (s ≡ normal) ⊎ ((is_normal s ≡ false) × (s ≢ normal))
normal_cases normal = inl refl
normal_cases stale_marked = inr (refl, λ e. cc)
normal_cases deleted = inr (refl, λ e. cc)

module _ {Families : Type 0} (outside : Outside Families) where
  down_ribs_lem :
      (llgr : Bool) (peer : IpAddr) (now : outside.clock.Time)
      (ribs : Table IpAddr (RibTable outside.clock.Time Families)) (peer' : IpAddr) (rib : RibType)
      (key : Text)
      → peer_route peer' rib key (down_ribs outside llgr peer now ribs) ≡ (
          if ip_beq peer peer'
          then (if llgr then map_option (mark_stale now) (peer_route peer' rib key ribs) else none)
          else peer_route peer' rib key ribs)
  unfolding down_ribs clear_all
  down_ribs_lem true peer now ribs peer' rib key = elim (Option-cases (lookup peer ribs)) [
    | inl absent ↦
        rw (absent, down_ribs)
          (elim (Bool-cases (ip_beq peer peer')) [
            | inl same ↦
                let e : peer ≡ peer' = (ip_beq_iff peer peer').0 same in
                let gone : lookup peer' ribs ≡ none = subst (λ x. lookup x ribs ≡ none) e absent in
                let route : peer_route peer' rib key ribs ≡ none =
                  peer_route-none peer' rib key ribs gone in
                rw same (rw route)
            | inr other ↦ rw other
          ])
    | inr (t, found) ↦
        rw (found, down_ribs)
          (rw (lookup-insert peer peer' (mark_stale_all now t) ribs)
            (elim (Bool-cases (ip_beq peer peer')) [
              | inl same ↦
                  let e : peer ≡ peer' = (ip_beq_iff peer peer').0 same in
                  rw same (rw (sym e) (rw found (mark_stale_all-route_at now rib key t)))
              | inr other ↦ rw other
            ]))
  ]
  down_ribs_lem false peer now ribs peer' rib key =
      rw (lookup-insert peer peer' (clear_all (or_empty (lookup peer ribs))) ribs)
        (elim (Bool-cases (ip_beq peer peer')) [
          | inl same ↦ rw same (route_at-empty rib key)
          | inr other ↦ rw other
        ])

  -- The speaker has a session with the peer in which LLGR is active.
  abbrev pub LlgrActive :
      (speaker peer : IpAddr) → Table IpAddr (BmpSession outside.clock.Time) → Type 0
  LlgrActive speaker peer speakers =
      (session : BmpSession outside.clock.Time) × ((lookup speaker speakers ≡ some session)
        × ((p : PeerSession outside.clock.Time) × ((lookup peer session.peers ≡ some p)
              × (p.llgr_active ≡ true))))

  llgr_active_for_iff :
      (speaker peer : IpAddr) (speakers : Table IpAddr (BmpSession outside.clock.Time))
      → (llgr_active_for outside speaker peer speakers ≡ true) ↔ LlgrActive speaker peer speakers
  unfolding llgr_active_for
  llgr_active_for_iff speaker peer speakers = elim (Option-cases (lookup speaker speakers)) [
    | inl absent ↦ (
      (λ e. absurd (ground (arith, absent, e))),
      λ (session, (found, h)). absurd (none-ne-some session (sym absent ∙ found)),
    )
    | inr (session, found) ↦ elim (Option-cases (lookup peer session.peers)) [
      | inl none_there ↦ (
        (λ e. absurd (ground (arith, found, none_there, e))),
        λ (session', (found', (p, (there, h)))).
            let same = some-injective session session' (sym found ∙ found') in
            absurd (none-ne-some p (sym none_there ∙ ap (λ x. lookup peer x.peers) same ∙ there)),
      )
      | inr (p, there) ↦ (
        (λ e. (session, (found, (p, (there, ground (arith, found, there, e)))))),
        λ (session', (found', (p', (there', h)))).
            let same = some-injective session session' (sym found ∙ found') in
            let same_peer =
              some-injective p p' (sym there ∙ ap (λ x. lookup peer x.peers) same ∙ there') in
            rw (found, there, llgr_active_for) (ap (λ x. x.llgr_active) same_peer ∙ h),
      )
    ]
  ]

  -- A route before and after a Peer Down with LLGR: a route that is normal is marked stale at that
  -- time, and nothing else of it changes; a route that is marked already stays as it is.
  abbrev pub MarkedAt :
      outside.clock.Time → (before after : Option (RibEntry outside.clock.Time Families)) → Type 0
  MarkedAt now none none = Unit
  MarkedAt now (some e) (some e') =
      ((e.llgr_state ≡ normal) × (e' ≡ record e { llgr_state = stale_marked; stale_at = some now }))
      ⊎ ((e.llgr_state ≢ normal) × (e' ≡ e))
  MarkedAt now _ _ = ⊥

  mark_stale-MarkedAt :
      (now : outside.clock.Time) (o : Option (RibEntry outside.clock.Time Families))
      → MarkedAt now o (map_option (mark_stale now) o)
  unfolding mark_stale
  mark_stale-MarkedAt now none = tt
  mark_stale-MarkedAt now (some e) = elim (normal_cases e.llgr_state) [
    | inl it_is ↦ rw (it_is, mark_stale) (inl (refl, refl))
    | inr (other, differs) ↦ inr (differs, rw (other, mark_stale) refl)
  ]

  down_ribs-MarkedAt :
      (llgr : Bool) (self : IpAddr) (now : outside.clock.Time)
      (ribs : Table IpAddr (RibTable outside.clock.Time Families)) (rib : RibType) (key : Text)
      → (llgr ≡ true
          → MarkedAt now
              (peer_route self rib key ribs)
              (peer_route self rib key (down_ribs outside llgr self now ribs)))
        × ((llgr ≡ false → peer_route self rib key (down_ribs outside llgr self now ribs) ≡ none)
            × ((peer : IpAddr)
                → peer ≢ self
                → peer_route peer rib key (down_ribs outside llgr self now ribs)
                  ≡ peer_route peer rib key ribs))
  down_ribs-MarkedAt llgr self now ribs rib key =
      let own = down_ribs_lem llgr self now ribs self rib key in
      let same : ip_beq self self ≡ true = (ip_beq_iff self self).1 refl in
      (
        (λ h. rw own (rw same (rw h (mark_stale-MarkedAt now (peer_route self rib key ribs))))),
        (
          (λ h. rw own (rw same (rw h refl))),
          λ peer other.
              rw (down_ribs_lem llgr self now ribs peer rib key)
                (elim (Bool-cases (ip_beq self peer)) [
                  | inl e ↦ absurd (other (sym ((ip_beq_iff self peer).0 e)))
                  | inr e ↦ rw e refl
                ]),
        ),
      )

  -- A Peer Down succeeds. If the session of the peer has LLGR active, no route of the peer goes, and
  -- every normal one is marked stale at the time of the message; if not, no route of the peer is
  -- left. The routes of other peers stay.
  pub process-peer_down :
      (now : outside.clock.Time) (speaker : IpAddr) (hdr : PeerHeader outside.clock.Time)
      (reason : PeerDownReason) (m : RibManager Families outside)
      → Yields
          (λ after.
            (rib : RibType) (key : Text)
            → ((LlgrActive speaker hdr.peer_address m.speakers
                  × MarkedAt now
                      (peer_route hdr.peer_address rib key m.ribs)
                      (peer_route hdr.peer_address rib key after.0.ribs))
                ⊎ (¬ (LlgrActive speaker hdr.peer_address m.speakers)
                    × (peer_route hdr.peer_address rib key after.0.ribs ≡ none)))
              × (((peer : IpAddr)
                  → peer ≢ hdr.peer_address
                  → peer_route peer rib key after.0.ribs ≡ peer_route peer rib key m.ribs)))
          (process outside
            (record {
              received_at = now;
              speaker_addr = speaker;
              payload = BmpPayload.peer_down hdr reason;
            })
            m)
  unfolding process
  process-peer_down now speaker hdr reason m rib key =
      let self = hdr.peer_address in
      let llgr = llgr_active_for outside speaker self m.speakers in
      let active = llgr_active_for_iff speaker self m.speakers in
      let (marked, (gone, others)) = down_ribs-MarkedAt llgr self now m.ribs rib key in
      (
        elim (Bool-cases llgr) [
          | inl e ↦ inl (active.0 e, marked e)
          | inr e ↦ inr ((λ h. false≢true (sym e ∙ active.1 h)), gone e)
        ],
        others,
      )

  disconnect_lem :
      (speaker : IpAddr) (now : outside.clock.Time) (m : RibManager Families outside)
      → ((other : IpAddr)
          → lookup other (disconnect outside speaker m).speakers
            ≡ (if ip_beq speaker other then none else lookup other m.speakers))
        × ((peer : IpAddr)
            → lookup peer (disconnect outside speaker m).ribs ≡ (
                if is_some (
                  lookup peer (or_else (new_session speaker now) (lookup speaker m.speakers)).peers)
                then none
                else lookup peer m.ribs))
  unfolding disconnect new_session lookup
  disconnect_lem speaker now m = elim (Option-cases (lookup speaker m.speakers)) [
    | inl absent ↦
        rw (absent, disconnect)
          ((λ other. lookup-none speaker other m.speakers absent), λ peer. refl)
    | inr (session, found) ↦
        rw (found, disconnect)
          (
            (λ other. lookup-erase speaker other m.speakers),
            λ peer. remove_ribs_lem session.peers m.ribs peer,
          )
  ]

  -- A Termination succeeds. The session of the speaker is gone, those of other speakers stay, and
  -- the tables of exactly the peers of that session are gone.
  pub process-termination :
      (now : outside.clock.Time) (speaker : IpAddr) (code : ℕ) (text : Option Text)
      (m : RibManager Families outside)
      → Yields
          (λ after.
            ((other : IpAddr)
              → lookup other after.0.speakers
                ≡ (if ip_beq speaker other then none else lookup other m.speakers))
            × ((peer : IpAddr)
                → lookup peer after.0.ribs ≡ (
                    if is_some (
                      lookup peer
                        (or_else (new_session speaker now) (lookup speaker m.speakers)).peers)
                    then none
                    else lookup peer m.ribs)))
          (process outside
            (record { received_at = now; speaker_addr = speaker; payload = termination code text })
            m)
  unfolding process
  process-termination now speaker code text m = disconnect_lem speaker now m
