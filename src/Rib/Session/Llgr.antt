-- ===== src/Rib/Session/Llgr.antt =====
-- The stale time that a session takes from the LLGR capability of its peer.
use rustybmp.Base.{
  ℕ, ◌+◌, ◌*◌, ◌≤◌, ◌<◌, ◌≡◌, refl, sym, subst, ◌↔◌, ◌⊎◌, inl, inr, true, List, [], ◌∷◌, arith, ltb,
  ltb→lt, if◌then◌else◌, Bool-cases, nat_eq, All, Any,
}
use rustybmp.Core.Bgp.Capability.{BgpCapability, long_lived_graceful_restart}
use rustybmp.Rib.Session.{PeerSession, max_stale, find_stale_secs, on_up}

-- The stale times of the whole entries, of seven bytes each; a rest of fewer bytes has none.
unfoldable pub stale_times : List ℕ → List ℕ
stale_times (a ∷ a' ∷ s ∷ f ∷ t2 ∷ t1 ∷ t0 ∷ rest) = (t2 * 65536 + t1 * 256 + t0) ∷ stale_times rest
stale_times _ = []

-- A number that bounds a list and is the start or one of the list.
abbrev pub IsMaximum : (start n : ℕ) → List ℕ → Type 0
IsMaximum start n ts = (start ≤ n) × (All (λ t. t ≤ n) ts × ((n ≡ start) ⊎ Any (λ t. t ≡ n) ts))

IsMaximum-cons :
    (m t n : ℕ) (ts : List ℕ) → IsMaximum (if ltb m t then t else m) n ts → IsMaximum m n (t ∷ ts)
IsMaximum-cons m t n ts (bound, (all, inl same)) = elim (Bool-cases (ltb m t)) [
  | inl more ↦
      let e : n ≡ t = rw more at same in
      (omega (arith, ltb→lt m t more, e), ((omega (arith, e), all), inr (inl (sym e))))
  | inr less ↦
      let e : n ≡ m = rw less at same in
      let le : t ≤ m = ground arith in (omega (arith, e), ((omega (arith, e, le), all), inl e))
]
IsMaximum-cons m t n ts (bound, (all, inr found)) =
    (ground arith, ((ground arith, all), inr (inr found)))

max_stale-IsMaximum : (m : ℕ) (b : List ℕ) → IsMaximum m (max_stale m b) (stale_times b)
unfolding max_stale stale_times
max_stale-IsMaximum m (a ∷ a' ∷ s ∷ f ∷ t2 ∷ t1 ∷ t0 ∷ rest) =
    let t : ℕ = (t2 * 256 + t1) * 256 + t0 in
    let e : t ≡ t2 * 65536 + t1 * 256 + t0 = omega arith in
    let m' : ℕ = if ltb m t then t else m in
    subst (λ x. IsMaximum m (max_stale m' rest) (x ∷ stale_times rest)) e
      (IsMaximum-cons m t (max_stale m' rest) (stale_times rest) (max_stale-IsMaximum m' rest))
max_stale-IsMaximum m _ = (omega arith, (tt, inl refl))

-- After a Peer Up whose capabilities start with the LLGR capability, the stale time of the session
-- is the greatest of the stale times of its whole entries, or 0 where there is none, and LLGR is
-- active exactly where that time is positive.
pub on_up-IsMaximum :
    {Time : Type 0} (local_as hold_time : ℕ) (entries : List ℕ) (caps : List BgpCapability)
    (at : Time) (p : PeerSession Time)
    → IsMaximum 0
        (on_up local_as hold_time (long_lived_graceful_restart entries ∷ caps) at p).llgr_stale_secs
        (stale_times entries)
      × (((on_up local_as hold_time (long_lived_graceful_restart entries ∷ caps) at p).llgr_active
            ≡ true)
          ↔ (0
              < (on_up local_as hold_time
                  (long_lived_graceful_restart entries ∷ caps)
                  at
                  p).llgr_stale_secs))
unfolding on_up find_stale_secs
on_up-IsMaximum local_as hold_time entries caps at p = (max_stale-IsMaximum 0 entries, ground arith)
