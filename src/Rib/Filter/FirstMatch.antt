-- ===== src/Rib/Filter/FirstMatch.antt =====
-- The chain of filters: the first filter that matches decides.
use rustybmp.Base.{
  ℕ, ◌≡◌, refl, sym, subst, ◌↔◌, inl, inr, Bool, true, false, Option, none, some, List, [], ◌∷◌,
  any, if◌then◌else◌, Bool-cases,
}
use rustybmp.Base.Text.{Text, codes}
use rustybmp.Core.Net.{IpAddr}
use rustybmp.Core.Ipnet.{Ipnet}
use rustybmp.Core.Bgp.Nlri.{Prefix}
use rustybmp.Core.Bgp.Attributes.{PathAttributes}
use rustybmp.Rib.Manager.{FilterVerdict}
use rustybmp.Rib.FilterExpr.{RouteCtx}
use rustybmp.Rib.Filter.{
  FilterAction, CompiledFilter, matches, verdict_of, apply_with_ctx, apply, has_expr,
  build_route_ctx,
}

abbrev pub Outcome : Type 0
Outcome = FilterVerdict × Option Text

-- What an action says of a route that matches: `tag` lets it pass as `accept` does.
abbrev pub VerdictIs : FilterAction → FilterVerdict → Type 0
VerdictIs FilterAction.accept v = v ≡ FilterVerdict.accept
VerdictIs FilterAction.tag v = v ≡ FilterVerdict.accept
VerdictIs FilterAction.deny v = v ≡ FilterVerdict.deny

VerdictIs-verdict_of : (a : FilterAction) → VerdictIs a (verdict_of a)
unfolding verdict_of
VerdictIs-verdict_of FilterAction.accept = refl
VerdictIs-verdict_of FilterAction.tag = refl
VerdictIs-verdict_of FilterAction.deny = refl

verdict_of-VerdictIs : (a : FilterAction) (v : FilterVerdict) → VerdictIs a v → verdict_of a ≡ v
unfolding verdict_of
verdict_of-VerdictIs FilterAction.accept v h = sym h
verdict_of-VerdictIs FilterAction.tag v h = sym h
verdict_of-VerdictIs FilterAction.deny v h = sym h

-- The outcome of a chain, when `m` tells which filters match.
pub data FirstMatch (m : CompiledFilter → Bool) : List CompiledFilter → Outcome → Type 0 where
  none_left : FirstMatch m [] (FilterVerdict.default, none)
  found :
      {cf : CompiledFilter} {rest : List CompiledFilter} {v : FilterVerdict}
      → m cf ≡ true
      → VerdictIs cf.raw.action v
      → FirstMatch m (cf ∷ rest) (v, some cf.raw.name)
  passed :
      {cf : CompiledFilter} {rest : List CompiledFilter} {r : Outcome}
      → m cf ≡ false
      → FirstMatch m rest r
      → FirstMatch m (cf ∷ rest) r

module _ {Families : Type 0} (ipnet : Ipnet) (prefix : Prefix) (peer_as : ℕ) (peer_addr : IpAddr)
    (attrs : PathAttributes Families) where
  apply_with_ctx-found :
      (filters : List CompiledFilter) (ctx : Option RouteCtx)
      → FirstMatch
          (λ cf. matches ipnet cf prefix peer_as peer_addr attrs ctx)
          filters
          (apply_with_ctx ipnet filters prefix peer_as peer_addr attrs ctx)
  unfolding apply_with_ctx
  apply_with_ctx-found [] ctx = none_left
  apply_with_ctx-found (cf ∷ filters) ctx =
      elim (Bool-cases (matches ipnet cf prefix peer_as peer_addr attrs ctx)) [
        | inl yes' ↦ rw yes' (found yes' (VerdictIs-verdict_of cf.raw.action))
        | inr no' ↦ rw no' (passed no' (apply_with_ctx-found filters ctx))
      ]

  found-apply_with_ctx :
      (filters : List CompiledFilter) (ctx : Option RouteCtx) (r : Outcome)
      → FirstMatch (λ cf. matches ipnet cf prefix peer_as peer_addr attrs ctx) filters r
      → apply_with_ctx ipnet filters prefix peer_as peer_addr attrs ctx ≡ r
  unfolding apply_with_ctx
  found-apply_with_ctx [] ctx _ none_left = refl
  found-apply_with_ctx (cf ∷ filters) ctx _ (found {v = v} h is) =
      rw h (rw (verdict_of-VerdictIs cf.raw.action v is) refl)
  found-apply_with_ctx (cf ∷ filters) ctx r (passed h rest) =
      rw h (found-apply_with_ctx filters ctx r rest)

  -- The chain gives an outcome exactly when it is that of the first filter that matches: accept for
  -- the actions accept and tag, deny for deny, with the filter's name; and the default verdict with
  -- no name when no filter matches. The filters see the context that `apply` builds when some
  -- filter has an expression, and none else.
  pub apply-FirstMatch :
      (filters : List CompiledFilter) (r : Outcome)
      → let ctx = build_route_ctx prefix peer_as (codes "announce") attrs none in
        (apply ipnet filters prefix peer_as peer_addr attrs ≡ r)
        ↔ FirstMatch
            (λ cf.
              matches ipnet cf prefix peer_as peer_addr attrs
                (if any has_expr filters then some ctx else none))
            filters
            r
  unfolding apply
  apply-FirstMatch filters r =
      let ctx = build_route_ctx prefix peer_as (codes "announce") attrs none in
      let seen = if any has_expr filters then some ctx else none in
      let m : CompiledFilter → Bool = λ cf. matches ipnet cf prefix peer_as peer_addr attrs seen in
      (
        (λ e. subst (λ q. FirstMatch m filters q) e (apply_with_ctx-found filters seen)),
        found-apply_with_ctx filters seen r,
      )
