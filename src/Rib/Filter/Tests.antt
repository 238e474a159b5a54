-- ===== src/Rib/Filter/Tests.antt =====
-- A filter that denies the networks 10.0.0.0/8, on a route to 10.1.0.0/16.
use rustybmp.Base.{ℕ, ◌≡◌, ◌↔◌, refl, true, none, some, [], ◌∷◌, nat_eq, any, if◌then◌else◌}
use rustybmp.Base.Text.{codes}
use rustybmp.Core.Net.{IpAddr}
use rustybmp.Core.Ipnet.{IpNet, plain_ipnet}
use rustybmp.Core.Bgp.Nlri.{Prefix}
use rustybmp.Core.Bgp.Attributes.{PathAttributes, no_attributes}
use rustybmp.Rib.FilterExpr.{
  Expr, RouteCtx, eval, Holds, eval-Holds, and_expr, not_expr, prefix_len_gt, rpki_eq,
}
use rustybmp.Rib.Manager.{FilterVerdict}
use rustybmp.Rib.Filter.{
  RouteFilter, CompiledFilter, Parsers, FilterAction, compile, matches, apply, has_expr,
  build_route_ctx,
}
use rustybmp.Rib.Filter.FirstMatch.{FirstMatch, apply-FirstMatch}
use rustybmp.Rib.Filter.Criteria.{Matches, matches-Matches, matches-Unreadable}

abbrev route : Prefix
route = Prefix.v4 (record { addr = 167837696; prefix_len = 16 })

abbrev peer : IpAddr
peer = IpAddr.v4 1

abbrev attrs : PathAttributes ℕ
attrs = no_attributes 0

abbrev ctx : RouteCtx
ctx = build_route_ctx route 65001 (codes "announce") attrs none

abbrev typo : RouteFilter
typo = record {
  name = codes "block";
  action = FilterAction.deny;
  prefix_list = codes "10.0.0.0/33" ∷ [];
  peer_as_list = [];
  community_list = [];
  peer_addr_list = [];
  as_path_contains = [];
  local_pref_min = none;
  local_pref_max = none;
  med_max = none;
  expr = some (codes "prefix_len >");
}

abbrev block : CompiledFilter
block = record {
  raw = typo;
  nets = IpNet.v4 (record { addr = 167772160; prefix_len = 8 }) ∷ [];
  peer_nets = [];
  compiled_expr = some (prefix_len_gt 8);
}

abbrev parsers : Parsers
parsers = record { parse_net = λ t. none; parse_addr = λ t. none; parse_expr = λ t. none }

abbrev long_and_known : Expr
long_and_known = and_expr (prefix_len_gt 8) (not_expr (rpki_eq (codes "unknown")))

eval-Holds_example : (eval long_and_known ctx ≡ true) ↔ Holds long_and_known ctx
eval-Holds_example = eval-Holds long_and_known ctx

matches-Matches_example :
    (matches plain_ipnet block route 65001 peer attrs (some ctx) ≡ true)
    ↔ Matches plain_ipnet block route 65001 peer attrs (some ctx)
matches-Matches_example = matches-Matches plain_ipnet block route 65001 peer attrs (some ctx)

apply-FirstMatch_example :
    (apply plain_ipnet (block ∷ []) route 65001 peer attrs
      ≡ (FilterVerdict.deny, some (codes "block")))
    ↔ FirstMatch
        (λ cf.
          matches plain_ipnet cf route 65001 peer attrs
            (if any has_expr (block ∷ []) then some ctx else none))
        (block ∷ [])
        (FilterVerdict.deny, some (codes "block"))
apply-FirstMatch_example =
    apply-FirstMatch plain_ipnet route 65001 peer attrs (block ∷ [])
      (FilterVerdict.deny, some (codes "block"))

matches-Unreadable_example :
    matches plain_ipnet (compile parsers typo) route 65001 peer attrs none ≡ true
matches-Unreadable_example =
    matches-Unreadable plain_ipnet parsers typo (codes "prefix_len >") route 65001 peer attrs none
      (refl, tt) tt refl refl refl refl refl (refl, refl, refl)
