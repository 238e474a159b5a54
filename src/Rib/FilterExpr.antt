-- ===== src/Rib/FilterExpr.antt =====
-- crates/rbmp-rib/src/filter_expr.rs: the expressions of filters, and the facts of a route that they ask about.
use rustybmp.Base.{
  ℕ, ◌≤◌, ◌<◌, ◌≡◌, ◌≢◌, refl, ◌↔◌, ◌⊎◌, Bool, true, false, not, ◌&&◌, ◌||◌, Option, none, some,
  List, arith, ltb, leb, ◌==◌, nat_eq, any, Any, any_iff,
}
use rustybmp.Base.Text.{Text, text_eq, text_beq, text_beq_iff}

pub record RouteCtx : Type 0 where
  pub prefix_len : ℕ
  pub as_path_len : ℕ
  pub origin_asn : ℕ
  pub has_prepend : Bool
  pub rpki : Text
  pub action : Text
  pub peer_as : ℕ
  pub local_pref : Option ℕ
  pub med : Option ℕ
  pub community_set : List Text

-- A `HashSet` is a list of its elements.
pub data Expr : Type 0 where
  and_expr or_expr : Expr → Expr → Expr
  not_expr : Expr → Expr
  prefix_len_gt prefix_len_lt prefix_len_ge prefix_len_le prefix_len_eq : ℕ → Expr
  as_path_len_gt as_path_len_lt as_path_len_ge as_path_len_le as_path_len_eq : ℕ → Expr
  local_pref_gt local_pref_lt local_pref_eq : ℕ → Expr
  med_gt med_lt med_eq : ℕ → Expr
  rpki_eq rpki_ne action_eq community_has : Text → Expr
  origin_as_in origin_as_not_in peer_as_in peer_as_not_in : List ℕ → Expr
  prepended always never : Expr

abbrev pub unwrap_or : Option ℕ → ℕ → ℕ
unwrap_or none d = d
unwrap_or (some n) d = n

-- `contains` of a list and of a set
abbrev pub has : List ℕ → ℕ → Bool
has s n = any (λ m. m == n) s

abbrev pub has_text : List Text → Text → Bool
has_text s t = any (λ u. text_beq u t) s

unfoldable pub eval : Expr → RouteCtx → Bool
eval (and_expr a b) ctx = eval a ctx && eval b ctx
eval (or_expr a b) ctx = eval a ctx || eval b ctx
eval (not_expr e) ctx = not (eval e ctx)
eval (prefix_len_gt n) ctx = ltb n ctx.prefix_len
eval (prefix_len_lt n) ctx = ltb ctx.prefix_len n
eval (prefix_len_ge n) ctx = leb n ctx.prefix_len
eval (prefix_len_le n) ctx = leb ctx.prefix_len n
eval (prefix_len_eq n) ctx = ctx.prefix_len == n
eval (as_path_len_gt n) ctx = ltb n ctx.as_path_len
eval (as_path_len_lt n) ctx = ltb ctx.as_path_len n
eval (as_path_len_ge n) ctx = leb n ctx.as_path_len
eval (as_path_len_le n) ctx = leb ctx.as_path_len n
eval (as_path_len_eq n) ctx = ctx.as_path_len == n
eval (local_pref_gt n) ctx = ltb n (unwrap_or ctx.local_pref 100)
eval (local_pref_lt n) ctx = ltb (unwrap_or ctx.local_pref 100) n
eval (local_pref_eq n) ctx = unwrap_or ctx.local_pref 100 == n
eval (med_gt n) ctx = ltb n (unwrap_or ctx.med 0)
eval (med_lt n) ctx = ltb (unwrap_or ctx.med 0) n
eval (med_eq n) ctx = unwrap_or ctx.med 0 == n
eval (rpki_eq v) ctx = text_beq ctx.rpki v
eval (rpki_ne v) ctx = not (text_beq ctx.rpki v)
eval (action_eq v) ctx = text_beq ctx.action v
eval (community_has c) ctx = has_text ctx.community_set c
eval (origin_as_in s) ctx = has s ctx.origin_asn
eval (origin_as_not_in s) ctx = not (has s ctx.origin_asn)
eval (peer_as_in s) ctx = has s ctx.peer_as
eval (peer_as_not_in s) ctx = not (has s ctx.peer_as)
eval prepended ctx = ctx.has_prepend
eval always ctx = true
eval never ctx = false

-- What an expression says of a route: the connectives as logic has them, the comparisons as
-- arithmetic has them, a LOCAL_PREF that is missing as 100 and a MED that is missing as 0.
abbrev pub Holds : Expr → RouteCtx → Type 0
Holds (and_expr a b) ctx = Holds a ctx × Holds b ctx
Holds (or_expr a b) ctx = Holds a ctx ⊎ Holds b ctx
Holds (not_expr e) ctx = ¬ Holds e ctx
Holds (prefix_len_gt n) ctx = n < ctx.prefix_len
Holds (prefix_len_lt n) ctx = ctx.prefix_len < n
Holds (prefix_len_ge n) ctx = n ≤ ctx.prefix_len
Holds (prefix_len_le n) ctx = ctx.prefix_len ≤ n
Holds (prefix_len_eq n) ctx = ctx.prefix_len ≡ n
Holds (as_path_len_gt n) ctx = n < ctx.as_path_len
Holds (as_path_len_lt n) ctx = ctx.as_path_len < n
Holds (as_path_len_ge n) ctx = n ≤ ctx.as_path_len
Holds (as_path_len_le n) ctx = ctx.as_path_len ≤ n
Holds (as_path_len_eq n) ctx = ctx.as_path_len ≡ n
Holds (local_pref_gt n) ctx = n < unwrap_or ctx.local_pref 100
Holds (local_pref_lt n) ctx = unwrap_or ctx.local_pref 100 < n
Holds (local_pref_eq n) ctx = unwrap_or ctx.local_pref 100 ≡ n
Holds (med_gt n) ctx = n < unwrap_or ctx.med 0
Holds (med_lt n) ctx = unwrap_or ctx.med 0 < n
Holds (med_eq n) ctx = unwrap_or ctx.med 0 ≡ n
Holds (rpki_eq v) ctx = ctx.rpki ≡ v
Holds (rpki_ne v) ctx = ctx.rpki ≢ v
Holds (action_eq v) ctx = ctx.action ≡ v
Holds (community_has c) ctx = Any (λ u. u ≡ c) ctx.community_set
Holds (origin_as_in s) ctx = Any (λ m. m ≡ ctx.origin_asn) s
Holds (origin_as_not_in s) ctx = ¬ Any (λ m. m ≡ ctx.origin_asn) s
Holds (peer_as_in s) ctx = Any (λ m. m ≡ ctx.peer_as) s
Holds (peer_as_not_in s) ctx = ¬ Any (λ m. m ≡ ctx.peer_as) s
Holds prepended ctx = ctx.has_prepend ≡ true
Holds always ctx = Unit
Holds never ctx = ⊥

pub has_iff : (s : List ℕ) (n : ℕ) → (has s n ≡ true) ↔ Any (λ m. m ≡ n) s
has_iff s n = any_iff (λ m. m == n) (λ m. m ≡ n) s λ m. ground arith

pub has_text_iff : (s : List Text) (t : Text) → (has_text s t ≡ true) ↔ Any (λ u. u ≡ t) s
has_text_iff s t = any_iff (λ u. text_beq u t) (λ u. u ≡ t) s λ u. text_beq_iff u t

not_iff : {P : Type 0} (b : Bool) → (b ≡ true) ↔ P → (not b ≡ true) ↔ (¬ P)
not_iff true h = ((λ e. cc), λ n. absurd (n (h.0 refl)))
not_iff false h = ((λ e p. absurd (cc (h.1 p))), λ n. refl)

-- An expression evaluates to true on a route exactly when what it says of the route holds.
pub eval-Holds : (e : Expr) (ctx : RouteCtx) → (eval e ctx ≡ true) ↔ Holds e ctx
unfolding eval
eval-Holds (and_expr a b) ctx = ground (arith, eval-Holds a ctx, eval-Holds b ctx)
eval-Holds (or_expr a b) ctx = ground (arith, eval-Holds a ctx, eval-Holds b ctx)
eval-Holds (not_expr e) ctx = not_iff (eval e ctx) (eval-Holds e ctx)
eval-Holds (rpki_eq v) ctx = text_beq_iff ctx.rpki v
eval-Holds (rpki_ne v) ctx = not_iff (text_beq ctx.rpki v) (text_beq_iff ctx.rpki v)
eval-Holds (action_eq v) ctx = text_beq_iff ctx.action v
eval-Holds (community_has c) ctx = has_text_iff ctx.community_set c
eval-Holds (origin_as_in s) ctx = has_iff s ctx.origin_asn
eval-Holds (origin_as_not_in s) ctx = not_iff (has s ctx.origin_asn) (has_iff s ctx.origin_asn)
eval-Holds (peer_as_in s) ctx = has_iff s ctx.peer_as
eval-Holds (peer_as_not_in s) ctx = not_iff (has s ctx.peer_as) (has_iff s ctx.peer_as)
eval-Holds prepended ctx = ((λ h. h), λ h. h)
eval-Holds always ctx = ((λ h. tt), λ h. refl)
eval-Holds never ctx = ((λ h. cc), λ h. elim h [ ])
eval-Holds _ ctx = ground arith
