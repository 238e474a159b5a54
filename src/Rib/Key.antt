-- ===== src/Rib/Key.antt =====
-- The keys of the routes, crates/rbmp-rib/src/table.rs: the text of a prefix (`Display for Prefix`
-- and `Display for RouteDistinguisher` in crates/rbmp-core/src/bgp/types.rs) with its path ID.
pub mod Labels
pub mod Decoded
use rustybmp.Base.{
  ℕ, zero, suc, ◌+◌, ◌-◌, ◌*◌, ◌/◌, ◌%◌, ◌^◌, ◌≤◌, ◌<◌, ◌≡◌, ◌≢◌, refl, sym, ap, subst, ◌∙◌, ◌↔◌,
  ◌⊎◌, inl, inr, Bool, true, false, not, ◌&&◌, ◌||◌, Option, none, some, List, [], ◌∷◌, ◌++◌, map,
  arith, ltb, leb, ltb→lt, lt→ltb, ltb-false, leb→le, ◌==◌, if◌then◌else◌, ==_iff, Bool-cases,
  Option-cases, Eq, beq_refl, nat_eq, length, get_elem?, get_or, take, drop, replicate, is_empty,
  any, All, Any, filter, length-replicate, take-append, drop-append, All-append, any_iff,
  any-filter, is_empty-filter, length-append, take-append-drop, length-take, length-drop,
}
use rustybmp.Base.Text.{Text, codes, decimal}
use rustybmp.Core.Error.{Result, ok, err, panic, stuck, ◌>>=◌}
use rustybmp.Core.Slice.{be16, be32, u16_at, u32_at}
use rustybmp.Core.Ipnet.{Net}
use rustybmp.Core.Bgp.Nlri.{Prefix, v4, v6, labeled, vpn}

-- The texts that other code makes: `Display` of `Ipv4Net` and `Ipv6Net` (crate ipnet) and of
-- `Ipv4Addr` (std), and `hex::encode`.
pub record Display : Type 0 where
  pub show_net4 : Net → Text
  pub show_net6 : Net → Text
  pub show_addr4 : ℕ → Text
  pub hex : List ℕ → Text

-- `labels[0]`, which panics on an empty list.
unfoldable pub first_label : List ℕ → Result ℕ
first_label [] = panic
first_label (l ∷ labels) = ok l

module _ (display : Display) where
  unfoldable pub show_rd : List ℕ → Result Text
  show_rd rd = do
    rd_type ← u16_at rd 0
    let typed0 = (do
      admin ← u16_at rd 2
      assigned ← u32_at rd 4
      ok (decimal admin ++ (codes ":" ++ decimal assigned)))
    let typed1 = (do
      admin ← u32_at rd 2
      assigned ← u16_at rd 6
      ok (display.show_addr4 admin ++ (codes ":" ++ decimal assigned)))
    let typed2 = (do
      admin ← u32_at rd 2
      assigned ← u16_at rd 6
      ok (decimal admin ++ (codes ":" ++ decimal assigned)))
    if rd_type == 0
        then typed0
        else if rd_type == 1
        then typed1
        else if rd_type == 2
        then typed2
        else ok (codes "0x" ++ display.hex rd)

  -- `prefix.to_string()`
  unfoldable pub show_prefix : Prefix → Result Text
  unfolding first_label show_rd
  show_prefix (v4 n) = ok (display.show_net4 n)
  show_prefix (v6 n) = ok (display.show_net6 n)
  show_prefix (labeled prefix labels) = do
    p ← show_prefix prefix
    l ← first_label labels
    ok (p ++ (codes " label=" ++ decimal l))
  show_prefix (vpn rd prefix labels) = do
    r ← show_rd rd
    p ← show_prefix prefix
    l ← first_label labels
    ok (r ++ (codes ":" ++ (p ++ (codes " label=" ++ decimal l))))

  unfoldable pub entry_key : Prefix → (path_id : Option ℕ) → Result Text
  unfolding show_prefix
  entry_key prefix none = show_prefix prefix
  entry_key prefix (some id) = do p ← show_prefix prefix; ok (p ++ (codes "@" ++ decimal id))
