-- ===== src/Rib/Key/Labels.antt =====
-- Which prefixes have a text, and so a key.
use rustybmp.Base.{
  ℕ, ◌<◌, ◌≡◌, refl, Bool, true, false, Option, none, some, List, [], ◌∷◌, arith, ◌==◌,
  if◌then◌else◌, nat_eq, length, All,
}
use rustybmp.Base.Text.{text_eq}
use rustybmp.Core.Error.{Result, ok, ◌>>=◌}
use rustybmp.Core.Net.{ip_eq}
use rustybmp.Core.Bgp.Nlri.{Prefix, v4, v6, labeled, vpn}
use rustybmp.Core.Slice.{u16_at, u32_at, u16_at_ok, u32_at_ok}
use rustybmp.Rib.Key.{Display, show_prefix, show_rd, entry_key, first_label}

-- A prefix has a label wherever `Display` reads one, and eight bytes in a route distinguisher.
unfoldable pub HasLabels : Prefix → Type 0
HasLabels (v4 n) = Unit
HasLabels (v6 n) = Unit
HasLabels (labeled p labels) = HasLabels p × (0 < length labels)
HasLabels (vpn rd p labels) = HasLabels p × ((0 < length labels) × (length rd ≡ 8))

-- Its text can then be made.
abbrev pub Makes {ℓ} : {A : Type ℓ} → Result A → Type ℓ
Makes {A = A} m = (a : A) × (m ≡ ok a)

Makes-bind {ℓ κ} :
    {A : Type ℓ} {B : Type κ} (m : Result A) (f : A → Result B)
    → Makes m
    → ((a : A) → Makes (f a))
    → Makes (m >>= f)
Makes-bind m f (a, e) k = rw e (k a)

Makes-if {ℓ} :
    {A : Type ℓ} (b : Bool) (m n : Result A) → Makes m → Makes n → Makes (if b then m else n)
Makes-if true m n h k = h
Makes-if false m n h k = k

show_rd-Makes : (display : Display) (rd : List ℕ) → length rd ≡ 8 → Makes (show_rd display rd)
unfolding show_rd
show_rd-Makes display rd len =
    Makes-bind (u16_at rd 0) _ (_, u16_at_ok rd 0 (omega arith))
      λ rd_type.
        Makes-if (rd_type == 0) _ _
          (Makes-bind (u16_at rd 2) _ (_, u16_at_ok rd 2 (omega arith))
            λ a. Makes-bind (u32_at rd 4) _ (_, u32_at_ok rd 4 (omega arith)) λ b. (_, refl))
          (Makes-if (rd_type == 1) _ _
            (Makes-bind (u32_at rd 2) _ (_, u32_at_ok rd 2 (omega arith))
              λ a. Makes-bind (u16_at rd 6) _ (_, u16_at_ok rd 6 (omega arith)) λ b. (_, refl))
            (Makes-if (rd_type == 2) _ _
              (Makes-bind (u32_at rd 2) _ (_, u32_at_ok rd 2 (omega arith))
                λ a. Makes-bind (u16_at rd 6) _ (_, u16_at_ok rd 6 (omega arith)) λ b. (_, refl))
              (_, refl)))

module _ (display : Display) where
  pub show_prefix-Makes : (p : Prefix) → HasLabels p → Makes (show_prefix display p)
  unfolding show_prefix HasLabels first_label
  show_prefix-Makes (v4 n) h = (_, refl)
  show_prefix-Makes (v6 n) h = (_, refl)
  show_prefix-Makes (labeled p (l ∷ labels)) (h, k) =
      Makes-bind (show_prefix display p) _ (show_prefix-Makes p h) λ s. (_, refl)
  show_prefix-Makes (vpn rd p (l ∷ labels)) (h, (k, len)) =
      Makes-bind (show_rd display rd) _ (show_rd-Makes display rd len)
        λ r. Makes-bind (show_prefix display p) _ (show_prefix-Makes p h) λ s. (_, refl)
  show_prefix-Makes (labeled p []) (h, k) = ground arith
  show_prefix-Makes (vpn rd p []) (h, (k, len)) = ground arith

  pub entry_key-Makes : (p : Prefix) (id : Option ℕ) → HasLabels p → Makes (entry_key display p id)
  unfolding entry_key
  entry_key-Makes p none h = show_prefix-Makes p h
  entry_key-Makes p (some id) h =
      Makes-bind (show_prefix display p) _ (show_prefix-Makes p h) λ s. (_, refl)

abbrev pub HaveLabels : List (Prefix × Option ℕ) → Type 0
HaveLabels routes = All (λ r. HasLabels (r.0)) routes
