-- ===== src/Gui/Labels.antt =====
-- The labels of the window's list tell devices apart.
use net_transfer.Base.{
  ℕ, ◌≡◌, refl, ap, sym, ◌∙◌, arith, Bool, true, false, List, [], ◌∷◌, ◌++◌, ◌||◌, ◌==◌, same,
  same→eq, same_refl, Bool-cases, inl, inr, if◌then◌else◌,
}
use mathlib.Core.List.{append_cancel_right}
use net_transfer.Discovery.Devices.{DiscoveredDevice}
use net_transfer.Discovery.Invariant.{Absent, Distinct, names}
use net_transfer.Discovery.Reported.{Listed}
use net_transfer.Gui.{item_text, dash, label}
use net_transfer.Gui.Follows.{labels}

-- An address is printed without a space.
abbrev pub has_space : List ℕ → Bool
has_space [] = false
has_space (x ∷ xs) = (x == 0x20) || has_space xs

-- What follows the last space.
abbrev after_space : List ℕ → List ℕ
after_space [] = []
after_space (x ∷ xs) = let rest = after_space xs in if has_space xs then rest else xs

has_space-item_text : (name ip : List ℕ) → has_space (item_text name ip) ≡ true
has_space-item_text [] ip = refl
has_space-item_text (x ∷ name) ip = ground (arith, has_space-item_text name ip)

after_space-item_text :
    (name ip : List ℕ) → has_space ip ≡ false → after_space (item_text name ip) ≡ ip
after_space-item_text [] ip plain = rw plain refl
after_space-item_text (x ∷ name) ip plain =
    rw (has_space-item_text name ip) (after_space-item_text name ip plain)

item_text_injective :
    (name name' ip ip' : List ℕ)
    → has_space ip ≡ false
    → has_space ip' ≡ false
    → item_text name ip ≡ item_text name' ip'
    → name ≡ name'
item_text_injective name name' ip ip' plain plain' e =
    let same_ip : ip ≡ ip' =
      sym (after_space-item_text name ip plain)
      ∙ ap after_space e
      ∙ after_space-item_text name' ip' plain' in
    append_cancel_right name name' (dash ++ ip) (e ∙ ap (λ i. item_text name' i) (sym same_ip))

-- A name that is text, and an address that has no space in it.
abbrev pub IsShowable : (List ℕ → List ℕ) → (List ℕ → Type 0) → List ℕ → List ℕ → Type 0
IsShowable text IsText name ip = IsText name × (has_space (text ip) ≡ false)

module _ (text : List ℕ → List ℕ) (percent : ℕ → ℕ → ℕ) (IsText : List ℕ → Type 0)
    (text_injective : (xs ys : List ℕ) → IsText xs → IsText ys → text xs ≡ text ys → xs ≡ ys) where
  label-apart :
      (d x : DiscoveredDevice)
      → IsShowable text IsText d.name d.ip
      → IsShowable text IsText x.name x.ip
      → same x.name d.name ≡ false
      → same (label text x) (label text d) ≡ false
  label-apart d x hd hx other = elim (Bool-cases (same (label text x) (label text d))) [
    | inr apart ↦ apart
    | inl one ↦
        let one_name : x.name ≡ d.name = text_injective x.name d.name hx.0 hd.0 (
          item_text_injective (text x.name) (text d.name) (text x.ip) (text d.ip) hx.1 hd.1
            (same→eq (label text x) (label text d) one)) in
        cc (rw one_name at other, same_refl d.name)
  ]

  Absent-labels :
      (d : DiscoveredDevice) (ds : List DiscoveredDevice)
      → IsShowable text IsText d.name d.ip
      → Listed (IsShowable text IsText) ds
      → Absent d.name (names ds)
      → Absent (label text d) (labels text percent ds)
  Absent-labels d [] hd h a = tt
  Absent-labels d (x ∷ ds) hd h a = (label-apart d x hd h.0 a.0, Absent-labels d ds hd h.1 a.1)

  -- Showable devices with different names have different labels.
  pub Distinct-labels :
      (ds : List DiscoveredDevice)
      → Listed (IsShowable text IsText) ds
      → Distinct (names ds)
      → Distinct (labels text percent ds)
  Distinct-labels [] h v = tt
  Distinct-labels (d ∷ ds) h v = (Absent-labels d ds h.0 h.1 v.0, Distinct-labels ds h.1 v.1)
