-- ===== src/Window/Registry/Update.antt =====
-- runtime/linux/linux_backend.c: writes to a slot that leave its window alone, as those of a menu bar.
use lepusa.Base.{
  ℕ, zero, suc, List, [], ◌∷◌, ◌≡◌, inl, inr, refl, sym, ap, ◌∙◌, some, arith, length, get_elem?,
  set, All,
}
use lepusa.Window.{WindowSlot, BridgeContext, first_window, first_webview}
use lepusa.Window.Registry.{IsSlot, Absent, IsDistinct}
use lepusa.Window.Registry.Sound.{IsSound}

-- The same window under the same label.
pub record SameSlot (s t : WindowSlot) : Type 0 where
  pub label : t.label ≡ s.label
  pub window : t.window ≡ s.window
  pub box : t.box ≡ s.box
  pub webview : t.webview ≡ s.webview

SameSlot-IsSlot : (s t : WindowSlot) → SameSlot s t → IsSlot s → IsSlot t
SameSlot-IsSlot s t e h = record {
  window_pos = omega (arith, e.window, h.window_pos);
  box_pos = omega (arith, e.box, h.box_pos);
  webview_pos = omega (arith, e.webview, h.webview_pos);
  label_fits = rw (e.label) (h.label_fits);
}

length-set {ℓ} : {A : Type ℓ} (xs : List A) (i : ℕ) (a : A) → length (set xs i a) ≡ length xs
length-set [] i a = refl
length-set (x ∷ xs) zero a = refl
length-set (x ∷ xs) (suc i) a = ap suc (length-set xs i a)

pub get-set {ℓ} :
    {A : Type ℓ} {a b : A} (xs : List A) (i : ℕ)
    → get_elem? xs i ≡ some a
    → get_elem? (set xs i b) i ≡ some b
get-set [] i h = cc
get-set (x ∷ xs) zero h = refl
get-set (x ∷ xs) (suc i) h = get-set xs i h

module _ {s t : WindowSlot} (e : SameSlot s t) where
  All-set :
      (ss : List WindowSlot) (i : ℕ)
      → get_elem? ss i ≡ some s
      → All IsSlot ss
      → All IsSlot (set ss i t)
  All-set [] i h a = tt
  All-set (x ∷ ss) zero h (a, rest) =
      let same : x ≡ s = cc in (SameSlot-IsSlot s t e (rw (← same) a), rest)
  All-set (x ∷ ss) (suc i) h (a, rest) = (a, All-set ss i h rest)

  Absent-set :
      (w : ℕ) (ss : List WindowSlot) (i : ℕ)
      → get_elem? ss i ≡ some s
      → Absent w ss
      → Absent w (set ss i t)
  Absent-set w [] i h a = tt
  Absent-set w (x ∷ ss) zero h (a, rest) =
      let same : x ≡ s = cc in
      (λ q. a (ap (λ (y : WindowSlot). y.window) same ∙ sym e.window ∙ q), rest)
  Absent-set w (x ∷ ss) (suc i) h (a, rest) = (a, Absent-set w ss i h rest)

  IsDistinct-set :
      (ss : List WindowSlot) (i : ℕ)
      → get_elem? ss i ≡ some s
      → IsDistinct ss
      → IsDistinct (set ss i t)
  IsDistinct-set [] i h d = tt
  IsDistinct-set (x ∷ ss) zero h (a, d) =
      let same : x.window ≡ t.window = cc (e.window) in (rw (← same) a, d)
  IsDistinct-set (x ∷ ss) (suc i) h (a, d) = (Absent-set x.window ss i h a, IsDistinct-set ss i h d)

  first-set :
      (ss : List WindowSlot) (i : ℕ)
      → get_elem? ss i ≡ some s
      → (first_window (set ss i t) ≡ first_window ss)
        × (first_webview (set ss i t) ≡ first_webview ss)
  first-set [] i h = (refl, refl)
  first-set (x ∷ ss) zero h = (cc (e.window), cc (e.webview))
  first-set (x ∷ ss) (suc i) h = (refl, refl)

  pub set-IsSound :
      (i : ℕ) (context : BridgeContext)
      → get_elem? context.windows i ≡ some s
      → IsSound context
      → IsSound (record context { windows = set context.windows i t })
  set-IsSound i context h sound =
      let v = sound.table in
      let measured = length-set context.windows i t in
      let first = first-set context.windows i h in
      record {
        table = record {
          bounded = rw measured v.bounded;
          counted = v.counted ∙ sym measured;
          slots = All-set context.windows i h v.slots;
          distinct = IsDistinct-set context.windows i h v.distinct;
          primary_window = refl;
          primary_webview = refl;
          drains_bounded = v.drains_bounded;
        };
        primary = elim (sound.primary) [
          | inl (a, b) ↦ inl (a ∙ sym first.0, b ∙ sym first.1)
          | inr (a, b) ↦ inr (a, b)
        ];
      }
