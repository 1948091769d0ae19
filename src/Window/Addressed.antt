-- ===== src/Window/Addressed.antt =====
-- runtime/linux/linux_backend.c: which web view a label addresses, and find_window_slot.
use lepusa.Base.{
  ℕ, ◌+◌, ◌<◌, true, false, ◌&&◌, List, [], ◌∷◌, ◌++◌, ◌≡◌, ◌≢◌, ◌⊎◌, inl, inr, refl, ap, Option,
  none, some, arith, ltb, Bool-cases, length, All, Bytes,
}
use lepusa.CString.Laws.{range_equals_iff}
use lepusa.CString.{c_str, range_equals}
use lepusa.Window.{
  WindowSlot, BridgeContext, find_exact_from, find_window_slot_exact, first_slot, find_window_slot,
}

-- No slot has that label.
abbrev pub IsUnknown : Bytes → List WindowSlot → Type 0
IsUnknown label = All (λ s. label ≢ c_str s.label)

-- The web view of the first slot with that label, or of the first slot at all if the label is empty or
-- unknown, or another one if there is no slot.
pub data Addressed (other : ℕ) (slots : List WindowSlot) (label : Bytes) (webview : ℕ)
    : Type 0 where
  labelled :
      (before : List WindowSlot) (s : WindowSlot) (after : List WindowSlot)
      → slots ≡ before ++ (s ∷ after)
      → IsUnknown label before
      → 0 < length label
      → label ≡ c_str s.label
      → webview ≡ s.webview
      → Addressed other slots label webview
  primary :
      (s : WindowSlot) (after : List WindowSlot)
      → slots ≡ s ∷ after
      → (length label ≡ 0) ⊎ IsUnknown label slots
      → webview ≡ s.webview
      → Addressed other slots label webview
  absent : slots ≡ [] → webview ≡ other → Addressed other slots label webview

-- What the loop over the slots finds.
record Labelled (label : Bytes) (slots : List WindowSlot) (s : WindowSlot) : Type 0 where
  before : List WindowSlot
  after : List WindowSlot
  splits : slots ≡ before ++ (s ∷ after)
  unknown : IsUnknown label before
  spelled : 0 < length label
  same : label ≡ c_str s.label

find_exact_from-cases :
    (i : ℕ) (label : Bytes) (slots : List WindowSlot)
    → ((find_exact_from i label slots ≡ none) × ((length label ≡ 0) ⊎ IsUnknown label slots))
      ⊎ ((j : ℕ) × (s : WindowSlot) × (find_exact_from i label slots ≡ some (j, s))
          × Labelled label slots s)
unfolding find_exact_from
find_exact_from-cases i label [] = inl (refl, inr tt)
find_exact_from-cases i label (x ∷ slots) =
    elim (Bool-cases (ltb 0 (length label) && range_equals label x.label)) [
      | inl here ↦
          let equal : range_equals label x.label ≡ true = ground (arith, here) in
          let spelled : 0 < length label = ground (arith, here) in
          inr (
            i,
            x,
            rw here refl,
            record {
              before = [];
              after = slots;
              splits = refl;
              unknown = tt;
              spelled = spelled;
              same = (range_equals_iff label x.label).0 equal;
            },
          )
      | inr elsewhere ↦ elim (find_exact_from-cases (i + 1) label slots) [
        | inl (missing, inl blank) ↦ inl (rw elsewhere missing, inl blank)
        | inl (missing, inr unknown) ↦ inl (rw elsewhere missing, differs elsewhere unknown)
        | inr (j, s, found, l) ↦ inr (
          j,
          s,
          rw elsewhere found,
          record {
            before = x ∷ l.before;
            after = l.after;
            splits = ap (λ (ss : List WindowSlot). x ∷ ss) l.splits;
            unknown = (
              λ e. ground (arith, elsewhere, l.spelled, (range_equals_iff label x.label).1 e),
              l.unknown,
            );
            spelled = l.spelled;
            same = l.same;
          },
        )
      ]
    ]
  where
    differs :
        (ltb 0 (length label) && range_equals label x.label) ≡ false
        → IsUnknown label slots
        → (length label ≡ 0) ⊎ IsUnknown label (x ∷ slots)
    differs elsewhere unknown = elim (Bool-cases (ltb 0 (length label))) [
      | inr blank ↦ inl (ground (arith, blank))
      | inl spelled ↦
          inr (
            (λ e. ground (arith, elsewhere, spelled, (range_equals_iff label x.label).1 e)),
            unknown,
          )
    ]

-- The web view of a slot that was found, or another one.
abbrev pub webview_or : ℕ → Option (ℕ × WindowSlot) → ℕ
webview_or other none = other
webview_or other (some (i, s)) = s.webview

-- What `find_window_slot` finds is what the label addresses.
pub find_window_slot-Addressed :
    (other : ℕ) (context : BridgeContext) (label : Bytes)
    → Addressed other context.windows label (webview_or other (find_window_slot context label))
unfolding find_window_slot find_window_slot_exact first_slot
find_window_slot-Addressed other context label =
    elim (find_exact_from-cases 0 label context.windows) [
      | inr (j, s, found, l) ↦
          rw (find_window_slot, find_window_slot_exact, found)
            (labelled l.before s l.after l.splits l.unknown l.spelled l.same refl)
      | inl (missing, unknown) ↦
          rw (find_window_slot, find_window_slot_exact, missing) (go context.windows unknown)
    ]
  where
    go :
        (slots : List WindowSlot)
        → (length label ≡ 0) ⊎ IsUnknown label slots
        → Addressed other slots label (webview_or other (first_slot slots))
    go [] unknown = absent refl refl
    go (s ∷ slots) unknown = primary s slots refl unknown refl
