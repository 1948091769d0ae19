-- ===== src/Window/Lookup.antt =====
-- runtime/linux/linux_backend.c: find_window_slot_exact on a table that register_window_slot has
-- extended.
use lepusa.Base.{
  ℕ, suc, ◌+◌, ◌<◌, false, ◌&&◌, ◌||◌, List, [], ◌∷◌, ◌++◌, ◌≡◌, ◌≢◌, inl, inr, refl, sym, ap, ◌∙◌,
  none, some, arith, ltb, leb, ◌==◌, Bool-cases, Option-cases, length, get_elem?, All, Bytes,
}
use lepusa.CString.Laws.{range_equals_iff, c_str-no_nul, copy_label_range_short}
use lepusa.CString.{c_str, copy_label_range, range_equals}
use lepusa.Window.{
  WindowSlot, BridgeContext, max_windows, label_size, find_exact_from, find_window_slot_exact,
  register_window_slot, find_window_slot, first_slot,
}

-- A label that a slot can hold: not empty, without NUL, shorter than the buffer.
pub record IsLabel (label : Bytes) : Type 0 where
  pub nonempty : 0 < length label
  pub no_nul : All (λ c. c ≢ 0) label
  pub fits : length label < label_size

find_exact_from-append :
    (i : ℕ) (label : Bytes) (ss : List WindowSlot) (s : WindowSlot)
    → find_exact_from i label ss ≡ none
    → find_exact_from i label (ss ++ s ∷ []) ≡ find_exact_from (i + length ss) label (s ∷ [])
unfolding find_exact_from
find_exact_from-append i label [] s h = ground arith
find_exact_from-append i label (x ∷ ss) s h =
    ground (arith, find_exact_from-append (i + 1) label ss s)

find_exact_from-here :
    (i : ℕ) (label : Bytes) (s : WindowSlot)
    → IsLabel label
    → s.label ≡ copy_label_range label_size label
    → find_exact_from i label (s ∷ []) ≡ some (i, s)
unfolding find_exact_from
find_exact_from-here i label s h e =
    let stored = e ∙ copy_label_range_short label_size label h.fits in
    let read : label ≡ c_str s.label = sym (c_str-no_nul label h.no_nul) ∙ ap c_str (sym stored) in
    ground (arith, (range_equals_iff label s.label).1 read, h.nonempty)

-- In a table that is not full, a window that is registered under a proper label of its own, with no
-- NULL among its pointers, is found by that label, at the end of the table.
pub find-register :
    (label : Bytes) (window box webview : ℕ) (context : BridgeContext)
    → IsLabel label
    → 0 < window
    → 0 < box
    → 0 < webview
    → length context.windows < max_windows
    → find_window_slot_exact context label ≡ none
    → (s : WindowSlot) × (find_window_slot_exact
          (register_window_slot label window box webview context).0
          label
        ≡ some (length context.windows, s))
      × (s.window ≡ window)
      × (s.webview ≡ webview)
unfolding register_window_slot find_window_slot_exact
find-register label window box webview context h hw hb hv room fresh =
    let live : (window == 0 || box == 0 || webview == 0) ≡ false = ground arith in
    let full : leb max_windows (length context.windows) ≡ false = ground arith in
    let slot : WindowSlot = record {
      label = copy_label_range label_size label;
      window = window;
      box = box;
      menu_bar = 0;
      accel_group = 0;
      has_window_menu = false;
      webview = webview;
    } in
    let n = length context.windows in
    let at_end : 0 + n ≡ n = omega arith in
    (
      slot,
      rw (live, fresh, full)
          (find_exact_from-append 0 label context.windows slot fresh
            ∙ ap (λ (i : ℕ). find_exact_from i label (slot ∷ [])) at_end
            ∙ find_exact_from-here n label slot h refl),
      refl,
      refl,
    )

found_from :
    (i n : ℕ) (label : Bytes) (ss : List WindowSlot) (s : WindowSlot)
    → find_exact_from n label ss ≡ some (i, s)
    → (k : ℕ) × (i ≡ n + k) × (get_elem? ss k ≡ some s)
unfolding find_exact_from
found_from i n label [] s h = cc
found_from i n label (x ∷ ss) s h =
    elim (Bool-cases (ltb 0 (length label) && range_equals label x.label)) [
      | inl here ↦
          let found : some (n, x) ≡ some (i, s) = rw (find_exact_from, here) at h in
          let same : x ≡ s = cc in let first : n ≡ i = cc in (0, omega (arith, first), ap some same)
      | inr other ↦
          let shifted : find_exact_from (n + 1) label ss ≡ some (i, s) =
            rw (find_exact_from, other) at h in
          let (k, far, e) = found_from i (n + 1) label ss s shifted in
          (suc k, omega (arith, far), e)
    ]

-- The slot that is found stands in the table at its index.
pub find_window_slot_elem :
    (context : BridgeContext) (label : Bytes) (i : ℕ) (s : WindowSlot)
    → find_window_slot context label ≡ some (i, s)
    → get_elem? context.windows i ≡ some s
unfolding find_window_slot find_window_slot_exact first_slot
find_window_slot_elem context label i s h =
    elim (Option-cases (find_exact_from 0 label context.windows)) [
      | inl e ↦ go context.windows (rw (find_window_slot, find_window_slot_exact, e) at h)
      | inr ((j, t), e) ↦
          let same : some (j, t) ≡ some (i, s) =
            rw (find_window_slot, find_window_slot_exact, e) at h in
          let (k, at_k, found) = found_from i 0 label context.windows s (e ∙ same) in
          let index : i ≡ k = omega (arith, at_k) in rw index found
    ]
  where
    go : (ss : List WindowSlot) → first_slot ss ≡ some (i, s) → get_elem? ss i ≡ some s
    go [] e = cc
    go (x ∷ ss) e = let same : x ≡ s = cc in let first : 0 ≡ i = cc in rw (← first) (ap some same)
