-- ===== src/Window/Registry.antt =====
-- runtime/linux/linux_backend.c: well-formed bridge contexts, for register_window_slot,
-- remove_window_slot and register_bridge_drain_request.
pub mod Sound
pub mod Update
use lepusa.Base.{
  ℕ, suc, ◌+◌, ◌-◌, ◌≤◌, ◌<◌, Bool, false, ◌||◌, List, [], ◌∷◌, ◌++◌, ◌≡◌, ◌≢◌, inl, inr, refl, sym,
  ap, ◌∙◌, Option, none, some, arith, leb, ◌==◌, Bool-cases, Option-cases, length, length-append,
  All, All-append, Bytes,
}
use lepusa.CString.Laws.{copy_label_range-length}
use lepusa.CString.{copy_label_range}
use lepusa.Window.{
  WindowSlot, BridgeContext, max_windows, max_drain_requests, label_size, find_window_slot_exact,
  register_window_slot, take_slot, first_window, first_webview, remove_window_slot,
  register_bridge_drain_request,
}

pub record IsSlot (s : WindowSlot) : Type 0 where
  pub window_pos : 0 < s.window
  pub box_pos : 0 < s.box
  pub webview_pos : 0 < s.webview
  pub label_fits : length s.label < label_size

-- No slot of this window.
abbrev pub Absent : ℕ → List WindowSlot → Type 0
Absent window = All (λ s. s.window ≢ window)

-- No window stands in two slots.
abbrev pub IsDistinct : List WindowSlot → Type 0
IsDistinct [] = Unit
IsDistinct (s ∷ ss) = Absent s.window ss × IsDistinct ss

pub record IsValid (context : BridgeContext) : Type 0 where
  pub bounded : length context.windows ≤ max_windows
  pub counted : context.live_windows ≡ length context.windows
  pub slots : All IsSlot context.windows
  pub distinct : IsDistinct context.windows
  pub primary_window : context.window ≡ first_window context.windows
  pub primary_webview : context.webview ≡ first_webview context.windows
  pub drains_bounded : length context.drain_requests ≤ max_drain_requests

-- `s` is the first slot of `window` in a list, and the last argument the list without it.
data Taken (window : ℕ) : List WindowSlot → WindowSlot → List WindowSlot → Type 0 where
  here : {s : WindowSlot} {ss : List WindowSlot} → s.window ≡ window → Taken window (s ∷ ss) s ss
  there :
      {x s : WindowSlot} {ss rest : List WindowSlot}
      → x.window ≢ window
      → Taken window ss s rest
      → Taken window (x ∷ ss) s (x ∷ rest)

take_slot-Taken :
    (window : ℕ) (ss : List WindowSlot) {s : WindowSlot} {rest : List WindowSlot}
    → take_slot window ss ≡ some (s, rest)
    → Taken window ss s rest
unfolding take_slot
take_slot-Taken window [] h = cc
take_slot-Taken window (x ∷ ss) {s} {rest} h = elim (Bool-cases (x.window == window)) [
  | inl e ↦
      let same_slot : x ≡ s = ground arith in
      let same_rest : ss ≡ rest = ground arith in
      rw (← same_slot, ← same_rest) (here (ground arith))
  | inr e ↦ elim (Option-cases (take_slot window ss)) [
    | inl p ↦ ground arith
    | inr ((found, rest'), p) ↦
        let same_slot : found ≡ s = ground arith in
        let same_rest : x ∷ rest' ≡ rest = ground arith in
        rw (← same_slot, ← same_rest)
          (there (ground arith) (take_slot-Taken window ss {s = found} {rest = rest'} p))
  ]
]

module _ {window : ℕ} where
  length-Taken :
      {ss : List WindowSlot} {s : WindowSlot} {rest : List WindowSlot}
      → Taken window ss s rest
      → length ss ≡ suc (length rest)
  length-Taken (here e) = refl
  length-Taken (there ne t) = ap suc (length-Taken t)

  All-Taken {κ} :
      (P : WindowSlot → Type κ) {ss : List WindowSlot} {s : WindowSlot} {rest : List WindowSlot}
      → Taken window ss s rest
      → All P ss
      → All P rest
  All-Taken P (here e) (p, ps) = ps
  All-Taken P (there ne t) (p, ps) = (p, All-Taken P t ps)

  IsDistinct-Taken :
      {ss : List WindowSlot} {s : WindowSlot} {rest : List WindowSlot}
      → Taken window ss s rest
      → IsDistinct ss
      → IsDistinct rest
  IsDistinct-Taken (here e) (a, d) = d
  IsDistinct-Taken (there {x} ne t) (a, d) =
      (All-Taken (λ s. s.window ≢ x.window) t a, IsDistinct-Taken t d)

  first-Taken :
      {ss : List WindowSlot} {s : WindowSlot} {rest : List WindowSlot}
      → Taken window ss s rest
      → first_window ss ≢ window
      → (first_window rest ≡ first_window ss) × (first_webview rest ≡ first_webview ss)
  first-Taken (here e) ne = absurd (ne e)
  first-Taken (there ne' t) ne = (refl, refl)

-- Removing a window keeps the table well formed: the counts agree, no window stands twice, and the
-- primary window and web view are those of the first slot that is left.
pub remove_window_slot-IsValid :
    (window : ℕ) (context : BridgeContext)
    → IsValid context
    → IsValid (remove_window_slot window context).0
unfolding remove_window_slot
remove_window_slot-IsValid window context v = elim (Bool-cases (window == 0)) [
  | inl null ↦ rw null v
  | inr live ↦ elim (Option-cases (take_slot window context.windows)) [
    | inl p ↦ rw (live, p) v
    | inr ((s, rest), p) ↦
        let taken = take_slot-Taken window context.windows {s = s} {rest = rest} p in
        let measured = length-Taken taken in
        let first = first-Taken taken in
        rw (live, p)
          (record {
            bounded = omega (arith, measured, v.bounded);
            counted = omega (arith, measured, v.counted);
            slots = All-Taken IsSlot taken v.slots;
            distinct = IsDistinct-Taken taken v.distinct;
            primary_window = ground (arith, first, v.primary_window);
            primary_webview = ground (arith, first, v.primary_window, v.primary_webview);
            drains_bounded = v.drains_bounded;
          })
  ]
]

IsDistinct-append :
    (ss : List WindowSlot) (s : WindowSlot)
    → IsDistinct ss
    → Absent s.window ss
    → IsDistinct (ss ++ s ∷ [])
IsDistinct-append [] s d a = (tt, tt)
IsDistinct-append (x ∷ ss) s (ax, d) (ne, a) = (
  All-append (λ y. y.window ≢ x.window) ss (s ∷ []) ax (λ e. ne (sym e), tt),
  IsDistinct-append ss s d a,
)

first-append :
    (ss : List WindowSlot) (s : WindowSlot)
    → ss ≢ []
    → (first_window (ss ++ s ∷ []) ≡ first_window ss)
      × (first_webview (ss ++ s ∷ []) ≡ first_webview ss)
first-append [] s ne = absurd (ne refl)
first-append (x ∷ ss) s ne = (refl, refl)

abbrev pub new_slot : Bytes → ℕ → ℕ → ℕ → WindowSlot
new_slot label window box webview = record {
  label = copy_label_range label_size label;
  window = window;
  box = box;
  menu_bar = 0;
  accel_group = 0;
  has_window_menu = false;
  webview = webview;
}

-- In a context that has a window, registering a window that no slot has, under a label that no slot
-- has, keeps the table well formed, also when the table is full.
pub register_window_slot-IsValid :
    (label : Bytes) (window box webview : ℕ) (context : BridgeContext)
    → IsValid context
    → context.windows ≢ []
    → Absent window context.windows
    → find_window_slot_exact context label ≡ none
    → IsValid (register_window_slot label window box webview context).0
unfolding register_window_slot
register_window_slot-IsValid label window box webview context v ne absent fresh =
    elim (Bool-cases (window == 0 || box == 0 || webview == 0)) [
      | inl null ↦ rw null v
      | inr live ↦ elim (Bool-cases (leb max_windows (length context.windows))) [
        | inl full ↦ rw (live, fresh, full) v
        | inr room ↦
            let slot = new_slot label window box webview in
            let measured = length-append context.windows (slot ∷ []) in
            let first = first-append context.windows slot ne in
            let fits = copy_label_range-length label_size label (omega arith) in
            let is_slot : IsSlot slot = record {
              window_pos = ground arith;
              box_pos = ground arith;
              webview_pos = ground arith;
              label_fits = fits;
            } in
            rw (live, fresh, room)
              (record {
                bounded = ground (arith, measured, v.bounded);
                counted = omega (arith, measured, v.counted);
                slots = All-append IsSlot context.windows (slot ∷ []) v.slots (is_slot, tt);
                distinct = IsDistinct-append context.windows slot v.distinct absent;
                primary_window = v.primary_window ∙ sym first.0;
                primary_webview = v.primary_webview ∙ sym first.1;
                drains_bounded = v.drains_bounded;
              })
      ]
    ]

-- Queueing a drain request keeps the context well formed: the queue never outgrows its array.
pub register_bridge_drain_request-IsValid :
    (label callback : Bytes) (context : BridgeContext)
    → IsValid context
    → IsValid (register_bridge_drain_request label callback context)
unfolding register_bridge_drain_request
register_bridge_drain_request-IsValid label callback context v =
    elim (Bool-cases (length callback == 0)) [
      | inl none_named ↦ rw none_named v
      | inr named ↦ elim (Bool-cases (leb max_drain_requests (length context.drain_requests))) [
        | inl full ↦ rw (named, full) v
        | inr room ↦
            rw (named, room)
              (record {
                bounded = v.bounded;
                counted = v.counted;
                slots = v.slots;
                distinct = v.distinct;
                primary_window = v.primary_window;
                primary_webview = v.primary_webview;
                drains_bounded = grind (arith, length-append);
              })
      ]
    ]
