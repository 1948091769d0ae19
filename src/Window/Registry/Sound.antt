-- ===== src/Window/Registry/Sound.antt =====
-- runtime/linux/linux_backend.c: contexts that are well formed but for the primary window, which may
-- have been closed. A window that is opened after the last one was closed does not become it.
use lepusa.CString.Laws.{copy_label_range-length}
use lepusa.Base.{
  ℕ, ◌+◌, ◌-◌, false, ◌||◌, List, [], ◌∷◌, ◌++◌, ◌≡◌, ◌≢◌, ◌⊎◌, inl, inr, refl, Option, none, arith,
  leb, ◌==◌, if◌then◌else◌, Bool-cases, Option-cases, length, length-append, All-append, Bytes,
}
use lepusa.Window.{
  WindowSlot, BridgeContext, max_windows, max_drain_requests, label_size, find_window_slot_exact,
  register_window_slot, take_slot, first_window, first_webview, remove_window_slot,
  register_bridge_drain_request,
}
use lepusa.Window.Registry.{
  IsSlot, Absent, IsValid, take_slot-Taken, first-Taken, remove_window_slot-IsValid,
  register_bridge_drain_request-IsValid, new_slot, IsDistinct-append,
}

-- The context with its first window as the primary one.
abbrev pub with_primary : BridgeContext → BridgeContext
with_primary context = record context {
  window = first_window context.windows;
  webview = first_webview context.windows;
}

abbrev pub IsPrimary : BridgeContext → Type 0
IsPrimary context =
    ((context.window ≡ first_window context.windows)
      × (context.webview ≡ first_webview context.windows))
    ⊎ ((context.window ≡ 0) × (context.webview ≡ 0))

pub record IsSound (context : BridgeContext) : Type 0 where
  pub table : IsValid (with_primary context)
  pub primary : IsPrimary context

pub IsValid-IsSound : {context : BridgeContext} → IsValid context → IsSound context
IsValid-IsSound v = record {
  table = record {
    bounded = v.bounded;
    counted = v.counted;
    slots = v.slots;
    distinct = v.distinct;
    primary_window = refl;
    primary_webview = refl;
    drains_bounded = v.drains_bounded;
  };
  primary = inl (v.primary_window, v.primary_webview);
}

remove-IsPrimary :
    (window : ℕ) (context : BridgeContext) (rest : List WindowSlot)
    → (window == 0) ≡ false
    → (first_window context.windows ≢ window
        → (first_window rest ≡ first_window context.windows)
          × (first_webview rest ≡ first_webview context.windows))
    → IsPrimary context
    → IsPrimary (record context {
      windows = rest;
      live_windows = context.live_windows - 1;
      window = if context.window == window then first_window rest else context.window;
      webview = if context.window == window then first_webview rest else context.webview;
    })
remove-IsPrimary window context rest live first (inl (a, b)) =
    inl (ground (arith, first, a), ground (arith, first, a, b))
remove-IsPrimary window context rest live first (inr (a, b)) =
    inr (ground (arith, a), ground (arith, a, b))

pub remove_window_slot-IsSound :
    (window : ℕ) (context : BridgeContext)
    → IsSound context
    → IsSound (remove_window_slot window context).0
unfolding remove_window_slot
remove_window_slot-IsSound window context s = elim (Bool-cases (window == 0)) [
  | inl null ↦ rw null s
  | inr live ↦ elim (Option-cases (take_slot window context.windows)) [
    | inl p ↦ rw (live, p) s
    | inr ((slot, rest), p) ↦
        let v : IsValid (remove_window_slot window (with_primary context)).0 =
          remove_window_slot-IsValid window (with_primary context) s.table in
        let v' = rw (live, p) at v in
        let taken = take_slot-Taken window context.windows {s = slot} {rest = rest} p in
        let first = first-Taken taken in
        rw (live, p)
          (record {
            table = record {
              bounded = v'.bounded;
              counted = v'.counted;
              slots = v'.slots;
              distinct = v'.distinct;
              primary_window = refl;
              primary_webview = refl;
              drains_bounded = v'.drains_bounded;
            };
            primary = remove-IsPrimary window context rest live first s.primary;
          })
  ]
]

-- The primary window stays the primary one, and an empty table has none.
append-IsPrimary :
    (context : BridgeContext) (slot : WindowSlot) (live : ℕ)
    → IsPrimary context
    → IsPrimary (record context { live_windows = live; windows = context.windows ++ (slot ∷ []) })
append-IsPrimary context slot live (inr none_left) = inr none_left
append-IsPrimary context slot live (inl (a, b)) = go context.windows a b
  where
    go :
        (ss : List WindowSlot)
        → context.window ≡ first_window ss
        → context.webview ≡ first_webview ss
        → ((context.window ≡ first_window (ss ++ (slot ∷ [])))
            × (context.webview ≡ first_webview (ss ++ (slot ∷ []))))
          ⊎ ((context.window ≡ 0) × (context.webview ≡ 0))
    go [] a b = inr (a, b)
    go (x ∷ ss) a b = inl (a, b)

pub new_slot-IsSlot :
    (label : Bytes) (window box webview : ℕ)
    → (window == 0 || box == 0 || webview == 0) ≡ false
    → IsSlot (new_slot label window box webview)
new_slot-IsSlot label window box webview live = record {
  window_pos = ground arith;
  box_pos = ground arith;
  webview_pos = ground arith;
  label_fits = copy_label_range-length label_size label (omega arith);
}

-- Registering a new window under a label that no slot has, also when no window is left.
pub register_window_slot-IsSound :
    (label : Bytes) (window box webview : ℕ) (context : BridgeContext)
    → IsSound context
    → Absent window context.windows
    → find_window_slot_exact context label ≡ none
    → IsSound (register_window_slot label window box webview context).0
unfolding register_window_slot
register_window_slot-IsSound label window box webview context s absent fresh =
    elim (Bool-cases (window == 0 || box == 0 || webview == 0)) [
      | inl null ↦ rw null s
      | inr live ↦ elim (Bool-cases (leb max_windows (length context.windows))) [
        | inl full ↦ rw (live, fresh, full) s
        | inr room ↦
            let slot = new_slot label window box webview in
            let is_slot = new_slot-IsSlot label window box webview live in
            let measured = length-append context.windows (slot ∷ []) in
            let v = s.table in
            rw (live, fresh, room)
              (record {
                table = record {
                  bounded = ground (arith, measured, v.bounded);
                  counted = omega (arith, measured, v.counted);
                  slots = All-append IsSlot context.windows (slot ∷ []) v.slots (is_slot, tt);
                  distinct = IsDistinct-append context.windows slot v.distinct absent;
                  primary_window = refl;
                  primary_webview = refl;
                  drains_bounded = v.drains_bounded;
                };
                primary = append-IsPrimary context slot (context.live_windows + 1) s.primary;
              })
      ]
    ]

pub register_bridge_drain_request-IsSound :
    (label callback : Bytes) (context : BridgeContext)
    → IsSound context
    → IsSound (register_bridge_drain_request label callback context)
unfolding register_bridge_drain_request
register_bridge_drain_request-IsSound label callback context s =
    let v = register_bridge_drain_request-IsValid label callback (with_primary context) s.table in
    elim (Bool-cases (length callback == 0)) [
      | inl none_named ↦ rw none_named s
      | inr named ↦ elim (Bool-cases (leb max_drain_requests (length context.drain_requests))) [
        | inl full ↦ rw (named, full) s
        | inr room ↦
            let v' = rw (named, room) at v in
            rw (named, room) (record { table = v'; primary = s.primary })
      ]
    ]

pub drop_requests-IsSound :
    (context : BridgeContext) → IsSound context → IsSound (record context { drain_requests = [] })
drop_requests-IsSound context s =
    let v = s.table in
    record {
      table = record {
        bounded = v.bounded;
        counted = v.counted;
        slots = v.slots;
        distinct = v.distinct;
        primary_window = refl;
        primary_webview = refl;
        drains_bounded = omega arith;
      };
      primary = s.primary;
    }

-- The icon of the tray and the menu of the application are not of the table.
pub desktop-IsSound :
    (icon menu : ℕ) (payload : Option Bytes) (context : BridgeContext)
    → IsSound context
    → IsSound (record context { tray_icon = icon; tray_menu = menu; app_menu_payload = payload })
desktop-IsSound icon menu payload context s =
    let v = s.table in
    record {
      table = record {
        bounded = v.bounded;
        counted = v.counted;
        slots = v.slots;
        distinct = v.distinct;
        primary_window = refl;
        primary_webview = refl;
        drains_bounded = v.drains_bounded;
      };
      primary = s.primary;
    }
