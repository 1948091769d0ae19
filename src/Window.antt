-- ===== src/Window.antt =====
-- runtime/linux/linux_backend.c: the bridge context and its table of windows. A pointer of the
-- toolkit is a number and NULL is 0; `windows` holds the first `window_count` slots of the array,
-- and `drain_requests` the first `drain_request_count` requests.
pub mod Registry
pub mod Addressed
pub mod Lookup
use lepusa.Base.{
  ℕ, ◌+◌, ◌-◌, Bool, true, false, ◌&&◌, ◌||◌, List, [], ◌∷◌, ◌++◌, Option, none, some, ltb, leb,
  ◌==◌, if◌then◌else◌, ◌>>=◌, length, set, Bytes,
}
use lepusa.CString.{c_str, range_equals, copy_label_range}

pub record WindowSlot : Type 0 where
  pub label : Bytes
  pub window : ℕ
  pub box : ℕ
  pub menu_bar : ℕ
  pub accel_group : ℕ
  pub has_window_menu : Bool
  pub webview : ℕ

pub record BridgeDrainRequest : Type 0 where
  pub window_label : Bytes
  pub callback : Bytes

pub record BridgeContext : Type 0 where
  pub window : ℕ
  pub webview : ℕ
  pub windows : List WindowSlot
  pub live_windows : ℕ
  pub drain_requests : List BridgeDrainRequest
  pub tray_icon : ℕ
  pub tray_menu : ℕ
  pub app_menu_payload : Option Bytes

-- The sizes of the arrays `windows`, `drain_requests`, `label` and `callback`.
abbrev pub max_windows : ℕ
max_windows = 32

abbrev pub max_drain_requests : ℕ
max_drain_requests = 32

abbrev pub label_size : ℕ
label_size = 128

abbrev pub callback_size : ℕ
callback_size = 256

-- The loop of `find_window_slot_exact`, with the index at which the slots begin.
unfoldable pub find_exact_from : ℕ → Bytes → List WindowSlot → Option (ℕ × WindowSlot)
find_exact_from i label [] = none
find_exact_from i label (s ∷ ss) =
    if ltb 0 (length label) && range_equals label s.label
    then some (i, s)
    else find_exact_from (i + 1) label ss

unfoldable pub find_window_slot_exact : BridgeContext → Bytes → Option (ℕ × WindowSlot)
unfolding find_exact_from
find_window_slot_exact context label = find_exact_from 0 label context.windows

unfoldable pub first_slot : List WindowSlot → Option (ℕ × WindowSlot)
first_slot [] = none
first_slot (s ∷ ss) = some (0, s)

-- An unknown label stands for the first window.
unfoldable pub find_window_slot : BridgeContext → Bytes → Option (ℕ × WindowSlot)
unfolding find_window_slot_exact first_slot
find_window_slot context label = elim (find_window_slot_exact context label) [
  | some found ↦ some found
  | none ↦ first_slot context.windows
]

-- Gives the context, and whether a slot was registered.
unfoldable pub register_window_slot : Bytes → ℕ → ℕ → ℕ → BridgeContext → BridgeContext × Bool
unfolding find_window_slot_exact
register_window_slot label window box webview context =
    if window == 0 || box == 0 || webview == 0
    then (context, false)
    else elim (find_window_slot_exact context label) [
      | some (i, s) ↦ (
        record context {
          live_windows = if s.window == 0 then context.live_windows + 1 else context.live_windows;
          windows =
              set context.windows i (record s { window = window; box = box; webview = webview });
        },
        true,
      )
      | none ↦ if leb max_windows (length context.windows) then (context, false) else (
        record context {
          live_windows = context.live_windows + 1;
          windows =
              context.windows
              ++ (record {
                label = copy_label_range label_size label;
                window = window;
                box = box;
                menu_bar = 0;
                accel_group = 0;
                has_window_menu = false;
                webview = webview;
              }
                  ∷ []);
        },
        true,
      )
    ]

-- The first slot of that window, and the slots without it.
unfoldable pub take_slot : ℕ → List WindowSlot → Option (WindowSlot × List WindowSlot)
take_slot window [] = none
take_slot window (s ∷ ss) =
    if s.window == window
    then some (s, ss)
    else take_slot window ss >>= λ (found, rest). some (found, s ∷ rest)

abbrev pub first_window : List WindowSlot → ℕ
first_window [] = 0
first_window (s ∷ ss) = s.window

abbrev pub first_webview : List WindowSlot → ℕ
first_webview [] = 0
first_webview (s ∷ ss) = s.webview

-- Gives the slot that was removed; `clear_window_menu_bar` is called on it first.
unfoldable pub remove_window_slot : ℕ → BridgeContext → BridgeContext × Option WindowSlot
unfolding take_slot
remove_window_slot window context =
    if window == 0 then (context, none) else elim (take_slot window context.windows) [
      | none ↦ (context, none)
      | some (s, rest) ↦ (
        record context {
          windows = rest;
          live_windows = context.live_windows - 1;
          window = if context.window == window then first_window rest else context.window;
          webview = if context.window == window then first_webview rest else context.webview;
        },
        some s,
      )
    ]

unfoldable pub register_bridge_drain_request : Bytes → Bytes → BridgeContext → BridgeContext
register_bridge_drain_request window_label callback context =
    if length callback == 0
    then context
    else if leb max_drain_requests (length context.drain_requests)
    then context
    else record context {
      drain_requests =
          context.drain_requests
          ++ (record {
            window_label = copy_label_range label_size window_label;
            callback = copy_label_range callback_size callback;
          }
              ∷ []);
    }
