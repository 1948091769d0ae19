-- ===== src/Session.antt =====
-- runtime/linux/linux_backend.c: what a handoff packet does to the windows. The calls of the toolkit
-- are recorded in their order. Destroying a window delivers its `destroy` signal, whose handler is
-- `window_destroyed`: which windows receive it during a call is the toolkit's, and a parameter, as
-- is whether `kill` succeeds. The optional entry points of the toolkit are taken to be present.
pub mod Close
pub mod Shutdown
use mathlib.Core.List.{foldl}
use lepusa.Base.{
  ℕ, zero, suc, ◌+◌, Bool, true, List, [], ◌∷◌, ◌++◌, Option, none, some, ltb, ◌==◌, if◌then◌else◌,
  length, get_elem?, Bytes, ℤ,
}
use lepusa.CString.{c_str, range_equals}
use lepusa.Packet.Numbers.{
  RecordInt, rejected, parsed, overflow, parse_record_int, parse_record_bool,
}
use lepusa.Packet.{NativeOperationRecord, apply_records}
use lepusa.Services.{ServiceProcess, Signal, terminate_tracked_services}
use lepusa.Window.{
  WindowSlot, BridgeContext, find_window_slot, remove_window_slot, register_bridge_drain_request,
}

-- What the toolkit is asked for an object of; a title, a script or a label goes with some.
pub data Widget : Type 0 where
  window_new content_manager_new box_new menu_bar_new menu_new separator_new : Widget
  accel_group_new status_icon_new settings_default : Widget
  user_script_new : Bytes → Widget
  webview_new : ℕ → Widget
  web_context : ℕ → Widget
  menu_item_new check_menu_item_new : Bytes → Widget

pub data Call : Type 0 where
  set_title : ℕ → Bytes → Call
  resize : ℕ → ℤ → ℤ → Call
  move : ℕ → ℤ → ℤ → Call
  fullscreen unfullscreen show_all present hide iconify maximize unmaximize : ℕ → Call
  destroy : ℕ → Call
  remove_accel_group : ℕ → ℕ → Call
  unref : ℕ → Call
  load_uri : ℕ → Bytes → Call
  run_javascript : ℕ → Bytes → Call
  main_quit : Call
  create : Widget → Call
  register_message_handler : ℕ → Bytes → Call
  add_script : ℕ → ℕ → Call
  register_uri_scheme : ℕ → Bytes → Call
  connect : ℕ → Bytes → Call
  connect_click : ℕ → Bytes → Bytes → Call
  set_default_size : ℕ → ℤ → ℤ → Call
  set_resizable : ℕ → Bool → Call
  container_add : ℕ → ℕ → Call
  pack_start : ℕ → ℕ → Bool → Call
  reorder_child : ℕ → ℕ → Call
  menu_shell_append : ℕ → ℕ → Call
  set_submenu : ℕ → ℕ → Call
  set_sensitive : ℕ → Bool → Call
  set_check_active : ℕ → Bool → Call
  add_accelerator : ℕ → ℕ → ℕ → ℕ → Call
  add_accel_group : ℕ → ℕ → Call
  popup_menu : ℕ → Call
  set_icon_visible : ℕ → Bool → Call
  set_icon_file : ℕ → Bytes → Call
  set_icon_tooltip : ℕ → Bytes → Call
  prefer_dark_theme : ℕ → Bool → Call
  -- A request to the program behind the windows.
  dispatched : Bytes → Call

pub record World : Type 0 where
  pub context : BridgeContext
  pub services : List ServiceProcess
  pub signals : List Signal
  pub calls : List Call
  -- Set once an `int` has overflowed or a loop does not end: nothing is said of what the program does
  -- from there on.
  pub undefined : Bool

abbrev pub emit : List Call → World → World
emit calls world = record world { calls = world.calls ++ calls }

-- The calls of `clear_window_menu_bar`; both of its branches release the accelerator group.
clear_accel_group : WindowSlot → List Call
clear_accel_group slot =
    if slot.accel_group == 0
    then []
    else (if slot.window == 0 then [] else remove_accel_group slot.window slot.accel_group ∷ [])
      ++ unref slot.accel_group ∷ []

unfoldable pub clear_window_menu_bar : WindowSlot → WindowSlot × List Call
unfolding clear_accel_group
clear_window_menu_bar slot = (
  record slot { menu_bar = 0; accel_group = 0 },
  clear_accel_group slot ++ (if slot.menu_bar == 0 then [] else destroy slot.menu_bar ∷ []),
)

slot_calls : Option WindowSlot → List Call
slot_calls none = []
slot_calls (some slot) = (clear_window_menu_bar slot).1

abbrev pub slot_window : Option (ℕ × WindowSlot) → ℕ
slot_window none = 0
slot_window (some (i, slot)) = slot.window

abbrev pub slot_webview : Option (ℕ × WindowSlot) → ℕ
slot_webview none = 0
slot_webview (some (i, slot)) = slot.webview

pub record Toolkit : Type 0 where
  -- The windows whose `destroy` signal is delivered while this one is destroyed.
  pub destroyed : ℕ → List ℕ
  -- Whether `kill` succeeds or finds no such process.
  pub kill_done : ℕ → Bool
  -- The object that the toolkit gives, or 0 for NULL.
  pub created : Widget → World → ℕ
  -- `gdk_keyval_from_name`
  pub keyval_from_name : Bytes → ℕ
  -- The text of /proc/self/cmdline, and `posix_spawnp`.
  pub cmdline : Option Bytes
  pub spawn : List Bytes → Option ℕ

module _ (toolkit : Toolkit) where
  unfoldable pub window_destroyed : World → ℕ → World
  unfolding remove_window_slot slot_calls clear_window_menu_bar terminate_tracked_services
  window_destroyed world widget =
      let (context, slot) = remove_window_slot widget world.context in
      let world' = record (emit (slot_calls slot) world) { context = context } in
      if ltb 0 context.live_windows
      then world'
      else (let stopped = terminate_tracked_services toolkit.kill_done true world.services in
          emit (main_quit ∷ [])
            (record world' { services = stopped.0; signals = world.signals ++ stopped.1 }))

  unfoldable pub destroy_window : ℕ → World → World
  unfolding window_destroyed
  destroy_window window world =
      foldl window_destroyed (emit (destroy window ∷ []) world) (toolkit.destroyed window)

  -- `for (i = window_count - 1; i >= 0; i--)`; a slot beyond the count has been zeroed.
  unfoldable pub close_from : ℕ → World → World
  close_from zero world = world
  close_from (suc i) world = elim (get_elem? world.context.windows i) [
    | none ↦ close_from i world
    | some slot ↦
        close_from i (if slot.window == 0 then world else destroy_window slot.window world)
  ]

  unfoldable pub close_all_windows : World → World
  unfolding close_from destroy_window
  close_all_windows world = close_from (length world.context.windows) world
