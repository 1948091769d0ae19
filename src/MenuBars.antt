-- ===== src/MenuBars.antt =====
-- runtime/linux/linux_backend.c: the menu bars of windows: the menu of the application, which every
-- window shows that has none of its own, and those of single windows.
pub mod Sound
use lepusa.Base.{
  ℕ, zero, suc, ◌+◌, true, false, not, ◌&&◌, [], ◌∷◌, ◌++◌, Option, none, some, ◌==◌, if◌then◌else◌,
  length, get_elem?, set, Bytes,
}
use lepusa.CString.{
  c_str, range_equals, range_contains_text, app_shell_action_equals, menu_action_equals,
  tray_action_equals,
}
use lepusa.Effect.{new}
use lepusa.Json.{json_payload_string, json_payload_bool}
use lepusa.Menu.{menu_bar_from_payload, add_tray_menu_items_from_array, payload_items}
use lepusa.Packet.{NativeOperationRecord, apply_records}
use lepusa.Restart.{spawn_current_process}
use lepusa.Session.{
  Widget, accel_group_new, menu_new, status_icon_new, settings_default, Call, show_all, hide,
  present, unref, connect, pack_start, reorder_child, add_accel_group, popup_menu, set_icon_visible,
  set_icon_file, set_icon_tooltip, prefer_dark_theme, World, emit, Toolkit, clear_window_menu_bar,
  close_all_windows, slot_window,
}
use lepusa.Window.{WindowSlot, BridgeContext, find_window_slot}

-- A write to a slot of the table.
abbrev pub put_slot : ℕ → WindowSlot → World → World
put_slot i slot world = record world {
  context = record world.context { windows = set world.context.windows i slot };
}

abbrev pub set_payload : Option Bytes → World → World
set_payload payload world = record world {
  context = record world.context { app_menu_payload = payload };
}

-- `clear_window_menu_bar` on the slot at an index.
unfoldable pub clear_menu_at : ℕ → WindowSlot → World → World
unfolding clear_window_menu_bar
clear_menu_at i slot world =
    let cleared = clear_window_menu_bar slot in put_slot i cleared.0 (emit cleared.1 world)

-- The old menu bar goes, and the new one is put in its place.
unfoldable pub install_menu_bar : ℕ → WindowSlot → ℕ → ℕ → World → World
unfolding clear_window_menu_bar
install_menu_bar i slot menu_bar accel_group world =
    let cleared = clear_window_menu_bar slot in
    let group = if accel_group == 0 then [] else add_accel_group slot.window accel_group ∷ [] in
    let shown = if slot.window == 0 then [] else show_all slot.window ∷ [] in
    put_slot i (record cleared.0 { menu_bar = menu_bar; accel_group = accel_group })
      (emit
        (cleared.1
          ++ (group
              ++ (pack_start slot.box menu_bar false ∷ reorder_child slot.box menu_bar ∷ shown)))
        world)

module _ (toolkit : Toolkit) where
  unfoldable pub accel_group_for : WindowSlot → World → ℕ × World
  accel_group_for slot world =
      if slot.window == 0 then (0, world) else new toolkit accel_group_new world

  unfoldable pub set_window_menu_bar : ℕ → WindowSlot → Bytes → World → World
  unfolding accel_group_for menu_bar_from_payload install_menu_bar
  set_window_menu_bar i slot payload world =
      let (accel_group, grouped) = accel_group_for slot world in
      let (menu_bar, built) = menu_bar_from_payload toolkit payload accel_group grouped in
      if slot.box == 0
      then world
      else if menu_bar == 0
      then (if accel_group == 0 then built else emit (unref accel_group ∷ []) built)
      else install_menu_bar i slot menu_bar accel_group built

  -- A round of a loop over the table: a window without a menu of its own.
  unfoldable pub app_menu_round : Bytes → ℕ → Option WindowSlot → World → World
  unfolding set_window_menu_bar
  app_menu_round payload i none world = world
  app_menu_round payload i (some slot) world =
      if not (slot.window == 0) && not slot.has_window_menu
      then set_window_menu_bar i slot payload world
      else world

  unfoldable pub clear_menu_round : ℕ → Option WindowSlot → World → World
  unfolding clear_menu_at
  clear_menu_round i none world = world
  clear_menu_round i (some slot) world =
      if not (slot.window == 0) && not slot.has_window_menu
      then clear_menu_at i slot world
      else world

  -- `for (i = 0; i < window_count; i++)`: `n` rounds from `i` on.
  unfoldable pub for_each_slot : (ℕ → Option WindowSlot → World → World) → ℕ → ℕ → World → World
  for_each_slot round zero i world = world
  for_each_slot round (suc n) i world =
      for_each_slot round n (i + 1) (round i (get_elem? world.context.windows i) world)

  unfoldable pub show_app_menu : Option Bytes → World → World
  unfolding for_each_slot app_menu_round
  show_app_menu none world = world
  show_app_menu (some payload) world =
      for_each_slot (app_menu_round payload) (length world.context.windows) 0 world

  unfoldable pub apply_app_menu_to_available_windows : World → World
  unfolding show_app_menu
  apply_app_menu_to_available_windows world = show_app_menu world.context.app_menu_payload world

  unfoldable pub set_app_menu : Bytes → World → World
  unfolding apply_app_menu_to_available_windows
  set_app_menu payload world =
      if length payload == 0
      then world
      else apply_app_menu_to_available_windows (set_payload (some payload) world)

  unfoldable pub clear_app_menu : World → World
  unfolding for_each_slot clear_menu_round
  clear_app_menu world =
      for_each_slot clear_menu_round (length world.context.windows) 0 (set_payload none world)

  unfoldable pub set_menu_of : Option (ℕ × WindowSlot) → Bytes → World → World
  unfolding set_window_menu_bar
  set_menu_of none payload world = world
  set_menu_of (some (i, slot)) payload world =
      let marked = record slot { has_window_menu = true } in
      set_window_menu_bar i marked payload (put_slot i marked world)

  unfoldable pub set_specific_window_menu : Bytes → Bytes → World → World
  unfolding set_menu_of find_window_slot
  set_specific_window_menu label payload world =
      set_menu_of (find_window_slot world.context label) payload world

  unfoldable pub restore_menu : Option Bytes → ℕ → WindowSlot → World → World
  unfolding set_window_menu_bar clear_menu_at
  restore_menu none i slot world = clear_menu_at i slot world
  restore_menu (some payload) i slot world = set_window_menu_bar i slot payload world

  unfoldable pub clear_menu_of : Option (ℕ × WindowSlot) → World → World
  unfolding restore_menu
  clear_menu_of none world = world
  clear_menu_of (some (i, slot)) world =
      let unmarked = record slot { has_window_menu = false } in
      restore_menu world.context.app_menu_payload i unmarked (put_slot i unmarked world)

  unfoldable pub clear_specific_window_menu : Bytes → World → World
  unfolding clear_menu_of find_window_slot
  clear_specific_window_menu label world =
      clear_menu_of (find_window_slot world.context label) world
