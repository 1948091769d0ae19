-- ===== src/Shell.antt =====
-- runtime/linux/linux_backend.c: the `desktop-shell` operations: the menus, the tray icon, the theme, and ending or restarting the program.
pub mod Sound
use lepusa.Base.{
  ℕ, ◌+◌, ◌-◌, Bool, true, false, not, ◌||◌, [], ◌∷◌, ◌++◌, Option, none, some, ◌==◌, if◌then◌else◌,
  length, Bytes, codes,
}
use lepusa.CString.{
  c_str, range_equals, range_contains_text, app_shell_action_equals, menu_action_equals,
  tray_action_equals,
}
use lepusa.Effect.{new}
use lepusa.Json.{json_payload_string, json_payload_bool}
use lepusa.MenuBars.{
  set_app_menu, clear_app_menu, set_specific_window_menu, clear_specific_window_menu,
}
use lepusa.Menu.{menu_bar_from_payload, add_tray_menu_items_from_array, payload_items}
use lepusa.Packet.{NativeOperationRecord, apply_records}
use lepusa.Restart.{spawn_current_process}
use lepusa.Session.{
  Widget, accel_group_new, menu_new, status_icon_new, settings_default, Call, show_all, hide,
  present, unref, connect, pack_start, reorder_child, add_accel_group, popup_menu, set_icon_visible,
  set_icon_file, set_icon_tooltip, prefer_dark_theme, World, emit, Toolkit, clear_window_menu_bar,
  close_all_windows, slot_window,
}
use lepusa.Window.{WindowSlot, BridgeContext, find_window_slot}

abbrev pub set_tray : ℕ → ℕ → World → World
set_tray icon menu world = record world {
  context = record world.context { tray_icon = icon; tray_menu = menu };
}

-- The theme's tests on its payload: whether the dark theme is asked for.
unfoldable pub theme_payload_prefers_dark : Bytes → Option Bool
unfolding range_contains_text
theme_payload_prefers_dark payload =
    if length payload == 0
      || range_contains_text payload (codes "system")
      || range_contains_text payload (codes "light")
    then some false
    else if range_contains_text payload (codes "dark")
    then some true
    else none

module _ (toolkit : Toolkit) where
  unfoldable pub place_icon : ℕ × World → World
  place_icon (icon, world) =
      if icon == 0
      then set_tray icon world.context.tray_menu world
      else set_tray icon world.context.tray_menu (
          emit
            (set_icon_visible icon true
              ∷ connect icon (codes "popup-menu")
              ∷ connect icon (codes "activate")
              ∷ [])
            world)

  unfoldable pub ensure_tray_icon : World → World
  unfolding place_icon
  ensure_tray_icon world =
      if not (world.context.tray_icon == 0)
      then world
      else place_icon (new toolkit status_icon_new world)

  -- The old menu is released.
  unfoldable pub replace_tray_menu : ℕ → World → World
  replace_tray_menu menu world =
      let old = world.context.tray_menu in
      set_tray world.context.tray_icon menu (emit (if old == 0 then [] else unref old ∷ []) world)

  -- The new menu is filled before.
  unfoldable pub place_tray_menu : Bytes → ℕ × World → World
  unfolding add_tray_menu_items_from_array payload_items replace_tray_menu
  place_tray_menu payload (menu, world) =
      let filled = (add_tray_menu_items_from_array toolkit menu (payload_items payload) world).1 in
      if menu == 0 then world else replace_tray_menu menu filled

  unfoldable pub apply_tray_menu : Bytes → World → World
  unfolding ensure_tray_icon place_tray_menu
  apply_tray_menu payload world =
      if length payload == 0
      then world
      else place_tray_menu payload (new toolkit menu_new (ensure_tray_icon world))

  unfoldable pub destroy_tray : World → World
  destroy_tray world =
      let icon = world.context.tray_icon in
      let menu = world.context.tray_menu in
      set_tray 0 0 (
        emit
          ((if icon == 0 then [] else set_icon_visible icon false ∷ unref icon ∷ [])
            ++ (if menu == 0 then [] else unref menu ∷ []))
          world)

  unfoldable pub show_tray_menu : World → World
  show_tray_menu world =
      let menu = world.context.tray_menu in
      if menu == 0 then world else emit (show_all menu ∷ popup_menu menu ∷ []) world

  unfoldable pub theme_calls : Option Bool → World → World
  theme_calls none world = world
  theme_calls (some dark) world =
      let (settings, world') = new toolkit settings_default world in
      if settings == 0 then world' else emit (prefer_dark_theme settings dark ∷ []) world'

  unfoldable pub apply_app_theme : Bytes → World → World
  unfolding theme_payload_prefers_dark theme_calls
  apply_app_theme payload world = theme_calls (theme_payload_prefers_dark payload) world

  -- A call on the tray icon with a string of the payload, if both are there.
  unfoldable pub icon_call : (ℕ → Bytes → Call) → Option Bytes → World → World
  unfolding c_str
  icon_call call none world = world
  icon_call call (some text) world =
      if world.context.tray_icon == 0
      then world
      else emit (call world.context.tray_icon (c_str text) ∷ []) world

  unfoldable pub set_visible : Bool → World → World
  set_visible visible world =
      if world.context.tray_icon == 0
      then world
      else emit (set_icon_visible world.context.tray_icon visible ∷ []) world

  -- The last two actions, on the window of the record's label.
  unfoldable pub shell_window : Bytes → ℕ → World → World
  unfolding app_shell_action_equals
  shell_window action window world =
      if window == 0
      then world
      else if app_shell_action_equals action (codes "show")
      then emit (show_all window ∷ present window ∷ []) world
      else if app_shell_action_equals action (codes "hide")
      then emit (hide window ∷ []) world
      else world

  -- The actions of the application itself.
  unfoldable pub app_shell : NativeOperationRecord → World → World
  unfolding app_shell_action_equals spawn_current_process close_all_windows apply_app_theme
      shell_window find_window_slot
  app_shell r world =
      if app_shell_action_equals r.action (codes "restart")
      then (if spawn_current_process toolkit then close_all_windows toolkit world else world)
      else if app_shell_action_equals r.action (codes "exit")
      then close_all_windows toolkit world
      else if app_shell_action_equals r.action (codes "setTheme")
      then apply_app_theme r.url world
      else shell_window r.action (slot_window (find_window_slot world.context r.window)) world

  unfoldable pub tray_shell : NativeOperationRecord → World → World
  unfolding tray_action_equals ensure_tray_icon icon_call json_payload_string apply_tray_menu
      show_tray_menu set_visible json_payload_bool destroy_tray app_shell
  tray_shell r world =
      if tray_action_equals r.action (codes "setIcon")
      then icon_call set_icon_file (json_payload_string r.url (codes "iconPath"))
          (ensure_tray_icon world)
      else if tray_action_equals r.action (codes "setTooltip")
      then icon_call set_icon_tooltip (json_payload_string r.url (codes "tooltip"))
          (ensure_tray_icon world)
      else if tray_action_equals r.action (codes "setMenu")
      then apply_tray_menu r.url world
      else if tray_action_equals r.action (codes "showMenu")
      then show_tray_menu world
      else if tray_action_equals r.action (codes "setVisible")
      then set_visible (json_payload_bool r.url (codes "visible") true) (ensure_tray_icon world)
      else if tray_action_equals r.action (codes "destroy")
      then destroy_tray world
      else app_shell r world

  -- The chain of tests on the action of a `desktop-shell` record, the menu's first.
  unfoldable pub desktop_shell : NativeOperationRecord → World → World
  unfolding range_equals menu_action_equals set_app_menu clear_app_menu set_specific_window_menu
      clear_specific_window_menu tray_shell
  desktop_shell r world =
      if not (range_equals r.kind (codes "desktop-shell"))
      then world
      else if menu_action_equals r.action (codes "setAppMenu")
      then set_app_menu toolkit r.url world
      else if menu_action_equals r.action (codes "clearAppMenu")
      then clear_app_menu toolkit world
      else if menu_action_equals r.action (codes "setWindowMenu")
      then set_specific_window_menu toolkit r.window r.url world
      else if menu_action_equals r.action (codes "clearWindowMenu")
      then clear_specific_window_menu toolkit r.window world
      else tray_shell r world

  unfoldable pub apply_desktop_shell : Option Bytes → World → World
  unfolding desktop_shell apply_records
  apply_desktop_shell packet = apply_records packet desktop_shell
