-- ===== src/Shell/Sound.antt =====
-- runtime/linux/linux_backend.c: apply_desktop_shell and the contexts of Window.Registry.Sound.
use lepusa.Json.{json_payload_string, json_payload_bool}
use lepusa.Restart.{spawn_current_process}
use lepusa.CString.{app_shell_action_equals, tray_action_equals, menu_action_equals, range_equals}
use lepusa.Handoff.Invariant.{apply_records_inv}
use lepusa.Packet.{NativeOperationRecord}
use lepusa.MenuBars.Sound.{
  Good, if-Good, set_app_menu-Good, clear_app_menu-Good, set_specific-Good, clear_specific-Good,
}
use lepusa.Base.{
  ℕ, Bool, true, not, ◌≡◌, inl, inr, Option, none, some, ◌==◌, Bool-cases, length, Bytes, codes,
}
use lepusa.Effect.{new}
use lepusa.Menu.Keeps.{add_tray_menu_items-Keeps}
use lepusa.Menu.{add_tray_menu_items_from_array, payload_items}
use lepusa.Session.Close.{close_all_windows-inv}
use lepusa.Session.{
  World, Toolkit, Call, close_all_windows, slot_window, menu_new, status_icon_new, settings_default,
  set_icon_file, set_icon_tooltip,
}
use lepusa.Shell.{
  ensure_tray_icon, place_icon, place_tray_menu, apply_tray_menu, destroy_tray, show_tray_menu,
  theme_calls, theme_payload_prefers_dark, apply_app_theme, icon_call, set_visible, shell_window,
  app_shell, tray_shell, desktop_shell, apply_desktop_shell, replace_tray_menu, set_tray,
}
use lepusa.Window.Registry.Sound.{IsSound, remove_window_slot-IsSound, desktop-IsSound}
use lepusa.Window.{find_window_slot}

set_tray-Good : (icon menu : ℕ) (world : World) → Good world → Good (set_tray icon menu world)
set_tray-Good icon menu world good =
    desktop-IsSound icon menu world.context.app_menu_payload world.context good

module _ (toolkit : Toolkit) where
  ensure_tray_icon-Good : (world : World) → Good world → Good (ensure_tray_icon toolkit world)
  unfolding ensure_tray_icon place_icon
  ensure_tray_icon-Good world good = elim (Bool-cases (world.context.tray_icon == 0)) [
    | inr there ↦ rw there good
    | inl missing ↦
        let icon = toolkit.created status_icon_new world in
        elim (Bool-cases (icon == 0)) [
          | inl null ↦ rw (missing, null) (set_tray-Good icon world.context.tray_menu world good)
          | inr made ↦ rw (missing, made) (set_tray-Good icon world.context.tray_menu world good)
        ]
  ]

  replace_tray_menu-Good :
      (menu : ℕ) (world : World) → Good world → Good (replace_tray_menu toolkit menu world)
  unfolding replace_tray_menu
  replace_tray_menu-Good menu world good = set_tray-Good world.context.tray_icon menu world good

  place_tray_menu-Good :
      (payload : Bytes) (menu : ℕ) (world : World)
      → Good world
      → Good (place_tray_menu toolkit payload (menu, world))
  unfolding place_tray_menu
  place_tray_menu-Good payload menu world good =
      let filled = (add_tray_menu_items_from_array toolkit menu (payload_items payload) world).1 in
      let kept : filled.context ≡ world.context =
        (add_tray_menu_items-Keeps toolkit menu (payload_items payload) world).context in
      let good' : Good filled = rw kept good in
      if-Good (menu == 0) _ _ good (replace_tray_menu-Good menu filled good')

  apply_tray_menu-Good :
      (payload : Bytes) (world : World) → Good world → Good (apply_tray_menu toolkit payload world)
  unfolding apply_tray_menu
  apply_tray_menu-Good payload world good =
      let ready = ensure_tray_icon toolkit world in
      elim (Bool-cases (length payload == 0)) [
        | inl e ↦ rw e good
        | inr e ↦ rw e (
            place_tray_menu-Good payload (new toolkit menu_new ready).0
              (new toolkit menu_new ready).1 (ensure_tray_icon-Good world good))
      ]

  pub destroy_tray-Good : (world : World) → Good world → Good (destroy_tray toolkit world)
  unfolding destroy_tray
  destroy_tray-Good world good = set_tray-Good 0 0 world good

  pub show_tray_menu-Good : (world : World) → Good world → Good (show_tray_menu toolkit world)
  unfolding show_tray_menu
  show_tray_menu-Good world good = if-Good (world.context.tray_menu == 0) _ _ good good

  theme_calls-Good :
      (dark : Option Bool) (world : World) → Good world → Good (theme_calls toolkit dark world)
  unfolding theme_calls
  theme_calls-Good none world good = good
  theme_calls-Good (some dark) world good =
      elim (Bool-cases (toolkit.created settings_default world == 0)) [
        | inl e ↦ rw e good
        | inr e ↦ rw e good
      ]

  apply_app_theme-Good :
      (payload : Bytes) (world : World) → Good world → Good (apply_app_theme toolkit payload world)
  unfolding apply_app_theme
  apply_app_theme-Good payload world good =
      theme_calls-Good (theme_payload_prefers_dark payload) world good

  icon_call-Good :
      (call : ℕ → Bytes → Call) (text : Option Bytes) (world : World)
      → Good world
      → Good (icon_call toolkit call text world)
  unfolding icon_call
  icon_call-Good call none world good = good
  icon_call-Good call (some text) world good = elim (Bool-cases (world.context.tray_icon == 0)) [
    | inl e ↦ rw e good
    | inr e ↦ rw e good
  ]

  set_visible-Good :
      (visible : Bool) (world : World) → Good world → Good (set_visible toolkit visible world)
  unfolding set_visible
  set_visible-Good visible world good = elim (Bool-cases (world.context.tray_icon == 0)) [
    | inl e ↦ rw e good
    | inr e ↦ rw e good
  ]

  shell_window-Good :
      (action : Bytes) (window : ℕ) (world : World)
      → Good world
      → Good (shell_window toolkit action window world)
  unfolding shell_window
  shell_window-Good action window world good = if-Good (window == 0) _ _ good (
      if-Good (app_shell_action_equals action (codes "show")) _ _ good
        (if-Good (app_shell_action_equals action (codes "hide")) _ _ good good))

  close_all_windows-Good : (world : World) → Good world → Good (close_all_windows toolkit world)
  close_all_windows-Good = close_all_windows-inv toolkit IsSound remove_window_slot-IsSound

  app_shell-Good :
      (r : NativeOperationRecord) (world : World) → Good world → Good (app_shell toolkit r world)
  unfolding app_shell
  app_shell-Good r world good =
      let closed = close_all_windows-Good world good in
      let is = app_shell_action_equals r.action in
      if-Good (is (codes "restart")) _ _ (if-Good (spawn_current_process toolkit) _ _ closed good) (
        if-Good (is (codes "exit")) _ _ closed (
          if-Good (is (codes "setTheme")) _ _ (apply_app_theme-Good r.url world good) (
            shell_window-Good r.action (slot_window (find_window_slot world.context r.window)) world
              good)))

  tray_shell-Good :
      (r : NativeOperationRecord) (world : World) → Good world → Good (tray_shell toolkit r world)
  unfolding tray_shell
  tray_shell-Good r world good =
      let is = tray_action_equals r.action in
      let ready = ensure_tray_icon toolkit world in
      let iconic = ensure_tray_icon-Good world good in
      if-Good (is (codes "setIcon")) _ _
        (icon_call-Good set_icon_file (json_payload_string r.url (codes "iconPath")) ready iconic)
        (if-Good (is (codes "setTooltip")) _ _
          (icon_call-Good set_icon_tooltip (json_payload_string r.url (codes "tooltip")) ready
            iconic)
          (if-Good (is (codes "setMenu")) _ _ (apply_tray_menu-Good r.url world good) (
            if-Good (is (codes "showMenu")) _ _ (show_tray_menu-Good world good) (
              if-Good (is (codes "setVisible")) _ _
                (set_visible-Good (json_payload_bool r.url (codes "visible") true) ready iconic)
                (if-Good (is (codes "destroy")) _ _ (destroy_tray-Good world good)
                  (app_shell-Good r world good))))))

  desktop_shell-Good :
      (r : NativeOperationRecord) (world : World)
      → Good world
      → Good (desktop_shell toolkit r world)
  unfolding desktop_shell
  desktop_shell-Good r world good =
      let is = menu_action_equals r.action in
      if-Good (not (range_equals r.kind (codes "desktop-shell"))) _ _ good (
        if-Good (is (codes "setAppMenu")) _ _ (set_app_menu-Good toolkit r.url world good) (
          if-Good (is (codes "clearAppMenu")) _ _ (clear_app_menu-Good toolkit world good) (
            if-Good (is (codes "setWindowMenu")) _ _
              (set_specific-Good toolkit r.window r.url world good)
              (if-Good (is (codes "clearWindowMenu")) _ _
                (clear_specific-Good toolkit r.window world good) (tray_shell-Good r world good)))))

  -- The menus, the tray and the theme leave the table of windows and the primary window in order,
  -- whatever the packet holds and whatever objects the toolkit gives.
  pub apply_desktop_shell-IsSound :
      (packet : Option Bytes) (world : World)
      → Good world
      → Good (apply_desktop_shell toolkit packet world)
  unfolding apply_desktop_shell
  apply_desktop_shell-IsSound packet world good =
      apply_records_inv Good (desktop_shell toolkit) desktop_shell-Good packet world good
