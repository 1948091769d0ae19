-- ===== src/Run.antt =====
-- runtime/linux/linux_backend.c: lepusa_linux_run_webview. Whether the toolkit's library is loaded,
-- its start succeeds and memory is given for the texts are parameters, as are the signals that the
-- toolkit delivers while its main loop runs.
pub mod Sound
use mathlib.Core.List.{foldl}
use lepusa.Base.{
  ℕ, Bool, true, not, ◌&&◌, ◌||◌, List, [], Option, none, ◌==◌, if◌then◌else◌, Bytes, codes, ℤ, pos,
  positive,
}
use lepusa.CString.{c_str}
use lepusa.Dispatch.{script_message_received, dispatch_menu_click}
use lepusa.Effect.{M, ◌>>=◌, ◌>>◌, pure, skip, tell, new}
use lepusa.Open.{App, is_set, has_text, signal_name, apply_open_windows}
use lepusa.Session.{
  Widget, window_new, content_manager_new, box_new, user_script_new, webview_new, web_context,
  register_message_handler, add_script, register_uri_scheme, connect, set_title, set_default_size,
  set_resizable, container_add, pack_start, load_uri, show_all, World, Toolkit, window_destroyed,
}
use lepusa.Shell.{destroy_tray, show_tray_menu}
use lepusa.Window.{BridgeContext, register_window_slot}

pub record RunArguments : Type 0 where
  pub label : Bytes
  pub title : Bytes
  pub url : Bytes
  pub initialization_script : Bytes
  pub native_hook : Bytes
  pub asset_protocol : Bytes
  pub initial_open_packet : Option Bytes
  pub width : ℤ
  pub height : ℤ
  -- `resizable != 0`
  pub resizable : Bool

-- What starting needs of the system.
pub record Host : Type 0 where
  -- `lepusa_linux_load_webkit`, the six texts, and `gtk_init_check`.
  pub webkit_loaded : Bool
  pub texts_allocated : Bool
  pub gtk_initialized : Bool

-- What the toolkit's main loop calls. Requests for assets, which change nothing of the world here, are
-- left out.
pub data Event : Type 0 where
  script_message : Option Bytes → Event
  destroyed_signal : ℕ → Event
  menu_item_activate : Bytes → Bytes → Event
  tray_icon_activate : Event

-- `bridge_context`, before its first window is registered.
abbrev pub bridge_context : ℕ → ℕ → BridgeContext
bridge_context window webview = record {
  window = window;
  webview = webview;
  windows = [];
  live_windows = 0;
  drain_requests = [];
  tray_icon = 0;
  tray_menu = 0;
  app_menu_payload = none;
}

module _ (toolkit : Toolkit) (app : App) where
  -- The first window enters the table.
  unfoldable pub enter_first : Bytes → ℕ → ℕ → ℕ → M (Unit {0})
  unfolding register_window_slot c_str
  enter_first label window box webview world =
      let registered = register_window_slot (c_str label) window box webview world.context in
      (tt, record world { context = registered.0 })

  unfoldable pub begin_context : ℕ → ℕ → M (Unit {0})
  begin_context window webview world =
      (tt, record world { context = bridge_context window webview })

  unfoldable pub register_assets : Bytes → ℕ → M (Unit {0})
  unfolding has_text c_str
  register_assets protocol webview =
      if has_text protocol && is_set app.resolve_asset
      then (do
        assets ← new toolkit (web_context webview)
        if assets == 0 then skip else tell (register_uri_scheme assets (c_str protocol)))
      else skip

  unfoldable pub first_content : RunArguments → ℕ → M (ℕ × ℕ)
  unfolding has_text c_str
  first_content r manager = do
    if has_text r.native_hook && is_set app.dispatch
        then tell (register_message_handler manager (c_str r.native_hook))
        else skip
    script ← new toolkit (user_script_new (c_str r.initialization_script))
    if script == 0 then skip else tell (add_script manager script)
    webview ← new toolkit (webview_new manager)
    box ← new toolkit box_new
    pure (webview, box)

  -- From the signal of messages to the window that is shown.
  unfoldable pub reveal_first : RunArguments → ℕ → ℕ → ℕ → ℕ → M (Unit {0})
  unfolding has_text signal_name c_str
  reveal_first r window manager box webview = do
    if has_text r.native_hook && is_set app.dispatch
        then tell (connect manager (signal_name r.native_hook))
        else skip
    tell (set_title window (c_str r.title))
    tell (connect window (codes "destroy"))
    tell (
        set_default_size window (if positive r.width then r.width else pos 960)
          (if positive r.height then r.height else pos 640))
    tell (set_resizable window r.resizable)
    tell (container_add window box)
    tell (pack_start box webview true)
    tell (load_uri webview (c_str r.url))
    tell (show_all window)

  unfoldable pub show_first : RunArguments → ℕ → ℕ → ℕ × ℕ → M ℕ
  unfolding begin_context register_assets enter_first reveal_first
  show_first r window manager (webview, box) =
      if webview == 0 || box == 0
      then pure 5
      else begin_context window webview
        >> register_assets r.asset_protocol webview
        >> enter_first r.label window box webview
        >> reveal_first r window manager box webview
        >> pure 0

  unfoldable pub first_window : RunArguments → M ℕ
  unfolding first_content show_first
  first_window r = do
    window ← new toolkit window_new
    manager ← new toolkit content_manager_new
    if window == 0 || manager == 0
        then pure 4
        else (first_content r manager >>= show_first r window manager)

  -- Up to the main loop; 0 if it is entered.
  unfoldable pub start_webview : Host → RunArguments → M ℕ
  unfolding first_window
  start_webview host r =
      if not host.webkit_loaded
      then pure 2
      else if not host.texts_allocated
      then pure 3
      else if not host.gtk_initialized
      then pure 2
      else first_window r

  unfoldable pub handle_event : World → Event → World
  unfolding script_message_received window_destroyed dispatch_menu_click show_tray_menu
  handle_event world (script_message message) = script_message_received toolkit app message world
  handle_event world (destroyed_signal widget) = window_destroyed toolkit world widget
  handle_event world (menu_item_activate event id) = dispatch_menu_click event id world
  handle_event world tray_icon_activate = show_tray_menu toolkit world

  -- The windows of the first packet are opened, and then `gtk_main` runs.
  unfoldable pub main_loop : Option Bytes → List Event → World → World
  unfolding apply_open_windows handle_event
  main_loop packet events world =
      foldl handle_event (apply_open_windows toolkit app packet world) events

  unfoldable pub run_webview : Host → RunArguments → List Event → World → World × ℕ
  unfolding start_webview main_loop destroy_tray
  run_webview host r events world =
      let started = start_webview host r world in
      if started.0 == 0
      then (destroy_tray toolkit (main_loop r.initial_open_packet events started.1), 0)
      else (started.1, started.0)
