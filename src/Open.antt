-- ===== src/Open.antt =====
-- runtime/linux/linux_backend.c: opening the windows that a packet describes. The toolkit's optional
-- entry points are taken to be present, and what `malloc` and `snprintf` are asked for to be given.
pub mod Sound
pub mod Opened
use lepusa.Base.{
  ℕ, ◌+◌, ◌-◌, Bool, true, false, not, ◌&&◌, ◌||◌, List, [], ◌∷◌, ◌++◌, Option, none, some, ◌==◌,
  if◌then◌else◌, length, get_elem?, set, take, concat, Bytes, codes, ℤ, pos, positive,
}
use lepusa.CString.{c_str, range_equals}
use lepusa.Effect.{M, ◌>>=◌, ◌>>◌, pure, skip, tell, hang, new}
use lepusa.JsString.{js_string_literal_from_range}
use lepusa.Packet.Numbers.{
  RecordInt, rejected, parsed, overflow, parse_record_int, parse_record_bool,
}
use lepusa.Packet.{NativeOperationRecord, apply_records}
use lepusa.Session.{
  Widget, window_new, content_manager_new, box_new, user_script_new, webview_new, web_context,
  register_message_handler, add_script, register_uri_scheme, connect, set_title, set_default_size,
  set_resizable, container_add, pack_start, load_uri, show_all, World, Toolkit,
}
use lepusa.MenuBars.{set_window_menu_bar}
use lepusa.Window.{WindowSlot, BridgeContext, find_window_slot_exact, register_window_slot}

-- The program behind the windows: `call_dispatch` and `call_resolve_asset` with their closures, if
-- they are set. An answer may hang on all that has happened, the requests before it included.
pub record App : Type 0 where
  pub dispatch : Option (World → Bytes → Option Bytes)
  pub resolve_asset : Option (World → Bytes → Option Bytes)

abbrev pub is_set {ℓ} : {A : Type ℓ} → Option A → Bool
is_set none = false
is_set (some a) = true

abbrev hook_start : List Bytes
hook_start = codes "(() => {\n" ∷ codes "  const nativeHook = " ∷ []

abbrev hook_rest : List Bytes
hook_rest =
    codes ";\n"
    ∷ codes "  const responseHook = `${nativeHook}Response`;\n"
    ∷ codes "  const pending = new Map();\n"
    ∷ codes "  Object.defineProperty(globalThis, responseHook, {\n"
    ∷ codes "    value: (response) => {\n"
    ∷ codes "      const id = response && String(response.id || \"\");\n"
    ∷ codes "      const callbacks = pending.get(id);\n"
    ∷ codes "      if (!callbacks) { return false; }\n"
    ∷ codes "      pending.delete(id);\n"
    ∷ codes
        "      if (response && response.error) { callbacks.reject(new Error(response.error)); }\n"
    ∷ codes "      else { callbacks.resolve(response || null); }\n"
    ∷ codes "      return true;\n"
    ∷ codes "    },\n"
    ∷ codes "    configurable: true,\n"
    ∷ codes "  });\n"
    ∷ codes "  Object.defineProperty(globalThis, nativeHook, {\n"
    ∷ codes "    value: (request) => new Promise((resolve, reject) => {\n"
    ∷ codes
        "      const handler = globalThis.webkit && globalThis.webkit.messageHandlers && globalThis.webkit.messageHandlers[nativeHook];\n"
    ∷ codes "      if (!handler || typeof handler.postMessage !== \"function\") {\n"
    ∷ codes
        "        reject(new Error(`Missing Lepusa Linux native message handler: ${nativeHook}`));\n"
    ∷ codes "        return;\n"
    ∷ codes "      }\n"
    ∷ codes "      pending.set(String(request.id || \"\"), { resolve, reject });\n"
    ∷ codes "      handler.postMessage(JSON.stringify(request));\n"
    ∷ codes "    }),\n"
    ∷ codes "    configurable: true,\n"
    ∷ codes "  });\n"
    ∷ codes "})();\n"
    ∷ []

unfoldable pub initialization_script_from_record : NativeOperationRecord → Bytes
unfolding js_string_literal_from_range c_str
initialization_script_from_record r =
    concat hook_start
    ++ js_string_literal_from_range r.native_hook
    ++ concat hook_rest
    ++ c_str r.bridge_source

-- `width` and `height`: the default unless the record has a positive number; none when it overflows.
unfoldable pub dimension : ℤ → RecordInt → Option ℤ
dimension default rejected = some default
dimension default (parsed value) = some (if positive value then value else default)
dimension default overflow = none

resizable_of : Option Bool → Bool
resizable_of none = true
resizable_of (some b) = b

-- `snprintf` into the 256 bytes of `signal_name`.
unfoldable pub signal_name : Bytes → Bytes
signal_name hook = take 255 (codes "script-message-received::" ++ c_str hook)

-- `text[0] != '\0'` for the C string of a range.
unfoldable pub has_text : Bytes → Bool
unfolding c_str
has_text range = not (length (c_str range) == 0)

module _ (toolkit : Toolkit) (app : App) where
  -- The menu of the application for the slot that was registered.
  unfoldable pub open_menu : Option Bytes → ℕ → Option WindowSlot → World → World
  unfolding set_window_menu_bar
  open_menu none i slot world = world
  open_menu (some payload) i none world = world
  open_menu (some payload) i (some slot) world =
      if slot.has_window_menu then world else set_window_menu_bar toolkit i slot payload world

  -- A new slot stands behind the others.
  unfoldable pub place_window : Bytes → ℕ → ℕ → ℕ → M (Unit {0})
  unfolding register_window_slot open_menu
  place_window label window box webview world =
      let i = length world.context.windows in
      let registered = register_window_slot label window box webview world.context in
      let placed = record world { context = registered.0 } in
      let menu = open_menu placed.context.app_menu_payload i (get_elem? placed.context.windows i) in
      (tt, if registered.1 then menu placed else placed)

  -- The handler of the asset protocol, of messages, and the window's title, size and content.
  unfoldable pub announce_window : NativeOperationRecord → ℤ → ℤ → ℕ → ℕ → ℕ → ℕ → M (Unit {0})
  unfolding has_text c_str signal_name resizable_of parse_record_bool
  announce_window r width height window manager box webview = do
    if has_text r.asset_protocol && is_set app.resolve_asset
        then (do
          assets ← new toolkit (web_context webview)
          if assets == 0 then skip else tell (register_uri_scheme assets (c_str r.asset_protocol)))
        else skip
    if has_text r.native_hook && is_set app.dispatch
        then tell (connect manager (signal_name r.native_hook))
        else skip
    tell (set_title window (c_str r.title))
    tell (set_default_size window width height)
    tell (set_resizable window (resizable_of (parse_record_bool r.resizable)))
    tell (container_add window box)
    tell (pack_start box webview true)

  unfoldable pub reveal_window : Bytes → ℕ → ℕ → M (Unit {0})
  unfolding c_str
  reveal_window url window webview = do
    tell (connect window (codes "destroy"))
    tell (load_uri webview (c_str url))
    tell (show_all window)

  unfoldable pub enter_window : NativeOperationRecord → ℤ → ℤ → ℕ → ℕ → ℕ → ℕ → M (Unit {0})
  unfolding announce_window place_window reveal_window
  enter_window r width height window manager box webview =
      announce_window r width height window manager box webview
      >> place_window r.window window box webview
      >> reveal_window r.url window webview

  -- The handler of messages and the script go to the manager; gives the web view and the box.
  unfoldable pub prepare_content : NativeOperationRecord → ℕ → M (ℕ × ℕ)
  unfolding has_text initialization_script_from_record c_str
  prepare_content r manager = do
    if has_text r.native_hook && is_set app.dispatch
        then tell (register_message_handler manager (c_str r.native_hook))
        else skip
    script ← new toolkit (user_script_new (initialization_script_from_record r))
    if script == 0 then skip else tell (add_script manager script)
    webview ← new toolkit (webview_new manager)
    box ← new toolkit box_new
    pure (webview, box)

  unfoldable pub fill_with : NativeOperationRecord → ℤ → ℤ → ℕ → ℕ → ℕ × ℕ → M (Unit {0})
  unfolding enter_window
  fill_with r width height window manager (webview, box) =
      if webview == 0 || box == 0
      then skip
      else enter_window r width height window manager box webview

  unfoldable pub fill_window : NativeOperationRecord → ℤ → ℤ → ℕ → ℕ → M (Unit {0})
  unfolding prepare_content fill_with
  fill_window r width height window manager =
      prepare_content r manager >>= fill_with r width height window manager

  unfoldable pub open_window : NativeOperationRecord → ℤ → ℤ → M (Unit {0})
  unfolding fill_window
  open_window r width height = do
    window ← new toolkit window_new
    manager ← new toolkit content_manager_new
    if window == 0 || manager == 0 then skip else fill_window r width height window manager

  -- An `int` that overflows leaves nothing to say.
  unfoldable pub open_sized : NativeOperationRecord → Option ℤ → Option ℤ → M (Unit {0})
  unfolding open_window
  open_sized r (some width) (some height) = open_window r width height
  open_sized r (some width) none = hang
  open_sized r none height = hang

  unfoldable pub open_window_from_record : NativeOperationRecord → World → World
  unfolding find_window_slot_exact dimension parse_record_int open_sized
  open_window_from_record r world =
      let width = dimension (pos 960) (parse_record_int r.width) in
      let height = dimension (pos 640) (parse_record_int r.height) in
      if length r.window == 0
        || length r.url == 0
        || is_set (find_window_slot_exact world.context r.window)
      then world
      else (open_sized r width height world).1

  unfoldable pub open_record : NativeOperationRecord → World → World
  unfolding range_equals open_window_from_record
  open_record r world =
      if range_equals r.kind (codes "open-window") then open_window_from_record r world else world

  unfoldable pub apply_open_windows : Option Bytes → World → World
  unfolding open_record apply_records
  apply_open_windows packet = apply_records packet open_record
