-- ===== src/Open/Opened.antt =====
-- runtime/linux/linux_backend.c: the slot of a window that open_window_from_record has opened.
use lepusa.Base.{
  ℕ, ◌<◌, false, ◌||◌, ◌≡◌, refl, sym, ap, ◌∙◌, none, some, arith, leb, ◌==◌, length, Bytes, ℤ, pos,
}
use lepusa.Effect.{new}
use lepusa.Open.{
  App, open_menu, place_window, announce_window, reveal_window, enter_window, prepare_content,
  fill_with, fill_window, open_window, open_sized, open_window_from_record, dimension,
}
use lepusa.Open.Sound.{announce_window-Keeps, reveal_window-Keeps, prepare_content-Keeps}
use lepusa.Packet.Numbers.{parse_record_int}
use lepusa.Packet.{NativeOperationRecord}
use lepusa.Session.{World, Toolkit, Widget, window_new, content_manager_new}
use lepusa.Window.Lookup.{IsLabel, find-register}
use lepusa.Window.{
  WindowSlot, BridgeContext, max_windows, find_window_slot_exact, register_window_slot,
}

-- The label is that of the slot behind the first `i`, with that window.
abbrev pub Opened : Bytes → ℕ → ℕ → BridgeContext → Type 0
Opened label i window context =
    (s : WindowSlot) × (find_window_slot_exact context label ≡ some (i, s)) × (s.window ≡ window)

-- That a window can be entered under a label, and what the menu of the application is.
pub record Ready (label : Bytes) (i : ℕ) (context : BridgeContext) : Type 0 where
  pub unknown : find_window_slot_exact context label ≡ none
  pub room : i < max_windows
  pub behind : i ≡ length context.windows
  pub no_menu : context.app_menu_payload ≡ none

module _ (toolkit : Toolkit) (app : App) where
  place_window-context :
      (label : Bytes) (window box webview i : ℕ) (w : World)
      → 0 < window
      → 0 < box
      → 0 < webview
      → Ready label i w.context
      → (place_window toolkit app label window box webview w).1.context
        ≡ (register_window_slot label window box webview w.context).0
  unfolding place_window open_menu register_window_slot
  place_window-context label window box webview i w hw hb hv ready =
      let live : (window == 0 || box == 0 || webview == 0) ≡ false = ground arith in
      let full : leb max_windows (length w.context.windows) ≡ false =
        ground (arith, ready.behind, ready.room) in
      let unknown = ready.unknown in
      let no_menu = ready.no_menu in rw (live, unknown, full, no_menu) refl

  place_window-Opened :
      (label : Bytes) (window box webview i : ℕ) (w : World)
      → IsLabel label
      → 0 < window
      → 0 < box
      → 0 < webview
      → Ready label i w.context
      → Opened label i window (place_window toolkit app label window box webview w).1.context
  place_window-Opened label window box webview i w is_label hw hb hv ready =
      let room : length w.context.windows < max_windows = omega (arith, ready.behind, ready.room) in
      let found =
        find-register label window box webview w.context is_label hw hb hv room ready.unknown in
      let at : some (length w.context.windows, found.0) ≡ some (i, found.0) =
        ap (λ (n : ℕ). some (n, found.0)) (sym ready.behind) in
      rw (place_window-context label window box webview i w hw hb hv ready)
        (found.0, found.1 ∙ at, found.2)

  enter_window-Opened :
      (r : NativeOperationRecord) (width height : ℤ) (window manager box webview i : ℕ) (w : World)
      → IsLabel r.window
      → 0 < window
      → 0 < box
      → 0 < webview
      → Ready r.window i w.context
      → Opened r.window i window
          (enter_window toolkit app r width height window manager box webview w).1.context
  unfolding enter_window
  enter_window-Opened r width height window manager box webview i w is_label hw hb hv ready =
      let announced = (announce_window toolkit app r width height window manager box webview w).1 in
      let placed = (place_window toolkit app r.window window box webview announced).1 in
      let before : announced.context ≡ w.context =
        (announce_window-Keeps toolkit app r width height window manager box webview w).context in
      let after : (reveal_window toolkit app r.url window webview placed).1.context
          ≡ placed.context =
        (reveal_window-Keeps toolkit app r.url window webview placed).context in
      let ready' : Ready r.window i announced.context = rw before ready in
      rw after
        (place_window-Opened r.window window box webview i announced is_label hw hb hv ready')

  prepare_content-given :
      (r : NativeOperationRecord) (manager : ℕ) (w : World)
      → ((widget : Widget) (v : World) → 0 < toolkit.created widget v)
      → (0 < (prepare_content toolkit app r manager w).0.0)
        × (0 < (prepare_content toolkit app r manager w).0.1)
  unfolding prepare_content
  prepare_content-given r manager w given = (given _ _, given _ _)

  open_window-Opened :
      (r : NativeOperationRecord) (width height : ℤ) (i : ℕ) (w : World)
      → ((widget : Widget) (v : World) → 0 < toolkit.created widget v)
      → IsLabel r.window
      → Ready r.window i w.context
      → Opened r.window i
          (toolkit.created window_new w)
          (open_window toolkit app r width height w).1.context
  unfolding open_window fill_window fill_with
  open_window-Opened r width height i w given is_label ready =
      let window = toolkit.created window_new w in
      let made = (new toolkit window_new w).1 in
      let (manager, managed) = new toolkit content_manager_new made in
      let prepared = prepare_content toolkit app r manager managed in
      let before : prepared.1.context ≡ w.context =
        (prepare_content-Keeps toolkit app r manager managed).context in
      let objects = prepare_content-given r manager managed given in
      let no_null : (prepared.0.0 == 0 || prepared.0.1 == 0) ≡ false = ground (arith, objects) in
      let live : (window == 0 || manager == 0) ≡ false =
        ground (arith, given window_new w, given content_manager_new made) in
      let ready' : Ready r.window i prepared.1.context = rw before ready in
      rw (live, no_null)
        (enter_window-Opened r width height window manager prepared.0.1 prepared.0.0 i prepared.1
          is_label (given window_new w) objects.1 objects.0 ready')

-- A window that was opened is found by its label in the table that the call leaves, in the slot behind
-- the others: for a label that no slot has yet and that fits one, an address that is not empty, a width and a height that
-- are no numbers or fit an `int`, a table that is not full, a toolkit that gives every object it is
-- asked for, and no menu of the application.
pub open_window_from_record-Opened :
    (toolkit : Toolkit) (app : App) (r : NativeOperationRecord) (width height : ℤ) (w : World)
    → ((widget : Widget) (v : World) → 0 < toolkit.created widget v)
    → IsLabel r.window
    → 0 < length r.url
    → dimension (pos 960) (parse_record_int r.width) ≡ some width
    → dimension (pos 640) (parse_record_int r.height) ≡ some height
    → Ready r.window (length w.context.windows) w.context
    → Opened r.window
        (length w.context.windows)
        (toolkit.created window_new w)
        (open_window_from_record toolkit app r w).context
unfolding open_window_from_record open_sized
open_window_from_record-Opened toolkit app r width height w given is_label url hw hh ready =
    let unknown = ready.unknown in
    let named : (length r.window == 0 || length r.url == 0 || false) ≡ false =
      ground (arith, url, is_label.nonempty) in
    rw (unknown, named, hw, hh)
      (open_window-Opened toolkit app r width height (length w.context.windows) w given is_label
        ready)
