-- ===== src/Dispatch.antt =====
-- runtime/linux/linux_backend.c: a message of a page goes to the program behind the windows, the
-- packet that it answers is carried out, and then the drain requests that the packets queue.
pub mod Drain
pub mod Sound
use mathlib.Core.List.{foldl}
use lepusa.Base.{
  ℕ, zero, suc, ◌+◌, ◌-◌, false, ◌||◌, List, [], ◌∷◌, ◌++◌, Option, none, some, ◌==◌, if◌then◌else◌,
  length, take, Bytes, codes,
}
use lepusa.CString.{c_str}
use lepusa.Handoff.{
  apply_evaluate_scripts, apply_bridge_drains, apply_window_controls, apply_navigation,
}
use lepusa.JsString.{js_string_literal_from_range}
use lepusa.Open.{App, apply_open_windows}
use lepusa.Packet.Script.{immediate_script_from_handoff_packet, window_slot_from_handoff_packet}
use lepusa.Session.{Call, run_javascript, dispatched, World, emit, Toolkit}
use lepusa.Shell.{apply_desktop_shell}
use lepusa.Window.{
  WindowSlot, BridgeContext, BridgeDrainRequest, find_window_slot, max_drain_requests,
}

-- The text of a C string, or nothing for NULL.
unfoldable pub bytes_from_cstr : Option Bytes → Bytes
unfolding c_str
bytes_from_cstr none = []
bytes_from_cstr (some text) = c_str text

unfoldable pub bridge_drain_request_message : Bytes → Bytes
unfolding c_str
bridge_drain_request_message window_label = codes "lepusa-drain-v1\n" ++ c_str window_label

-- `slot == NULL ? context->webview : slot->webview`
abbrev pub target_webview : Option (ℕ × WindowSlot) → World → ℕ
target_webview none world = world.context.webview
target_webview (some (i, slot)) world = slot.webview

-- The script of a packet, run where it is meant to.
unfoldable pub run_script : ℕ → Option Bytes → World → World
unfolding c_str
run_script webview none world = world
run_script webview (some script) world =
    if webview == 0 then world else emit (run_javascript webview (c_str script) ∷ []) world

-- A click on an item of a menu.
unfoldable pub dispatch_menu_click : Bytes → Bytes → World → World
unfolding c_str js_string_literal_from_range
dispatch_menu_click event id world =
    if world.context.webview == 0
    then world
    else emit
        (run_javascript world.context.webview (
            codes "(globalThis[\"__lepusaDispatchEvent\"]||(()=>false))({name:"
            ++ js_string_literal_from_range (c_str event)
            ++ codes ",payload:JSON.stringify({id:"
            ++ js_string_literal_from_range (c_str id)
            ++ codes "})});")
          ∷ [])
        world

module _ (toolkit : Toolkit) (app : App) where
  unfoldable pub apply_operations : Option Bytes → World → World
  unfolding apply_evaluate_scripts apply_bridge_drains apply_open_windows apply_window_controls
      apply_navigation apply_desktop_shell
  apply_operations packet world =
      let scripts = apply_evaluate_scripts packet world in
      let drains = apply_bridge_drains packet scripts in
      let opened = apply_open_windows toolkit app packet drains in
      let controlled = apply_window_controls toolkit packet opened in
      let navigated = apply_navigation packet controlled in
      apply_desktop_shell toolkit packet navigated

  module _ (dispatch : World → Bytes → Option Bytes) where
    -- One of the requests that were copied from the queue.
    unfoldable pub process_request : World → BridgeDrainRequest → World
    unfolding bridge_drain_request_message immediate_script_from_handoff_packet find_window_slot
        c_str run_script apply_operations
    process_request world request =
        let message = bridge_drain_request_message request.window_label in
        let packet = dispatch world message in
        let asked = emit (dispatched message ∷ []) world in
        let slot = find_window_slot asked.context (c_str request.window_label) in
        let script = immediate_script_from_handoff_packet packet in
        apply_operations packet (run_script (target_webview slot asked) script asked)

    -- The queue is copied and emptied, so what is queued meanwhile waits for the next round.
    unfoldable pub process_round : World → World
    unfolding process_request
    process_round world =
        let requests = take max_drain_requests world.context.drain_requests in
        let emptied = record world { context = record world.context { drain_requests = [] } } in
        foldl process_request emptied requests

    unfoldable pub process_rounds : ℕ → World → World
    unfolding process_round
    process_rounds zero world = world
    process_rounds (suc rounds) world =
        let rest = process_rounds rounds (process_round world) in
        if length world.context.drain_requests == 0 then world else rest

    unfoldable pub message_received : Option Bytes → World → World
    unfolding bytes_from_cstr immediate_script_from_handoff_packet window_slot_from_handoff_packet
        run_script apply_operations process_rounds
    message_received message world =
        let request = bytes_from_cstr message in
        let packet = dispatch world request in
        let asked = emit (dispatched request ∷ []) world in
        let slot = window_slot_from_handoff_packet asked.context packet in
        let script = immediate_script_from_handoff_packet packet in
        process_rounds 32
          (apply_operations packet (run_script (target_webview slot asked) script asked))

  -- `message` is the text of the script's value, none for NULL.
  unfoldable pub script_message_received : Option Bytes → World → World
  unfolding message_received
  script_message_received message world =
      if world.context.webview == 0 then world else elim app.dispatch [
        | none ↦ world
        | some dispatch ↦ message_received dispatch message world
      ]

  -- With the program to ask, if there is one.
  unfoldable pub drain_with : Option (World → Bytes → Option Bytes) → World → World
  unfolding process_rounds
  drain_with none world = world
  drain_with (some dispatch) world = process_rounds dispatch 32 world

  unfoldable pub process_bridge_drain_requests : World → World
  unfolding drain_with
  process_bridge_drain_requests world = drain_with app.dispatch world
