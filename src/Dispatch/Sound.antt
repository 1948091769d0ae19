-- ===== src/Dispatch/Sound.antt =====
-- runtime/linux/linux_backend.c: the messages of a page and the contexts of Window.Registry.Sound.
use mathlib.Core.List.{foldl}
use lepusa.Base.{
  ℕ, zero, suc, not, ◌||◌, List, [], ◌∷◌, Option, none, some, ◌==◌, if◌then◌else◌, length, take,
  Bytes, codes,
}
use lepusa.Dispatch.{
  apply_operations, process_request, process_round, process_rounds, message_received,
  script_message_received, run_script, target_webview, bridge_drain_request_message,
  bytes_from_cstr,
}
use lepusa.CString.{c_str, range_equals}
use lepusa.Handoff.Invariant.{apply_records_inv, apply_bridge_drains-inv, apply_window_controls-inv}
use lepusa.Handoff.{
  apply_evaluate_scripts, evaluate_script, apply_bridge_drains, apply_window_controls,
  apply_navigation, navigate,
}
use lepusa.Open.Sound.{GivesNew, apply_open_windows-IsSound}
use lepusa.Open.{App, apply_open_windows}
use lepusa.Packet.Script.{immediate_script_from_handoff_packet, window_slot_from_handoff_packet}
use lepusa.Packet.{NativeOperationRecord}
use lepusa.Session.{dispatched, World, emit, Toolkit, slot_webview}
use lepusa.MenuBars.Sound.{Good, if-Good}
use lepusa.Shell.Sound.{apply_desktop_shell-IsSound}
use lepusa.Window.Registry.Sound.{
  IsSound, remove_window_slot-IsSound, register_bridge_drain_request-IsSound, drop_requests-IsSound,
}
use lepusa.Window.{BridgeDrainRequest, find_window_slot, max_drain_requests}

navigate-Good : (r : NativeOperationRecord) (w : World) → Good w → Good (navigate r w)
unfolding navigate
navigate-Good r w good =
    if-Good (not (range_equals r.kind (codes "navigate-window"))) _ _ good
      (if-Good (slot_webview (find_window_slot w.context r.window) == 0) _ _ good good)

evaluate_script-Good : (r : NativeOperationRecord) (w : World) → Good w → Good (evaluate_script r w)
unfolding evaluate_script
evaluate_script-Good r w good =
    if-Good (not (range_equals r.kind (codes "evaluate-script")) || length r.url == 0) _ _ good
      (if-Good (slot_webview (find_window_slot w.context r.window) == 0) _ _ good good)

apply_navigation-Good :
    (packet : Option Bytes) (w : World) → Good w → Good (apply_navigation packet w)
unfolding apply_navigation
apply_navigation-Good packet w good =
    if-Good (w.context.webview == 0) _ _ good
      (apply_records_inv Good navigate navigate-Good packet w good)

apply_evaluate_scripts-Good :
    (packet : Option Bytes) (w : World) → Good w → Good (apply_evaluate_scripts packet w)
unfolding apply_evaluate_scripts
apply_evaluate_scripts-Good packet w good =
    if-Good (w.context.webview == 0) _ _ good
      (apply_records_inv Good evaluate_script evaluate_script-Good packet w good)

run_script-Good :
    (webview : ℕ) (script : Option Bytes) (w : World) → Good w → Good (run_script webview script w)
unfolding run_script
run_script-Good webview none w good = good
run_script-Good webview (some script) w good = if-Good (webview == 0) _ _ good good

module _ (toolkit : Toolkit) (app : App) (fresh : GivesNew toolkit) where
  apply_operations-Good :
      (packet : Option Bytes) (w : World) → Good w → Good (apply_operations toolkit app packet w)
  unfolding apply_operations
  apply_operations-Good packet w good =
      let scripts = apply_evaluate_scripts packet w in
      let drains = apply_bridge_drains packet scripts in
      let opened = apply_open_windows toolkit app packet drains in
      let controlled = apply_window_controls toolkit packet opened in
      let navigated = apply_navigation packet controlled in
      apply_desktop_shell-IsSound toolkit packet navigated (
        apply_navigation-Good packet controlled (
          apply_window_controls-inv toolkit IsSound remove_window_slot-IsSound packet opened (
            apply_open_windows-IsSound toolkit app fresh packet drains (
              apply_bridge_drains-inv IsSound register_bridge_drain_request-IsSound packet scripts
                (apply_evaluate_scripts-Good packet w good)))))

  module _ (dispatch : World → Bytes → Option Bytes) where
    process_request-Good :
        (w : World) (request : BridgeDrainRequest)
        → Good w
        → Good (process_request toolkit app dispatch w request)
    unfolding process_request
    process_request-Good w request good =
        let message = bridge_drain_request_message request.window_label in
        let packet = dispatch w message in
        let asked = emit (dispatched message ∷ []) w in
        let slot = find_window_slot asked.context (c_str request.window_label) in
        let script = immediate_script_from_handoff_packet packet in
        apply_operations-Good packet (run_script (target_webview slot asked) script asked)
          (run_script-Good (target_webview slot asked) script asked good)

    foldl-Good :
        (requests : List BridgeDrainRequest) (w : World)
        → Good w
        → Good (foldl (process_request toolkit app dispatch) w requests)
    foldl-Good [] w good = good
    foldl-Good (r ∷ rs) w good =
        foldl-Good rs (process_request toolkit app dispatch w r) (process_request-Good w r good)

    process_round-Good : (w : World) → Good w → Good (process_round toolkit app dispatch w)
    unfolding process_round
    process_round-Good w good =
        foldl-Good (take max_drain_requests w.context.drain_requests)
          (record w { context = record w.context { drain_requests = [] } })
          (drop_requests-IsSound w.context good)

    process_rounds-Good :
        (rounds : ℕ) (w : World) → Good w → Good (process_rounds toolkit app dispatch rounds w)
    unfolding process_rounds
    process_rounds-Good zero w good = good
    process_rounds-Good (suc rounds) w good =
        if-Good (length w.context.drain_requests == 0) _ _ good (
          process_rounds-Good rounds (process_round toolkit app dispatch w)
            (process_round-Good w good))

    message_received-Good :
        (message : Option Bytes) (w : World)
        → Good w
        → Good (message_received toolkit app dispatch message w)
    unfolding message_received
    message_received-Good message w good =
        let request = bytes_from_cstr message in
        let packet = dispatch w request in
        let asked = emit (dispatched request ∷ []) w in
        let slot = window_slot_from_handoff_packet asked.context packet in
        let script = immediate_script_from_handoff_packet packet in
        let ran = run_script (target_webview slot asked) script asked in
        process_rounds-Good 32 (apply_operations toolkit app packet ran) (
          apply_operations-Good packet ran
            (run_script-Good (target_webview slot asked) script asked good))

-- Whatever the page sends, whatever packets the program answers it and the drain requests with, and
-- whichever windows the toolkit signals or objects it refuses, a message leaves a sound table of
-- windows sound, if no window that the toolkit creates is one that a sound table still holds. Sound is:
-- at most 32 slots, as many as are counted live, each with its window, box and web view and a label
-- that fits, no window twice, at most 32 drain requests, and as the primary window and web view those
-- of the first slot, or none.
pub script_message_received-IsSound :
    (toolkit : Toolkit) (app : App) (message : Option Bytes) (world : World)
    → GivesNew toolkit
    → IsSound world.context
    → IsSound (script_message_received toolkit app message world).context
unfolding script_message_received
script_message_received-IsSound toolkit app message world fresh good = go app.dispatch
  where
    go :
        (d : Option (World → Bytes → Option Bytes))
        → Good (
            if world.context.webview == 0 then world else elim d [
              | none ↦ world
              | some dispatch ↦ message_received toolkit app dispatch message world
            ])
    go none = if-Good (world.context.webview == 0) _ _ good good
    go (some dispatch) =
        if-Good (world.context.webview == 0) _ _ good
          (message_received-Good toolkit app fresh dispatch message world good)
