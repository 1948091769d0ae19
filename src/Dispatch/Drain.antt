-- ===== src/Dispatch/Drain.antt =====
-- runtime/linux/linux_backend.c: process_bridge_drain_requests where the answers hold no operations, as
-- those of drain_window_packet_bytes in runtime/bridge_transport.mbt for an empty queue of the program.
use lepusa.Base.{
  ℕ, ◌<◌, List, [], ◌∷◌, ◌++◌, ◌≡◌, ◌≢◌, Option, some, ◌==◌, if◌then◌else◌, length, All, Bytes,
  codes,
}
use lepusa.Open.{App}
use lepusa.CString.{c_str}
use lepusa.Packet.Header.{IsHandoff, IsOperations}
use lepusa.Session.{Call, run_javascript, dispatched, World, emit, Toolkit}
use lepusa.Window.Addressed.{Addressed, webview_or}
use lepusa.Window.{BridgeContext, BridgeDrainRequest, find_window_slot}

-- The answer to a drain request: a packet with a script, which the program leaves empty, and no
-- operations.
pub record IsAnswer (script : Bytes) (answer : Option Bytes) : Type 0 where
  pub label : Bytes
  pub operations : Bytes
  pub packet : Bytes
  pub answered : answer ≡ some packet
  pub handoff : IsHandoff label script operations packet
  pub no_operations : IsOperations [] operations
  pub label_no_nul : All (λ c. c ≢ 0) label
  pub script_no_nul : All (λ c. c ≢ 0) script
  pub spelled : 0 < length handoff.length_line

abbrev pub drain_message : Bytes → Bytes
drain_message label = codes "lepusa-drain-v1\n" ++ label

-- The calls for a request: the message, and the script of its answer in the web view of its window.
abbrev pub request_calls : (Bytes → ℕ) → (Bytes → Bytes) → Bytes → List Call
request_calls targets scripts label =
    dispatched (drain_message label)
    ∷ (if targets label == 0
        then []
        else run_javascript (targets label) (scripts (drain_message label)) ∷ [])

-- The requests in their order.
abbrev pub drain_calls : (Bytes → ℕ) → (Bytes → Bytes) → List BridgeDrainRequest → List Call
drain_calls targets scripts [] = []
drain_calls targets scripts (r ∷ rs) =
    request_calls targets scripts (c_str r.window_label) ++ drain_calls targets scripts rs

-- What a label addresses, as `process_request` finds it.
abbrev target : BridgeContext → Bytes → ℕ
target context label = webview_or context.webview (find_window_slot context label)

module _ (toolkit : Toolkit) (app : App) where
  module _ (dispatch : World → Bytes → Option Bytes) (scripts : Bytes → Bytes)
      (answers : (w : World) (m : Bytes) → IsAnswer (scripts m) (dispatch w m)) where
    drained : World → World
    drained w =
        emit (drain_calls (target w.context) scripts w.context.drain_requests)
          (record w { context = record w.context { drain_requests = [] } })
