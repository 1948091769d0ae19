-- ===== src/Handoff.antt =====
-- runtime/linux/linux_backend.c: the functions `apply_…_from_handoff_packet` for window controls,
-- navigation, bridge drains and scripts. Each goes through the records of a packet on its own.
pub mod Invariant
pub mod Calls
use lepusa.Base.{
  ℕ, ◌-◌, Bool, true, false, not, ◌&&◌, ◌||◌, [], ◌∷◌, Option, none, some, ◌==◌, if◌then◌else◌,
  length, Bytes, codes, ℤ, positive,
}
use lepusa.CString.{c_str, range_equals}
use lepusa.Packet.Numbers.{
  RecordInt, rejected, parsed, overflow, parse_record_int, parse_record_bool,
}
use lepusa.Packet.{NativeOperationRecord, apply_records}
use lepusa.Session.{
  Call, set_title, resize, move, fullscreen, unfullscreen, show_all, present, hide, iconify,
  maximize, unmaximize, destroy, load_uri, run_javascript, World, emit, Toolkit, slot_window,
  slot_webview, destroy_window,
}
use lepusa.Window.{WindowSlot, BridgeContext, find_window_slot, register_bridge_drain_request}

-- Two numbers of a record, the second read only if the first is a number.
pub data IntPair : Type 0 where
  both : ℤ → ℤ → IntPair
  skipped : IntPair
  overflowed : IntPair

parse_second : ℤ → RecordInt → IntPair
parse_second a (parsed b) = both a b
parse_second a rejected = skipped
parse_second a overflow = overflowed

parse_pair : RecordInt → Bytes → IntPair
unfolding parse_second parse_record_int
parse_pair (parsed a) second = parse_second a (parse_record_int second)
parse_pair rejected second = skipped
parse_pair overflow second = overflowed

set_size : ℕ → IntPair → World → World
set_size window (both width height) world =
    if positive width && positive height
    then emit (resize window width height ∷ []) world
    else world
set_size window skipped world = world
set_size window overflowed world = record world { undefined = true }

set_position : ℕ → IntPair → World → World
set_position window (both x y) world = emit (move window x y ∷ []) world
set_position window skipped world = world
set_position window overflowed world = record world { undefined = true }

set_fullscreen : ℕ → Option Bool → World → World
set_fullscreen window none world = world
set_fullscreen window (some on) world =
    emit ((if on then fullscreen window else unfullscreen window) ∷ []) world

module _ (toolkit : Toolkit) where
  destroy_once : ℕ → World × Bool → World × Bool
  destroy_once window (world, closed) =
      if closed then (world, closed) else (destroy_window toolkit window world, true)

  -- The chain of tests on the action of a `window-control` record.
  control_window : NativeOperationRecord → ℕ → World × Bool → World × Bool
  control_window r window (world, closed) =
      if range_equals r.action (codes "setTitle")
      then (emit (set_title window (c_str r.title) ∷ []) world, closed)
      else if range_equals r.action (codes "setSize")
      then (set_size window (parse_pair (parse_record_int r.width) r.height) world, closed)
      else if range_equals r.action (codes "setPosition")
      then (set_position window (parse_pair (parse_record_int r.x) r.y) world, closed)
      else if range_equals r.action (codes "setFullscreen")
      then (set_fullscreen window (parse_record_bool r.fullscreen) world, closed)
      else if range_equals r.action (codes "show")
      then (emit (show_all window ∷ []) world, closed)
      else if range_equals r.action (codes "focus")
      then (emit (present window ∷ []) world, closed)
      else if range_equals r.action (codes "hide")
      then (emit (hide window ∷ []) world, closed)
      else if range_equals r.action (codes "minimize")
      then (emit (iconify window ∷ []) world, closed)
      else if range_equals r.action (codes "maximize")
      then (emit (maximize window ∷ []) world, closed)
      else if range_equals r.action (codes "unmaximize")
      then (emit (unmaximize window ∷ []) world, closed)
      else if range_equals r.action (codes "close")
      then destroy_once window (world, closed)
      else (world, closed)

  -- The body of the loop; the flag is `closed`.
  unfoldable pub apply_window_control : NativeOperationRecord → World × Bool → World × Bool
  unfolding control_window destroy_once range_equals find_window_slot parse_pair set_size
      set_position set_fullscreen parse_record_int parse_record_bool c_str
  apply_window_control r (world, closed) =
      let window = slot_window (find_window_slot world.context r.window) in
      if window == 0
      then (world, closed)
      else if range_equals r.kind (codes "close-window")
      then destroy_once window (world, closed)
      else if not (range_equals r.kind (codes "window-control"))
      then (world, closed)
      else control_window r window (world, closed)

  unfoldable pub apply_window_controls : Option Bytes → World → World
  unfolding apply_window_control apply_records
  apply_window_controls packet world =
      if world.context.window == 0
      then world
      else (apply_records packet apply_window_control (world, false)).0

unfoldable pub navigate : NativeOperationRecord → World → World
unfolding find_window_slot range_equals c_str
navigate r world =
    let webview = slot_webview (find_window_slot world.context r.window) in
    if not (range_equals r.kind (codes "navigate-window"))
    then world
    else if webview == 0
    then world
    else emit (load_uri webview (c_str r.url) ∷ []) world

unfoldable pub apply_navigation : Option Bytes → World → World
unfolding navigate apply_records
apply_navigation packet world =
    if world.context.webview == 0 then world else apply_records packet navigate world

unfoldable pub drain_bridge : NativeOperationRecord → World → World
unfolding register_bridge_drain_request range_equals
drain_bridge r world =
    if not (range_equals r.kind (codes "drain-bridge-window"))
    then world
    else record world { context = register_bridge_drain_request r.window r.action world.context }

unfoldable pub apply_bridge_drains : Option Bytes → World → World
unfolding drain_bridge apply_records
apply_bridge_drains packet = apply_records packet drain_bridge

unfoldable pub evaluate_script : NativeOperationRecord → World → World
unfolding find_window_slot range_equals c_str
evaluate_script r world =
    let webview = slot_webview (find_window_slot world.context r.window) in
    if not (range_equals r.kind (codes "evaluate-script")) || length r.url == 0
    then world
    else if webview == 0
    then world
    else emit (run_javascript webview (c_str r.url) ∷ []) world

unfoldable pub apply_evaluate_scripts : Option Bytes → World → World
unfolding evaluate_script apply_records
apply_evaluate_scripts packet world =
    if world.context.webview == 0 then world else apply_records packet evaluate_script world
