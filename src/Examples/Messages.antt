-- ===== src/Examples/Messages.antt =====
-- A run of the program, whose page sends a message that is answered with a new window.
use lepusa.Base.{ℕ, suc, ◌+◌, ◌<◌, true, List, [], ◌∷◌, ◌≡◌, refl, some, arith, Bytes, codes, pos}
use lepusa.CString.{c_str}
use lepusa.Examples.Windows.{toolkit, world}
use lepusa.Open.Sound.{GivesNew}
use lepusa.Open.{App, has_text, signal_name}
use lepusa.Run.Sound.{Outcome, start_webview-Outcome, main_loop-IsSound}
use lepusa.Run.{
  RunArguments, Host, Event, script_message, destroyed_signal, menu_item_activate,
  tray_icon_activate, start_webview, first_window, first_content, show_first, begin_context,
  register_assets, enter_first, reveal_first, main_loop,
}
use lepusa.Session.{Toolkit}
use lepusa.Window.Registry.Sound.{IsSound}
use lepusa.Window.Registry.{Absent}
use lepusa.Window.{WindowSlot}

abbrev open_packet : Bytes
open_packet =
    codes
      "immediate\nmain\n3\nf()\nlepusa-ops-v3\n1\n11\nopen-window3\nlog0\n10\nlepusa://x3\nLog3\n8003\n6000\n0\n0\n4\ntrue1\n14\nhook6\nlepusa"

abbrev total : List WindowSlot → ℕ
total [] = 0
total (s ∷ ss) = s.window + total ss

-- A toolkit whose new objects lie behind all windows of the table.
abbrev fresh_toolkit : Toolkit
fresh_toolkit = record toolkit { created = λ widget w. suc (total w.context.windows) }

total-Absent : (n : ℕ) (ss : List WindowSlot) → total ss < n → Absent n ss
total-Absent n [] h = tt
total-Absent n (s ∷ ss) h = (λ e. omega (arith, e, h), total-Absent n ss (omega arith))

fresh_toolkit-GivesNew : GivesNew fresh_toolkit
fresh_toolkit-GivesNew w good =
    total-Absent (suc (total w.context.windows)) w.context.windows (omega arith)

abbrev app : App
app = record {
  dispatch = some (λ w message. some open_packet);
  resolve_asset = some (λ w uri. some (codes "ok\nvirtual\ntext/plain\nx"));
}

abbrev host : Host
host = record { webkit_loaded = true; texts_allocated = true; gtk_initialized = true }

abbrev arguments : RunArguments
arguments = record {
  label = codes "main";
  title = codes "Main";
  url = codes "lepusa://main";
  initialization_script = codes "f()";
  native_hook = codes "lepusa";
  asset_protocol = codes "lepusa";
  initial_open_packet = some open_packet;
  width = pos 800;
  height = pos 0;
  resizable = true;
}

abbrev events : List Event
events =
    script_message (some (codes "open"))
    ∷ menu_item_activate (codes "menu") (codes "quit")
    ∷ tray_icon_activate
    ∷ destroyed_signal 1
    ∷ []

started : (start_webview fresh_toolkit app host arguments world).0 ≡ 0
unfolding start_webview first_window first_content show_first begin_context register_assets
    enter_first reveal_first has_text c_str signal_name
started = refl

start_webview-Outcome_example :
    Outcome fresh_toolkit app arguments world (start_webview fresh_toolkit app host arguments world)
start_webview-Outcome_example = start_webview-Outcome fresh_toolkit app host arguments world

main_loop-IsSound_example :
    IsSound
      (main_loop fresh_toolkit app arguments.initial_open_packet events
        (start_webview fresh_toolkit app host arguments world).1).context
main_loop-IsSound_example =
    main_loop-IsSound fresh_toolkit app host arguments events world fresh_toolkit-GivesNew started
