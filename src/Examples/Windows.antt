-- ===== src/Examples/Windows.antt =====
-- A context of two windows, and the packet of Packets on it.
use lepusa.Base.{◌+◌, true, false, [], ◌∷◌, ◌≡◌, refl, none, some, arith, length, replicate, codes}
use lepusa.CString.{c_str, range_equals}
use lepusa.Examples.Packets.{packet, records, is_handoff, is_operations}
use lepusa.Handoff.Calls.{EmitsEach, Runs, apply_evaluate_scripts_lem}
use lepusa.Handoff.{apply_evaluate_scripts}
use lepusa.Services.{free_entry, no_services}
use lepusa.Session.Shutdown.{close_all_windows_lem}
use lepusa.Session.{World, Toolkit, close_all_windows}
use lepusa.Window.Lookup.{IsLabel}
use lepusa.Window.Registry.{IsSlot, IsValid}
use lepusa.Window.{WindowSlot, BridgeContext, find_exact_from, find_window_slot_exact}

abbrev main_slot : WindowSlot
main_slot = record {
  label = codes "main";
  window = 11;
  box = 12;
  menu_bar = 0;
  accel_group = 0;
  has_window_menu = false;
  webview = 13;
}

abbrev side_slot : WindowSlot
side_slot = record {
  label = codes "side";
  window = 21;
  box = 22;
  menu_bar = 24;
  accel_group = 25;
  has_window_menu = true;
  webview = 23;
}

abbrev pub context : BridgeContext
context = record {
  window = 11;
  webview = 13;
  windows = main_slot ∷ side_slot ∷ [];
  live_windows = 2;
  drain_requests = [];
  tray_icon = 0;
  tray_menu = 0;
  app_menu_payload = none;
}

main_slot-IsSlot : IsSlot main_slot
main_slot-IsSlot = record {
  window_pos = omega arith;
  box_pos = omega arith;
  webview_pos = omega arith;
  label_fits = omega arith;
}

side_slot-IsSlot : IsSlot side_slot
side_slot-IsSlot = record {
  window_pos = omega arith;
  box_pos = omega arith;
  webview_pos = omega arith;
  label_fits = omega arith;
}

pub context-IsValid : IsValid context
context-IsValid = record {
  bounded = omega arith;
  counted = refl;
  slots = (main_slot-IsSlot, (side_slot-IsSlot, tt));
  distinct = (omega arith, (tt, tt));
  primary_window = refl;
  primary_webview = refl;
  drains_bounded = omega arith;
}

abbrev pub world : World
world = record {
  context = context;
  services = no_services;
  signals = [];
  calls = [];
  undefined = false;
}

abbrev pub toolkit : Toolkit
toolkit = record {
  destroyed = λ w. w ∷ [];
  kill_done = λ pid. true;
  created = λ widget w. 100 + length w.calls;
  keyval_from_name = λ name. 0;
  cmdline = some (codes "lepusa");
  spawn = λ argv. some 7;
}

pub log_absent : find_window_slot_exact context (codes "log") ≡ none
unfolding find_window_slot_exact find_exact_from range_equals c_str
log_absent = refl

pub log-IsLabel : IsLabel (codes "log")
log-IsLabel = record { nonempty = omega arith; no_nul = omega arith; fits = omega arith }

close_all_windows_lem_example :
    ((close_all_windows toolkit world).context.windows ≡ [])
    × ((close_all_windows toolkit world).context.live_windows ≡ 0)
    × ((close_all_windows toolkit world).services ≡ replicate (length no_services) free_entry)
close_all_windows_lem_example =
    close_all_windows_lem toolkit (λ w. refl) world context-IsValid (ground arith)

apply_evaluate_scripts_lem_example :
    EmitsEach Runs records world (apply_evaluate_scripts (some packet) world)
apply_evaluate_scripts_lem_example =
    apply_evaluate_scripts_lem is_handoff is_operations world (omega arith)
