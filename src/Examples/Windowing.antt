-- ===== src/Examples/Windowing.antt =====
-- The URLs of assets, the numbers of menu items and the service processes on Windows.
use lepusa.AssetUrls.RoundTrip.{Converts, resolver_url-webview_url}
use lepusa.AssetUrls.{
  Conversions, bytes_from_wstr, webview_url_from_asset_url, resolver_url_from_webview_url,
}
use lepusa.CString.Laws.{c_str-no_nul}
use lepusa.Utf8.{ascii-IsUtf8}
use lepusa.Base.{ℕ, ◌+◌, true, false, List, [], ◌∷◌, ◌≡◌, refl, ap, some, arith, replicate, codes}
use lepusa.CString.{copy_label_range}
use lepusa.Processes.Handles.{held, closed}
use lepusa.Processes.History.{ServiceCall, start, stop, terminate, run, opened, handles_balance}
use lepusa.Processes.{free_handle}
use lepusa.Commands.Full.{register_menu_command-full}
use lepusa.Commands.History.{initial, wm_command-register_menu_command}
use lepusa.Commands.Tables.{Change, menu_item, tray_item, tray_reset, change}
use lepusa.Commands.{Commands, register_menu_command, register_tray_command, wm_command, menu_click}
use mathlib.Core.List.{foldl}

-- Wide characters that are the bytes.
abbrev conversions : Conversions
conversions = record { wide_of = λ text. text; utf8_of = λ wide. some wide }

conversions-Converts : Converts conversions
conversions-Converts = record {
  filled = λ text valid long. long;
  back = λ text valid clean. ap some (c_str-no_nul text clean);
}

resolver_url-webview_url_example :
    resolver_url_from_webview_url
      (bytes_from_wstr conversions (
        webview_url_from_asset_url conversions
          (some (codes "lepusa://app.js"))
          (some (codes "lepusa"))))
      (some (codes "lepusa"))
    ≡ some (codes "lepusa://app.js")
resolver_url-webview_url_example =
    resolver_url-webview_url conversions (codes "lepusa") (codes "app.js") conversions-Converts refl
      (ascii-IsUtf8 (codes "lepusa") (omega arith)) (ascii-IsUtf8 (codes "app.js") (omega arith))
      (omega arith) (omega arith)

abbrev before : List Change
before = menu_item (codes "file.open") ∷ tray_item (codes "show") ∷ []

abbrev after : List Change
after = tray_reset ∷ tray_item (codes "hide") ∷ menu_item (codes "file.quit") ∷ []

abbrev saved : Commands × ℕ
saved = register_menu_command (codes "file.save") (foldl change initial before)

given : saved.1 ≡ 1001
unfolding register_menu_command register_tray_command copy_label_range
given = refl

wm_command-register_menu_command_example :
    wm_command (foldl change saved.0 after) saved.1 ≡ menu_click (codes "file.save")
unfolding copy_label_range
wm_command-register_menu_command_example =
    wm_command-register_menu_command before after (codes "file.save") (λ e. omega (arith, given, e))

abbrev full : Commands
full = record {
  menu_commands = replicate 512 (record { command_id = 1000; id = [] });
  next_menu_command_id = 1512;
  tray_commands = [];
  next_tray_command_id = 0;
}

register_menu_command-full_example :
    (register_menu_command (codes "file.open") (foldl change full after)).1 ≡ 0
register_menu_command-full_example =
    register_menu_command-full (codes "file.open") after full (omega arith)

-- Two services; the first is started again, the second is stopped, and the program ends.
abbrev calls : List ServiceCall
calls =
    start (λ p. true) (λ line. some 70) (some (codes "api")) (some (codes "4\nnode"))
    ∷ start (λ p. true) (λ line. some 71) (some (codes "db")) (some (codes "2\ndb"))
    ∷ start (λ p. true) (λ line. some 72) (some (codes "api")) (some (codes "4\nnode"))
    ∷ stop (λ p. false) (some (codes "db"))
    ∷ terminate (λ p. true) false
    ∷ terminate (λ p. true) true
    ∷ []

handles_balance_example :
    held 72 (run calls (replicate 64 free_handle)).0
      + closed 72 (run calls (replicate 64 free_handle)).1
    ≡ opened 72 calls
handles_balance_example = handles_balance 72 calls (omega arith)
