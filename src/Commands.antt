-- ===== src/Commands.antt =====
-- runtime/windows/windows_backend.c: the numbers of the items in menus and in the menu of the tray, and
-- the item that a WM_COMMAND message stands for.
pub mod Tables
pub mod History
pub mod Full
use mathlib.Core.List.{foldl}
use lepusa.Base.{
  ℕ, ◌+◌, ◌%◌, ◌^◌, ◌||◌, List, [], ◌∷◌, ◌++◌, Option, none, some, ltb, leb, ◌==◌, if◌then◌else◌,
  length, Bytes,
}
use lepusa.CString.{copy_label_range}

-- LepusaWindowsMenuCommand and LepusaWindowsTrayCommand.
pub record Command : Type 0 where
  pub command_id : ℕ
  pub id : Bytes

-- What LepusaWindowsWebView2Context holds of them.
pub record Commands : Type 0 where
  pub menu_commands : List Command
  pub next_menu_command_id : ℕ
  pub tray_commands : List Command
  pub next_tray_command_id : ℕ

-- The first number, and the size of the array.
abbrev pub first_menu_command : ℕ
first_menu_command = 1000

abbrev pub max_menu_commands : ℕ
max_menu_commands = 512

abbrev pub first_tray_command : ℕ
first_tray_command = 20000

abbrev pub max_tray_commands : ℕ
max_tray_commands = 256

abbrev pub at_least : ℕ → ℕ → ℕ
at_least first next = if ltb next first then first else next

abbrev pub new_command : ℕ → Bytes → Command
new_command command_id id = record { command_id = command_id; id = copy_label_range 128 id }

-- The number is a UINT of 32 bits.
unfoldable pub register_menu_command : Bytes → Commands → Commands × ℕ
unfolding copy_label_range
register_menu_command id c =
    let command_id = at_least first_menu_command c.next_menu_command_id in
    if length id == 0 || leb max_menu_commands (length c.menu_commands) then (c, 0) else (
      record c {
        menu_commands = c.menu_commands ++ (new_command command_id id ∷ []);
        next_menu_command_id = (command_id + 1) % 2 ^ 32;
      },
      command_id,
    )

unfoldable pub register_tray_command : Bytes → Commands → Commands × ℕ
unfolding copy_label_range
register_tray_command id c =
    let command_id = at_least first_tray_command c.next_tray_command_id in
    if length id == 0 || leb max_tray_commands (length c.tray_commands) then (c, 0) else (
      record c {
        tray_commands = c.tray_commands ++ (new_command command_id id ∷ []);
        next_tray_command_id = (command_id + 1) % 2 ^ 32;
      },
      command_id,
    )

unfoldable pub reset_tray_commands : Commands → Commands
reset_tray_commands c = record c { tray_commands = []; next_tray_command_id = first_tray_command }

-- The loop of `menu_command_id` and `tray_command_id`.
unfoldable pub find_command : ℕ → List Command → Option Bytes
find_command command_id [] = none
find_command command_id (c ∷ cs) =
    if c.command_id == command_id then some c.id else find_command command_id cs

unfoldable pub menu_command_id : Commands → ℕ → Option Bytes
unfolding find_command
menu_command_id c command_id = find_command command_id c.menu_commands

unfoldable pub tray_command_id : Commands → ℕ → Option Bytes
unfolding find_command
tray_command_id c command_id = find_command command_id c.tray_commands

-- What is dispatched for a message: a click on the tray's menu, on a menu, or nothing.
pub data Click : Type 0 where
  tray_click menu_click : Bytes → Click
  no_click : Click

abbrev click_of : Option Bytes → Option Bytes → Click
click_of (some id) item = tray_click id
click_of none (some id) = menu_click id
click_of none none = no_click

-- `LOWORD(wparam)`
unfoldable pub wm_command : Commands → ℕ → Click
unfolding menu_command_id tray_command_id
wm_command c wparam =
    let command_id = wparam % 2 ^ 16 in
    click_of (tray_command_id c command_id) (menu_command_id c command_id)
