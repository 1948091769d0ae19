-- ===== src/Commands/History.antt =====
-- runtime/windows/windows_backend.c: the numbers of items after any history of menus.
use mathlib.Core.List.{foldl}
use lepusa.Base.{
  ℕ, ◌+◌, ◌%◌, ◌^◌, ◌≤◌, ◌<◌, ◌||◌, List, [], ◌∷◌, ◌++◌, ◌≡◌, ◌≢◌, inl, inr, refl, none, some,
  arith, leb, ◌==◌, Bool-cases, length, Bytes,
}
use lepusa.CString.{copy_label_range}
use lepusa.Commands.{
  Commands, first_menu_command, max_menu_commands, max_tray_commands, at_least, new_command,
  register_menu_command, register_tray_command, reset_tray_commands, find_command, menu_command_id,
  tray_command_id, menu_click, wm_command,
}
use lepusa.Commands.Tables.{
  Change, menu_item, tray_item, tray_reset, change, IsCommands, find_command-none,
  find_command-found, find_command-new, register_menu_command-IsCommands, change-IsCommands,
}

abbrev pub initial : Commands
initial = record {
  menu_commands = [];
  next_menu_command_id = 0;
  tray_commands = [];
  next_tray_command_id = 0;
}

initial-IsCommands : IsCommands initial
initial-IsCommands = record {
  menu = record { numbered = tt; bounded = omega arith; following = ground arith };
  tray = record { numbered = tt; bounded = omega arith; following = ground arith };
}

history-IsCommands :
    (changes : List Change) (c : Commands) → IsCommands c → IsCommands (foldl change c changes)
history-IsCommands [] c t = t
history-IsCommands (ch ∷ changes) c t =
    history-IsCommands changes (change c ch) (change-IsCommands ch c t)

-- The number of an item in a menu stays.
abbrev Stands : ℕ → Bytes → Commands → Type 0
Stands n id c = find_command n c.menu_commands ≡ some id

register-Stands :
    (n : ℕ) (id id' : Bytes) (c : Commands)
    → Stands n id c
    → Stands n id (register_menu_command id' c).0
unfolding register_menu_command
register-Stands n id id' c e =
    elim (Bool-cases (length id' == 0 || leb max_menu_commands (length c.menu_commands))) [
      | inl refused ↦ rw refused e
      | inr room ↦
          let command_id = at_least first_menu_command c.next_menu_command_id in
          let kept = find_command-found n c.menu_commands (new_command command_id id' ∷ []) id e in
          rw room kept
    ]

tray-Stands :
    (n : ℕ) (id id' : Bytes) (c : Commands)
    → Stands n id c
    → Stands n id (register_tray_command id' c).0
unfolding register_tray_command
tray-Stands n id id' c e =
    elim (Bool-cases (length id' == 0 || leb max_tray_commands (length c.tray_commands))) [
      | inl refused ↦ rw refused e
      | inr room ↦ rw room e
    ]

change-Stands :
    (n : ℕ) (id : Bytes) (ch : Change) (c : Commands) → Stands n id c → Stands n id (change c ch)
unfolding reset_tray_commands
change-Stands n id (menu_item id') c e = register-Stands n id id' c e
change-Stands n id (tray_item id') c e = tray-Stands n id id' c e
change-Stands n id tray_reset c e = e

history-Stands :
    (n : ℕ) (id : Bytes) (changes : List Change) (c : Commands)
    → Stands n id c
    → Stands n id (foldl change c changes)
history-Stands n id [] c e = e
history-Stands n id (ch ∷ changes) c e =
    history-Stands n id changes (change c ch) (change-Stands n id ch c e)

-- A number that is given to an item.
record Given (id : Bytes) (c : Commands) : Type 0 where
  above : 1000 ≤ (register_menu_command id c).1
  below : (register_menu_command id c).1 < 1512
  stands :
      Stands (register_menu_command id c).1 (copy_label_range 128 id) (register_menu_command id c).0

register-Given :
    (id : Bytes) (c : Commands) → IsCommands c → (register_menu_command id c).1 ≢ 0 → Given id c
register-Given id c t given =
    elim (Bool-cases (length id == 0 || leb max_menu_commands (length c.menu_commands))) [
      | inl refused ↦ absurd (given (unfold register_menu_command in rw refused refl))
      | inr room ↦
          let following = t.menu.following in
          let named : (register_menu_command id c).1 ≡ 1000 + length c.menu_commands =
            (unfold register_menu_command in rw room following) in
          let put : (register_menu_command id c).0.menu_commands
              ≡ c.menu_commands ++ (new_command (1000 + length c.menu_commands) id ∷ []) =
            (unfold register_menu_command in rw (room, following) refl) in
          record {
            above = omega (arith, named);
            below = ground (arith, named, room);
            stands = rw (named, put) (find_command-new 1000 c.menu_commands id t.menu.numbered);
          }
    ]

-- Whatever menus were made before and are made afterwards, on the windows and in the tray, a message
-- with the number that an item of a menu was given is a click on that item, under its id cut to what
-- the table holds, and never on an item of the tray.
pub wm_command-register_menu_command :
    (before after : List Change) (id : Bytes)
    → let registered = register_menu_command id (foldl change initial before) in
      registered.1 ≢ 0
      → wm_command (foldl change registered.0 after) registered.1
        ≡ menu_click (copy_label_range 128 id)
unfolding wm_command tray_command_id menu_command_id
wm_command-register_menu_command before after id given =
    let c = foldl change initial before in
    let t = history-IsCommands before initial initial-IsCommands in
    let g = register-Given id c t given in
    let r = register_menu_command id c in
    let later = foldl change r.0 after in
    let tables = history-IsCommands after r.0 (register_menu_command-IsCommands id c t) in
    let low : r.1 % 2 ^ 16 ≡ r.1 = omega (arith, g.below) in
    let no_tray : find_command r.1 later.tray_commands ≡ none =
      find_command-none 20000 r.1 later.tray_commands tables.tray.numbered
        (inl (omega (arith, g.below))) in
    let item : find_command r.1 later.menu_commands ≡ some (copy_label_range 128 id) =
      history-Stands r.1 (copy_label_range 128 id) after r.0 g.stands in
    rw (low, no_tray, item) refl
