-- ===== src/Commands/Full.antt =====
-- runtime/windows/windows_backend.c: the array of the menus when it is full.
use mathlib.Core.List.{foldl}
use lepusa.Base.{
  ℕ, ◌≤◌, true, ◌||◌, List, [], ◌∷◌, ◌≡◌, inl, inr, refl, ap, arith, leb, ◌==◌, Bool-cases, length,
  Bytes,
}
use lepusa.Commands.{
  Commands, max_menu_commands, max_tray_commands, register_menu_command, register_tray_command,
  reset_tray_commands,
}
use lepusa.Commands.Tables.{Change, menu_item, tray_item, tray_reset, change}

-- The array of the menus is full.
abbrev pub IsFull : Commands → Type 0
IsFull c = 512 ≤ length c.menu_commands

register-IsFull : (id : Bytes) (c : Commands) → IsFull c → register_menu_command id c ≡ (c, 0)
unfolding register_menu_command
register-IsFull id c full =
    let refused : (length id == 0 || leb max_menu_commands (length c.menu_commands)) ≡ true =
      ground (arith, full) in
    rw refused refl

tray-IsFull : (id : Bytes) (c : Commands) → IsFull c → IsFull (register_tray_command id c).0
unfolding register_tray_command
tray-IsFull id c full =
    elim (Bool-cases (length id == 0 || leb max_tray_commands (length c.tray_commands))) [
      | inl refused ↦ rw refused full
      | inr room ↦ rw room full
    ]

menu-IsFull : (id : Bytes) (c : Commands) → IsFull c → IsFull (register_menu_command id c).0
menu-IsFull id c full = let same = register-IsFull id c full in rw same full

change-IsFull : (ch : Change) (c : Commands) → IsFull c → IsFull (change c ch)
unfolding reset_tray_commands
change-IsFull (menu_item id) c full = menu-IsFull id c full
change-IsFull (tray_item id) c full = tray-IsFull id c full
change-IsFull tray_reset c full = full

-- Nothing empties the array of the menus: once it holds 512 items, no item of any menu that is made
-- later is given a number, although the menus before may be gone.
pub register_menu_command-full :
    (id : Bytes) (after : List Change) (c : Commands)
    → IsFull c
    → (register_menu_command id (foldl change c after)).1 ≡ 0
register_menu_command-full id [] c full = ap (λ (r : Commands × ℕ). r.1) (register-IsFull id c full)
register_menu_command-full id (ch ∷ after) c full =
    register_menu_command-full id after (change c ch) (change-IsFull ch c full)
