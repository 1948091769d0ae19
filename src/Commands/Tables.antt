-- ===== src/Commands/Tables.antt =====
-- runtime/windows/windows_backend.c: the well-formed tables of items.
use lepusa.Base.{
  ℕ, suc, ◌+◌, ◌%◌, ◌^◌, ◌≤◌, ◌<◌, false, ◌||◌, List, [], ◌∷◌, ◌++◌, ◌≡◌, ◌⊎◌, inl, inr, refl, ◌∙◌,
  none, some, arith, leb, ◌==◌, ==-refl, Bool-cases, length, length-append, Bytes,
}
use lepusa.CString.{copy_label_range}
use lepusa.Commands.{
  Command, Commands, first_menu_command, max_menu_commands, first_tray_command, max_tray_commands,
  at_least, new_command, register_menu_command, register_tray_command, reset_tray_commands,
  find_command,
}

-- A call that changes the numbers.
pub data Change : Type 0 where
  menu_item tray_item : Bytes → Change
  tray_reset : Change

abbrev pub change : Commands → Change → Commands
change c (menu_item id) = (register_menu_command id c).0
change c (tray_item id) = (register_tray_command id c).0
change c tray_reset = reset_tray_commands c

-- The numbers go up one by one.
abbrev pub Numbered : ℕ → List Command → Type 0
Numbered n [] = Unit
Numbered n (c ∷ cs) = (c.command_id ≡ n) × Numbered (suc n) cs

pub record IsTable (first limit : ℕ) (commands : List Command) (next : ℕ) : Type 0 where
  pub numbered : Numbered first commands
  pub bounded : length commands ≤ limit
  pub following : at_least first next ≡ first + length commands

pub record IsCommands (c : Commands) : Type 0 where
  pub menu : IsTable first_menu_command max_menu_commands c.menu_commands c.next_menu_command_id
  pub tray : IsTable first_tray_command max_tray_commands c.tray_commands c.next_tray_command_id

Numbered-append :
    (n : ℕ) (cs : List Command) (c : Command)
    → Numbered n cs
    → c.command_id ≡ n + length cs
    → Numbered n (cs ++ (c ∷ []))
Numbered-append n [] c h e = (omega (arith, e), tt)
Numbered-append n (d ∷ cs) c (hd, h) e = (hd, Numbered-append (suc n) cs c h (omega (arith, e)))

pub find_command-none :
    (n m : ℕ) (cs : List Command)
    → Numbered n cs
    → (m < n) ⊎ (n + length cs ≤ m)
    → find_command m cs ≡ none
unfolding find_command
find_command-none n m [] h out = refl
find_command-none n m (d ∷ cs) (hd, h) out =
    let other : (d.command_id == m) ≡ false = ground (arith, hd, out) in
    rw other (find_command-none (suc n) m cs h (ground (arith, out)))

pub find_command-found :
    (m : ℕ) (cs ds : List Command) (id : Bytes)
    → find_command m cs ≡ some id
    → find_command m (cs ++ ds) ≡ some id
unfolding find_command
find_command-found m [] ds id e = cc
find_command-found m (c ∷ cs) ds id e = elim (Bool-cases (c.command_id == m)) [
  | inl here ↦ rw here (rw here at e)
  | inr later ↦ rw later (find_command-found m cs ds id (rw later at e))
]

find_command-absent :
    (m : ℕ) (cs ds : List Command)
    → find_command m cs ≡ none
    → find_command m (cs ++ ds) ≡ find_command m ds
unfolding find_command
find_command-absent m [] ds e = refl
find_command-absent m (c ∷ cs) ds e = elim (Bool-cases (c.command_id == m)) [
  | inl here ↦ let found : some c.id ≡ none = rw here at e in cc
  | inr later ↦ rw later (find_command-absent m cs ds (rw later at e))
]

pub find_command-new :
    (n : ℕ) (cs : List Command) (id : Bytes)
    → Numbered n cs
    → find_command (n + length cs) (cs ++ (new_command (n + length cs) id ∷ []))
      ≡ some (copy_label_range 128 id)
unfolding find_command
find_command-new n cs id h =
    let absent = find_command-none n (n + length cs) cs h (inr (omega arith)) in
    find_command-absent (n + length cs) cs (new_command (n + length cs) id ∷ []) absent
    ∙ rw (==-refl (n + length cs)) refl

at_least-above : (first n : ℕ) → first ≤ n → at_least first n ≡ n
at_least-above first n above = ground (arith, above)

-- Registering in a table that has room.
IsTable-append :
    (first limit : ℕ) (cs : List Command) (next : ℕ) (id : Bytes)
    → IsTable first limit cs next
    → length cs < limit
    → first + limit < 65536
    → IsTable first limit
        (cs ++ (new_command (at_least first next) id ∷ []))
        ((at_least first next + 1) % 2 ^ 32)
IsTable-append first limit cs next id t room small =
    let following = t.following in
    let measured = length-append cs (new_command (at_least first next) id ∷ []) in
    record {
      numbered =
          Numbered-append first cs (new_command (at_least first next) id) t.numbered following;
      bounded = omega (arith, measured, room);
      following =
          (let wrapped : (at_least first next + 1) % 2 ^ 32 ≡ at_least first next + 1 =
              omega (arith, following, room, small) in
            rw wrapped (
              at_least-above first (at_least first next + 1) (omega (arith, following))
              ∙ omega (arith, following, measured)));
    }

pub register_menu_command-IsCommands :
    (id : Bytes) (c : Commands) → IsCommands c → IsCommands (register_menu_command id c).0
unfolding register_menu_command
register_menu_command-IsCommands id c t =
    elim (Bool-cases (length id == 0 || leb max_menu_commands (length c.menu_commands))) [
      | inl refused ↦ rw refused t
      | inr room ↦ rw room (record {
        menu =
            IsTable-append first_menu_command max_menu_commands c.menu_commands
              c.next_menu_command_id id t.menu (ground (arith, room)) (omega arith);
        tray = t.tray;
      })
    ]

register_tray_command-IsCommands :
    (id : Bytes) (c : Commands) → IsCommands c → IsCommands (register_tray_command id c).0
unfolding register_tray_command
register_tray_command-IsCommands id c t =
    elim (Bool-cases (length id == 0 || leb max_tray_commands (length c.tray_commands))) [
      | inl refused ↦ rw refused t
      | inr room ↦ rw room (record {
        menu = t.menu;
        tray =
            IsTable-append first_tray_command max_tray_commands c.tray_commands
              c.next_tray_command_id id t.tray (ground (arith, room)) (omega arith);
      })
    ]

pub change-IsCommands : (ch : Change) (c : Commands) → IsCommands c → IsCommands (change c ch)
unfolding reset_tray_commands
change-IsCommands (menu_item id) c t = register_menu_command-IsCommands id c t
change-IsCommands (tray_item id) c t = register_tray_command-IsCommands id c t
change-IsCommands tray_reset c t = record {
  menu = t.menu;
  tray = record { numbered = tt; bounded = omega arith; following = omega arith };
}
