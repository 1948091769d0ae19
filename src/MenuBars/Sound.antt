-- ===== src/MenuBars/Sound.antt =====
-- runtime/linux/linux_backend.c: setting and clearing menus, and the contexts of
-- Window.Registry.Sound.
use lepusa.Base.{
  ℕ, zero, suc, ◌+◌, Bool, true, false, not, ◌&&◌, ◌≡◌, inl, inr, refl, ◌∙◌, Option, none, some,
  ◌==◌, if◌then◌else◌, Bool-cases, Option-cases, length, get_elem?, Bytes,
}
use lepusa.Menu.Keeps.{menu_bar_from_payload-Keeps}
use lepusa.Menu.{menu_bar_from_payload}
use lepusa.Session.{World, Toolkit, clear_window_menu_bar}
use lepusa.MenuBars.{
  put_slot, set_payload, clear_menu_at, install_menu_bar, accel_group_for, set_window_menu_bar,
  app_menu_round, clear_menu_round, for_each_slot, apply_app_menu_to_available_windows,
  set_app_menu, clear_app_menu, set_menu_of, set_specific_window_menu, restore_menu, clear_menu_of,
  clear_specific_window_menu, show_app_menu,
}
use lepusa.Window.Lookup.{find_window_slot_elem}
use lepusa.Window.Registry.Sound.{IsSound, desktop-IsSound}
use lepusa.Window.Registry.Update.{SameSlot, set-IsSound, get-set}
use lepusa.Window.{WindowSlot, find_window_slot}

abbrev pub Good : World → Type 0
Good world = IsSound world.context

-- The slot stands in the table at that index.
abbrev At : ℕ → WindowSlot → World → Type 0
At i slot world = get_elem? world.context.windows i ≡ some slot

pub if-Good : (b : Bool) (v w : World) → Good v → Good w → Good (if b then v else w)
if-Good true v w g h = g
if-Good false v w g h = h

put_slot-Good :
    (i : ℕ) (s t : WindowSlot) (world : World)
    → SameSlot s t
    → At i s world
    → Good world
    → Good (put_slot i t world)
put_slot-Good i s t world e h good = set-IsSound e i world.context h good

clear_menu_at-Good :
    (i : ℕ) (slot : WindowSlot) (world : World)
    → At i slot world
    → Good world
    → Good (clear_menu_at i slot world)
unfolding clear_menu_at clear_window_menu_bar
clear_menu_at-Good i slot world h good =
    put_slot-Good i slot (record slot { menu_bar = 0; accel_group = 0 }) world
      (record { label = refl; window = refl; box = refl; webview = refl }) h good

install_menu_bar-Good :
    (i : ℕ) (slot : WindowSlot) (menu_bar accel_group : ℕ) (world : World)
    → At i slot world
    → Good world
    → Good (install_menu_bar i slot menu_bar accel_group world)
unfolding install_menu_bar clear_window_menu_bar
install_menu_bar-Good i slot menu_bar accel_group world h good =
    put_slot-Good i slot (record slot { menu_bar = menu_bar; accel_group = accel_group }) world
      (record { label = refl; window = refl; box = refl; webview = refl }) h good

accel_group_for-context :
    (toolkit : Toolkit) (slot : WindowSlot) (world : World)
    → (accel_group_for toolkit slot world).1.context ≡ world.context
unfolding accel_group_for
accel_group_for-context toolkit slot world = elim (Bool-cases (slot.window == 0)) [
  | inl e ↦ rw e refl
  | inr e ↦ rw e refl
]

pub set_window_menu_bar-Good :
    (toolkit : Toolkit) (i : ℕ) (slot : WindowSlot) (payload : Bytes) (world : World)
    → At i slot world
    → Good world
    → Good (set_window_menu_bar toolkit i slot payload world)
unfolding set_window_menu_bar
set_window_menu_bar-Good toolkit i slot payload world h good =
    let grouped = accel_group_for toolkit slot world in
    let bar = menu_bar_from_payload toolkit payload grouped.0 grouped.1 in
    let kept : bar.1.context ≡ world.context =
      (menu_bar_from_payload-Keeps toolkit payload grouped.0 grouped.1).context
      ∙ accel_group_for-context toolkit slot world in
    let good' : Good bar.1 = rw kept good in
    let h' : At i slot bar.1 = rw kept h in
    elim (Bool-cases (slot.box == 0)) [
      | inl null ↦ rw null good
      | inr boxed ↦ elim (Bool-cases (bar.0 == 0)) [
        | inl empty ↦ elim (Bool-cases (grouped.0 == 0)) [
          | inl a ↦ rw (boxed, empty, a) good'
          | inr a ↦ rw (boxed, empty, a) good'
        ]
        | inr filled ↦
            rw (boxed, filled) (install_menu_bar-Good i slot bar.0 grouped.0 bar.1 h' good')
      ]
    ]

-- A round on the slot at the loop's index.
module _ (toolkit : Toolkit) (round : ℕ → Option WindowSlot → World → World)
    (keep : (i : ℕ) (o : Option WindowSlot) (world : World)
      → get_elem? world.context.windows i ≡ o
      → Good world
      → Good (round i o world)) where
  for_each_slot-Good :
      (n i : ℕ) (world : World) → Good world → Good (for_each_slot toolkit round n i world)
  unfolding for_each_slot
  for_each_slot-Good zero i world good = good
  for_each_slot-Good (suc n) i world good =
      for_each_slot-Good n (i + 1) (round i (get_elem? world.context.windows i) world)
        (keep i (get_elem? world.context.windows i) world refl good)

app_menu_round-Good :
    (toolkit : Toolkit) (payload : Bytes) (i : ℕ) (o : Option WindowSlot) (world : World)
    → get_elem? world.context.windows i ≡ o
    → Good world
    → Good (app_menu_round toolkit payload i o world)
unfolding app_menu_round
app_menu_round-Good toolkit payload i none world h good = good
app_menu_round-Good toolkit payload i (some slot) world h good =
    elim (Bool-cases (not (slot.window == 0) && not slot.has_window_menu)) [
      | inl e ↦ rw e (set_window_menu_bar-Good toolkit i slot payload world h good)
      | inr e ↦ rw e good
    ]

clear_menu_round-Good :
    (toolkit : Toolkit) (i : ℕ) (o : Option WindowSlot) (world : World)
    → get_elem? world.context.windows i ≡ o
    → Good world
    → Good (clear_menu_round toolkit i o world)
unfolding clear_menu_round
clear_menu_round-Good toolkit i none world h good = good
clear_menu_round-Good toolkit i (some slot) world h good =
    elim (Bool-cases (not (slot.window == 0) && not slot.has_window_menu)) [
      | inl e ↦ rw e (clear_menu_at-Good i slot world h good)
      | inr e ↦ rw e good
    ]

set_payload-Good :
    (payload : Option Bytes) (world : World) → Good world → Good (set_payload payload world)
set_payload-Good payload world good =
    desktop-IsSound world.context.tray_icon world.context.tray_menu payload world.context good

-- Marking a slot that stands in the table, and what is done to it afterwards.
mark-At : (i : ℕ) (s t : WindowSlot) (world : World) → At i s world → At i t (put_slot i t world)
mark-At i s t world h = get-set world.context.windows i h

module _ (toolkit : Toolkit) where
  show_app_menu-Good :
      (payload : Option Bytes) (world : World)
      → Good world
      → Good (show_app_menu toolkit payload world)
  unfolding show_app_menu
  show_app_menu-Good none world good = good
  show_app_menu-Good (some payload) world good =
      for_each_slot-Good toolkit (app_menu_round toolkit payload)
        (app_menu_round-Good toolkit payload) (length world.context.windows) 0 world good

  apply_app_menu-Good :
      (world : World) → Good world → Good (apply_app_menu_to_available_windows toolkit world)
  unfolding apply_app_menu_to_available_windows
  apply_app_menu-Good world good = show_app_menu-Good world.context.app_menu_payload world good

  pub set_app_menu-Good :
      (payload : Bytes) (world : World) → Good world → Good (set_app_menu toolkit payload world)
  unfolding set_app_menu
  set_app_menu-Good payload world good = elim (Bool-cases (length payload == 0)) [
    | inl e ↦ rw e good
    | inr e ↦ rw e (
        apply_app_menu-Good (set_payload (some payload) world)
          (set_payload-Good (some payload) world good))
  ]

  pub clear_app_menu-Good : (world : World) → Good world → Good (clear_app_menu toolkit world)
  unfolding clear_app_menu
  clear_app_menu-Good world good =
      for_each_slot-Good toolkit (clear_menu_round toolkit) (clear_menu_round-Good toolkit)
        (length world.context.windows) 0 (set_payload none world) (set_payload-Good none world good)

  restore_menu-Good :
      (payload : Option Bytes) (i : ℕ) (slot : WindowSlot) (world : World)
      → At i slot world
      → Good world
      → Good (restore_menu toolkit payload i slot world)
  unfolding restore_menu
  restore_menu-Good none i slot world h good = clear_menu_at-Good i slot world h good
  restore_menu-Good (some payload) i slot world h good =
      set_window_menu_bar-Good toolkit i slot payload world h good

  pub set_specific-Good :
      (label payload : Bytes) (world : World)
      → Good world
      → Good (set_specific_window_menu toolkit label payload world)
  unfolding set_specific_window_menu set_menu_of
  set_specific-Good label payload world good =
      elim (Option-cases (find_window_slot world.context label)) [
        | inl e ↦ rw e good
        | inr ((i, slot), e) ↦
            let marked = record slot { has_window_menu = true } in
            let h = find_window_slot_elem world.context label i slot e in
            rw e (
              set_window_menu_bar-Good toolkit i marked payload (put_slot i marked world)
                (mark-At i slot marked world h)
                (put_slot-Good i slot marked world
                  (record { label = refl; window = refl; box = refl; webview = refl }) h good))
      ]

  pub clear_specific-Good :
      (label : Bytes) (world : World)
      → Good world
      → Good (clear_specific_window_menu toolkit label world)
  unfolding clear_specific_window_menu clear_menu_of
  clear_specific-Good label world good =
      elim (Option-cases (find_window_slot world.context label)) [
        | inl e ↦ rw e good
        | inr ((i, slot), e) ↦
            let marked = record slot { has_window_menu = false } in
            let h = find_window_slot_elem world.context label i slot e in
            rw e (
              restore_menu-Good world.context.app_menu_payload i marked (put_slot i marked world)
                (mark-At i slot marked world h)
                (put_slot-Good i slot marked world
                  (record { label = refl; window = refl; box = refl; webview = refl }) h good))
      ]
