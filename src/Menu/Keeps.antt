-- ===== src/Menu/Keeps.antt =====
-- runtime/linux/linux_backend.c: what building a menu leaves alone.
use lepusa.Base.{ℕ, zero, suc, Bool, true, false, [], ◌∷◌, Option, ◌==◌, Bytes}
use lepusa.Effect.{M, skip, Keeps, skip-Keeps, hang-Keeps, if-Keeps, keeping}
use lepusa.Json.{json_skip_space}
use lepusa.Menu.{
  item_round, for_each_item, for_each_value, attach_menu_item_click, append_item, click_member,
  tray_labelled, tray_item, add_tray_menu_items_from_array, apply_menu_item_accelerator, menu_click,
  add_submenu, equip_item, labelled_item, item_of, menu_item_round, add_menu_items_from_array,
  menu_bar_from_payload,
}
use lepusa.Session.{Toolkit}

attach_menu_item_click-Keeps :
    (item : ℕ) (event id : Bytes) → Keeps (attach_menu_item_click item event id)
unfolding attach_menu_item_click
attach_menu_item_click-Keeps item event id = search keeping

append_item-Keeps : (menu item : ℕ) → Keeps (append_item menu item)
unfolding append_item
append_item-Keeps menu item = search keeping

item_round-Keeps :
    (next : Bytes → M (Unit {0})) (lenient : Bool) (item : Bytes → M (Unit {0})) (cursor : Bytes)
    → ((s : Bytes) → Keeps (next s))
    → ((object : Bytes) → Keeps (item object))
    → Keeps (item_round next lenient item cursor)
unfolding item_round
item_round-Keeps next lenient item [] hn h = skip-Keeps
item_round-Keeps next lenient item (c ∷ s) hn h = search (keeping, hn, h)

for_each_item-Keeps :
    (lenient : Bool) (item : Bytes → M (Unit {0})) (fuel : ℕ) (cursor : Bytes)
    → ((object : Bytes) → Keeps (item object))
    → Keeps (for_each_item lenient item fuel cursor)
unfolding for_each_item
for_each_item-Keeps lenient item zero cursor h = hang-Keeps
for_each_item-Keeps lenient item (suc fuel) cursor h =
    item_round-Keeps (for_each_item lenient item fuel) lenient item (json_skip_space cursor)
      (λ s. for_each_item-Keeps lenient item fuel s h) h

for_each_value-Keeps :
    (lenient : Bool) (item : Bytes → M (Unit {0})) (array : Bytes)
    → ((object : Bytes) → Keeps (item object))
    → Keeps (for_each_value lenient item array)
unfolding for_each_value
for_each_value-Keeps lenient item array h = search (keeping, for_each_item-Keeps, h)

click_member-Keeps : (item : ℕ) (event object : Bytes) → Keeps (click_member item event object)
unfolding click_member
click_member-Keeps item event object = search (keeping, attach_menu_item_click-Keeps)

module _ (toolkit : Toolkit) where
  tray_labelled-Keeps :
      (object : Bytes) (kind : Option Bytes) → Keeps (tray_labelled toolkit object kind)
  unfolding tray_labelled
  tray_labelled-Keeps object kind = search (keeping, click_member-Keeps)

  tray_item-Keeps : (menu : ℕ) (object : Bytes) → Keeps (tray_item toolkit menu object)
  unfolding tray_item
  tray_item-Keeps menu object = search (keeping, tray_labelled-Keeps, append_item-Keeps)

  pub add_tray_menu_items-Keeps :
      (menu : ℕ) (array : Bytes) → Keeps (add_tray_menu_items_from_array toolkit menu array)
  unfolding add_tray_menu_items_from_array
  add_tray_menu_items-Keeps menu array =
      if-Keeps (menu == 0) skip (for_each_value false (tray_item toolkit menu) array) skip-Keeps
        (for_each_value-Keeps false (tray_item toolkit menu) array (tray_item-Keeps menu))

  apply_menu_item_accelerator-Keeps :
      (item accel_group : ℕ) (object : Bytes)
      → Keeps (apply_menu_item_accelerator toolkit item accel_group object)
  unfolding apply_menu_item_accelerator
  apply_menu_item_accelerator-Keeps item accel_group object = search keeping

  menu_click-Keeps :
      (item : ℕ) (event : Bytes) (accel_group : ℕ) (object : Bytes)
      → Keeps (menu_click toolkit item event accel_group object)
  unfolding menu_click
  menu_click-Keeps item event accel_group object =
      search (keeping, attach_menu_item_click-Keeps, apply_menu_item_accelerator-Keeps)

  module _ (nested : ℕ → Bytes → M (Unit {0}))
      (quiet : (submenu : ℕ) (children : Bytes) → Keeps (nested submenu children)) where
    add_submenu-Keeps : (item : ℕ) (object : Bytes) → Keeps (add_submenu toolkit nested item object)
    unfolding add_submenu
    add_submenu-Keeps item object = search (keeping, quiet)

    equip_item-Keeps :
        (event : Bytes) (accel_group : ℕ) (kind : Option Bytes) (item : ℕ) (object : Bytes)
        → Keeps (equip_item toolkit nested event accel_group kind item object)
    unfolding equip_item
    equip_item-Keeps event accel_group kind item object =
        search (keeping, add_submenu-Keeps, menu_click-Keeps)

    labelled_item-Keeps :
        (event : Bytes) (accel_group : ℕ) (kind : Option Bytes) (label object : Bytes)
        → Keeps (labelled_item toolkit nested event accel_group kind label object)
    unfolding labelled_item
    labelled_item-Keeps event accel_group kind label object = search (keeping, equip_item-Keeps)

    item_of-Keeps :
        (event : Bytes) (accel_group : ℕ) (object : Bytes)
        → Keeps (item_of toolkit nested event accel_group object)
    unfolding item_of
    item_of-Keeps event accel_group object = search (keeping, labelled_item-Keeps)

    menu_item_round-Keeps :
        (event : Bytes) (accel_group menu : ℕ) (object : Bytes)
        → Keeps (menu_item_round toolkit nested event accel_group menu object)
    unfolding menu_item_round
    menu_item_round-Keeps event accel_group menu object =
        search (keeping, item_of-Keeps, append_item-Keeps)

  add_menu_items-Keeps :
      (levels : ℕ) (event : Bytes) (accel_group menu : ℕ) (array : Bytes)
      → Keeps (add_menu_items_from_array toolkit levels event accel_group menu array)
  unfolding add_menu_items_from_array
  add_menu_items-Keeps zero event accel_group menu array = skip-Keeps
  add_menu_items-Keeps (suc levels) event accel_group menu array =
      let nested = add_menu_items_from_array toolkit levels event accel_group in
      let round = menu_item_round toolkit nested event accel_group menu in
      if-Keeps (menu == 0) skip (for_each_value true round array) skip-Keeps (
        for_each_value-Keeps true round array (
          menu_item_round-Keeps nested (add_menu_items-Keeps levels event accel_group) event
            accel_group menu))

  pub menu_bar_from_payload-Keeps :
      (payload : Bytes) (accel_group : ℕ)
      → Keeps (menu_bar_from_payload toolkit payload accel_group)
  unfolding menu_bar_from_payload
  menu_bar_from_payload-Keeps payload accel_group = search (keeping, add_menu_items-Keeps)
