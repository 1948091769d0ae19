-- ===== src/Menu.antt =====
-- runtime/linux/linux_backend.c: menus that are built from the JSON of a payload. The `items` array
-- is a range of bytes, and so is each of its values.
pub mod Keeps
pub mod Walk
use lepusa.Base.{
  ℕ, zero, suc, ◌+◌, Bool, true, false, not, ◌&&◌, ◌||◌, [], ◌∷◌, Option, none, some, ◌==◌,
  if◌then◌else◌, length, Bytes, codes,
}
use lepusa.Accelerator.{parse_accelerator}
use lepusa.CString.{c_str, range_equals}
use lepusa.Effect.{M, ◌>>=◌, ◌>>◌, pure, skip, maybe, tell, hang, new}
use lepusa.Json.{
  between, json_skip_space, json_value_end, skip_byte, skip_comma, json_find_member_value,
  json_member_string_range, json_member_bool,
}
use lepusa.Session.{
  Widget, menu_bar_new, menu_new, separator_new, menu_item_new, check_menu_item_new, Call,
  connect_click, menu_shell_append, set_submenu, set_sensitive, set_check_active, add_accelerator,
  World, emit, Toolkit,
}

-- The handler of a click and what it is given: the item, the event's name and the item's id.
unfoldable pub attach_menu_item_click : ℕ → Bytes → Bytes → M (Unit {0})
unfolding c_str
attach_menu_item_click item event id =
    if item == 0 || length id == 0 then skip else tell (connect_click item event (c_str id))

-- A round of the loop over the values of an array, at a cursor behind the blanks; `next` is the rest of
-- the loop. A menu bar's loop skips commas where a value may begin, a tray menu's does not.
unfoldable pub item_round :
    (Bytes → M (Unit {0})) → Bool → (Bytes → M (Unit {0})) → Bytes → M (Unit {0})
unfolding json_skip_space json_value_end skip_comma
item_round next lenient item [] = skip
item_round next lenient item (c ∷ s) =
    if c == b']'
    then skip
    else if lenient && c == b','
    then next s
    else maybe (json_value_end (c ∷ s)) skip (λ item_end.
      item (between (c ∷ s) item_end) >> next (skip_comma (json_skip_space item_end)))

-- The loop, from the cursor behind `[` on. It does not end where a round does not move the cursor.
unfoldable pub for_each_item : Bool → (Bytes → M (Unit {0})) → ℕ → Bytes → M (Unit {0})
unfolding json_skip_space item_round
for_each_item lenient item zero cursor = hang
for_each_item lenient item (suc fuel) cursor =
    item_round (for_each_item lenient item fuel) lenient item (json_skip_space cursor)

-- The array itself; the fuel is a round for each byte and one more.
unfoldable pub for_each_value : Bool → (Bytes → M (Unit {0})) → Bytes → M (Unit {0})
unfolding for_each_item json_skip_space skip_byte
for_each_value lenient item array =
    maybe (skip_byte b'[' (json_skip_space array)) skip
      (λ cursor. for_each_item lenient item (length cursor + 1) cursor)

is_object : Bytes → Bool
is_object [] = false
is_object (c ∷ s) = c == b'{'

-- `gtk_menu_shell_append` on an item that is not NULL.
unfoldable pub append_item : ℕ → ℕ → M (Unit {0})
append_item menu item = if item == 0 then skip else tell (menu_shell_append menu item)

is_kind : Option Bytes → Bytes → Bool
unfolding range_equals
is_kind none name = false
is_kind (some kind) name = range_equals kind name

-- A label that is missing is the empty one.
label_text : Option Bytes → Bytes
unfolding c_str
label_text none = []
label_text (some label) = c_str label

click_member : ℕ → Bytes → Bytes → M (Unit {0})
unfolding attach_menu_item_click json_member_string_range
click_member item event object =
    maybe (json_member_string_range object (codes "id")) skip
      (λ id. attach_menu_item_click item event id)

-- The array of a submenu: the member `items`, if it is one.
children_of : Bytes → Option Bytes
unfolding json_find_member_value json_skip_space skip_byte
children_of object = elim (json_find_member_value object (codes "items")) [
  | none ↦ none
  | some (value, stop) ↦ elim (skip_byte b'[' (json_skip_space (between value stop))) [
    | none ↦ none
    | some _ ↦ some (between value stop)
  ]
]

-- The array of a payload that is an array, or an object with the array as its `items`.
unfoldable pub payload_items : Bytes → Bytes
unfolding json_find_member_value json_skip_space is_object
payload_items payload =
    let items = json_skip_space payload in
    if is_object items
    then elim (json_find_member_value items (codes "items")) [
      | none ↦ items
      | some (member, member_end) ↦ between member member_end
    ]
    else items

starts_array : Bytes → Bool
starts_array [] = false
starts_array (c ∷ s) = c == b'['

module _ (toolkit : Toolkit) where
  -- An object's item in a tray menu that is no separator.
  tray_labelled : Bytes → Option Bytes → M ℕ
  unfolding is_kind label_text click_member json_member_string_range json_member_bool
  tray_labelled object kind = do
    let is_check = is_kind kind (codes "check")
    let label = label_text (json_member_string_range object (codes "label"))
    item ← new toolkit (if is_check then check_menu_item_new label else menu_item_new label)
    if not (item == 0) && is_check
        then tell (set_check_active item (json_member_bool object (codes "checked") false))
        else skip
    if item == 0
        then skip
        else tell (set_sensitive item (json_member_bool object (codes "enabled") true))
          >> click_member item (codes "tray.onMenuItemClick") object
    pure item

  -- One round of `add_tray_menu_items_from_array`.
  unfoldable pub tray_item : ℕ → Bytes → M (Unit {0})
  unfolding is_object append_item is_kind tray_labelled json_member_string_range
  tray_item menu object = do
    let kind = json_member_string_range object (codes "kind")
    item ←
        if not (is_object object)
        then pure 0
        else if is_kind kind (codes "separator")
        then new toolkit separator_new
        else tray_labelled object kind
    append_item menu item

  unfoldable pub add_tray_menu_items_from_array : ℕ → Bytes → M (Unit {0})
  unfolding tray_item for_each_value
  add_tray_menu_items_from_array menu array =
      if menu == 0 then skip else for_each_value false (tray_item menu) array

  accelerator_member : Bytes → Option (ℕ × ℕ)
  unfolding json_member_string_range parse_accelerator
  accelerator_member object = elim (json_member_string_range object (codes "accelerator")) [
    | none ↦ none
    | some accelerator ↦ parse_accelerator (some toolkit.keyval_from_name) accelerator
  ]

  unfoldable pub apply_menu_item_accelerator : ℕ → ℕ → Bytes → M (Unit {0})
  unfolding accelerator_member
  apply_menu_item_accelerator item accel_group object =
      if item == 0 || accel_group == 0
      then skip
      else maybe (accelerator_member object) skip
          (λ (keyval, mask). tell (add_accelerator item accel_group keyval mask))

  -- The click and the accelerator of an item with an `id`.
  menu_click : ℕ → Bytes → ℕ → Bytes → M (Unit {0})
  unfolding attach_menu_item_click json_member_string_range apply_menu_item_accelerator
  menu_click item event accel_group object =
      maybe (json_member_string_range object (codes "id")) skip (λ id.
        attach_menu_item_click item event id >> apply_menu_item_accelerator item accel_group object)

  -- The submenu of an item; `nested` fills it.
  add_submenu : (ℕ → Bytes → M (Unit {0})) → ℕ → Bytes → M (Unit {0})
  unfolding children_of
  add_submenu nested item object = maybe (children_of object) skip (λ children. do
    submenu ← new toolkit menu_new
    if submenu == 0 then skip else nested submenu children >> tell (set_submenu item submenu))

  -- What an item with a label is given once it is there.
  equip_item : (ℕ → Bytes → M (Unit {0})) → Bytes → ℕ → Option Bytes → ℕ → Bytes → M (Unit {0})
  unfolding is_kind menu_click add_submenu json_member_bool
  equip_item nested event accel_group kind item object = do
    tell (set_sensitive item (json_member_bool object (codes "enabled") true))
    if is_kind kind (codes "check")
        then tell (set_check_active item (json_member_bool object (codes "checked") false))
        else skip
    if is_kind kind (codes "submenu")
        then add_submenu nested item object
        else menu_click item event accel_group object

  labelled_item : (ℕ → Bytes → M (Unit {0})) → Bytes → ℕ → Option Bytes → Bytes → Bytes → M ℕ
  unfolding is_kind equip_item c_str
  labelled_item nested event accel_group kind label object = do
    let text = c_str label
    item ←
        new toolkit
          (if is_kind kind (codes "check") then check_menu_item_new text else menu_item_new text)
    if item == 0 then skip else equip_item nested event accel_group kind item object
    pure item

  item_of : (ℕ → Bytes → M (Unit {0})) → Bytes → ℕ → Bytes → M ℕ
  unfolding is_object is_kind labelled_item json_member_string_range
  item_of nested event accel_group object =
      let kind = json_member_string_range object (codes "kind") in
      if not (is_object object)
      then pure 0
      else if is_kind kind (codes "separator")
      then new toolkit separator_new
      else maybe (json_member_string_range object (codes "label")) (pure 0)
          (λ label. labelled_item nested event accel_group kind label object)

  -- One round of `add_menu_items_from_array`.
  unfoldable pub menu_item_round : (ℕ → Bytes → M (Unit {0})) → Bytes → ℕ → ℕ → Bytes → M (Unit {0})
  unfolding item_of append_item
  menu_item_round nested event accel_group menu object = do
    item ← item_of nested event accel_group object
    append_item menu item

  -- `levels` is how deep the menu may still go: `depth > 8` is refused, so 9 of them from the top.
  unfoldable pub add_menu_items_from_array : ℕ → Bytes → ℕ → ℕ → Bytes → M (Unit {0})
  unfolding menu_item_round for_each_value
  add_menu_items_from_array zero event accel_group menu array = skip
  add_menu_items_from_array (suc levels) event accel_group menu array =
      if menu == 0
      then skip
      else for_each_value true
          (menu_item_round (add_menu_items_from_array levels event accel_group) event accel_group
            menu)
          array

  -- Gives the menu bar, or 0 for NULL.
  unfoldable pub menu_bar_from_payload : Bytes → ℕ → M ℕ
  unfolding payload_items starts_array add_menu_items_from_array
  menu_bar_from_payload payload accel_group =
      if length payload == 0 || not (starts_array (payload_items payload)) then pure 0 else (do
        menu_bar ← new toolkit menu_bar_new
        add_menu_items_from_array 9 (codes "menu.onItemClick") accel_group menu_bar
            (payload_items payload)
        pure menu_bar)
