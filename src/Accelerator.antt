-- ===== src/Accelerator.antt =====
-- runtime/linux/linux_backend.c: the keyboard shortcuts of menu items, such as `Ctrl+Shift+P`.
-- `gdk_keyval_from_name` is the toolkit's, and a parameter; NULL for it is `none`.
pub mod Parse
pub mod Words
pub mod Names
pub mod Keys
pub mod Shortcuts
use lepusa.Base.{
  ℕ, zero, suc, ◌+◌, ◌/◌, ◌%◌, ◌^◌, ◌||◌, [], ◌∷◌, Option, none, some, ◌==◌, if◌then◌else◌, ◌>>=◌,
  length, Bytes, codes,
}
use lepusa.CString.{range_iequals, to_lower, trim_range, c_str}

-- LEPUSA_GDK_SHIFT_MASK and its like: `1u << n`.
abbrev pub shift_mask : ℕ
shift_mask = 2 ^ 0

abbrev pub control_mask : ℕ
control_mask = 2 ^ 2

abbrev pub alt_mask : ℕ
alt_mask = 2 ^ 3

abbrev pub super_mask : ℕ
super_mask = 2 ^ 26

-- `mask | bit` for a power of two.
unfoldable pub or_bit : ℕ → ℕ → ℕ
or_bit mask bit = if mask / bit % 2 == 1 then mask else mask + bit

-- The bit that a modifier adds to the mask, or `none` where the source returns 0.
unfoldable pub modifier_bit : Bytes → Option ℕ
modifier_bit modifier =
    if length modifier == 0
    then none
    else if range_iequals modifier (codes "cmd")
        || range_iequals modifier (codes "command")
        || range_iequals modifier (codes "super")
        || range_iequals modifier (codes "meta")
    then some super_mask
    else if range_iequals modifier (codes "cmdorctrl")
        || range_iequals modifier (codes "ctrl")
        || range_iequals modifier (codes "control")
    then some control_mask
    else if range_iequals modifier (codes "alt") || range_iequals modifier (codes "option")
    then some alt_mask
    else if range_iequals modifier (codes "shift")
    then some shift_mask
    else none

unfoldable pub accelerator_modifier : Bytes → ℕ → Option ℕ
unfolding modifier_bit or_bit range_iequals
accelerator_modifier modifier mask = modifier_bit modifier >>= λ bit. some (or_bit mask bit)

unfoldable pub named_keyval : Option (Bytes → ℕ) → Bytes → ℕ
unfolding c_str
named_keyval none key = 0
named_keyval (some keyval_from_name) key = keyval_from_name (c_str key)

unfoldable pub accelerator_keyval : Option (Bytes → ℕ) → Bytes → ℕ
unfolding range_iequals to_lower named_keyval
accelerator_keyval keyval_from_name [] = 0
accelerator_keyval keyval_from_name (ch ∷ []) = to_lower ch
accelerator_keyval keyval_from_name (ch ∷ d ∷ s) =
    let key = ch ∷ d ∷ s in
    if range_iequals key (codes "space")
    then 0x20
    else if range_iequals key (codes "tab")
    then 0xff09
    else if range_iequals key (codes "enter") || range_iequals key (codes "return")
    then 0xff0d
    else if range_iequals key (codes "esc") || range_iequals key (codes "escape")
    then 0xff1b
    else if range_iequals key (codes "delete")
    then 0xffff
    else if range_iequals key (codes "backspace")
    then 0xff08
    else named_keyval keyval_from_name key

-- The text before the first `+`, and what stands behind the `+` if there is one.
unfoldable pub split_plus : Bytes → Bytes × Option Bytes
split_plus [] = ([], none)
split_plus (c ∷ s) =
    let rest = split_plus s in if c == b'+' then ([], some s) else (c ∷ rest.0, rest.1)

key_result : ℕ → ℕ → Option (ℕ × ℕ)
key_result keyval mask = if keyval == 0 then none else some (keyval, mask)

module _ (keyval_from_name : Option (Bytes → ℕ)) where
  -- A round of the loop, on the text up to a `+` and what stands behind it.
  read_token : (ℕ → Bytes → Option (ℕ × ℕ)) → ℕ → Bytes × Option Bytes → Option (ℕ × ℕ)
  unfolding trim_range accelerator_modifier accelerator_keyval key_result
  read_token next mask (text, none) =
      let token = trim_range text in
      if length token == 0
      then none
      else key_result (accelerator_keyval keyval_from_name token) mask
  read_token next mask (text, some part) =
      let token = trim_range text in
      if length token == 0
      then none
      else accelerator_modifier token mask >>= λ mask'. next mask' part

  -- The loop, from a part on with the mask so far. A text that ends in `+` has no key.
  unfoldable pub parse_parts : ℕ → ℕ → Bytes → Option (ℕ × ℕ)
  unfolding split_plus read_token
  parse_parts fuel mask [] = none
  parse_parts zero mask (c ∷ s) = none
  parse_parts (suc fuel) mask (c ∷ s) = read_token (parse_parts fuel) mask (split_plus (c ∷ s))

  -- Gives the key and the mask of modifiers.
  unfoldable pub parse_accelerator : Bytes → Option (ℕ × ℕ)
  unfolding parse_parts
  parse_accelerator accelerator = parse_parts (length accelerator) 0 accelerator
