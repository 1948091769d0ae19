-- ===== src/CString.antt =====
-- runtime/linux/linux_backend.c: the helpers on `(pointer, length)` ranges and on C strings. A
-- range is the list of its bytes, so a null pointer with length 0 is the empty list; a byte is a
-- number below 256. A buffer that holds a NUL in its middle ends there for a C string function.
pub mod Laws
use lepusa.Base.{
  ℕ, zero, suc, ◌+◌, ◌-◌, Bool, true, false, ◌&&◌, ◌||◌, [], ◌∷◌, ltb, leb, ◌==◌, if◌then◌else◌,
  length, take, drop, Bytes, codes,
}

-- `isdigit`, `isspace` and `tolower` of the C locale.
unfoldable pub is_digit : ℕ → Bool
is_digit c = leb b'0' c && leb c b'9'

unfoldable pub is_space : ℕ → Bool
is_space c = c == b' ' || (leb 9 c && leb c 13)

unfoldable pub to_lower : ℕ → ℕ
to_lower c = if leb b'A' c && leb c b'Z' then c + 32 else c

-- What `strlen`, `strcmp` and `%s` see of a buffer: the bytes before the first NUL.
unfoldable pub c_str : Bytes → Bytes
c_str [] = []
c_str (c ∷ s) = if c == 0 then [] else c ∷ c_str s

-- `memcmp(a, b, n) == 0`
unfoldable pub mem_eq : ℕ → Bytes → Bytes → Bool
mem_eq zero a b = true
mem_eq (suc n) (x ∷ a) (y ∷ b) = x == y && mem_eq n a b
mem_eq _ _ _ = false

unfoldable pub range_equals : Bytes → Bytes → Bool
range_equals value literal =
    length value == length (c_str literal) && mem_eq (length (c_str literal)) value (c_str literal)

-- The loop of `range_iequals`, once the lengths agree.
unfoldable pub iequal : Bytes → Bytes → Bool
iequal [] _ = true
iequal (x ∷ v) (y ∷ e) = to_lower x == to_lower y && iequal v e
iequal (x ∷ v) [] = false

unfoldable pub range_iequals : Bytes → Bytes → Bool
unfolding iequal
range_iequals value expected =
    length value == length (c_str expected) && iequal value (c_str expected)

-- The loop `for (i = 0; i <= value_len - needle_len; i++)`: `i` moves the start of `value`.
contains_from : ℕ → Bytes → Bytes → Bool
contains_from zero value needle = mem_eq (length needle) value needle
contains_from (suc n) value needle =
    mem_eq (length needle) value needle || contains_from n (drop 1 value) needle

unfoldable pub range_contains_text : Bytes → Bytes → Bool
unfolding contains_from
range_contains_text value needle =
    if length needle == 0 || ltb (length value) (length needle)
    then false
    else contains_from (length value - length needle) value needle

-- `app.` and `name`, or `name` alone; the menu's and the tray's tests have their own prefix.
unfoldable pub app_shell_action_equals : Bytes → Bytes → Bool
app_shell_action_equals action name =
    range_equals action name
    || (length action == length name + 4
        && mem_eq 4 action (codes "app.")
        && mem_eq (length name) (drop 4 action) name)

unfoldable pub menu_action_equals : Bytes → Bytes → Bool
menu_action_equals action name =
    range_equals action name
    || (length action == length name + 5
        && mem_eq 5 action (codes "menu.")
        && mem_eq (length name) (drop 5 action) name)

unfoldable pub tray_action_equals : Bytes → Bytes → Bool
tray_action_equals action name =
    range_equals action name
    || (length action == length name + 5
        && mem_eq 5 action (codes "tray.")
        && mem_eq (length name) (drop 5 action) name)

-- The bytes before the NUL that is written behind them.
unfoldable pub copy_label_range : ℕ → Bytes → Bytes
copy_label_range target_len label =
    if leb target_len (length label) then take (target_len - 1) label else label

unfoldable pub trim_start : Bytes → Bytes
trim_start [] = []
trim_start (c ∷ s) = if is_space c then trim_start s else c ∷ s

-- What stands before `r`, from `c` on, with the blanks at the end dropped.
unfoldable pub keep_before : ℕ → Bytes → Bytes
keep_before c [] = if is_space c then [] else c ∷ []
keep_before c (d ∷ r) = c ∷ d ∷ r

-- Drops the blanks at the end: `s` is blank up to its end if nothing is left behind `c`.
unfoldable pub trim_end : Bytes → Bytes
unfolding keep_before
trim_end [] = []
trim_end (c ∷ s) = keep_before c (trim_end s)

unfoldable pub trim_range : Bytes → Bytes
unfolding trim_start trim_end
trim_range value = trim_end (trim_start value)

-- `strcmp(a, b) == 0` on C strings, which are free of NUL.
unfoldable pub strcmp_eq : Bytes → Bytes → Bool
strcmp_eq [] [] = true
strcmp_eq (x ∷ a) (y ∷ b) = x == y && strcmp_eq a b
strcmp_eq _ _ = false
