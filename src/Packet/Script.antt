-- ===== src/Packet/Script.antt =====
-- runtime/linux/linux_backend.c: the script that is run at once, and the window that it is for. This reader takes the packet as a C
-- string, up to its first NUL, and reads the length with `strtol`.
pub mod Complete
use lepusa.Base.{
  ℕ, ◌+◌, ◌-◌, ◌*◌, ◌^◌, min, Bool, true, false, not, ◌||◌, [], ◌∷◌, Option, none, some, ltb, ◌==◌,
  if◌then◌else◌, ◌>>=◌, length, take, Bytes, codes, int32_max, ℤ, pos, negsuc, signed,
}
use lepusa.CString.{is_digit, c_str, strcmp_eq, trim_start}
use lepusa.Packet.{find_newline_range}
use lepusa.Window.{WindowSlot, BridgeContext, find_window_slot}

-- Gives the line, and the cursor; NULL is `none`.
unfoldable pub next_packet_line : Option Bytes → Option Bytes × Option Bytes
unfolding find_newline_range
next_packet_line none = (none, none)
next_packet_line (some line) = elim (find_newline_range line) [
  | none ↦ (some line, none)
  | some (before, rest) ↦ (some before, some rest)
]

-- `strtol(text, &endptr, 10)`: blanks, a sign, digits; what is out of range stops at LONG_MIN or
-- LONG_MAX, and without digits `endptr` is the text itself.
strtol_sign : Bytes → Bool × Bytes
strtol_sign [] = (false, [])
strtol_sign (c ∷ s) =
    if c == b'-' then (true, s) else if c == b'+' then (false, s) else (false, c ∷ s)

unfoldable pub strtol_digits : ℕ → Bytes → ℕ × Bytes
unfolding is_digit
strtol_digits acc [] = (acc, [])
strtol_digits acc (c ∷ s) =
    let rest = strtol_digits (acc * 10 + (c - b'0')) s in if is_digit c then rest else (acc, c ∷ s)

unfoldable pub strtol : Bytes → ℤ × Bytes
unfolding strtol_sign strtol_digits trim_start
strtol text =
    let (negative, digits) = strtol_sign (trim_start text) in
    let (value, endptr) = strtol_digits 0 digits in
    let limit = if negative then 2 ^ 63 else 2 ^ 63 - 1 in
    if length endptr == length digits
    then (pos 0, text)
    else (signed negative (min value limit), endptr)

-- The tests on `body_len`: a number below zero or above INT32_MAX is refused.
body_length : ℤ → Option ℕ
body_length (pos n) = if ltb int32_max n then none else some n
body_length (negsuc n) = none

unfoldable pub read_body_len : Bytes → Option ℕ
unfolding strtol body_length
read_body_len text =
    let (body_len, endptr) = strtol text in
    if length endptr == length text || not (length endptr == 0) then none else body_length body_len

-- The script behind the line with its length.
script_behind : Option Bytes × Option Bytes → Option Bytes
unfolding read_body_len
script_behind (some line, some cursor) =
    read_body_len line >>= λ len. if ltb (length cursor) len then none else some (take len cursor)
script_behind _ = none

is_status : Option Bytes → Bytes → Bool
is_status none expected = false
is_status (some status) expected = strcmp_eq status expected

-- What `immediate_script_from_handoff_packet` does with the copy of the packet's text. A cursor that
-- is NULL has no next line.
unfoldable pub script_of_text : Bytes → Option Bytes
unfolding next_packet_line script_behind is_status strcmp_eq
script_of_text packet_text =
    let status = next_packet_line (some packet_text) in
    let window_label = next_packet_line status.1 in
    if not (is_status status.0 (codes "immediate"))
    then none
    else script_behind (next_packet_line window_label.1)

unfoldable pub immediate_script_from_handoff_packet : Option Bytes → Option Bytes
unfolding script_of_text c_str
immediate_script_from_handoff_packet none = none
immediate_script_from_handoff_packet (some packet) = script_of_text (c_str packet)

-- The slot of the label in the packet's second line; without that line the first slot.
unfoldable pub window_slot_from_handoff_packet :
    BridgeContext → Option Bytes → Option (ℕ × WindowSlot)
unfolding find_newline_range find_window_slot
window_slot_from_handoff_packet context none = none
window_slot_from_handoff_packet context (some packet) =
    elim (find_newline_range packet >>= λ (first, rest). find_newline_range rest) [
      | none ↦ find_window_slot context []
      | some (label, rest) ↦ find_window_slot context label
    ]
