-- ===== src/Argv.antt =====
-- runtime/linux/linux_backend.c: `parse_command_packet`, the command line of a service as a row of
-- length-prefixed arguments. Overflow of the `int` length is undefined in C and an outcome here.
-- The loop runs on fuel; the bytes left are enough of it, since a round takes two bytes.
pub mod Encode
pub mod RoundTrip
use lepusa.Base.{
  ℕ, zero, suc, ◌+◌, ◌-◌, ◌*◌, not, List, [], ◌∷◌, Option, none, some, ltb, ◌==◌, if◌then◌else◌,
  length, take, drop, Bytes, int32_max,
}
use lepusa.CString.{is_digit, c_str}

pub data Argv : Type 0 where
  argv : List Bytes → Argv
  malformed : Argv
  overflow : Argv
  out_of_fuel : Argv

pub data Digits : Type 0 where
  digits : ℕ → Bytes → Digits
  too_large : Digits

-- `while (cursor < end && isdigit(*cursor)) { len = len * 10 + (*cursor - '0'); cursor++; }`
unfoldable pub read_digits : ℕ → Bytes → Digits
unfolding is_digit
read_digits acc [] = digits acc []
read_digits acc (c ∷ s) =
    let acc' = acc * 10 + (c - b'0') in
    if not (is_digit c)
    then digits acc (c ∷ s)
    else if ltb int32_max acc'
    then too_large
    else read_digits acc' s

-- The check that a newline stands at the cursor, and the step over it.
unfoldable pub skip_line_end : Bytes → Option Bytes
skip_line_end [] = none
skip_line_end (c ∷ s) = if c == b'\n' then some s else none

unfoldable pub prepend : Bytes → Argv → Argv
prepend a (argv more) = argv (a ∷ more)
prepend a malformed = malformed
prepend a overflow = overflow
prepend a out_of_fuel = out_of_fuel

-- The value behind a length: `cursor + len > end` is refused, else the argument is copied and `next`
-- reads what follows it.
unfoldable pub take_argument : (Bytes → Argv) → ℕ → Option Bytes → Argv
unfolding prepend
take_argument next len none = malformed
take_argument next len (some value) =
    let rest = next (drop len value) in
    if ltb (length value) len then malformed else prepend (take len value) rest

unfoldable pub after_length : (Bytes → Argv) → Digits → Argv
unfolding skip_line_end take_argument
after_length next too_large = overflow
after_length next (digits len rest) = take_argument next len (skip_line_end rest)

-- `while (cursor < end)`: the arguments from the cursor on.
unfoldable pub parse_arguments : ℕ → Bytes → Argv
unfolding read_digits after_length is_digit
parse_arguments fuel [] = argv []
parse_arguments zero (c ∷ s) = out_of_fuel
parse_arguments (suc fuel) (c ∷ s) =
    if not (is_digit c)
    then malformed
    else after_length (parse_arguments fuel) (read_digits 0 (c ∷ s))

-- `argc == 0 || argv[0][0] == '\0'`
unfoldable pub check_program : Argv → Argv
check_program (argv []) = malformed
check_program (argv (a ∷ more)) = elim (c_str a) [ [] ↦ malformed | _ ∷ _ ↦ argv (a ∷ more) ]
check_program r = r

-- `none` is a packet that is NULL.
unfoldable pub parse_command_packet : Option Bytes → Argv
unfolding parse_arguments check_program c_str
parse_command_packet none = malformed
parse_command_packet (some packet) = check_program (parse_arguments (length packet) packet)
