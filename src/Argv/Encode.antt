-- ===== src/Argv/Encode.antt =====
-- runtime/linux/linux_backend.c: how a command line is encoded in a command packet, for the loop
-- of parse_command_packet.
use lepusa.Base.{
  ℕ, zero, suc, ◌+◌, ◌-◌, ◌*◌, ◌≤◌, true, List, [], ◌∷◌, ◌++◌, ◌≡◌, refl, ap, ◌∙◌, some, arith,
  length, length-append, take-append, drop-append, All, Bytes, int32_max,
}
use lepusa.CString.{is_digit}
use lepusa.Packet.Field.{IsDigit, value_from, le-value_from, IsLength}
use lepusa.Argv.{
  Argv, argv, digits, read_digits, skip_line_end, prepend, take_argument, after_length,
  parse_arguments,
}

-- Each argument stands behind a line that is not empty and spells its length.
pub data IsCommand : List Bytes → Bytes → Type 0 where
  done : IsCommand [] []
  next :
      {a : Bytes} {more : List Bytes} {bytes : Bytes} (c : ℕ) (line after : Bytes)
      → IsLength (c ∷ line) (length a)
      → bytes ≡ c ∷ (line ++ (b'\n' ∷ (a ++ after)))
      → IsCommand more after
      → IsCommand (a ∷ more) bytes

read_digits_complete :
    (line rest : Bytes) (n : ℕ)
    → All IsDigit line
    → value_from n line ≤ int32_max
    → read_digits n (line ++ (b'\n' ∷ rest)) ≡ digits (value_from n line) (b'\n' ∷ rest)
unfolding read_digits
read_digits_complete [] rest n h fits = ground arith
read_digits_complete (c ∷ line) rest n (hc, hs) fits =
    let m = n * 10 + (c - b'0') in
    ground (arith, read_digits_complete line rest m hs fits, le-value_from line m)

take_argument_complete :
    (continue : Bytes → Argv) (a after : Bytes)
    → take_argument continue (length a) (some (a ++ after)) ≡ prepend a (continue after)
unfolding take_argument
take_argument_complete continue a after =
    rw (drop-append, take-append) (ground (arith, length-append a after))

pub parse_arguments_step :
    (fuel c : ℕ) (s : Bytes)
    → is_digit c ≡ true
    → parse_arguments (suc fuel) (c ∷ s)
      ≡ after_length (parse_arguments fuel) (read_digits 0 (c ∷ s))
unfolding parse_arguments
parse_arguments_step fuel c s h = rw h

-- One round over an encoded argument reads it and goes on behind it.
parse_round :
    (fuel c : ℕ) (line a after : Bytes)
    → IsLength (c ∷ line) (length a)
    → parse_arguments (suc fuel) (c ∷ (line ++ (b'\n' ∷ (a ++ after))))
      ≡ prepend a (parse_arguments fuel after)
parse_round fuel c line a after h =
    let read =
      read_digits_complete (c ∷ line) (a ++ after) 0 h.digits (omega (arith, h.exact, h.fits)) in
    let is_digit_c : is_digit c ≡ true = unfold is_digit in ground (arith, h.digits.0) in
    parse_arguments_step fuel c _ is_digit_c
    ∙ ap (after_length (parse_arguments fuel))
        (read ∙ ap (λ n. digits n (b'\n' ∷ (a ++ after))) h.exact)
    ∙ unfold after_length skip_line_end in take_argument_complete (parse_arguments fuel) a after

pub parse_arguments_complete :
    (fuel : ℕ) {args : List Bytes} {bytes : Bytes}
    → IsCommand args bytes
    → length bytes ≤ fuel
    → parse_arguments fuel bytes ≡ argv args
unfolding parse_arguments prepend
parse_arguments_complete fuel done enough = refl
parse_arguments_complete zero (next c line after len e t) enough =
    absurd (omega (arith, ap (length {0}) e))
parse_arguments_complete (suc fuel) (next {a} c line after len e t) enough =
    let measured = ap (length {0}) e in
    let shorter : length after ≤ fuel =
      omega (arith, measured, length-append line (b'\n' ∷ (a ++ after)), length-append a after) in
    rw (e, parse_round fuel c line a after len, parse_arguments_complete fuel t shorter)
