-- ===== src/Argv/RoundTrip.antt =====
-- runtime/linux/linux_backend.c: parse_command_packet against the encoding of Argv.Encode.
use lepusa.Base.{
  ℕ, zero, suc, ◌+◌, ◌-◌, ◌*◌, ◌≤◌, true, false, List, [], ◌∷◌, ◌++◌, ◌≡◌, ◌≢◌, ◌↔◌, inl, inr, refl,
  sym, ap, ◌∙◌, some, arith, ◌==◌, Bool-cases, length, take, drop, take-append-drop, length-take,
  All, Bytes, int32_max,
}
use lepusa.CString.{is_digit, c_str}
use lepusa.Packet.Field.{IsDigit, value_from, IsLength}
use lepusa.Argv.Encode.{IsCommand, done, next, parse_arguments_step, parse_arguments_complete}
use lepusa.Argv.{
  Argv, argv, malformed, overflow, out_of_fuel, Digits, digits, too_large, read_digits,
  take_argument, after_length, parse_arguments, check_program, parse_command_packet,
}

-- What was read before the cursor, and where the digits end.
read_digits_sound :
    (s : Bytes) (n : ℕ) {len : ℕ} {rest : Bytes}
    → n ≤ int32_max
    → read_digits n s ≡ digits len rest
    → (line : Bytes) × (s ≡ line ++ rest)
      × All IsDigit line
      × (value_from n line ≡ len)
      × (len ≤ int32_max)
unfolding read_digits is_digit
read_digits_sound [] n {len} {rest} fits h = ([], ground arith, tt, ground arith, ground arith)
read_digits_sound (c ∷ s) n {len} {rest} fits h = elim (Bool-cases (is_digit c)) [
  | inl d ↦
      let m = n * 10 + (c - b'0') in
      let e : read_digits m s ≡ digits len rest = ground arith in
      let (line, split, all_digits, exact, fits') =
        read_digits_sound s m {len = len} {rest = rest} (ground arith) e in
      (c ∷ line, ap (◌∷◌ c) split, (ground arith, all_digits), exact, fits')
  | inr d ↦ ([], ground arith, tt, ground arith, ground arith)
]

-- What a round that succeeds has read.
record Round (continue : Bytes → Argv) (d : Digits) (args : List Bytes) : Type 0 where
  len : ℕ
  value : Bytes
  more : List Bytes
  read : d ≡ digits len (b'\n' ∷ value)
  within : len ≤ length value
  args_are : args ≡ take len value ∷ more
  continues : continue (drop len value) ≡ argv more

take_argument_sound :
    (continue : Bytes → Argv) (len : ℕ) (value : Bytes) {args : List Bytes}
    → take_argument continue len (some value) ≡ argv args
    → (more : List Bytes) × (len ≤ length value)
      × (args ≡ take len value ∷ more)
      × (continue (drop len value) ≡ argv more)
unfolding take_argument
take_argument_sound continue len value {args} h = go (continue (drop len value)) refl
  where
    go :
        (r : Argv)
        → continue (drop len value) ≡ r
        → (more : List Bytes) × (len ≤ length value)
          × (args ≡ take len value ∷ more)
          × (continue (drop len value) ≡ argv more)
    go (argv more) e = (more, ground arith, ground arith, e)
    go malformed e = absurd (ground arith)
    go overflow e = absurd (ground arith)
    go out_of_fuel e = absurd (ground arith)

after_length_sound :
    (continue : Bytes → Argv) (d : Digits) {args : List Bytes}
    → after_length continue d ≡ argv args
    → Round continue d args
unfolding after_length
after_length_sound continue too_large h = cc
after_length_sound continue (digits len []) h = cc
after_length_sound continue (digits len (c ∷ value)) {args} h = elim (Bool-cases (c == b'\n')) [
  | inl e ↦
      let newline : c ≡ b'\n' = ground arith in
      let (more, within, args_are, continues) =
        take_argument_sound continue len value {args = args} (ground arith) in
      record {
        len = len;
        value = value;
        more = more;
        read = ap (λ (x : ℕ). digits len (x ∷ value)) newline;
        within = within;
        args_are = args_are;
        continues = continues;
      }
  | inr e ↦ absurd (ground arith)
]

round_IsCommand :
    (bytes line value : Bytes) (len : ℕ) {more args : List Bytes}
    → bytes ≡ line ++ (b'\n' ∷ value)
    → line ≢ []
    → IsLength line len
    → len ≤ length value
    → args ≡ take len value ∷ more
    → IsCommand more (drop len value)
    → IsCommand args bytes
round_IsCommand bytes [] value len e ne h w p t = absurd (ne refl)
round_IsCommand bytes (d ∷ line) value len e ne h w p t =
    let measured : length (take len value) ≡ len = omega (arith, length-take len value) in
    rw p (
      next d line (drop len value)
        (record {
          digits = h.digits;
          exact = h.exact ∙ sym measured;
          fits = omega (arith, measured, h.fits);
        })
        (e ∙ ap (λ (v : Bytes). d ∷ (line ++ (b'\n' ∷ v))) (sym (take-append-drop len value))) t)

first_digit_line :
    (c : ℕ) (s line value : Bytes) → is_digit c ≡ true → c ∷ s ≡ line ++ (b'\n' ∷ value) → line ≢ []
unfolding is_digit
first_digit_line c s [] value h e ne = ground arith
first_digit_line c s (d ∷ line) value h e ne = cc

parse_arguments_empty : (fuel : ℕ) → parse_arguments fuel [] ≡ argv []
unfolding parse_arguments
parse_arguments_empty fuel = refl

parse_arguments_malformed :
    (fuel c : ℕ) (s : Bytes) → is_digit c ≡ false → parse_arguments (suc fuel) (c ∷ s) ≡ malformed
unfolding parse_arguments
parse_arguments_malformed fuel c s h = rw h

parse_arguments-zero : (c : ℕ) (s : Bytes) → parse_arguments zero (c ∷ s) ≡ out_of_fuel
unfolding parse_arguments
parse_arguments-zero c s = refl

parse_arguments_sound :
    (fuel : ℕ) (bytes : Bytes) {args : List Bytes}
    → parse_arguments fuel bytes ≡ argv args
    → IsCommand args bytes
parse_arguments_sound fuel [] {args} h =
    let none_left : [] ≡ args = cc (parse_arguments_empty fuel) in rw (← none_left) done
parse_arguments_sound zero (c ∷ s) h = cc (parse_arguments-zero c s)
parse_arguments_sound (suc fuel) (c ∷ s) {args} h = elim (Bool-cases (is_digit c)) [
  | inl d ↦
      let r =
        after_length_sound (parse_arguments fuel) (read_digits 0 (c ∷ s)) {args = args}
          (sym (parse_arguments_step fuel c s d) ∙ h) in
      let (line, split, all_digits, exact, fits) =
        read_digits_sound (c ∷ s) 0 {len = r.len} {rest = b'\n' ∷ r.value} (omega arith) r.read in
      round_IsCommand (c ∷ s) line r.value r.len split (first_digit_line c s line r.value d split)
        (record { digits = all_digits; exact = exact; fits = fits }) r.within r.args_are
        (parse_arguments_sound fuel (drop r.len r.value) r.continues)
  | inr d ↦ cc (parse_arguments_malformed fuel c s d)
]

-- The program's name is not the empty C string.
abbrev pub HasProgram : List Bytes → Type 0
HasProgram [] = ⊥
HasProgram (a ∷ more) = c_str a ≢ []

check_program_sound :
    (r : Argv) {args : List Bytes} → check_program r ≡ argv args → (r ≡ argv args) × HasProgram args
unfolding check_program
check_program_sound (argv []) h = cc
check_program_sound (argv (a ∷ more)) {args} h = go (c_str a) refl
  where
    go : (p : Bytes) → c_str a ≡ p → (argv (a ∷ more) ≡ argv args) × HasProgram args
    go [] e = ground arith
    go (c ∷ p) e = let same : a ∷ more ≡ args = ground arith in rw (← same) (refl, λ q. cc)
check_program_sound malformed h = cc
check_program_sound overflow h = cc
check_program_sound out_of_fuel h = cc

check_program_complete :
    (args : List Bytes) → HasProgram args → check_program (argv args) ≡ argv args
unfolding check_program
check_program_complete [] h = absurd h
check_program_complete (a ∷ more) h = go (c_str a) refl
  where
    go : (p : Bytes) → c_str a ≡ p → check_program (argv (a ∷ more)) ≡ argv (a ∷ more)
    go [] e = absurd (h e)
    go (c ∷ p) e = ground arith

-- A command packet is accepted exactly if it encodes a command line whose program name is not the
-- empty C string, and the arguments are the encoded ones.
pub parse_command_packet_iff :
    (packet : Bytes) (args : List Bytes)
    → (parse_command_packet (some packet) ≡ argv args) ↔ (IsCommand args packet × HasProgram args)
unfolding parse_command_packet
parse_command_packet_iff packet args = (
  λ h.
      let (read, program) =
        check_program_sound (parse_arguments (length packet) packet) {args = args} h in
      (parse_arguments_sound (length packet) packet read, program),
  λ (command, program).
      ap check_program (parse_arguments_complete (length packet) command (omega arith))
      ∙ check_program_complete args program,
)
