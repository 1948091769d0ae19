-- ===== src/Packet/Numbers.antt =====
-- runtime/linux/linux_backend.c: the numbers and flags that a record spells in its fields.
-- `int` overflow is undefined in C, so it is an outcome of its own here.
use lepusa.Base.{
  ℕ, ◌+◌, ◌-◌, ◌*◌, ◌≤◌, Bool, true, false, not, [], ◌∷◌, ◌++◌, ◌≡◌, ◌≢◌, inl, inr, refl, Option,
  none, some, arith, ltb, leb, ◌==◌, if◌then◌else◌, Bool-cases, All, Bytes, codes, int32_max, ℤ,
  signed,
}
use lepusa.CString.{is_digit, range_equals}
use lepusa.Packet.Field.{IsDigit, value_from, le-value_from}

pub data RecordInt : Type 0 where
  rejected : RecordInt
  parsed : ℤ → RecordInt
  overflow : RecordInt

-- `while (index < value_len && isdigit(value[index]))`, and the test `index != value_len` behind it.
parse_digits : Bool → ℕ → Bytes → RecordInt
parse_digits sign acc [] = parsed (signed sign acc)
parse_digits sign acc (c ∷ s) =
    let acc' = acc * 10 + (c - b'0') in
    if not (is_digit c)
    then rejected
    else if ltb int32_max acc'
    then overflow
    else parse_digits sign acc' s

-- `index >= value_len || !isdigit(value[index])`
first_digit : Bool → Bytes → RecordInt
first_digit sign [] = rejected
first_digit sign (c ∷ s) = if not (is_digit c) then rejected else parse_digits sign 0 (c ∷ s)

unfoldable pub parse_record_int : Bytes → RecordInt
unfolding parse_digits first_digit is_digit
parse_record_int [] = rejected
parse_record_int (c ∷ s) = if c == b'-' then first_digit true s else first_digit false (c ∷ s)

unfoldable pub parse_record_bool : Bytes → Option Bool
unfolding range_equals
parse_record_bool value =
    if range_equals value (codes "true")
    then some true
    else if range_equals value (codes "false")
    then some false
    else none

abbrev pub sign_text : Bool → Bytes
sign_text true = b'-' ∷ []
sign_text false = []

parse_digits-value_from :
    (sign : Bool) (s : Bytes) (n : ℕ)
    → All IsDigit s
    → n ≤ int32_max
    → parse_digits sign n s
      ≡ (if leb (value_from n s) int32_max then parsed (signed sign (value_from n s)) else overflow)
unfolding parse_digits is_digit
parse_digits-value_from sign [] n _ fits = ground arith
parse_digits-value_from sign (c ∷ s) n (hc, hs) fits =
    let m = n * 10 + (c - b'0') in
    ground (arith, parse_digits-value_from sign s m hs, le-value_from s m)

-- A decimal number, with or without a sign, is read exactly if its magnitude fits an `int`, and
-- overflows the accumulator if it does not.
pub parse_record_int-value_from :
    (sign : Bool) (c : ℕ) (s : Bytes)
    → All IsDigit (c ∷ s)
    → parse_record_int (sign_text sign ++ (c ∷ s)) ≡ (
        if leb (value_from 0 (c ∷ s)) int32_max
        then parsed (signed sign (value_from 0 (c ∷ s)))
        else overflow)
unfolding parse_record_int
parse_record_int-value_from true c s h =
    ground (arith, parse_digits-value_from true (c ∷ s) 0 h (omega arith))
parse_record_int-value_from false c s h =
    ground (arith, parse_digits-value_from false (c ∷ s) 0 h (omega arith))

parse_digits_sound :
    (sign : Bool) (s : Bytes) (n : ℕ) {z : ℤ}
    → n ≤ int32_max
    → parse_digits sign n s ≡ parsed z
    → All IsDigit s × (z ≡ signed sign (value_from n s)) × (value_from n s ≤ int32_max)
unfolding parse_digits is_digit
parse_digits_sound sign [] n fits h = ground arith
parse_digits_sound sign (c ∷ s) n {z} fits h =
    ground (arith, parse_digits_sound sign s (n * 10 + (c - b'0')) {z = z})

-- The text behind an accepted number.
pub record IsNumeral (value : Bytes) (z : ℤ) : Type 0 where
  pub sign : Bool
  pub digits : Bytes
  pub splits : value ≡ sign_text sign ++ digits
  pub nonempty : digits ≢ []
  pub all_digits : All IsDigit digits
  pub exact : z ≡ signed sign (value_from 0 digits)
  pub fits : value_from 0 digits ≤ int32_max

first_digit_sound :
    (sign : Bool) (s : Bytes) {z : ℤ}
    → first_digit sign s ≡ parsed z
    → IsNumeral (sign_text sign ++ s) z
unfolding first_digit
first_digit_sound sign [] h = ground arith
first_digit_sound sign (c ∷ s) {z} h =
    let e : parse_digits sign 0 (c ∷ s) ≡ parsed z = ground arith in
    let (all_digits, exact, fits) = parse_digits_sound sign (c ∷ s) 0 {z = z} (omega arith) e in
    record {
      sign = sign;
      digits = c ∷ s;
      splits = refl;
      nonempty = λ p. cc;
      all_digits = all_digits;
      exact = exact;
      fits = fits;
    }

-- Whatever is accepted is a sign and one or more digits, and the result is their value.
pub parse_record_int_sound :
    (value : Bytes) {z : ℤ} → parse_record_int value ≡ parsed z → IsNumeral value z
unfolding parse_record_int
parse_record_int_sound [] h = ground arith
parse_record_int_sound (c ∷ s) {z} h = elim (Bool-cases (c == b'-')) [
  | inl e ↦
      let is_minus : c ≡ b'-' = ground arith in
      rw is_minus (first_digit_sound true s (ground arith))
  | inr e ↦ first_digit_sound false (c ∷ s) (ground arith)
]
