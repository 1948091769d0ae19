-- ===== src/JsString/RoundTrip.antt =====
-- How JavaScript reads the literals of js_string_literal_from_range, and their length.
use lepusa.Base.{
  ℕ, ◌+◌, ◌-◌, ◌*◌, ◌≤◌, [], ◌∷◌, ◌++◌, ◌≡◌, ◌≢◌, inl, inr, refl, append_assoc, arith, ltb, leb,
  ◌==◌, if◌then◌else◌, Bool-cases, length, length-append, Bytes, codes,
}
use lepusa.JsString.{js_escape, js_escape_all, js_string_literal_from_range}

-- The value of a hexadecimal digit.
abbrev unhex : ℕ → ℕ
unhex c = if leb b'a' c then c - b'a' + 10 else c - b'0'

-- The escapes of one letter, and the bytes that they stand for.
pub data IsEscape : ℕ → ℕ → Type 0 where
  quote : IsEscape b'"' b'"'
  backslash : IsEscape b'\\' b'\\'
  newline : IsEscape b'n' b'\n'
  return : IsEscape b'r' b'\r'
  tab : IsEscape b't' b'\t'

-- How JavaScript reads a literal behind its opening quote: the bytes, the text that they stand for,
-- and what follows the closing quote. A control byte is no part of a literal.
pub data Inside (rest : Bytes) : Bytes → Bytes → Type 0 where
  closed : Inside rest (b'"' ∷ rest) []
  plain :
      {s text : Bytes} (c : ℕ)
      → c ≢ b'"'
      → c ≢ b'\\'
      → 32 ≤ c
      → Inside rest s text
      → Inside rest (c ∷ s) (c ∷ text)
  letter :
      {s text : Bytes} (e c : ℕ)
      → IsEscape e c
      → Inside rest s text
      → Inside rest (b'\\' ∷ e ∷ s) (c ∷ text)
  unicode :
      {s text : Bytes} (a b c : ℕ)
      → unhex a * 16 + unhex b ≡ c
      → Inside rest s text
      → Inside rest (codes "\\u00" ++ (a ∷ b ∷ s)) (c ∷ text)

js_escape-Inside :
    (ch : ℕ) {rest s text : Bytes}
    → Inside rest s text
    → Inside rest (js_escape ch ++ s) (ch ∷ text)
unfolding js_escape
js_escape-Inside ch h = elim (Bool-cases (ch == b'"')) [
  | inl e ↦ let same : ch ≡ b'"' = ground arith in rw same (letter b'"' b'"' quote h)
  | inr q ↦ elim (Bool-cases (ch == b'\\')) [
    | inl e ↦ let same : ch ≡ b'\\' = ground arith in rw same (letter b'\\' b'\\' backslash h)
    | inr b ↦ elim (Bool-cases (ch == b'\n')) [
      | inl e ↦ let same : ch ≡ b'\n' = ground arith in rw same (letter b'n' b'\n' newline h)
      | inr n ↦ elim (Bool-cases (ch == b'\r')) [
        | inl e ↦ let same : ch ≡ b'\r' = ground arith in rw same (letter b'r' b'\r' return h)
        | inr r ↦ elim (Bool-cases (ch == b'\t')) [
          | inl e ↦ let same : ch ≡ b'\t' = ground arith in rw same (letter b't' b'\t' tab h)
          | inr t ↦ elim (Bool-cases (ltb ch 32)) [
            | inl low ↦ rw (q, b, n, r, t, low) (unicode _ _ ch (ground arith) h)
            | inr high ↦
                rw (q, b, n, r, t, high) (plain ch (ground arith) (ground arith) (ground arith) h)
          ]
        ]
      ]
    ]
  ]
]

js_escape_all-Inside : (text rest : Bytes) → Inside rest (js_escape_all text ++ rest) text
unfolding js_escape_all
js_escape_all-Inside [] rest = closed
js_escape_all-Inside (ch ∷ text) rest =
    rw (append_assoc (js_escape ch) (js_escape_all text) rest)
      (js_escape-Inside ch (js_escape_all-Inside text rest))

length-js_escape : (ch : ℕ) → length (js_escape ch) ≤ 6
unfolding js_escape
length-js_escape ch = ground arith

length-js_escape_all : (text : Bytes) → length (js_escape_all text) ≤ 6 * length text + 1
unfolding js_escape_all
length-js_escape_all [] = omega arith
length-js_escape_all (ch ∷ text) = omega (
  arith,
  length-js_escape ch,
  length-js_escape_all text,
  length-append (js_escape ch) (js_escape_all text),
)

-- Behind its opening quote a literal is read as the text, and ends at its own closing quote whatever
-- follows. With its closing NUL it fits the buffer of six bytes for each byte of the text and three.
pub js_string_literal_lem :
    (text rest : Bytes)
    → ((inside : Bytes) × (js_string_literal_from_range text ++ rest ≡ b'"' ∷ inside)
        × Inside rest inside text)
      × (length (js_string_literal_from_range text) + 1 ≤ length text * 6 + 3)
unfolding js_string_literal_from_range
js_string_literal_lem text rest = (
  (js_escape_all text ++ rest, refl, js_escape_all-Inside text rest),
  omega (arith, length-js_escape_all text),
)
