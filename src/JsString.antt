-- ===== src/JsString.antt =====
-- runtime/linux/linux_backend.c: js_string_literal_from_range, which quotes a text as a literal of
-- JavaScript.
pub mod RoundTrip
use lepusa.Base.{ℕ, ◌+◌, ◌-◌, ◌/◌, ◌%◌, ◌||◌, [], ◌∷◌, ◌++◌, ltb, ◌==◌, if◌then◌else◌, Bytes, codes}

abbrev hex : ℕ → ℕ
hex d = if ltb d 10 then b'0' + d else b'a' + (d - 10)

-- What one byte is written as. `ch >> 4` and `ch & 0xf` are the quotient and the remainder by 16.
unfoldable pub js_escape : ℕ → Bytes
js_escape ch =
    if ch == b'"' || ch == b'\\'
    then b'\\' ∷ ch ∷ []
    else if ch == b'\n'
    then codes "\\n"
    else if ch == b'\r'
    then codes "\\r"
    else if ch == b'\t'
    then codes "\\t"
    else if ltb ch 32
    then codes "\\u00" ++ (hex (ch / 16 % 16) ∷ hex (ch % 16) ∷ [])
    else ch ∷ []

-- The loop over the text, and the closing quote.
unfoldable pub js_escape_all : Bytes → Bytes
unfolding js_escape
js_escape_all [] = b'"' ∷ []
js_escape_all (ch ∷ text) = js_escape ch ++ js_escape_all text

unfoldable pub js_string_literal_from_range : Bytes → Bytes
unfolding js_escape_all
js_string_literal_from_range text = b'"' ∷ js_escape_all text
