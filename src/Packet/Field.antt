-- ===== src/Packet/Field.antt =====
-- Length-prefixed fields: `find_newline_range`, the length loop and `read_packet_field`.
use lepusa.Base.{
  ℕ, ◌+◌, ◌-◌, ◌*◌, ◌≤◌, [], ◌∷◌, ◌++◌, ◌≡◌, ◌≢◌, inl, inr, refl, sym, ap, ◌∙◌, Option, none, some,
  arith, ltb, if◌then◌else◌, Option-cases, >>=-eq-some, length, take, drop, length-append,
  take-append-drop, length-take, take-append, drop-append, All, Bytes, int32_max,
}
use lepusa.Packet.{find_newline_range, read_length, read_packet_field}

abbrev pub IsDigit : ℕ → Type 0
IsDigit c = (b'0' ≤ c) × (c ≤ b'9')

-- The number that digits spell behind `n`, with no bound.
abbrev pub value_from : ℕ → Bytes → ℕ
value_from n [] = n
value_from n (c ∷ s) = value_from (n * 10 + (c - b'0')) s

-- A line that spells `len`; the empty line spells 0.
pub record IsLength (line : Bytes) (len : ℕ) : Type 0 where
  pub digits : All IsDigit line
  pub exact : value_from 0 line ≡ len
  pub fits : len ≤ int32_max

pub find_newline_range_found :
    (line rest : Bytes)
    → All (λ c. c ≢ b'\n') line
    → find_newline_range (line ++ (b'\n' ∷ rest)) ≡ some (line, rest)
unfolding find_newline_range
find_newline_range_found [] rest h = ground arith
find_newline_range_found (c ∷ line) rest h =
    let ih = find_newline_range_found line rest h.1 in rw ih (ground arith)

pub find_newline_range_sound :
    (s : Bytes) {line rest : Bytes}
    → find_newline_range s ≡ some (line, rest)
    → (s ≡ line ++ (b'\n' ∷ rest)) × All (λ c. c ≢ b'\n') line
unfolding find_newline_range
find_newline_range_sound [] h = cc
find_newline_range_sound (c ∷ s) {line} {rest} h = elim (Option-cases (find_newline_range s)) [
  | inl e ↦ ground arith
  | inr ((l, r), e) ↦ ground (arith, find_newline_range_sound s {line = l} {rest = r} e)
]

pub le-value_from : (s : Bytes) (n : ℕ) → n ≤ value_from n s
le-value_from [] n = omega arith
le-value_from (c ∷ s) n = omega (arith, le-value_from s (n * 10 + (c - b'0')))

pub read_length_sound :
    (s : Bytes) (n : ℕ) {r : ℕ}
    → n ≤ int32_max
    → read_length n s ≡ some r
    → All IsDigit s × (value_from n s ≡ r) × (r ≤ int32_max)
unfolding read_length
read_length_sound [] n fits h = ground arith
read_length_sound (c ∷ s) n {r} fits h =
    ground (arith, read_length_sound s (n * 10 + (c - b'0')) {r = r})

pub read_length_complete :
    (s : Bytes) (n : ℕ)
    → All IsDigit s
    → value_from n s ≤ int32_max
    → read_length n s ≡ some (value_from n s)
unfolding read_length
read_length_complete [] n _ _ = refl
read_length_complete (c ∷ s) n (hc, hs) fits =
    let m = n * 10 + (c - b'0') in
    ground (arith, read_length_complete s m hs fits, le-value_from s m)

pub IsDigit-ne_newline : (s : Bytes) → All IsDigit s → All (λ c. c ≢ b'\n') s
IsDigit-ne_newline [] h = tt
IsDigit-ne_newline (c ∷ s) (hc, hs) = (omega arith, IsDigit-ne_newline s hs)

-- A field that starts with a line which spells its length is read back, whatever bytes it holds.
pub read_packet_field_complete :
    (line value rest : Bytes)
    → IsLength line (length value)
    → read_packet_field (line ++ (b'\n' ∷ (value ++ rest))) ≡ some (value, rest)
unfolding read_packet_field
read_packet_field_complete line value rest h =
    let found = find_newline_range_found line (value ++ rest) (IsDigit-ne_newline line h.digits) in
    let len = read_length_complete line 0 h.digits (omega arith) in
    rw (found, len, h.exact)
      (ground (arith, take-append value rest, drop-append value rest, length-append value rest))

cut_sound :
    (after : Bytes) (len : ℕ) {value rest : Bytes}
    → if◌then◌else◌ {A = Option (Bytes × Bytes)}
        (ltb (length after) len)
        none
        (some (take len after, drop len after))
      ≡ some (value, rest)
    → (after ≡ value ++ rest) × (length value ≡ len)
cut_sound after len h = ground (arith, take-append-drop len after, length-take len after)

-- What is read is a field: the cursor stood at its length, and stops behind its last byte.
pub read_packet_field_sound :
    (cursor : Bytes) {value rest : Bytes}
    → read_packet_field cursor ≡ some (value, rest)
    → (line : Bytes) × (cursor ≡ line ++ (b'\n' ∷ (value ++ rest))) × IsLength line (length value)
unfolding read_packet_field
read_packet_field_sound cursor {value} {rest} h =
    let ((line, after), e, h') = >>=-eq-some (find_newline_range cursor) _ h in
    let (len, e₂, cut) = >>=-eq-some (read_length 0 line) _ h' in
    let (joined, measured) = cut_sound after len {value = value} {rest = rest} cut in
    let (digits, exact, fits) = read_length_sound line 0 {r = len} (omega arith) e₂ in
    let (split, _) = find_newline_range_sound cursor {line = line} {rest = after} e in
    (
      line,
      split ∙ ap (λ (s : Bytes). line ++ (b'\n' ∷ s)) joined,
      record { digits = digits; exact = exact ∙ sym measured; fits = omega arith },
    )
