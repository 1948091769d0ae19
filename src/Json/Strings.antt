-- ===== src/Json/Strings.antt =====
-- runtime/linux/linux_backend.c: json_string_end and the text between its quotes.
use lepusa.Base.{
  ℕ, ◌+◌, ◌≤◌, [], ◌∷◌, ◌++◌, ◌≡◌, ◌≢◌, ◌↔◌, inl, inr, refl, ap, some, arith, ◌==◌, Bool-cases,
  length, length-append, Bytes,
}
use lepusa.Json.{string_end_from, json_string_end}

-- What may stand between quotes: bytes other than a quote and a backslash, and pairs of a backslash
-- and any byte.
pub data IsBody : Bytes → Type 0 where
  nil : IsBody []
  plain : {s : Bytes} (c : ℕ) → c ≢ b'"' → c ≢ b'\\' → IsBody s → IsBody (c ∷ s)
  escape : {s : Bytes} (c d : ℕ) → c ≡ b'\\' → IsBody s → IsBody (c ∷ d ∷ s)

pub string_end_from_complete :
    {body : Bytes} (rest : Bytes)
    → IsBody body
    → string_end_from (body ++ (b'"' ∷ rest)) ≡ some rest
unfolding string_end_from
string_end_from_complete [] nil = refl
string_end_from_complete (x ∷ rest) nil = refl
string_end_from_complete rest (plain {s = []} c q b h) =
    ground (arith, string_end_from_complete rest h)
string_end_from_complete rest (plain {s = d ∷ s} c q b h) =
    ground (arith, string_end_from_complete rest h)
string_end_from_complete rest (escape c d e h) = ground (arith, string_end_from_complete rest h)

-- A closed string ends behind its closing quote, whatever follows.
pub json_string_end_complete :
    {body : Bytes} (rest : Bytes)
    → IsBody body
    → json_string_end (b'"' ∷ (body ++ (b'"' ∷ rest))) ≡ some rest
unfolding json_string_end
json_string_end_complete rest h = string_end_from_complete rest h

string_end_from_sound :
    (s : Bytes) {rest : Bytes}
    → string_end_from s ≡ some rest
    → (body : Bytes) × (s ≡ body ++ (b'"' ∷ rest)) × IsBody body
unfolding string_end_from
string_end_from_sound [] h = cc
string_end_from_sound (c ∷ []) {rest} h = ([], ground arith, nil)
string_end_from_sound (c ∷ d ∷ s) {rest} h = elim (Bool-cases (c == b'\\')) [
  | inl e ↦
      let (body, split, ok) = string_end_from_sound s {rest = rest} (ground arith) in
      (c ∷ d ∷ body, ap (λ (t : Bytes). c ∷ d ∷ t) split, escape c d (ground arith) ok)
  | inr e ↦ elim (Bool-cases (c == b'"')) [
    | inl q ↦ ([], ground arith, nil)
    | inr p ↦
        let (body, split, ok) = string_end_from_sound (d ∷ s) {rest = rest} (ground arith) in
        (c ∷ body, ap (◌∷◌ c) split, plain c (ground arith) (ground arith) ok)
  ]
]

-- An end is found exactly behind a closed string.
pub json_string_end_iff :
    (s rest : Bytes)
    → (json_string_end s ≡ some rest)
      ↔ ((body : Bytes) × (s ≡ b'"' ∷ (body ++ (b'"' ∷ rest))) × IsBody body)
unfolding json_string_end
json_string_end_iff s rest =
    (sound s, λ (body, split, ok). rw split (string_end_from_complete rest ok))
  where
    sound :
        (s : Bytes)
        → json_string_end s ≡ some rest
        → (body : Bytes) × (s ≡ b'"' ∷ (body ++ (b'"' ∷ rest))) × IsBody body
    sound [] h = cc
    sound (c ∷ s) h =
        let (body, split, ok) = string_end_from_sound s {rest = rest} (ground arith) in
        (body, ground arith, ok)

-- The end of a string lies behind at least its two quotes.
pub json_string_end_shorter :
    (s : Bytes) {rest : Bytes} → json_string_end s ≡ some rest → length rest + 2 ≤ length s
json_string_end_shorter s {rest} h =
    let (body, split, ok) = (json_string_end_iff s rest).0 h in
    omega (arith, ap (length {0}) split, length-append body (b'"' ∷ rest))
