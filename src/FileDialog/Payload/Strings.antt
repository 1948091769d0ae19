-- ===== src/FileDialog/Payload/Strings.antt =====
-- plugins/file_dialog/file_dialog_backend.c: how a JSON reader takes the list of paths.
use lepusa.Base.{
  ℕ, ◌≤◌, false, ◌||◌, List, [], ◌∷◌, ◌++◌, ◌≡◌, ◌⊎◌, inl, inr, refl, Option, none, some,
  append_assoc, append-nil, arith, ltb, ◌==◌, ==_iff, if◌then◌else◌, Bool-cases, ◌>>=◌, length, All,
  All-append, Bytes, codes,
}
use lepusa.FileDialog.Payload.{json_escape, json_escape_all, json_escape_byte, paths_json}
use lepusa.FileDialog.Payload.Bounds.{
  paths_json-list_text, lines_from, lines_of, later_items, items,
}

-- Where a reader stands in a list of strings.
pub data Place : Type 0 where
  before_list before_first before_item in_string in_escape after_item after_list : Place

abbrev json_unescape : ℕ → Option ℕ
json_unescape c =
    if c == b'"' || c == b'\\' || c == b'/'
    then some c
    else if c == b'n'
    then some b'\n'
    else if c == b'r'
    then some b'\r'
    else if c == b't'
    then some b'\t'
    else none

-- A list of strings without blanks, as RFC 8259 writes it: a control character stands in no string, and
-- of the escapes those with a `u`, `b` or `f` are not read. The bytes are those of the string so far.
unfoldable pub json_strings : Place → Bytes → Bytes → Option (List Bytes)
json_strings after_list word [] = some []
json_strings place word [] = none
json_strings before_list word (c ∷ s) =
    let rest = json_strings before_first [] s in if c == b'[' then rest else none
json_strings before_first word (c ∷ s) =
    let string = json_strings in_string [] s in
    let ended = json_strings after_list [] s in
    if c == b'"' then string else if c == b']' then ended else none
json_strings before_item word (c ∷ s) =
    let string = json_strings in_string [] s in if c == b'"' then string else none
json_strings in_string word (c ∷ s) =
    let ended = json_strings after_item [] s >>= λ words. some (word ∷ words) in
    let behind = json_strings in_escape word s in
    let more = json_strings in_string (word ++ (c ∷ [])) s in
    if c == b'"' then ended else if c == b'\\' then behind else if ltb c 32 then none else more
json_strings in_escape word (c ∷ s) =
    json_unescape c >>= λ d. json_strings in_string (word ++ (d ∷ [])) s
json_strings after_item word (c ∷ s) =
    let next = json_strings before_item [] s in
    let ended = json_strings after_list [] s in
    if c == b',' then next else if c == b']' then ended else none
json_strings after_list word (c ∷ s) = none

-- A character that is not a control character, or one that the code escapes.
abbrev pub IsText : ℕ → Type 0
IsText c = (32 ≤ c) ⊎ (c ≡ b'\n') ⊎ (c ≡ b'\r') ⊎ (c ≡ b'\t')

json_strings-json_escape_byte :
    (c : ℕ) (word rest : Bytes)
    → IsText c
    → json_strings in_string word (json_escape_byte c ++ rest)
      ≡ json_strings in_string (word ++ (c ∷ [])) rest
unfolding json_strings json_escape_byte
json_strings-json_escape_byte c word rest text = elim (Bool-cases (c == b'"')) [
  | inl e ↦ let same = (==_iff c b'"').0 e in rw same refl
  | inr q ↦ elim (Bool-cases (c == b'\\')) [
    | inl e ↦ let same = (==_iff c b'\\').0 e in rw same refl
    | inr b ↦ elim (Bool-cases (c == b'\n')) [
      | inl e ↦ let same = (==_iff c b'\n').0 e in rw same refl
      | inr n ↦ elim (Bool-cases (c == b'\r')) [
        | inl e ↦ let same = (==_iff c b'\r').0 e in rw same refl
        | inr r ↦ elim (Bool-cases (c == b'\t')) [
          | inl e ↦ let same = (==_iff c b'\t').0 e in rw same refl
          | inr t ↦
              let printed : ltb c 32 ≡ false = ground (arith, text) in
              rw (q, b, n, r, t) rw (q, b, printed) refl
        ]
      ]
    ]
  ]
]

json_strings-json_escape_all :
    (text word rest : Bytes)
    → All IsText text
    → json_strings in_string word (json_escape_all text ++ rest)
      ≡ (json_strings after_item [] rest >>= λ words. some ((word ++ text) ∷ words))
unfolding json_escape_all
json_strings-json_escape_all [] word rest h = unfold json_strings in rw (append-nil word) refl
json_strings-json_escape_all (c ∷ text) word rest (hc, h) =
    rw
      (
        append_assoc (json_escape_byte c) (json_escape_all text) rest,
        json_strings-json_escape_byte c word (json_escape_all text ++ rest) hc,
        json_strings-json_escape_all text (word ++ (c ∷ [])) rest h,
        append_assoc word (c ∷ []) text,
      )
      refl

json_strings-later :
    (ls : List Bytes)
    → All (All IsText) ls
    → json_strings after_item [] (later_items ls ++ codes "]") ≡ some ls
unfolding json_strings json_escape
json_strings-later [] h = refl
json_strings-later (l ∷ ls) (hl, h) =
    rw
      (
        append_assoc (json_escape_all l) (later_items ls) (codes "]"),
        json_strings-json_escape_all l [] (later_items ls ++ codes "]") hl,
        json_strings-later ls h,
      )
      refl

json_strings-items :
    (ls : List Bytes)
    → All (All IsText) ls
    → json_strings before_list [] (codes "[" ++ items ls ++ codes "]") ≡ some ls
unfolding json_strings json_escape
json_strings-items [] h = refl
json_strings-items (l ∷ ls) (hl, h) =
    rw
      (
        append_assoc (json_escape_all l) (later_items ls) (codes "]"),
        json_strings-json_escape_all l [] (later_items ls ++ codes "]") hl,
        json_strings-later ls h,
      )
      refl

-- The lines of a text hold what the text holds.
lines_from-IsText :
    (l text : Bytes) → All IsText l → All IsText text → All (All IsText) (lines_from l text)
lines_from-IsText [] [] hl ht = tt
lines_from-IsText (d ∷ l) [] hl ht = (hl, tt)
lines_from-IsText l (c ∷ text) hl (hc, ht) =
    let next = lines_from-IsText [] text tt ht in
    let more =
      lines_from-IsText (l ++ (c ∷ [])) text (All-append IsText l (c ∷ []) hl (hc, tt)) ht in
    elim (Bool-cases (c == b'\n')) [
      | inr other ↦ rw other more
      | inl newline ↦ elim (Bool-cases (length l == 0)) [
        | inl blank ↦ rw (newline, blank) next
        | inr full ↦ rw (newline, full) (hl, next)
      ]
    ]

-- The list that is answered for a choice of several files is written within its block, and a JSON reader
-- takes from it the chosen paths: the lines that are not empty, each unchanged and in their order, if no
-- path holds a control character other than a carriage return and a tabulator.
pub paths_json-json_strings :
    (paths : Bytes)
    → All IsText paths
    → (paths_json (some paths) >>= json_strings before_list []) ≡ some (lines_of paths)
paths_json-json_strings paths h =
    rw (paths_json-list_text (some paths))
      (json_strings-items (lines_of paths) (lines_from-IsText [] paths tt h))
