-- ===== src/Json.antt =====
-- runtime/linux/linux_backend.c: the scanner that reads a member out of a JSON payload in place. A
-- cursor is the list of the bytes from it up to `end`, and an end pointer the bytes behind it. The
-- two loops that jump over strings run on fuel; the bytes left are enough of it.
pub mod Strings
pub mod Fuel
pub mod Objects
pub mod Members
pub mod Payload
use lepusa.Base.{
  ℕ, zero, suc, ◌+◌, ◌-◌, Bool, true, false, not, ◌&&◌, ◌||◌, [], ◌∷◌, Option, none, some, ◌==◌,
  if◌then◌else◌, ◌>>=◌, length, take, drop, Bytes, codes,
}
use lepusa.CString.{is_space, mem_eq}

unfoldable pub json_skip_space : Bytes → Bytes
unfolding is_space
json_skip_space [] = []
json_skip_space (c ∷ s) = if is_space c then json_skip_space s else c ∷ s

-- The loop of `json_string_end`, behind the opening quote. A backslash takes the next byte with it.
unfoldable pub string_end_from : Bytes → Option Bytes
string_end_from [] = none
string_end_from (c ∷ []) = if c == b'\\' then none else if c == b'"' then some [] else none
string_end_from (c ∷ d ∷ s) =
    let escaped = string_end_from s in
    let plain = string_end_from (d ∷ s) in
    if c == b'\\' then escaped else if c == b'"' then some (d ∷ s) else plain

unfoldable pub json_string_end : Bytes → Option Bytes
unfolding string_end_from
json_string_end [] = none
json_string_end (c ∷ s) = if not (c == b'"') then none else string_end_from s

-- The loop over an object or an array, `depth` brackets deep: brackets of the other kind do not count.
unfoldable pub container_end : ℕ → ℕ → ℕ → ℕ → Bytes → Option Bytes
unfolding json_string_end
container_end fuel opening closing depth [] = none
container_end zero opening closing depth (c ∷ s) = none
container_end (suc fuel) opening closing depth (c ∷ s) =
    let deeper = container_end fuel opening closing (depth + 1) s in
    let out = container_end fuel opening closing (depth - 1) s in
    let along = container_end fuel opening closing depth s in
    let behind = json_string_end (c ∷ s) >>= container_end fuel opening closing depth in
    if c == b'"'
    then behind
    else if c == opening
    then deeper
    else if c == closing
    then (if depth - 1 == 0 then some s else out)
    else along

unfoldable pub is_delimiter : ℕ → Bool
is_delimiter c = c == b',' || (c == b'}' || c == b']')

unfoldable pub scalar_end : Bytes → Bytes
unfolding is_delimiter
scalar_end [] = []
scalar_end (c ∷ s) = if is_delimiter c then c ∷ s else scalar_end s

unfoldable pub value_end_at : Bytes → Option Bytes
value_end_at [] = none
value_end_at (c ∷ s) =
    if c == b'"'
    then json_string_end (c ∷ s)
    else if c == b'{' || c == b'['
    then container_end (length s) c (if c == b'{' then b'}' else b']') 1 s
    else some (scalar_end (c ∷ s))

unfoldable pub json_value_end : Bytes → Option Bytes
unfolding json_skip_space json_string_end container_end scalar_end value_end_at
json_value_end cursor = value_end_at (json_skip_space cursor)

-- The text between two cursors, of which the second stands further on.
abbrev pub between : Bytes → Bytes → Bytes
between cursor stop = take (length cursor - length stop) cursor

unfoldable pub skip_byte : ℕ → Bytes → Option Bytes
skip_byte b [] = none
skip_byte b (c ∷ s) = if c == b then some s else none

unfoldable pub skip_comma : Bytes → Bytes
skip_comma [] = []
skip_comma (c ∷ s) = if c == b',' then s else c ∷ s

-- `cursor >= end || *cursor == '}'` at the head of a round.
at_member : Bytes → Bool
at_member [] = false
at_member (c ∷ s) = not (c == b'}')

unfoldable pub is_key : Bytes → Bytes → Bytes → Bool
unfolding mem_eq
is_key key_start key_end name =
    length key_start - length key_end - 2 == length name
    && mem_eq (length name) (drop 1 key_start) name

-- The loop over the members. Gives the value and its end, as cursors.
unfoldable pub find_member_from : ℕ → Bytes → Bytes → Option (Bytes × Bytes)
unfolding json_skip_space json_string_end json_value_end skip_byte skip_comma at_member is_key
find_member_from zero name cursor = none
find_member_from (suc fuel) name cursor =
    let key_start = json_skip_space cursor in
    let found = (do
      key_end ← json_string_end key_start
      after_colon ← skip_byte b':' (json_skip_space key_end)
      value_end ← json_value_end (json_skip_space after_colon)
      let rest = find_member_from fuel name (skip_comma (json_skip_space value_end))
      if is_key key_start key_end name
          then some (json_skip_space after_colon, value_end)
          else rest) in
    if at_member key_start then found else none

unfoldable pub json_find_member_value : Bytes → Bytes → Option (Bytes × Bytes)
unfolding find_member_from
json_find_member_value object name = do
  cursor ← skip_byte b'{' (json_skip_space object)
  find_member_from (length cursor) name cursor

-- `json_string_value_to_cstr`: the bytes between the quotes, escapes included.
unfoldable pub json_string_value : Bytes → Option Bytes
unfolding json_skip_space json_string_end
json_string_value value =
    let start = json_skip_space value in
    json_string_end start >>= λ stop. some (take (length start - length stop - 2) (drop 1 start))

starts_string : Bytes → Bool
starts_string [] = false
starts_string (c ∷ s) = c == b'"'

-- A payload is a string, or an object with the string as a member.
unfoldable pub json_payload_string : Bytes → Bytes → Option Bytes
unfolding json_string_value json_find_member_value json_skip_space starts_string
json_payload_string payload field =
    let cursor = json_skip_space payload in
    if starts_string cursor
    then json_string_value cursor
    else json_find_member_value cursor field >>= λ (value, stop).
        json_string_value (between value stop)

-- A prefix decides: what stands behind `true` or `false` is not looked at.
unfoldable pub json_bool_value : Bytes → Option Bool
unfolding json_skip_space mem_eq
json_bool_value value =
    let start = json_skip_space value in
    if mem_eq 4 start (codes "true")
    then some true
    else if mem_eq 5 start (codes "false")
    then some false
    else none

or_else : Option Bool → Bool → Bool
or_else none fallback = fallback
or_else (some b) fallback = b

unfoldable pub json_payload_bool : Bytes → Bytes → Bool → Bool
unfolding json_bool_value json_find_member_value json_skip_space or_else
json_payload_bool payload field fallback =
    let cursor = json_skip_space payload in
    elim (json_bool_value cursor) [
      | some b ↦ b
      | none ↦
          or_else
            (json_find_member_value cursor field >>= λ (member, stop).
              json_bool_value (between member stop))
            fallback
    ]

unfoldable pub json_member_string_range : Bytes → Bytes → Option Bytes
unfolding json_string_value json_find_member_value
json_member_string_range object field =
    json_find_member_value object field >>= λ (value, stop). json_string_value (between value stop)

unfoldable pub json_member_bool : Bytes → Bytes → Bool → Bool
unfolding json_bool_value json_find_member_value or_else
json_member_bool object field fallback =
    or_else
      (json_find_member_value object field >>= λ (value, stop).
        json_bool_value (between value stop))
      fallback
