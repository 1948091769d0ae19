-- ===== src/FileDialog/Payload.antt =====
-- plugins/file_dialog/file_dialog_backend.c: the packets that answer a call. Texts are C strings, free
-- of NUL, with none for NULL; malloc and realloc are taken to succeed.
pub mod Bounds
pub mod Strings
use lepusa.Base.{
  ℕ, ◌+◌, ◌*◌, Bool, true, false, ◌&&◌, ◌||◌, [], ◌∷◌, ◌++◌, Option, none, some, ltb, leb, ◌==◌,
  if◌then◌else◌, ◌>>=◌, length, Bytes, codes,
}

unfoldable pub packet : Bytes → Bytes → Bytes
packet status body = status ++ b'\n' ∷ body

-- What the escaping loop writes for a byte.
unfoldable pub json_escape_byte : ℕ → Bytes
json_escape_byte c =
    if c == b'"'
    then b'\\' ∷ b'"' ∷ []
    else if c == b'\\'
    then b'\\' ∷ b'\\' ∷ []
    else if c == b'\n'
    then b'\\' ∷ b'n' ∷ []
    else if c == b'\r'
    then b'\\' ∷ b'r' ∷ []
    else if c == b'\t'
    then b'\\' ∷ b't' ∷ []
    else c ∷ []

-- The loop, and the closing quote.
unfoldable pub json_escape_all : Bytes → Bytes
unfolding json_escape_byte
json_escape_all [] = b'"' ∷ []
json_escape_all (c ∷ text) = json_escape_byte c ++ json_escape_all text

abbrev pub text_of : Option Bytes → Bytes
text_of none = []
text_of (some text) = text

unfoldable pub json_escape : Option Bytes → Bytes
unfolding json_escape_all
json_escape text = b'"' ∷ json_escape_all (text_of text)

-- An allocated block of `capacity` bytes, and the bytes before `offset`.
pub record Buffer : Type 0 where
  pub bytes : Bytes
  pub capacity : ℕ

-- Writing behind `offset`; none where that leaves the block.
abbrev pub put : Bytes → Buffer → Option Buffer
put text buffer =
    if leb (length buffer.bytes + length text) buffer.capacity
    then some (record buffer { bytes = buffer.bytes ++ text })
    else none

-- The block is grown if a line may not fit.
unfoldable pub reserve : ℕ → Buffer → Buffer
reserve escaped_len buffer =
    if leb buffer.capacity (length buffer.bytes + escaped_len + 3)
    then record buffer { capacity = (length buffer.bytes + escaped_len + 3) * 2 }
    else buffer

-- What the loop does with a line.
unfoldable pub put_line : Bytes → Buffer → Option Buffer
unfolding json_escape reserve
put_line [] buffer = some buffer
put_line (c ∷ line) buffer =
    let escaped = json_escape (some (c ∷ line)) in
    let room = reserve (length escaped) buffer in
    (if ltb 1 (length room.bytes) then put (codes ",") room else some room) >>= put escaped

-- The loop over the lines, with the bytes of the line so far.
unfoldable pub put_lines : Bytes → Bytes → Buffer → Option Buffer
unfolding put_line
put_lines line [] buffer = put_line line buffer
put_lines line (c ∷ paths) buffer =
    let next = put_line line buffer >>= put_lines [] paths in
    let more = put_lines (line ++ (c ∷ [])) paths buffer in if c == b'\n' then next else more

-- The closing bracket, and the NUL.
unfoldable pub put_end : Buffer → Option Bytes
put_end buffer =
    put (codes "]") buffer >>= λ closed. put (0 ∷ []) closed >>= λ ended. some closed.bytes

unfoldable pub paths_json : Option Bytes → Option Bytes
unfolding put_lines put_end
paths_json paths =
    let empty : Buffer = record { bytes = []; capacity = length (text_of paths) * 2 + 8 } in
    put (codes "[") empty >>= λ begun. put_lines [] (text_of paths) begun >>= put_end

unfoldable pub selected_json : Bytes → Option Bytes → Bool → Option Bytes
unfolding json_escape paths_json
selected_json action path multiple =
    let start =
      codes "{\"action\":"
      ++ json_escape (some action)
      ++ codes ",\"status\":\"selected\",\"native\":true,\"cancelled\":false," in
    if multiple
    then (paths_json path >>= λ paths. some (start ++ codes "\"paths\":" ++ paths ++ codes "}"))
    else some (start ++ codes "\"path\":" ++ json_escape path ++ codes "}")

unfoldable pub cancelled_json : Bytes → Bytes
unfolding json_escape
cancelled_json action =
    codes "{\"action\":"
    ++ json_escape (some action)
    ++ codes ",\"status\":\"cancelled\",\"native\":true,\"cancelled\":true}"

abbrev pub is_newline : ℕ → Bool
is_newline c = c == b'\n' || c == b'\r'

-- From the end, as long as there is a newline.
unfoldable pub trim_newlines : Bytes → Bytes
trim_newlines [] = []
trim_newlines (c ∷ text) =
    let rest = trim_newlines text in if length rest == 0 && is_newline c then [] else c ∷ rest
