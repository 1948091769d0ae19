-- ===== src/AutoLaunch/Lines.antt =====
-- plugins/auto_launch/auto_launch_backend.c: the texts that make the system start a program at login.
-- Texts are C strings, free of NUL; `NULL` stands for the empty one, and malloc is taken to succeed.
pub mod Shell
pub mod Bounds
pub mod Xml
use lepusa.Base.{
  ℕ, ◌+◌, ◌*◌, ◌<◌, Bool, ◌||◌, [], ◌∷◌, ◌++◌, ◌==◌, if◌then◌else◌, length, Bytes, codes,
}

-- `'`, or what stands for it between single quotes: `'\''`.
unfoldable pub shell_escape : ℕ → Bytes
shell_escape c = if c == b'\'' then b'\'' ∷ b'\\' ∷ b'\'' ∷ b'\'' ∷ [] else c ∷ []

-- The loop of `shell_quote`, and the closing quote.
unfoldable pub shell_escape_all : Bytes → Bytes
unfolding shell_escape
shell_escape_all [] = b'\'' ∷ []
shell_escape_all (c ∷ text) = shell_escape c ++ shell_escape_all text

unfoldable pub shell_quote : Bytes → Bytes
unfolding shell_escape_all
shell_quote text = b'\'' ∷ shell_escape_all text

-- What is written for a line of the arguments: nothing for an empty one.
unfoldable pub write_part : (Bytes → Bytes) → Bytes → Bytes
write_part quote [] = []
write_part quote (c ∷ part) = b' ' ∷ quote (c ∷ part)

-- The loop over the lines of the arguments, with the bytes of the line so far.
unfoldable pub write_parts : (Bytes → Bytes) → Bytes → Bytes → Bytes
unfolding write_part
write_parts quote part [] = write_part quote part
write_parts quote part (c ∷ s) =
    let line = write_part quote part ++ write_parts quote [] s in
    let more = write_parts quote (part ++ (c ∷ [])) s in if c == b'\n' then line else more

unfoldable pub command_line : Bytes → Bytes → Bytes
unfolding shell_quote write_parts
command_line executable arguments =
    codes "exec " ++ shell_quote executable ++ write_parts shell_quote [] arguments

-- `strlen("exec ") + strlen(quoted_executable) + strlen(arguments) * 4 + 64`, and one byte for the NUL.
abbrev pub command_line_size : Bytes → Bytes → ℕ
command_line_size executable arguments =
    5 + length (shell_quote executable) + length arguments * 4 + 64 + 1

unfoldable pub is_desktop_escaped : ℕ → Bool
is_desktop_escaped c = c == b'"' || c == b'\\' || c == b'`' || c == b'$'

-- The loop of `desktop_quote`, and the closing quote.
unfoldable pub desktop_escape_all : Bytes → Bytes
unfolding is_desktop_escaped
desktop_escape_all [] = b'"' ∷ []
desktop_escape_all (c ∷ text) =
    (if is_desktop_escaped c then b'\\' ∷ c ∷ [] else c ∷ []) ++ desktop_escape_all text

unfoldable pub desktop_quote : Bytes → Bytes
unfolding desktop_escape_all
desktop_quote text = b'"' ∷ desktop_escape_all text

unfoldable pub desktop_command_line : Bytes → Bytes → Bytes
unfolding desktop_quote write_parts
desktop_command_line executable arguments =
    desktop_quote executable ++ write_parts desktop_quote [] arguments

abbrev pub desktop_command_line_size : Bytes → Bytes → ℕ
desktop_command_line_size executable arguments =
    length (desktop_quote executable) + length arguments * 3 + 64 + 1

-- The argument is written as it is.
abbrev pub bare : Bytes → Bytes
bare part = part

unfoldable pub windows_command : Bytes → Bytes → Bytes
unfolding write_parts
windows_command executable arguments = b'"' ∷ (executable ++ (b'"' ∷ write_parts bare [] arguments))

abbrev pub windows_command_size : Bytes → Bytes → ℕ
windows_command_size executable arguments = length executable + length arguments + 64 + 1

unfoldable pub xml_entity : ℕ → Bytes
xml_entity c =
    if c == b'&'
    then codes "&amp;"
    else if c == b'<'
    then codes "&lt;"
    else if c == b'>'
    then codes "&gt;"
    else if c == b'"'
    then codes "&quot;"
    else if c == b'\''
    then codes "&apos;"
    else c ∷ []

unfoldable pub xml_escape : Bytes → Bytes
unfolding xml_entity
xml_escape [] = []
xml_escape (c ∷ text) = xml_entity c ++ xml_escape text
