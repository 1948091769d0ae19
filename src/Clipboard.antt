-- ===== src/Clipboard.antt =====
-- plugins/clipboard/clipboard_backend.c: the text on the clipboard. The commands of Linux and macOS and
-- the functions of Windows are parameters; malloc and realloc are taken to succeed.
pub mod RoundTrip
use lepusa.Base.{
  ℕ, ◌+◌, ◌-◌, ◌*◌, ◌/◌, Bool, true, false, not, ◌&&◌, ◌||◌, [], ◌∷◌, ◌++◌, Option, none, some,
  ◌==◌, if◌then◌else◌, length, Bytes, codes, ℤ, pos, negsuc,
}
use lepusa.CString.{c_str}
use lepusa.Pipe.{Finished, clipboard_output}

pub data Platform : Type 0 where
  macos linux windows other : Platform

-- The state of the system, its clipboard included, and what the backend calls.
pub record System : Type 1 where
  pub Desk : Type 0
  -- `access(path, X_OK) == 0`, and `system`.
  pub is_executable : Bytes → Desk → Bool
  pub system : Bytes → Desk → ℤ
  -- `popen` for reading; and for writing a text, with how much of it is written, nothing of an empty
  -- text, and the result of `pclose`.
  pub read_pipe : Bytes → Desk → Option Finished
  pub write_pipe : Bytes → Bytes → Desk → Desk × Option (ℕ × ℤ)
  -- `OpenClipboard`, `GlobalAlloc` with the first `GlobalLock`, and the `GlobalLock` of what is read.
  pub opens : Desk → Bool
  pub allocates : ℕ → Desk → Bool
  pub locks : Desk → Bool
  -- `GetClipboardData`, `EmptyClipboard` and `SetClipboardData`.
  pub clipboard_data : Desk → Option Bytes
  pub empty_clipboard : Desk → Desk
  pub set_clipboard_data : Bytes → Desk → Desk × Bool
  -- `MultiByteToWideChar`, and `WideCharToMultiByte` up to the first NUL, none if it fails.
  pub wide_of : Bytes → Bytes
  pub utf8_of : Bytes → Option Bytes

unfoldable pub packet : Bytes → Bytes → Bytes
packet status body = status ++ b'\n' ∷ body

abbrev is_zero : ℤ → Bool
is_zero (pos n) = n == 0
is_zero (negsuc n) = false

-- The bytes that a command printed, if it was started and did not fail.
unfoldable pub read_command : Option Finished → Option Bytes
unfolding clipboard_output
read_command none = none
read_command (some finished) =
    if is_zero finished.status then clipboard_output finished.output else none

unfoldable pub write_command : ℕ → Option (ℕ × ℤ) → ℕ
write_command len none = 2
write_command len (some (written, status)) = if written == len && is_zero status then 0 else 1

abbrev pub failed : Bytes → Bytes
failed reason = packet (codes "err") (codes "native clipboard " ++ reason)

abbrev pub text_packet : Option Bytes → Bytes
text_packet none = failed (codes "read failed")
text_packet (some text) = packet (codes "ok") text

abbrev pub paste_command : Platform → Bytes
paste_command macos = codes "/usr/bin/pbpaste"
paste_command linux =
    codes "wl-paste -n 2>/dev/null || xclip -selection clipboard -o 2>/dev/null || "
    ++ codes "xsel --clipboard --output 2>/dev/null"
paste_command windows = []
paste_command other = []

abbrev pub copy_command : Platform → Bytes
copy_command macos = codes "/usr/bin/pbcopy"
copy_command linux =
    codes "wl-copy 2>/dev/null || xclip -selection clipboard 2>/dev/null || "
    ++ codes "xsel --clipboard --input 2>/dev/null"
copy_command windows = []
copy_command other = []

-- The text of the data, up to its first NUL.
abbrev pub decoded_packet : Option Bytes → Bytes
decoded_packet none = failed (codes "decode failed")
decoded_packet (some text) = packet (codes "ok") (c_str text)

module _ (sys : System) where
  open sys use {
    Desk, is_executable, system, read_pipe, write_pipe, opens, allocates, locks, clipboard_data,
    empty_clipboard, set_clipboard_data, wide_of, utf8_of,
  }

  unfoldable pub windows_data : Option Bytes → Desk → Bytes
  unfolding packet c_str
  windows_data none desk = packet (codes "ok") []
  windows_data (some wide) desk =
      if locks desk then decoded_packet (utf8_of wide) else failed (codes "read failed")

  unfoldable pub windows_read_text : Desk → Bytes
  unfolding packet windows_data
  windows_read_text desk =
      if opens desk then windows_data (clipboard_data desk) desk else failed (codes "open failed")

  unfoldable pub windows_write_text : Bytes → Desk → Desk × ℕ
  windows_write_text text desk =
      let wide = wide_of text in
      let put = set_clipboard_data (wide ++ 0 ∷ []) (empty_clipboard desk) in
      if not (allocates ((length wide + 1) * 2) desk)
      then (desk, 1)
      else if not (opens desk)
      then (desk, 1)
      else (put.0, if put.1 then 0 else 1)

  unfoldable pub available : Platform → Desk → Bool
  available macos desk =
      is_executable (codes "/usr/bin/pbcopy") desk && is_executable (codes "/usr/bin/pbpaste") desk
  available linux desk = is_zero (
      system
        (codes "command -v wl-copy >/dev/null 2>&1 || command -v xclip >/dev/null 2>&1 || "
          ++ codes "command -v xsel >/dev/null 2>&1")
        desk)
  available windows desk = true
  available other desk = false

  unfoldable pub read_text : Platform → Desk → Bytes
  unfolding packet read_command windows_read_text
  read_text macos desk = text_packet (read_command (read_pipe (paste_command macos) desk))
  read_text linux desk = text_packet (read_command (read_pipe (paste_command linux) desk))
  read_text windows desk = windows_read_text desk
  read_text other desk = failed (codes "is unavailable")

  abbrev piped : Platform → Bytes → Desk → Desk × ℕ
  piped platform text desk =
      let wrote = write_pipe (copy_command platform) text desk in
      (wrote.0, write_command (length text) wrote.1)

  -- A range of bytes, none for NULL.
  unfoldable pub write_text : Platform → Option Bytes → Desk → Desk × ℕ
  unfolding write_command windows_write_text
  write_text platform none desk = (desk, 1)
  write_text macos (some text) desk = piped macos text desk
  write_text linux (some text) desk = piped linux text desk
  write_text windows (some text) desk = windows_write_text text desk
  write_text other (some text) desk = (desk, 2)

  unfoldable pub clear : Platform → Desk → Desk × ℕ
  unfolding write_text
  clear platform desk = write_text platform (some []) desk
