-- ===== src/FileDialog.antt =====
-- plugins/file_dialog/file_dialog_backend.c: asking for files. What the systems answer, the panel of
-- macOS included, is a parameter; texts are C strings, and malloc is taken to succeed.
pub mod Payload
pub mod Commands
pub mod Failures
pub mod Picks
use lepusa.Base.{
  ℕ, ◌-◌, ◌/◌, Bool, false, not, [], Option, none, some, ltb, ◌==◌, if◌then◌else◌, length, Bytes,
  codes, ℤ, pos, negsuc,
}
use lepusa.CString.{c_str}
use lepusa.FileDialog.Commands.{linux_command, same_text, windows_script, powershell_command}
use lepusa.Pipe.{Finished, dialog_output}
use lepusa.FileDialog.Payload.{packet, selected_json, cancelled_json, trim_newlines, text_of}

-- What the backend asks of the system, whose file it is built for.
pub record Host : Type 0 where
  -- `system`, the result of `SearchPathA`, and whether the classes of Cocoa are found.
  pub system : Bytes → ℤ
  pub search_path : Bytes → ℕ
  pub macos_runtime : Bool
  -- `popen`
  pub popen : Bytes → Option Finished
  -- The panel of macOS: the action, the folder to begin in, the name to suggest.
  pub macos_pick : Bytes → Bytes → Bytes → Option Bytes × ℤ
  -- `GetTempPathA` and `GetTempFileNameA`, whether `fopen` opens the file, and `_popen` of a command
  -- when the file has that text.
  pub temp_path : Option Bytes
  pub opens : Bool
  pub popen_windows : Bytes → Bytes → Option Finished

pub data Platform : Type 0 where
  macos linux windows other : Platform

abbrev pub is_code : ℤ → ℕ → Bool
is_code (pos n) code = n == code
is_code (negsuc n) code = false

abbrev pub is_positive : ℕ → Bool
is_positive n = ltb 0 n

-- What the command that was started, if it was, prints up to its first NUL, and its exit code.
unfoldable pub read_command : Option Finished → Option Bytes × ℤ
unfolding dialog_output
read_command none = (none, pos 1)
read_command (some finished) = (dialog_output finished.output, finished.status)

abbrev pub untitled : Bytes → Bytes
untitled suggested_name = if length suggested_name == 0 then codes "untitled" else suggested_name

module _ (host : Host) where
  unfoldable pub available : Platform → Bool
  available macos = host.macos_runtime
  available linux = is_code (host.system (codes "command -v zenity >/dev/null 2>&1")) 0
  available windows = is_positive (host.search_path (codes "powershell.exe"))
  available other = false

  -- With the name of the temporary file, if there is one.
  unfoldable pub windows_pick_with : Option Bytes → Bytes → Bytes → Bytes → Option Bytes × ℤ
  unfolding windows_script powershell_command read_command
  windows_pick_with none action initial_path suggested_name = (none, pos 1)
  windows_pick_with (some path) action initial_path suggested_name =
      if host.opens
      then read_command (
          host.popen_windows (powershell_command path)
            (windows_script action initial_path suggested_name))
      else (none, pos 1)

  unfoldable pub windows_pick : Bytes → Bytes → Bytes → Option Bytes × ℤ
  unfolding windows_pick_with
  windows_pick action initial_path suggested_name =
      windows_pick_with host.temp_path action initial_path suggested_name

  -- The selection and the exit code.
  unfoldable pub ask : Platform → Bytes → Bytes → Bytes → Option Bytes × ℤ
  unfolding linux_command windows_pick read_command
  ask macos action initial_path suggested_name =
      host.macos_pick action initial_path (untitled suggested_name)
  ask linux action initial_path suggested_name =
      read_command (host.popen (linux_command action initial_path suggested_name))
  ask windows action initial_path suggested_name =
      windows_pick action initial_path (untitled suggested_name)
  ask other action initial_path suggested_name = (none, pos 2)

abbrev pub cancelled_packet : Bytes → Bytes
cancelled_packet action = packet (codes "ok") (cancelled_json action)

abbrev pub failed_packet : Bytes
failed_packet = packet (codes "err") (codes "native file dialog failed")

abbrev pub json_packet : Option Bytes → Bytes
json_packet none = packet (codes "err") (codes "native file dialog allocation failed")
json_packet (some json) = packet (codes "ok") json

-- What is answered for a selection and an exit code.
unfoldable pub answer : Bytes → Option Bytes → ℤ → Bytes
unfolding selected_json trim_newlines cancelled_json
answer action (some selection) code =
    if is_code code 0
    then json_packet (
        selected_json action (some (trim_newlines selection))
          (same_text action (codes "openFiles")))
    else if not (is_code code 1)
    then cancelled_packet action
    else failed_packet
answer action none code = if not (is_code code 1) then cancelled_packet action else failed_packet

abbrev pub c_text : Option Bytes → Bytes
c_text none = []
c_text (some text) = c_str text

module _ (host : Host) (platform : Platform) where
  -- The arguments are ranges of bytes, none for NULL.
  unfoldable pub pick : Option Bytes → Option Bytes → Option Bytes → Bytes
  unfolding c_str available ask answer
  pick action initial_path suggested_name =
      if length (c_text action) == 0
      then packet (codes "err") (codes "native file dialog action is required")
      else if not (available host platform)
      then packet (codes "err") (codes "native file dialog is unavailable")
      else (let asked =
            ask host platform (c_text action) (c_text initial_path) (c_text suggested_name) in
          answer (c_text action) asked.0 asked.1)
