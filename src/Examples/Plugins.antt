-- ===== src/Examples/Plugins.antt =====
-- Calls of the plugins on systems that are written down in full.
use lepusa.AutoLaunch.Laws.{set_launch-launch_status, entry_text}
use lepusa.AutoLaunch.Lines.Bounds.{command_line_sizes}
use lepusa.AutoLaunch.Registry.{
  Registry, windows_set, change_value, windows_status, windows_set-windows_status,
}
use lepusa.AutoLaunch.Lines.Shell.{command_line-shell_words, shell_words, outside, join_lines}
use lepusa.AutoLaunch.Lines.{
  command_line, command_line_size, desktop_command_line, desktop_command_line_size, windows_command,
  windows_command_size,
}
use lepusa.AutoLaunch.{
  FileSystem, linux, set_launch, launch_status, launch_path, enable, place_entry, home_of,
}
use lepusa.Base.{
  ◌<◌, true, false, List, [], ◌∷◌, ◌≡◌, ◌↔◌, ◌⊎◌, refl, ap, Option, none, some, arith, ==-refl,
  if◌then◌else◌, ◌>>=◌, length, Bytes, codes, pos,
}
use lepusa.CString.{c_str}
use lepusa.Clipboard.RoundTrip.{CopiesByPipe, write_text-read_text}
use lepusa.Clipboard.{System, read_text, write_text, write_command, packet}
use lepusa.Clipboard
use lepusa.FileDialog.Commands.Words.{saved, named, linux_command-shell_words}
use lepusa.FileDialog.Commands.{linux_command, same_text}
use lepusa.FileDialog.Payload.Strings.{json_strings, before_list, paths_json-json_strings}
use lepusa.FileDialog.Payload.{paths_json}
use lepusa.FileDialog.Failures.{Fails}
use lepusa.FileDialog.Picks.{pick-status_of, status_of}
use lepusa.FileDialog.{Host, pick, c_text}
use lepusa.FileDialog
use lepusa.Notification.{displayed-applescript, displayed, applescript}
use lepusa.Pipe.{output-whole, dialog_output, clipboard_output}

same_text_refl : (text : Bytes) → same_text text text ≡ true
same_text_refl [] = refl
same_text_refl (c ∷ text) = rw (==-refl c) (same_text_refl text)

-- Files by their paths.
abbrev file_system : FileSystem
file_system = record {
  Disk = Bytes → Option Bytes;
  read = λ disk path. disk path;
  make_dir = λ path disk. (disk, true);
  write = λ path text disk. (λ p. if same_text path p then some text else disk p, true);
  remove = λ path disk. (λ p. if same_text path p then none else disk p, true);
  read-write = λ path text disk done. rw (same_text_refl path) refl;
  read-remove = λ path disk done. rw (same_text_refl path) refl;
}

abbrev no_file : Bytes → Option Bytes
no_file path = none

abbrev arguments : List Bytes
arguments = codes "--log" ∷ codes "it's" ∷ []

registered :
    (set_launch file_system linux
      (some (codes "/home/u"))
      (some (codes "Log"))
      (some (codes "/opt/log"))
      (some (join_lines arguments))
      false
      true
      no_file).1
    ≡ 0
unfolding set_launch enable place_entry home_of c_str
registered = refl

set_launch-launch_status_example :
    let after =
      (set_launch file_system linux
        (some (codes "/home/u"))
        (some (codes "Log"))
        (some (codes "/opt/log"))
        (some (join_lines arguments))
        false
        true
        no_file).0 in
    (after (launch_path linux (codes "/home/u") (codes "Log"))
      ≡ some (entry_text linux (codes "Log") (codes "/opt/log") (join_lines arguments) false))
    × (launch_status file_system linux (some (codes "/home/u")) (some (codes "Log")) after ≡ 1)
unfolding c_str home_of
set_launch-launch_status_example =
    set_launch-launch_status file_system linux (some (codes "/home/u")) (some (codes "Log"))
      (some (codes "/opt/log")) (some (join_lines arguments)) false true (codes "/home/u") no_file
      refl registered

-- The values of the key by their names.
abbrev registry : Registry
registry = record {
  Key = Bytes → Option Bytes;
  opens = λ key. true;
  creates = λ key. (key, true);
  value = λ key name. key name;
  set_value = λ name command key. (λ n. if same_text name n then some command else key n, true);
  delete_value = λ name key. (λ n. if same_text name n then none else key n, true);
  value-set = λ name command key done. rw (same_text_refl name) refl;
  value-delete = λ name key done. rw (same_text_refl name) refl;
}

set_value_done :
    (windows_set registry
      (some (codes "Log"))
      (some (codes "C:/log.exe"))
      (some (join_lines (codes "-v" ∷ [])))
      true
      no_file).1
    ≡ 0
unfolding windows_set change_value c_str
set_value_done = refl

windows_set-windows_status_example :
    let after =
      (windows_set registry
        (some (codes "Log"))
        (some (codes "C:/log.exe"))
        (some (join_lines (codes "-v" ∷ [])))
        true
        no_file).0 in
    (after (codes "Log") ≡ some (codes "\"C:/log.exe\" -v"))
    × (windows_status registry (some (codes "Log")) after ≡ 1)
unfolding c_str
windows_set-windows_status_example =
    windows_set-windows_status registry (some (codes "Log")) (some (codes "C:/log.exe"))
      (codes "-v" ∷ []) true no_file (omega arith) set_value_done

command_line-shell_words_example :
    shell_words outside none (command_line (codes "/opt/log") (join_lines arguments))
    ≡ some (codes "exec" ∷ codes "/opt/log" ∷ codes "--log" ∷ codes "it's" ∷ [])
command_line-shell_words_example =
    command_line-shell_words (codes "/opt/log") arguments (omega arith)

command_line_sizes_example :
    (length (command_line (codes "/opt/log") (codes "-v\nx"))
      < command_line_size (codes "/opt/log") (codes "-v\nx"))
    × (length (desktop_command_line (codes "/opt/log") (codes "-v\nx"))
        < desktop_command_line_size (codes "/opt/log") (codes "-v\nx"))
    × (length (windows_command (codes "/opt/log") (codes "-v\nx"))
        < windows_command_size (codes "/opt/log") (codes "-v\nx"))
command_line_sizes_example = command_line_sizes (codes "/opt/log") (codes "-v\nx")

paths_json-json_strings_example :
    (paths_json (some (codes "/a\n\"b")) >>= json_strings before_list [])
    ≡ some (codes "/a" ∷ codes "\"b" ∷ [])
paths_json-json_strings_example = paths_json-json_strings (codes "/a\n\"b") (omega arith)

linux_command-shell_words_example :
    shell_words outside none (linux_command (codes "saveFile") (codes "/tmp") (codes "my file"))
    ≡ some (
        codes "zenity"
        ∷ codes "--file-selection"
        ∷ codes "--save"
        ∷ codes "--confirm-overwrite"
        ∷ codes "--filename=my file"
        ∷ [])
linux_command-shell_words_example =
    linux_command-shell_words (codes "saveFile") (codes "/tmp") (codes "my file") (codes "my file")
      (codes "--save" ∷ codes "--confirm-overwrite" ∷ []) saved (named refl (omega arith))

-- A system on which zenity prints one path.
abbrev zenity_host : Host
zenity_host = record {
  system = λ command. pos 0;
  search_path = λ name. 0;
  macos_runtime = false;
  popen = λ command. some (record { output = codes "/tmp/a\n"; status = pos 0 });
  macos_pick = λ action path name. (none, pos 10);
  temp_path = none;
  opens = false;
  popen_windows = λ command script. none;
}

pick-status_of_example :
    let status =
      status_of (pick zenity_host FileDialog.linux (some (codes "openFile")) none none) in
    ((status ≡ codes "err") ↔ (
      (c_text (some (codes "openFile")) ≡ [])
      ⊎ Fails zenity_host FileDialog.linux (c_text (some (codes "openFile"))) [] []))
    × ((status ≡ codes "err") ⊎ (status ≡ codes "ok"))
pick-status_of_example =
    pick-status_of zenity_host FileDialog.linux (some (codes "openFile")) none none

output-whole_example :
    (dialog_output (codes "/tmp/a\n") ≡ some (codes "/tmp/a\n"))
    × (clipboard_output (codes "/tmp/a\n") ≡ some (codes "/tmp/a\n"))
unfolding c_str
output-whole_example = output-whole (codes "/tmp/a\n")

-- A clipboard that commands write and print.
abbrev desk_system : System
desk_system = record {
  Desk = Bytes;
  is_executable = λ path desk. true;
  system = λ command desk. pos 0;
  read_pipe = λ command desk. some (record { output = desk; status = pos 0 });
  write_pipe = λ command text desk. (text, some (length text, pos 0));
  opens = λ desk. true;
  allocates = λ size desk. true;
  locks = λ desk. true;
  clipboard_data = λ desk. some desk;
  empty_clipboard = λ desk. [];
  set_clipboard_data = λ wide desk. (wide, true);
  wide_of = λ text. text;
  utf8_of = λ wide. some (c_str wide);
}

desk_pipes : CopiesByPipe desk_system Clipboard.linux
desk_pipes = record {
  on_clipboard = λ desk. some desk;
  copies = λ text desk all. refl;
  pastes = λ text desk there.
      ap
        (λ (held : Option Bytes).
          held >>= λ output. some (record { output = output; status = pos 0 }))
        there;
}

linux_written : (write_text desk_system Clipboard.linux (some (codes "Log")) []).1 ≡ 0
unfolding write_text write_command
linux_written = refl

linux_pasted :
    read_text desk_system Clipboard.linux
      (write_text desk_system Clipboard.linux (some (codes "Log")) []).0
    ≡ packet (codes "ok") (codes "Log")
linux_pasted =
    write_text-read_text desk_system Clipboard.linux (codes "Log") [] desk_pipes tt linux_written

displayed-applescript_example :
    displayed (applescript (codes "Log") (codes "say \"hi\""))
    ≡ some (codes "Log", codes "say \"hi\"")
displayed-applescript_example = displayed-applescript (codes "Log") (codes "say \"hi\"")
