-- ===== src/FileDialog/Commands.antt =====
-- plugins/file_dialog/file_dialog_backend.c: the commands and the script that ask for files.
pub mod Words
use lepusa.AutoLaunch.Lines.{shell_quote}
use lepusa.Base.{
  ◌+◌, ◌-◌, Bool, true, false, not, ◌&&◌, [], ◌∷◌, ◌++◌, ◌==◌, if◌then◌else◌, length, Bytes, codes,
}

-- `strcmp(s, t) == 0`
abbrev pub same_text : Bytes → Bytes → Bool
same_text [] [] = true
same_text [] (d ∷ t) = false
same_text (c ∷ s) [] = false
same_text (c ∷ s) (d ∷ t) = c == d && same_text s t

unfoldable pub seed_of : Bytes → Bytes → Bytes → Bytes
seed_of action initial_path suggested_name =
    if same_text action (codes "saveFile") && not (length suggested_name == 0)
    then suggested_name
    else initial_path

unfoldable pub mode_of : Bytes → Bytes
mode_of action =
    if same_text action (codes "openFiles")
    then codes " --multiple --separator='\\n'"
    else if same_text action (codes "openDirectory")
    then codes " --directory"
    else if same_text action (codes "saveFile")
    then codes " --save --confirm-overwrite"
    else []

-- `shell_quote` is written as in auto_launch_backend.c.
unfoldable pub linux_command : Bytes → Bytes → Bytes → Bytes
unfolding seed_of mode_of shell_quote
linux_command action initial_path suggested_name =
    let seed = seed_of action initial_path suggested_name in
    codes "zenity --file-selection"
    ++ (mode_of action
        ++ (if length seed == 0 then [] else codes " --filename=" ++ shell_quote seed))

-- The loop of `powershell_quote`, and the closing quote.
unfoldable pub powershell_escape_all : Bytes → Bytes
powershell_escape_all [] = b'\'' ∷ []
powershell_escape_all (c ∷ text) =
    (if c == b'\'' then b'\'' ∷ c ∷ [] else c ∷ []) ++ powershell_escape_all text

unfoldable pub powershell_quote : Bytes → Bytes
unfolding powershell_escape_all
powershell_quote text = b'\'' ∷ powershell_escape_all text

abbrev script_start : Bytes
script_start = codes "Add-Type -AssemblyName System.Windows.Forms\n"

abbrev unless_empty : Bytes → Bytes → Bytes
unless_empty quoted assignment =
    codes "if ("
    ++ quoted
    ++ codes " -ne '') { "
    ++ assignment
    ++ codes " = "
    ++ quoted
    ++ codes " }\n"

abbrev when_ok : Bytes → Bytes
when_ok output =
    codes "if ($d.ShowDialog() -eq [System.Windows.Forms.DialogResult]::OK) { Write-Output "
    ++ output
    ++ codes " } else { exit 10 }\n"

abbrev multiselect : Bool → Bytes
multiselect true = codes "$true"
multiselect false = codes "$false"

unfoldable pub windows_script : Bytes → Bytes → Bytes → Bytes
unfolding powershell_quote
windows_script action initial_path suggested_name =
    let path = powershell_quote initial_path in
    let name = powershell_quote suggested_name in
    if same_text action (codes "openDirectory")
    then script_start
      ++ codes "$d = New-Object System.Windows.Forms.FolderBrowserDialog\n"
      ++ unless_empty path (codes "$d.SelectedPath")
      ++ when_ok (codes "$d.SelectedPath")
    else if same_text action (codes "saveFile")
    then script_start
      ++ codes "$d = New-Object System.Windows.Forms.SaveFileDialog\n"
      ++ unless_empty path (codes "$d.InitialDirectory")
      ++ unless_empty name (codes "$d.FileName")
      ++ when_ok (codes "$d.FileName")
    else script_start
      ++ codes "$d = New-Object System.Windows.Forms.OpenFileDialog\n"
      ++ unless_empty path (codes "$d.InitialDirectory")
      ++ codes "$d.Multiselect = "
      ++ multiselect (same_text action (codes "openFiles"))
      ++ codes "\n"
      ++ when_ok (codes "($d.FileNames -join \"`n\")")

unfoldable pub powershell_command : Bytes → Bytes
powershell_command temp_path =
    codes "powershell -NoProfile -STA -ExecutionPolicy Bypass -File \"" ++ temp_path ++ codes "\""
