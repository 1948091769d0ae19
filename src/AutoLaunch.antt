-- ===== src/AutoLaunch.antt =====
-- plugins/auto_launch/auto_launch_backend.c: making the system start the program at login, as it is
-- built for Linux and for macOS. The disk and the variable HOME are parameters; malloc is taken to
-- succeed.
pub mod Lines
pub mod Laws
pub mod Registry
use lepusa.AutoLaunch.Lines.{command_line, desktop_command_line, xml_escape}
use lepusa.Base.{
  ℕ, ◌+◌, ◌-◌, ◌/◌, ◌<◌, Bool, true, false, not, ◌&&◌, ◌||◌, List, [], ◌∷◌, ◌++◌, ◌≡◌, Option, none,
  some, ◌==◌, if◌then◌else◌, length, take, concat, Bytes, codes,
}
use lepusa.CString.{c_str}

-- What the plugin uses of the system's files, and what the system promises of it.
pub record FileSystem : Type 1 where
  pub Disk : Type 0
  -- The text of a file, none if there is no file of that path.
  pub read : Disk → Bytes → Option Bytes
  -- `mkdir`, and whether the folder is there then.
  pub make_dir : Bytes → Disk → Disk × Bool
  -- `fopen`, `fputs` and `fclose`, and whether all succeed.
  pub write : Bytes → Bytes → Disk → Disk × Bool
  -- `remove`, and whether it succeeds or finds no such file.
  pub remove : Bytes → Disk → Disk × Bool
  pub read-write :
      (path text : Bytes) (disk : Disk)
      → (write path text disk).1 ≡ true
      → read (write path text disk).0 path ≡ some text
  pub read-remove :
      (path : Bytes) (disk : Disk)
      → (remove path disk).1 ≡ true
      → read (remove path disk).0 path ≡ none

-- The system that the backend is built for.
pub data Platform : Type 0 where
  macos linux : Platform

unfoldable pub join3 : Bytes → Bytes → Bytes → Bytes
join3 a b c = a ++ b ++ c

-- `getenv("HOME")`, where the empty text is as good as none.
unfoldable pub home_of : Option Bytes → Option Bytes
home_of none = none
home_of (some []) = none
home_of (some (c ∷ home)) = some (c ∷ home)

unfoldable pub parent_dir : Platform → Bytes → Bytes
unfolding join3
parent_dir macos home = join3 home (codes "/") (codes "Library")
parent_dir linux home = join3 home (codes "/") (codes ".config")

unfoldable pub launch_dir : Platform → Bytes → Bytes
unfolding join3
launch_dir macos home = join3 home (codes "/") (codes "Library/LaunchAgents")
launch_dir linux home = join3 home (codes "/") (codes ".config/autostart")

unfoldable pub file_name : Platform → Bytes → Bytes
unfolding join3
file_name macos name = join3 (codes "/") name (codes ".plist")
file_name linux name = join3 (codes "/") name (codes ".desktop")

unfoldable pub launch_path : Platform → Bytes → Bytes → Bytes
unfolding join3 launch_dir file_name
launch_path platform home name = join3 (launch_dir platform home) (file_name platform name) []

abbrev hidden_text : Bool → Bytes
hidden_text true = codes "true"
hidden_text false = codes "false"

-- The entry of a desktop, and the property list of macOS.
abbrev pub desktop_pieces : Bytes → Bytes → Bool → List Bytes
desktop_pieces name command open_hidden =
    codes "[Desktop Entry]\nType=Application\nName="
    ∷ name
    ∷ codes "\nExec="
    ∷ command
    ∷ codes "\nTerminal=false\nX-GNOME-Autostart-enabled=true\nX-Lepusa-OpenHidden="
    ∷ hidden_text open_hidden
    ∷ codes "\n"
    ∷ []

unfoldable pub desktop_text : Bytes → Bytes → Bool → Bytes
desktop_text name command open_hidden = concat (desktop_pieces name command open_hidden)

abbrev pub plist_pieces : Bytes → Bytes → List Bytes
plist_pieces xml_name xml_command =
    codes "<?xml version=\"1.0\" encoding=\"UTF-8\"?>\n"
    ∷ codes "<!DOCTYPE plist PUBLIC \"-//Apple//DTD PLIST 1.0//EN\" "
    ∷ codes "\"http://www.apple.com/DTDs/PropertyList-1.0.dtd\">\n"
    ∷ codes "<plist version=\"1.0\"><dict>\n<key>Label</key><string>"
    ∷ xml_name
    ∷ codes "</string>\n<key>ProgramArguments</key><array>"
    ∷ codes "<string>/bin/sh</string><string>-c</string><string>"
    ∷ xml_command
    ∷ codes "</string></array>\n<key>RunAtLoad</key><true/>\n</dict></plist>\n"
    ∷ []

unfoldable pub plist_text : Bytes → Bytes → Bytes
plist_text xml_name xml_command = concat (plist_pieces xml_name xml_command)

-- `snprintf` into a buffer of that size.
abbrev snprintf : ℕ → Bytes → Bytes
snprintf size text = take (size - 1) text

unfoldable pub linux_entry : Bytes → Bytes → Bytes → Bool → Bytes
unfolding desktop_command_line desktop_text
linux_entry name executable arguments open_hidden =
    let command = desktop_command_line executable arguments in
    snprintf (length name + length command + 256) (desktop_text name command open_hidden)

unfoldable pub macos_entry : Bytes → Bytes → Bytes → Bytes
unfolding command_line xml_escape plist_text
macos_entry name executable arguments =
    let xml_name = xml_escape name in
    let xml_command = xml_escape (command_line executable arguments) in
    snprintf (length xml_name + length xml_command + 512) (plist_text xml_name xml_command)

unfoldable pub launch_entry : Platform → Bytes → Bytes → Bytes → Bool → Bytes
unfolding linux_entry macos_entry
launch_entry macos name executable arguments open_hidden = macos_entry name executable arguments
launch_entry linux name executable arguments open_hidden =
    linux_entry name executable arguments open_hidden

abbrev pub is_empty : Bytes → Bool
is_empty text = length text == 0

abbrev pub c_text : Option Bytes → Bytes
c_text none = []
c_text (some text) = c_str text

abbrev pub is_null : Option Bytes → Bool
is_null none = true
is_null (some text) = false

module _ (fs : FileSystem) (platform : Platform) (home : Option Bytes) where
  open fs use {Disk, read, make_dir, write, remove}

  -- The folder above, the folder, and the file in it; each only if what comes before is done.
  unfoldable pub place_entry : Bytes → Bytes → Bytes → Bytes → Disk → Disk × ℕ
  place_entry above dir path text disk =
      let above_made = make_dir above disk in
      let made = make_dir dir above_made.0 in
      let written = write path text made.0 in
      if not above_made.1
      then (above_made.0, 1)
      else if not made.1
      then (made.0, 1)
      else (written.0, if written.1 then 0 else 1)

  unfoldable pub enable : Bytes → Bytes → Bytes → Bool → Option Bytes → Disk → Disk × ℕ
  unfolding place_entry launch_entry launch_path launch_dir parent_dir
  enable name executable arguments open_hidden none disk = (disk, 2)
  enable name executable arguments open_hidden (some h) disk =
      place_entry (parent_dir platform h) (launch_dir platform h) (launch_path platform h name)
        (launch_entry platform name executable arguments open_hidden) disk

  unfoldable pub disable : Bytes → Option Bytes → Disk → Disk × ℕ
  unfolding launch_path
  disable name none disk = (disk, 0)
  disable name (some h) disk =
      let removed = remove (launch_path platform h name) disk in
      (removed.0, if removed.1 then 0 else 1)

  -- Arguments that are NULL stand for a range of bytes that is none.
  unfoldable pub set_launch :
      Option Bytes → Option Bytes → Option Bytes → Bool → Bool → Disk → Disk × ℕ
  unfolding enable disable home_of c_str
  set_launch name executable arguments open_hidden enabled disk =
      if is_empty (c_text name) || is_null arguments
      then (disk, 1)
      else if enabled && is_empty (c_text executable)
      then (disk, 1)
      else if enabled
      then enable (c_text name) (c_text executable) (c_text arguments) open_hidden (home_of home)
          disk
      else disable (c_text name) (home_of home) disk

  -- `file_exists` on the path, which is not empty.
  unfoldable pub status_at : Option Bytes → Bytes → Disk → ℕ
  unfolding launch_path
  status_at none name disk = 2
  status_at (some h) name disk = if is_null (read disk (launch_path platform h name)) then 0 else 1

  unfoldable pub launch_status : Option Bytes → Disk → ℕ
  unfolding status_at home_of c_str
  launch_status name disk =
      if is_empty (c_text name) then 1 else status_at (home_of home) (c_text name) disk
