-- ===== src/AutoLaunch/Laws.antt =====
-- plugins/auto_launch/auto_launch_backend.c: what the system finds after the program was registered.
use lepusa.AutoLaunch.{
  FileSystem, Platform, macos, linux, home_of, launch_path, launch_dir, parent_dir, desktop_text,
  plist_text, linux_entry, macos_entry, launch_entry, place_entry, enable, disable, set_launch,
  status_at, launch_status, is_null, is_empty, c_text, desktop_pieces, plist_pieces,
}
use lepusa.AutoLaunch.Lines.{command_line, desktop_command_line, xml_escape}
use lepusa.Base.{
  ℕ, ◌+◌, ◌-◌, ◌≤◌, Bool, true, false, ◌&&◌, ◌||◌, ◌≡◌, inl, inr, refl, ap, ◌∙◌, Option, none, some,
  arith, if◌then◌else◌, Bool-cases, length, take_short, length-concat, Bytes,
}

desktop_text-length :
    (name command : Bytes) (open_hidden : Bool)
    → length (desktop_text name command open_hidden) ≤ length name + length command + 256 - 1
unfolding desktop_text
desktop_text-length name command true =
    omega (arith, length-concat (desktop_pieces name command true))
desktop_text-length name command false =
    omega (arith, length-concat (desktop_pieces name command false))

plist_text-length :
    (xml_name xml_command : Bytes)
    → length (plist_text xml_name xml_command) ≤ length xml_name + length xml_command + 512 - 1
unfolding plist_text
plist_text-length xml_name xml_command =
    omega (arith, length-concat (plist_pieces xml_name xml_command))

-- The buffers of both entries hold them whole.
linux_entry-whole :
    (name executable arguments : Bytes) (open_hidden : Bool)
    → linux_entry name executable arguments open_hidden
      ≡ desktop_text name (desktop_command_line executable arguments) open_hidden
unfolding linux_entry
linux_entry-whole name executable arguments open_hidden =
    take_short _ (desktop_text name command open_hidden) (fits open_hidden)
  where
    command : Bytes
    command = desktop_command_line executable arguments

    fits :
        (open_hidden : Bool)
        → length (desktop_text name command open_hidden) ≤ length name + length command + 256 - 1
    fits open_hidden = desktop_text-length name command open_hidden

macos_entry-whole :
    (name executable arguments : Bytes)
    → macos_entry name executable arguments
      ≡ plist_text (xml_escape name) (xml_escape (command_line executable arguments))
unfolding macos_entry
macos_entry-whole name executable arguments =
    take_short _ (plist_text (xml_escape name) (xml_escape (command_line executable arguments)))
      (plist_text-length (xml_escape name) (xml_escape (command_line executable arguments)))

-- The text of the file that starts the program.
abbrev pub entry_text : Platform → Bytes → Bytes → Bytes → Bool → Bytes
entry_text macos name executable arguments open_hidden =
    plist_text (xml_escape name) (xml_escape (command_line executable arguments))
entry_text linux name executable arguments open_hidden =
    desktop_text name (desktop_command_line executable arguments) open_hidden

launch_entry-whole :
    (platform : Platform) (name executable arguments : Bytes) (open_hidden : Bool)
    → launch_entry platform name executable arguments open_hidden
      ≡ entry_text platform name executable arguments open_hidden
unfolding launch_entry
launch_entry-whole macos name executable arguments open_hidden =
    macos_entry-whole name executable arguments
launch_entry-whole linux name executable arguments open_hidden =
    linux_entry-whole name executable arguments open_hidden

module _ (fs : FileSystem) (platform : Platform) (home : Option Bytes) where
  open fs use {Disk, read, make_dir, write, remove, read-write, read-remove}

  place_entry-read :
      (above dir path text : Bytes) (disk : Disk)
      → (place_entry fs platform home above dir path text disk).1 ≡ 0
      → read (place_entry fs platform home above dir path text disk).0 path ≡ some text
  unfolding place_entry
  place_entry-read above dir path text disk done =
      let above_made = make_dir above disk in
      let made = make_dir dir above_made.0 in
      let written = write path text made.0 in
      elim (Bool-cases above_made.1) [
        | inr failed ↦ ground (arith, rw failed at done)
        | inl above_done ↦ elim (Bool-cases made.1) [
          | inr failed ↦ ground (arith, rw (above_done, failed) at done)
          | inl dir_done ↦ elim (Bool-cases written.1) [
            | inr failed ↦ ground (arith, rw (above_done, dir_done, failed) at done)
            | inl wrote ↦ rw (above_done, dir_done) (read-write path text made.0 wrote)
          ]
        ]
      ]

  abbrev pub Registers : Bytes → Bytes → Bytes → Bytes → Bool → Bool → Disk → Type 0
  Registers h name executable arguments open_hidden enabled disk =
      (read disk (launch_path platform h name) ≡ (
        if enabled then some (entry_text platform name executable arguments open_hidden) else none))
      × (status_at fs platform home (some h) name disk ≡ (if enabled then 1 else 0))

  enable-Registers :
      (name executable arguments : Bytes) (open_hidden : Bool) (h : Bytes) (disk : Disk)
      → (enable fs platform home name executable arguments open_hidden (some h) disk).1 ≡ 0
      → Registers h name executable arguments open_hidden true
          (enable fs platform home name executable arguments open_hidden (some h) disk).0
  unfolding enable status_at
  enable-Registers name executable arguments open_hidden h disk done =
      let text = launch_entry platform name executable arguments open_hidden in
      let found =
        place_entry-read (parent_dir platform h) (launch_dir platform h)
          (launch_path platform h name) text disk done in
      (
        found ∙ ap some (launch_entry-whole platform name executable arguments open_hidden),
        rw found refl,
      )

  disable-Registers :
      (name executable arguments : Bytes) (open_hidden : Bool) (h : Bytes) (disk : Disk)
      → (disable fs platform home name (some h) disk).1 ≡ 0
      → Registers h name executable arguments open_hidden false
          (disable fs platform home name (some h) disk).0
  unfolding disable status_at
  disable-Registers name executable arguments open_hidden h disk done =
      let path = launch_path platform h name in
      elim (Bool-cases (remove path disk).1) [
        | inr failed ↦ ground (arith, rw failed at done)
        | inl removed ↦ let gone = read-remove path disk removed in (gone, rw gone refl)
      ]

  -- What a call does that is not refused.
  abbrev chosen : Option Bytes → Option Bytes → Option Bytes → Bool → Bool → Disk → Disk × ℕ
  chosen name executable arguments open_hidden enabled disk =
      if enabled
      then enable fs platform home (c_text name) (c_text executable) (c_text arguments) open_hidden
          (home_of home) disk
      else disable fs platform home (c_text name) (home_of home) disk

  set_launch-accepted :
      (name executable arguments : Option Bytes) (open_hidden enabled : Bool) (disk : Disk)
      → (set_launch fs platform home name executable arguments open_hidden enabled disk).1 ≡ 0
      → (is_empty (c_text name) ≡ false)
        × (set_launch fs platform home name executable arguments open_hidden enabled disk
            ≡ chosen name executable arguments open_hidden enabled disk)
  unfolding set_launch
  set_launch-accepted name executable arguments open_hidden enabled disk done =
      elim (Bool-cases (is_empty (c_text name) || is_null arguments)) [
        | inl refused ↦ ground (arith, rw refused at done)
        | inr accepted ↦ elim (Bool-cases (enabled && is_empty (c_text executable))) [
          | inl refused ↦ ground (arith, rw (accepted, refused) at done)
          | inr runs ↦ (ground arith, rw (accepted, runs) refl)
        ]
      ]

  chosen-Registers :
      (name executable arguments : Option Bytes) (open_hidden enabled : Bool) (h : Bytes)
      (disk : Disk)
      → home_of home ≡ some h
      → (chosen name executable arguments open_hidden enabled disk).1 ≡ 0
      → Registers h
          (c_text name)
          (c_text executable)
          (c_text arguments)
          open_hidden
          enabled
          (chosen name executable arguments open_hidden enabled disk).0
  chosen-Registers name executable arguments open_hidden true h disk at_home done = rw at_home (
      enable-Registers (c_text name) (c_text executable) (c_text arguments) open_hidden h disk
        (rw at_home at done))
  chosen-Registers name executable arguments open_hidden false h disk at_home done = rw at_home (
      disable-Registers (c_text name) (c_text executable) (c_text arguments) open_hidden h disk
        (rw at_home at done))

  -- With a home folder, a call that reports success leaves the file that starts the program with its
  -- whole text if the program was to be registered, and no such file if not; the status that is asked
  -- for next says so. Files are taken to read back as they were written, and as gone once removed.
  pub set_launch-launch_status :
      (name executable arguments : Option Bytes) (open_hidden enabled : Bool) (h : Bytes)
      (disk : Disk)
      → home_of home ≡ some h
      → (set_launch fs platform home name executable arguments open_hidden enabled disk).1 ≡ 0
      → let after =
          (set_launch fs platform home name executable arguments open_hidden enabled disk).0 in
        (read after (launch_path platform h (c_text name)) ≡ (
          if enabled
          then some
              (entry_text platform (c_text name) (c_text executable) (c_text arguments) open_hidden)
          else none))
        × (launch_status fs platform home name after ≡ (if enabled then 1 else 0))
  unfolding launch_status
  set_launch-launch_status name executable arguments open_hidden enabled h disk at_home done =
      let accepted = set_launch-accepted name executable arguments open_hidden enabled disk done in
      let kept =
        chosen-Registers name executable arguments open_hidden enabled h disk at_home
          (rw (accepted.1) at done) in
      let found = rw at_home at kept in rw (accepted.0, accepted.1, at_home) found
