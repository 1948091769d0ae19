-- ===== src/AutoLaunch/Registry.antt =====
-- plugins/auto_launch/auto_launch_backend.c: starting at login as it is built for Windows, in the values
-- of the key Software\Microsoft\Windows\CurrentVersion\Run, which are parameters.
use lepusa.AutoLaunch.Lines.Shell.{join_lines, IsLine, written, write_parts-join_lines}
use lepusa.AutoLaunch.Lines.{bare, write_part, windows_command}
use lepusa.CString.Laws.{c_str-no_nul}
use lepusa.AutoLaunch.{is_empty, c_text, is_null}
use lepusa.Base.{
  ℕ, Bool, true, false, not, ◌&&◌, ◌||◌, List, [], ◌∷◌, ◌++◌, ◌≡◌, ◌≢◌, inl, inr, refl, ap, ◌∙◌,
  Option, none, some, arith, if◌then◌else◌, Bool-cases, All, All-append, Bytes, codes,
}
use lepusa.CString.{c_str}

-- What the plugin uses of the key, and what the system promises of it.
pub record Registry : Type 1 where
  pub Key : Type 0
  -- Whether the key is opened for reading, and created or opened for writing.
  pub opens : Key → Bool
  pub creates : Key → Key × Bool
  -- `RegQueryValueExA`, the value if there is one of that name.
  pub value : Key → Bytes → Option Bytes
  -- `RegSetValueExA`, and whether it succeeds.
  pub set_value : Bytes → Bytes → Key → Key × Bool
  -- `RegDeleteValueA`, and whether it succeeds or finds no such value.
  pub delete_value : Bytes → Key → Key × Bool
  pub value-set :
      (name command : Bytes) (key : Key)
      → (set_value name command key).1 ≡ true
      → value (set_value name command key).0 name ≡ some command
  pub value-delete :
      (name : Bytes) (key : Key)
      → (delete_value name key).1 ≡ true
      → value (delete_value name key).0 name ≡ none

-- The program in quotes, and the lines that are not empty with a blank before each.
abbrev pub spaced : List Bytes → Bytes
spaced [] = []
spaced ([] ∷ lines) = spaced lines
spaced ((c ∷ l) ∷ lines) = b' ' ∷ ((c ∷ l) ++ spaced lines)

abbrev pub login_line : Bytes → List Bytes → Bytes
login_line executable lines = codes "\"" ++ (executable ++ (codes "\"" ++ spaced lines))

written-spaced : (lines : List Bytes) → written bare lines ≡ spaced lines
unfolding write_part
written-spaced [] = refl
written-spaced ([] ∷ lines) = written-spaced lines
written-spaced ((c ∷ l) ∷ lines) =
    ap (λ (rest : Bytes). b' ' ∷ ((c ∷ l) ++ rest)) (written-spaced lines)

windows_command-login_line :
    (executable : Bytes) (lines : List Bytes)
    → All IsLine lines
    → windows_command executable (join_lines lines) ≡ login_line executable lines
unfolding windows_command
windows_command-login_line executable lines clean =
    ap (λ (rest : Bytes). b'"' ∷ (executable ++ (b'"' ∷ rest)))
      (write_parts-join_lines bare lines clean ∙ written-spaced lines)

IsLine-NoNul : (l : Bytes) → IsLine l → All (λ c. c ≢ 0) l
IsLine-NoNul [] h = tt
IsLine-NoNul (c ∷ l) ((_, live), h) = (live, IsLine-NoNul l h)

join_lines-NoNul : (lines : List Bytes) → All IsLine lines → All (λ c. c ≢ 0) (join_lines lines)
join_lines-NoNul [] h = tt
join_lines-NoNul (l ∷ []) (h, _) = IsLine-NoNul l h
join_lines-NoNul (l ∷ m ∷ lines) (h, hs) =
    All-append (λ c. c ≢ 0) l (b'\n' ∷ join_lines (m ∷ lines)) (IsLine-NoNul l h)
      (omega arith, join_lines-NoNul (m ∷ lines) hs)

module _ (registry : Registry) where
  open registry use {Key, opens, creates, value, set_value, delete_value, value-set, value-delete}

  -- On a key that was created or opened.
  unfoldable pub change_value : Bytes → Bytes → Bytes → Bool → Key → Key × ℕ
  unfolding windows_command
  change_value name executable arguments enabled key =
      let done =
        if enabled
        then set_value name (windows_command executable arguments) key
        else delete_value name key in
      (done.0, if done.1 then 0 else 1)

  unfoldable pub windows_set : Option Bytes → Option Bytes → Option Bytes → Bool → Key → Key × ℕ
  unfolding change_value c_str
  windows_set name executable arguments enabled key =
      let created = creates key in
      if is_empty (c_text name) || is_null arguments
      then (key, 1)
      else if enabled && is_empty (c_text executable)
      then (key, 1)
      else if created.1
      then change_value (c_text name) (c_text executable) (c_text arguments) enabled created.0
      else (created.0, 1)

  unfoldable pub windows_status : Option Bytes → Key → ℕ
  unfolding c_str
  windows_status name key =
      if is_empty (c_text name)
      then 1
      else if opens key && not (is_null (value key (c_text name)))
      then 1
      else 0

  change_value-value :
      (name executable arguments : Bytes) (enabled : Bool) (key : Key)
      → (change_value name executable arguments enabled key).1 ≡ 0
      → let after = (change_value name executable arguments enabled key).0 in
        (value after name ≡ (if enabled then some (windows_command executable arguments) else none))
        × ((opens after && not (is_null (value after name))) ≡ (opens after && enabled))
  unfolding change_value
  change_value-value name executable arguments true key done =
      let command = windows_command executable arguments in
      elim (Bool-cases (set_value name command key).1) [
        | inr failed ↦ ground (arith, rw failed at done)
        | inl wrote ↦ let found = value-set name command key wrote in (found, rw found refl)
      ]
  change_value-value name executable arguments false key done =
      elim (Bool-cases (delete_value name key).1) [
        | inr failed ↦ ground (arith, rw failed at done)
        | inl deleted ↦ let gone = value-delete name key deleted in (gone, rw gone refl)
      ]

  windows_set-accepted :
      (name executable arguments : Option Bytes) (enabled : Bool) (key : Key)
      → (windows_set name executable arguments enabled key).1 ≡ 0
      → (is_empty (c_text name) ≡ false)
        × (windows_set name executable arguments enabled key
            ≡ change_value
                (c_text name)
                (c_text executable)
                (c_text arguments)
                enabled
                (creates key).0)
  unfolding windows_set
  windows_set-accepted name executable arguments enabled key done =
      elim (Bool-cases (is_empty (c_text name) || is_null arguments)) [
        | inl refused ↦ ground (arith, rw refused at done)
        | inr accepted ↦ elim (Bool-cases (enabled && is_empty (c_text executable))) [
          | inl refused ↦ ground (arith, rw (accepted, refused) at done)
          | inr runs ↦ elim (Bool-cases (creates key).1) [
            | inr failed ↦ ground (arith, rw (accepted, runs, failed) at done)
            | inl created ↦ (ground arith, rw (accepted, runs, created) refl)
          ]
        ]
      ]

  -- On Windows, a call that reports success leaves the program in quotes, and behind it each line of its
  -- arguments that is not empty with a blank before it, as the value of its name if the program was to be
  -- registered, and no such value if not; the status that is asked for next says so if the key can be
  -- opened. Values are taken to read back as they were set, and as gone once deleted.
  pub windows_set-windows_status :
      (name executable : Option Bytes) (lines : List Bytes) (enabled : Bool) (key : Key)
      → All IsLine lines
      → (windows_set name executable (some (join_lines lines)) enabled key).1 ≡ 0
      → let after = (windows_set name executable (some (join_lines lines)) enabled key).0 in
        (value after (c_text name)
          ≡ (if enabled then some (login_line (c_text executable) lines) else none))
        × (windows_status name after ≡ (if opens after && enabled then 1 else 0))
  unfolding windows_status
  windows_set-windows_status name executable lines enabled key clean done =
      let arguments = some (join_lines lines) in
      let (named, same) = windows_set-accepted name executable arguments enabled key done in
      let (found, seen) =
        change_value-value (c_text name) (c_text executable) (c_text arguments) enabled
          (creates key).0 (rw same at done) in
      let written_line = windows_command-login_line (c_text executable) lines clean in
      rw (named, same)
        (
          found
              ∙ ap (λ (line : Bytes). if enabled then some line else none)
                  (ap (windows_command (c_text executable))
                      (c_str-no_nul (join_lines lines) (join_lines-NoNul lines clean))
                    ∙ written_line),
          rw seen refl,
        )
