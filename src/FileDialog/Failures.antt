-- ===== src/FileDialog/Failures.antt =====
-- plugins/file_dialog/file_dialog_backend.c: what the systems answer when a dialog fails.
use lepusa.Base.{
  ℕ, suc, Bool, true, false, not, ◌||◌, [], ◌∷◌, ◌≡◌, ◌≢◌, ◌↔◌, ◌⊎◌, inl, inr, refl, sym, ap,
  Option, none, some, arith, ◌==◌, Bool-cases, length, Bytes, codes, ℤ, pos, negsuc,
}
use lepusa.FileDialog.{
  Host, Platform, macos, linux, windows, other, is_positive, read_command, windows_pick_with,
  windows_pick, untitled, available, ask, is_code,
}
use lepusa.FileDialog.Commands.{linux_command, windows_script, powershell_command}
use lepusa.Pipe.{Finished}

-- What is suggested to be saved.
abbrev pub title_of : Bytes → Bytes
title_of [] = codes "untitled"
title_of (c ∷ s) = c ∷ s

-- A command that was not started, or that gave the status 1.
abbrev pub Broken : Option Finished → Type 0
Broken none = Unit {0}
Broken (some finished) = finished.status ≡ pos 1

-- The same of the command for Windows, whose script is in a temporary file.
abbrev pub FileBroken : Host → Option Bytes → Bytes → Bytes → Bytes → Type 0
FileBroken host none action initial_path suggested_name = Unit {0}
FileBroken host (some path) action initial_path suggested_name =
    (host.opens ≡ false)
    ⊎ Broken (
        host.popen_windows (powershell_command path)
          (windows_script action initial_path (title_of suggested_name)))

-- The system has no dialog, or the dialog could not be shown or failed.
abbrev pub Fails : Host → Platform → Bytes → Bytes → Bytes → Type 0
Fails host macos action initial_path suggested_name =
    (host.macos_runtime ≡ false)
    ⊎ ((host.macos_pick action initial_path (title_of suggested_name)).1 ≡ pos 1)
Fails host linux action initial_path suggested_name =
    (host.system (codes "command -v zenity >/dev/null 2>&1") ≢ pos 0)
    ⊎ Broken (host.popen (linux_command action initial_path suggested_name))
Fails host windows action initial_path suggested_name =
    (host.search_path (codes "powershell.exe") ≡ 0)
    ⊎ FileBroken host host.temp_path action initial_path suggested_name
Fails host other action initial_path suggested_name = Unit {0}

is_code_iff : (code : ℤ) (n : ℕ) → (is_code code n ≡ true) ↔ (code ≡ pos n)
is_code_iff (pos m) n = (
  (λ e. let same : n ≡ m = ground (arith, e) in ap pos (sym same)),
  (λ e. let same : m ≡ n = cc in ground (arith, same)),
)
is_code_iff (negsuc m) n = ((λ e. absurd (cc)), (λ e. absurd (cc)))

pub or_iff :
    (b c : Bool) {P Q : Type 0} → ((b ≡ true) ↔ P) → ((c ≡ true) ↔ Q) → ((b || c) ≡ true) ↔ (P ⊎ Q)
or_iff true c p q = ((λ e. inl (p.0 refl)), (λ h. refl))
or_iff false c p q =
    ((λ e. inr (q.0 e)), (λ h. elim h [ inl x ↦ absurd (cc (p.1 x)) | inr y ↦ q.1 y ]))

not_code_iff : (code : ℤ) (n : ℕ) → (not (is_code code n) ≡ true) ↔ (code ≢ pos n)
not_code_iff code n = elim (Bool-cases (is_code code n)) [
  | inl same ↦ ((λ e. absurd (cc (rw same at e))), (λ h. absurd (h ((is_code_iff code n).0 same))))
  | inr differs ↦
      ((λ e same. absurd (cc (differs, (is_code_iff code n).1 same))), (λ h. rw differs refl))
]

refuted_iff : (b : Bool) → (not b ≡ true) ↔ (b ≡ false)
refuted_iff true = ((λ e. absurd (cc e)), (λ e. absurd (cc e)))
refuted_iff false = ((λ e. refl), (λ e. refl))

null_iff : (n : ℕ) → (not (is_positive n) ≡ true) ↔ (n ≡ 0)
null_iff n = ((λ e. ground (arith, e)), (λ e. ground (arith, e)))

always : {b : Bool} → b ≡ true → (b ≡ true) ↔ Unit {0}
always e = ((λ h. tt), (λ h. e))

Broken-read_command :
    (finished : Option Finished) → (is_code (read_command finished).1 1 ≡ true) ↔ Broken finished
unfolding read_command
Broken-read_command none = always refl
Broken-read_command (some finished) = is_code_iff finished.status 1

untitled-title_of : (name : Bytes) → untitled name ≡ title_of name
untitled-title_of [] = refl
untitled-title_of (c ∷ s) =
    let there : (suc (length s) == 0) ≡ false = ground arith in rw there refl

FileBroken-windows_pick_with :
    (host : Host) (path : Option Bytes) (action initial_path suggested_name : Bytes)
    → (is_code (windows_pick_with host path action initial_path (title_of suggested_name)).1 1
        ≡ true)
      ↔ FileBroken host path action initial_path suggested_name
unfolding windows_pick_with
FileBroken-windows_pick_with host none action initial_path suggested_name = always refl
FileBroken-windows_pick_with host (some path) action initial_path suggested_name =
    let ran =
      host.popen_windows (powershell_command path)
        (windows_script action initial_path (title_of suggested_name)) in
    elim (Bool-cases host.opens) [
      | inr closed ↦ rw closed ((λ e. inl refl), (λ h. refl))
      | inl opened ↦ rw opened (
        (λ e. inr ((Broken-read_command ran).0 e)),
        (λ h. elim h [ inl e ↦ absurd (cc e) | inr b ↦ (Broken-read_command ran).1 b ]),
      )
    ]

ask-macos :
    (host : Host) (action initial_path suggested_name : Bytes)
    → ask host macos action initial_path suggested_name
      ≡ host.macos_pick action initial_path (title_of suggested_name)
unfolding ask
ask-macos host action initial_path suggested_name =
    ap (host.macos_pick action initial_path) (untitled-title_of suggested_name)

ask-windows :
    (host : Host) (action initial_path suggested_name : Bytes)
    → ask host windows action initial_path suggested_name
      ≡ windows_pick_with host host.temp_path action initial_path (title_of suggested_name)
unfolding ask windows_pick
ask-windows host action initial_path suggested_name =
    ap (windows_pick_with host host.temp_path action initial_path)
      (untitled-title_of suggested_name)

ask-linux :
    (host : Host) (action initial_path suggested_name : Bytes)
    → ask host linux action initial_path suggested_name
      ≡ read_command (host.popen (linux_command action initial_path suggested_name))
unfolding ask
ask-linux host action initial_path suggested_name = refl

pub Fails-asked :
    (host : Host) (platform : Platform) (action initial_path suggested_name : Bytes)
    → ((not (available host platform)
          || is_code (ask host platform action initial_path suggested_name).1 1)
        ≡ true)
      ↔ Fails host platform action initial_path suggested_name
unfolding available
Fails-asked host macos action initial_path suggested_name =
    rw (ask-macos host action initial_path suggested_name)
      (or_iff _ _ (refuted_iff host.macos_runtime) (is_code_iff _ 1))
Fails-asked host linux action initial_path suggested_name =
    rw (ask-linux host action initial_path suggested_name) (
      or_iff _ _ (not_code_iff _ 0)
        (Broken-read_command (host.popen (linux_command action initial_path suggested_name))))
Fails-asked host windows action initial_path suggested_name =
    rw (ask-windows host action initial_path suggested_name) (
      or_iff _ _ (null_iff _)
        (FileBroken-windows_pick_with host host.temp_path action initial_path suggested_name))
Fails-asked host other action initial_path suggested_name = always refl
