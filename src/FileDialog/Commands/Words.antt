-- ===== src/FileDialog/Commands/Words.antt =====
-- plugins/file_dialog/file_dialog_backend.c: how a shell reads linux_command.
use lepusa.AutoLaunch.Lines.Shell.{outside, shell_words, shell_words-escape_all}
use lepusa.AutoLaunch.Lines.{shell_quote, shell_escape_all}
use lepusa.Base.{
  ◌<◌, true, false, List, [], ◌∷◌, ◌++◌, ◌≡◌, ◌≢◌, inl, inr, refl, ap, ◌∙◌, Option, none, some,
  append-nil, arith, ◌==◌, if◌then◌else◌, Bool-cases, ◌>>=◌, length, Bytes, codes,
}
use lepusa.FileDialog.Commands.{same_text, seed_of, mode_of, linux_command}

-- The options that an action goes with.
pub data Mode : Bytes → List Bytes → Type 0 where
  several : Mode (codes "openFiles") (codes "--multiple" ∷ codes "--separator=\\n" ∷ [])
  folder : Mode (codes "openDirectory") (codes "--directory" ∷ [])
  saved : Mode (codes "saveFile") (codes "--save" ∷ codes "--confirm-overwrite" ∷ [])
  one :
      (action : Bytes)
      → action ≢ codes "openFiles"
      → action ≢ codes "openDirectory"
      → action ≢ codes "saveFile"
      → Mode action []

abbrev pub name_words : Bytes → List Bytes
name_words seed = if length seed == 0 then [] else (codes "--filename=" ++ seed) ∷ []

same_text_sound : (s t : Bytes) → same_text s t ≡ true → s ≡ t
same_text_sound [] [] e = refl
same_text_sound [] (d ∷ t) e = cc
same_text_sound (c ∷ s) [] e = cc
same_text_sound (c ∷ s) (d ∷ t) e = ground (arith, same_text_sound s t)

same_text-other : (s t : Bytes) → s ≢ t → same_text s t ≡ false
same_text-other s t other = elim (Bool-cases (same_text s t)) [
  | inl same ↦ absurd (other (same_text_sound s t same))
  | inr e ↦ e
]

abbrev name_option : Bytes → Bytes
name_option seed = if length seed == 0 then [] else codes " --filename=" ++ shell_quote seed

quote-end :
    (word text : Bytes)
    → shell_words outside (some word) (shell_quote text) ≡ some ((word ++ text) ∷ [])
unfolding shell_quote shell_words
quote-end word text =
    let read = shell_words-escape_all text word [] in
    rw (append-nil (shell_escape_all text)) at read

shell_words-name_option :
    (word seed : Bytes)
    → shell_words outside (some word) (name_option seed) ≡ some (word ∷ name_words seed)
unfolding shell_words
shell_words-name_option word seed = elim (Bool-cases (length seed == 0)) [
  | inl blank ↦ rw blank refl
  | inr full ↦ rw full (
      ap (λ (r : Option (List Bytes)). r >>= λ words. some (word ∷ words))
        (quote-end (codes "--filename=") seed))
]

abbrev with_options : Bytes → Bytes → Bytes
with_options mode seed = codes "zenity --file-selection" ++ (mode ++ name_option seed)

abbrev zenity_words : List Bytes → Bytes → Option (List Bytes)
zenity_words options seed =
    some (codes "zenity" ∷ codes "--file-selection" ∷ (options ++ name_words seed))

shell_words-several :
    (seed : Bytes)
    → shell_words outside none (with_options (codes " --multiple --separator='\\n'") seed)
      ≡ zenity_words (codes "--multiple" ∷ codes "--separator=\\n" ∷ []) seed
unfolding shell_words
shell_words-several seed = rw (shell_words-name_option (codes "--separator=\\n") seed) refl

shell_words-folder :
    (seed : Bytes)
    → shell_words outside none (with_options (codes " --directory") seed)
      ≡ zenity_words (codes "--directory" ∷ []) seed
unfolding shell_words
shell_words-folder seed = rw (shell_words-name_option (codes "--directory") seed) refl

shell_words-saved :
    (seed : Bytes)
    → shell_words outside none (with_options (codes " --save --confirm-overwrite") seed)
      ≡ zenity_words (codes "--save" ∷ codes "--confirm-overwrite" ∷ []) seed
unfolding shell_words
shell_words-saved seed = rw (shell_words-name_option (codes "--confirm-overwrite") seed) refl

shell_words-plain :
    (seed : Bytes) → shell_words outside none (with_options [] seed) ≡ zenity_words [] seed
unfolding shell_words
shell_words-plain seed = rw (shell_words-name_option (codes "--file-selection") seed) refl

linux_command-Mode :
    (action options initial_path suggested_name seed : Bytes)
    → seed_of action initial_path suggested_name ≡ seed
    → mode_of action ≡ options
    → linux_command action initial_path suggested_name ≡ with_options options seed
unfolding linux_command
linux_command-Mode action options initial_path suggested_name seed from goes = rw (from, goes) refl

-- What stands in the command for the options that the words are.
shell_words-Mode :
    (action : Bytes) (options : List Bytes) (seed : Bytes)
    → Mode action options
    → shell_words outside none (with_options (mode_of action) seed) ≡ zenity_words options seed
unfolding mode_of
shell_words-Mode action options seed several = shell_words-several seed
shell_words-Mode action options seed folder = shell_words-folder seed
shell_words-Mode action options seed saved = shell_words-saved seed
shell_words-Mode action options seed (one other not_several not_folder not_saved) =
    rw
      (
        same_text-other action (codes "openFiles") not_several,
        same_text-other action (codes "openDirectory") not_folder,
        same_text-other action (codes "saveFile") not_saved,
      )
      (shell_words-plain seed)

-- What a dialog begins with: the suggested name where a file is saved and there is one, else the path.
pub data Begins (action initial_path suggested_name : Bytes) : Bytes → Type 0 where
  named :
      action ≡ codes "saveFile"
      → 0 < length suggested_name
      → Begins action initial_path suggested_name suggested_name
  not_saved : action ≢ codes "saveFile" → Begins action initial_path suggested_name initial_path
  unnamed : suggested_name ≡ [] → Begins action initial_path suggested_name initial_path

seed_of-Begins :
    (action initial_path suggested_name seed : Bytes)
    → Begins action initial_path suggested_name seed
    → seed_of action initial_path suggested_name ≡ seed
unfolding seed_of
seed_of-Begins action initial_path suggested_name seed (named saves there) =
    rw saves (ground (arith, there))
seed_of-Begins action initial_path suggested_name seed (not_saved other) =
    rw (same_text-other action (codes "saveFile") other) refl
seed_of-Begins action initial_path suggested_name seed (unnamed nameless) =
    rw nameless (ground arith)

-- A shell takes the command that asks for files on Linux apart into `zenity`, `--file-selection`, the
-- options of the action and, if there is a text to begin with, one word that ends in it, unchanged
-- whatever characters it holds: the suggested name when a file is saved and the name is not empty, else
-- the path to begin in. The options are those for several files, a folder, a file to be saved, and none
-- for any other action.
pub linux_command-shell_words :
    (action initial_path suggested_name seed : Bytes) (options : List Bytes)
    → Mode action options
    → Begins action initial_path suggested_name seed
    → shell_words outside none (linux_command action initial_path suggested_name)
      ≡ some (codes "zenity" ∷ codes "--file-selection" ∷ (options ++ name_words seed))
linux_command-shell_words action initial_path suggested_name seed options mode begins =
    ap (shell_words outside none) (
      linux_command-Mode action (mode_of action) initial_path suggested_name seed
        (seed_of-Begins action initial_path suggested_name seed begins) refl)
    ∙ shell_words-Mode action options seed mode
