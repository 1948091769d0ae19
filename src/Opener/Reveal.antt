-- ===== src/Opener/Reveal.antt =====
-- plugins/opener/opener_backend.c: which folder reveal_path opens.
use lepusa.Base.{
  ℕ, ◌<◌, Bool, false, List, [], ◌∷◌, ◌++◌, ◌≡◌, ◌≢◌, refl, ap, ◌∙◌, Option, none, some, arith,
  ◌==◌, length, All, All-append, Bytes, codes,
}
use lepusa.CString.Laws.{c_str-no_nul}
use lepusa.Opener.{last_slash, folder_of, parent_dir, opener_spawn, reveal_dir, reveal_path}

abbrev pub NoNul : Bytes → Type 0
NoNul s = All (λ c. c ≢ 0) s

abbrev pub NoSlash : Bytes → Type 0
NoSlash s = All (λ c. c ≢ b'/') s

last_slash-none : (name : Bytes) → NoSlash name → last_slash name ≡ none
unfolding last_slash
last_slash-none [] h = refl
last_slash-none (c ∷ name) (hc, h) =
    let other : (c == b'/') ≡ false = ground arith in rw (last_slash-none name h, other) refl

last_slash-append :
    (folder name : Bytes)
    → NoSlash name
    → last_slash (folder ++ (b'/' ∷ name)) ≡ some (folder, name)
unfolding last_slash
last_slash-append [] name h = rw (last_slash-none name h) refl
last_slash-append (c ∷ folder) name h = rw (last_slash-append folder name h) refl

parent_dir-folder :
    (c : ℕ) (folder name : Bytes)
    → NoSlash name
    → parent_dir ((c ∷ folder) ++ (b'/' ∷ name)) ≡ some (c ∷ folder)
unfolding parent_dir folder_of
parent_dir-folder c folder name h =
    ap (λ (o : Option (Bytes × Bytes)). some (folder_of o)) (last_slash-append (c ∷ folder) name h)

parent_dir-root : (name : Bytes) → NoSlash name → parent_dir (b'/' ∷ name) ≡ some (codes "/")
unfolding parent_dir folder_of
parent_dir-root name h =
    ap (λ (o : Option (Bytes × Bytes)). some (folder_of o)) (last_slash-append [] name h)

parent_dir-name :
    (name : Bytes) → 0 < length name → NoSlash name → parent_dir name ≡ some (codes ".")
unfolding parent_dir folder_of
parent_dir-name [] long h = absurd (omega arith)
parent_dir-name (c ∷ name) long h =
    ap (λ (o : Option (Bytes × Bytes)). some (folder_of o)) (last_slash-none (c ∷ name) h)

-- A path is revealed by opening the folder it stands in, which is what stands before its last slash, the
-- root for a path below it, and the current folder for a name by itself; the code is 0 if the program
-- could be started and 1 if not. For a folder and a name without NUL and a name without slashes, the
-- folder itself with as many as it likes.
reveal_path_lem :
    (spawn : List Bytes → Bool) (c : ℕ) (folder name : Bytes)
    → NoNul (c ∷ folder)
    → NoNul name
    → NoSlash name
    → (reveal_path spawn (some ((c ∷ folder) ++ (b'/' ∷ name)))
        ≡ opener_spawn spawn (codes "xdg-open" ∷ (c ∷ folder) ∷ []))
      × (reveal_path spawn (some (b'/' ∷ name))
          ≡ opener_spawn spawn (codes "xdg-open" ∷ codes "/" ∷ []))
      × (0 < length name
          → reveal_path spawn (some name) ≡ opener_spawn spawn (codes "xdg-open" ∷ codes "." ∷ []))
unfolding reveal_path reveal_dir
reveal_path_lem spawn c folder name hf hn hs = (
  ap (λ (s : Bytes). reveal_dir spawn (parent_dir s))
        (c_str-no_nul ((c ∷ folder) ++ (b'/' ∷ name)) whole)
      ∙ ap (reveal_dir spawn) below,
  ap (λ (s : Bytes). reveal_dir spawn (parent_dir s)) (c_str-no_nul (b'/' ∷ name) (omega arith, hn))
      ∙ ap (reveal_dir spawn) root,
  λ long.
      ap (λ (s : Bytes). reveal_dir spawn (parent_dir s)) (c_str-no_nul name hn)
      ∙ ap (reveal_dir spawn) (bare name long hs),
)
  where
    whole : NoNul ((c ∷ folder) ++ (b'/' ∷ name))
    whole = All-append (λ d. d ≢ 0) (c ∷ folder) (b'/' ∷ name) hf (omega arith, hn)

    below : parent_dir ((c ∷ folder) ++ (b'/' ∷ name)) ≡ some (c ∷ folder)
    below = parent_dir-folder c folder name hs

    root : parent_dir (b'/' ∷ name) ≡ some (codes "/")
    root = parent_dir-root name hs

    bare : (n : Bytes) → 0 < length n → NoSlash n → parent_dir n ≡ some (codes ".")
    bare = parent_dir-name
