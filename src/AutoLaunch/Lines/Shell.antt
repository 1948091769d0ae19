-- ===== src/AutoLaunch/Lines/Shell.antt =====
-- plugins/auto_launch/auto_launch_backend.c: how a shell reads command_line.
use lepusa.AutoLaunch.Lines.{
  shell_escape, shell_escape_all, shell_quote, write_part, write_parts, command_line,
}
use lepusa.Base.{
  ℕ, Bool, false, ◌&&◌, ◌||◌, List, [], ◌∷◌, ◌++◌, ◌≡◌, ◌≢◌, inl, inr, refl, sym, ap, ◌∙◌, Option,
  none, some, append_assoc, append-nil, arith, leb, ◌==◌, ==_iff, if◌then◌else◌, Bool-cases, ◌>>=◌,
  All, Bytes, codes,
}

-- A letter, a digit, or one of `_-./=`.
abbrev is_plain : ℕ → Bool
is_plain c =
    (leb b'a' c && leb c b'z')
    || (leb b'A' c && leb c b'Z')
    || (leb b'-' c && leb c b'9')
    || c == b'_'
    || c == b'='

abbrev so_far : Option Bytes → Bytes
so_far none = []
so_far (some word) = word

abbrev end_word : Option Bytes → List Bytes → List Bytes
end_word none words = words
end_word (some word) words = word ∷ words

-- Whether the text stands between single quotes, behind a backslash, or outside of both.
pub data Mode : Type 0 where
  outside inside escaped : Mode

-- How a shell takes a command apart into words, as POSIX describes quoting: between single quotes every
-- character stands for itself, a backslash outside of them does so for the character behind it, and
-- blanks separate words. A text that holds another special character is not read.
unfoldable pub shell_words : Mode → Option Bytes → Bytes → Option (List Bytes)
shell_words outside word [] = some (end_word word [])
shell_words inside word [] = none
shell_words escaped word [] = none
shell_words inside word (c ∷ s) =
    let closed = shell_words outside word s in
    let more = shell_words inside (some (so_far word ++ (c ∷ []))) s in
    if c == b'\'' then closed else more
shell_words escaped word (c ∷ s) = shell_words outside (some (so_far word ++ (c ∷ []))) s
shell_words outside word (c ∷ s) =
    let quoted = shell_words inside (some (so_far word)) s in
    let behind = shell_words escaped (some (so_far word)) s in
    let rest = shell_words outside none s >>= λ words. some (end_word word words) in
    let more = shell_words outside (some (so_far word ++ (c ∷ []))) s in
    if c == b'\''
    then quoted
    else if c == b'\\'
    then behind
    else if c == b' '
    then rest
    else if is_plain c
    then more
    else none

pub shell_words-escape_all :
    (text word rest : Bytes)
    → shell_words inside (some word) (shell_escape_all text ++ rest)
      ≡ shell_words outside (some (word ++ text)) rest
unfolding shell_words shell_escape_all shell_escape
shell_words-escape_all [] word rest = rw (append-nil word) refl
shell_words-escape_all (c ∷ text) word rest =
    let split = append_assoc word (c ∷ []) text in
    elim (Bool-cases (c == b'\'')) [
      | inl quote ↦
          let same : c ≡ b'\'' = (==_iff c b'\'').0 quote in
          rw (quote, ← split) rw same (shell_words-escape_all text (word ++ (b'\'' ∷ [])) rest)
      | inr other ↦
          rw (other, ← split) (rw other (shell_words-escape_all text (word ++ (c ∷ [])) rest))
    ]

-- A quoted text belongs to the word it stands in.
shell_words-quote :
    (text rest : Bytes)
    → shell_words outside none (shell_quote text ++ rest) ≡ shell_words outside (some text) rest
unfolding shell_quote shell_words
shell_words-quote text rest = shell_words-escape_all text [] rest

-- Lines with newlines between them.
abbrev pub join_lines : List Bytes → Bytes
join_lines [] = []
join_lines (l ∷ []) = l
join_lines (l ∷ m ∷ ls) = l ++ (b'\n' ∷ join_lines (m ∷ ls))

abbrev pub IsLine : Bytes → Type 0
IsLine l = All (λ c. (c ≢ b'\n') × (c ≢ 0)) l

-- The lines that are not empty.
abbrev pub arguments_of : List Bytes → List Bytes
arguments_of [] = []
arguments_of ([] ∷ ls) = arguments_of ls
arguments_of ((c ∷ l) ∷ ls) = (c ∷ l) ∷ arguments_of ls

-- A line that is the last one, and a line that is not.
write_parts-last :
    (quote : Bytes → Bytes) (part l : Bytes)
    → IsLine l
    → write_parts quote part l ≡ write_part quote (part ++ l)
unfolding write_parts
write_parts-last quote part [] h = rw (append-nil part) refl
write_parts-last quote part (c ∷ l) (hc, h) =
    let other : (c == b'\n') ≡ false = ground (arith, hc) in
    rw (other, ← append_assoc part (c ∷ []) l) (write_parts-last quote (part ++ (c ∷ [])) l h)

write_parts-line :
    (quote : Bytes → Bytes) (part l s : Bytes)
    → IsLine l
    → write_parts quote part (l ++ (b'\n' ∷ s))
      ≡ write_part quote (part ++ l) ++ write_parts quote [] s
unfolding write_parts
write_parts-line quote part [] s h = rw (append-nil part) refl
write_parts-line quote part (c ∷ l) s (hc, h) =
    let other : (c == b'\n') ≡ false = ground (arith, hc) in
    rw (other, ← append_assoc part (c ∷ []) l) (write_parts-line quote (part ++ (c ∷ [])) l s h)

-- What is written for every line, one behind the other.
abbrev pub written : (Bytes → Bytes) → List Bytes → Bytes
written quote [] = []
written quote (l ∷ ls) = write_part quote l ++ written quote ls

pub write_parts-join_lines :
    (quote : Bytes → Bytes) (ls : List Bytes)
    → All IsLine ls
    → write_parts quote [] (join_lines ls) ≡ written quote ls
write_parts-join_lines quote [] h = unfold write_parts in unfold write_part in refl
write_parts-join_lines quote (l ∷ []) (h, _) =
    write_parts-last quote [] l h ∙ sym (append-nil (write_part quote l))
write_parts-join_lines quote (l ∷ m ∷ ls) (h, hs) =
    write_parts-line quote [] l (join_lines (m ∷ ls)) h
    ∙ ap (λ (s : Bytes). write_part quote l ++ s) (write_parts-join_lines quote (m ∷ ls) hs)

shell_words-written :
    (word : Bytes) (ls : List Bytes)
    → shell_words outside (some word) (written shell_quote ls) ≡ some (word ∷ arguments_of ls)
unfolding shell_words write_part
shell_words-written word [] = refl
shell_words-written word ([] ∷ ls) = shell_words-written word ls
shell_words-written word ((c ∷ l) ∷ ls) =
    rw (shell_words-quote (c ∷ l) (written shell_quote ls), shell_words-written (c ∷ l) ls) refl

-- A shell takes the command line apart into `exec`, the executable and the arguments, each as one word
-- and unchanged whatever characters it holds: for arguments without newlines, which the caller puts
-- between them; empty ones are left out.
pub command_line-shell_words :
    (executable : Bytes) (ls : List Bytes)
    → All IsLine ls
    → shell_words outside none (command_line executable (join_lines ls))
      ≡ some (codes "exec" ∷ executable ∷ arguments_of ls)
unfolding command_line shell_words
command_line-shell_words executable ls h =
    rw
      (
        write_parts-join_lines shell_quote ls h,
        shell_words-quote executable (written shell_quote ls),
        shell_words-written executable ls,
      )
      refl
