-- ===== src/Notification.antt =====
-- plugins/notification/notification_backend.c: showing a notification. Whether a program is there and
-- whether it can be started are parameters; malloc is taken to succeed.
use lepusa.Base.{
  ℕ, Bool, true, false, not, ◌||◌, List, [], ◌∷◌, ◌++◌, ◌≡◌, inl, inr, refl, Option, none, some,
  ◌==◌, ==_iff, if◌then◌else◌, Bool-cases, ◌>>=◌, length, Bytes, codes, ℤ, pos, negsuc,
}
use lepusa.CString.{c_str}

pub data Platform : Type 0 where
  macos linux other : Platform

-- `access(path, X_OK) == 0`, the result of `system`, and whether `posix_spawnp` gives 0.
pub record Host : Type 0 where
  pub is_executable : Bytes → Bool
  pub system : Bytes → ℤ
  pub spawns : List Bytes → Bool

unfoldable pub applescript_escape : Bytes → Bytes
applescript_escape [] = []
applescript_escape (c ∷ text) =
    (if c == b'"' || c == b'\\' then b'\\' ∷ c ∷ [] else c ∷ []) ++ applescript_escape text

unfoldable pub applescript : Bytes → Bytes → Bytes
unfolding applescript_escape
applescript title body =
    codes "display notification \""
    ++ (applescript_escape body
        ++ (codes "\" with title \"" ++ (applescript_escape title ++ codes "\"")))

abbrev is_zero : ℤ → Bool
is_zero (pos n) = n == 0
is_zero (negsuc n) = false

abbrev pub c_text : Option Bytes → Bytes
c_text none = []
c_text (some text) = c_str text

abbrev pub is_null : Option Bytes → Bool
is_null none = true
is_null (some text) = false

module _ (host : Host) where
  unfoldable pub available : Platform → Bool
  available macos = host.is_executable (codes "/usr/bin/osascript")
  available linux = is_zero (host.system (codes "command -v notify-send >/dev/null 2>&1"))
  available other = false

  -- The code, and the program that was started with its arguments, if one was.
  unfoldable pub spawn : List Bytes → ℕ × Option (List Bytes)
  spawn argv = if host.spawns argv then (0, some argv) else (1, none)

  unfoldable pub show_on : Platform → Bytes → Bytes → ℕ × Option (List Bytes)
  unfolding applescript spawn
  show_on macos title body =
      spawn (codes "/usr/bin/osascript" ∷ codes "-e" ∷ applescript title body ∷ [])
  show_on linux title body = spawn (codes "notify-send" ∷ title ∷ body ∷ [])
  show_on other title body = (2, none)

  -- Ranges of bytes, none for NULL.
  unfoldable pub show : Platform → Option Bytes → Option Bytes → ℕ × Option (List Bytes)
  unfolding c_str available show_on
  show platform title body =
      if is_null title || is_null body || length (c_text title) == 0
      then (1, none)
      else if not (available platform)
      then (2, none)
      else show_on platform (c_text title) (c_text body)

-- A string of AppleScript from behind its first quote: the text, and what follows the last quote. The
-- flag says that a backslash came before; other escapes than those of a quote and a backslash are not
-- read.
unfoldable pub applescript_string : Bool → Bytes → Option (Bytes × Bytes)
applescript_string escaped [] = none
applescript_string true (c ∷ s) =
    let rest = applescript_string false s >>= λ (text, behind). some (c ∷ text, behind) in
    if c == b'"' || c == b'\\' then rest else none
applescript_string false (c ∷ s) =
    let rest = applescript_string false s >>= λ (text, behind). some (c ∷ text, behind) in
    let quoted = applescript_string true s in
    if c == b'"' then some ([], s) else if c == b'\\' then quoted else rest

-- What follows a prefix.
abbrev pub behind_prefix : Bytes → Bytes → Option Bytes
behind_prefix [] s = some s
behind_prefix (p ∷ prefix) [] = none
behind_prefix (p ∷ prefix) (c ∷ s) =
    let rest = behind_prefix prefix s in if p == c then rest else none

-- The title and the body that a script displays, as the grammar of the command has it.
abbrev pub displayed : Bytes → Option (Bytes × Bytes)
displayed script =
    behind_prefix (codes "display notification \"") script
    >>= applescript_string false
    >>= λ (body, rest).
        behind_prefix (codes " with title \"") rest >>= applescript_string false >>= λ (title, end).
        if length end == 0 then some (title, body) else none

applescript_string-escape :
    (text rest : Bytes)
    → applescript_string false (applescript_escape text ++ (b'"' ∷ rest)) ≡ some (text, rest)
unfolding applescript_string applescript_escape
applescript_string-escape [] rest = refl
applescript_string-escape (c ∷ text) rest = elim (Bool-cases (c == b'"')) [
  | inl e ↦ let same = (==_iff c b'"').0 e in rw (same, applescript_string-escape text rest) refl
  | inr q ↦ elim (Bool-cases (c == b'\\')) [
    | inl e ↦ let same = (==_iff c b'\\').0 e in rw (same, applescript_string-escape text rest) refl
    | inr b ↦ rw (q, b) rw (q, b, applescript_string-escape text rest) refl
  ]
]

-- The script that shows a notification on macOS displays its title and its body, each unchanged
-- whatever characters it holds.
pub displayed-applescript :
    (title body : Bytes) → displayed (applescript title body) ≡ some (title, body)
unfolding applescript
displayed-applescript title body =
    rw
      (
        applescript_string-escape body
            (codes " with title \"" ++ (applescript_escape title ++ codes "\"")),
        applescript_string-escape title [],
      )
      refl
