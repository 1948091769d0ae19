-- ===== src/Opener.antt =====
-- plugins/opener/opener_backend.c, as it is built for Linux: a URL or a path is handed to `xdg-open`,
-- and a path is revealed by opening the folder it stands in. `spawn` says whether `posix_spawnp` starts
-- the program with these arguments; malloc is taken to succeed.
pub mod Reveal
use lepusa.Base.{
  ℕ, ◌-◌, ◌/◌, Bool, List, [], ◌∷◌, Option, none, some, ◌==◌, if◌then◌else◌, Bytes, codes,
}
use lepusa.CString.{c_str}

-- `strrchr(path, '/')`: what stands before the last slash and behind it.
unfoldable pub last_slash : Bytes → Option (Bytes × Bytes)
last_slash [] = none
last_slash (c ∷ s) = elim (last_slash s) [
  | some (before, behind) ↦ some (c ∷ before, behind)
  | none ↦ if c == b'/' then some ([], s) else none
]

-- The folder of a path whose last slash is at its beginning is that slash.
unfoldable pub folder_of : Option (Bytes × Bytes) → Bytes
folder_of none = codes "."
folder_of (some ([], behind)) = codes "/"
folder_of (some (c ∷ before, behind)) = c ∷ before

unfoldable pub parent_dir : Bytes → Option Bytes
unfolding last_slash folder_of
parent_dir [] = none
parent_dir (c ∷ path) = some (folder_of (last_slash (c ∷ path)))

module _ (spawn : List Bytes → Bool) where
  -- The code of `lepusa_opener_spawn`.
  unfoldable pub opener_spawn : List Bytes → ℕ
  opener_spawn argv = if spawn argv then 0 else 1

  unfoldable pub open_value : Bytes → ℕ
  unfolding opener_spawn
  open_value [] = 1
  open_value (c ∷ value) = opener_spawn (codes "xdg-open" ∷ (c ∷ value) ∷ [])

  unfoldable pub open_path : Option Bytes → ℕ
  unfolding open_value c_str
  open_path none = 1
  open_path (some target) = open_value (c_str target)

  unfoldable pub open_url : Option Bytes → ℕ
  unfolding open_value c_str
  open_url none = 1
  open_url (some target) = open_value (c_str target)

  unfoldable pub reveal_dir : Option Bytes → ℕ
  unfolding opener_spawn
  reveal_dir none = 1
  reveal_dir (some dir) = opener_spawn (codes "xdg-open" ∷ dir ∷ [])

  unfoldable pub reveal_path : Option Bytes → ℕ
  unfolding reveal_dir parent_dir c_str
  reveal_path none = 1
  reveal_path (some target) = reveal_dir (parent_dir (c_str target))
