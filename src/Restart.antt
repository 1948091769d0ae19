-- ===== src/Restart.antt =====
-- runtime/linux/linux_backend.c: starting the program again, with the arguments that the system shows
-- in /proc/self/cmdline. `none` is a file that cannot be opened. A buffer that is full at 1 MiB gives
-- the read up, as does any failure of `malloc`, which is taken not to fail.
pub mod RoundTrip
use lepusa.Base.{
  ℕ, zero, suc, ◌+◌, ◌*◌, Bool, true, false, ◌||◌, List, [], ◌∷◌, ◌++◌, Option, none, some, ltb,
  leb, ◌==◌, if◌then◌else◌, length, Bytes,
}
use lepusa.CString.{c_str}
use lepusa.Session.{Toolkit}

-- `capacity >= 1024 * 1024`
abbrev pub cmdline_limit : ℕ
cmdline_limit = 1024 * 1024

abbrev pub max_arguments : ℕ
max_arguments = 256

-- The NULs of the buffer, and one argument more if it does not end in one.
unfoldable pub count_arguments : Bytes → ℕ
count_arguments [] = 0
count_arguments (c ∷ []) = 1
count_arguments (c ∷ d ∷ s) =
    let rest = count_arguments (d ∷ s) in if c == 0 then rest + 1 else rest

-- The loop that cuts the buffer, with the bytes of the item so far; `count` more are taken. The end of
-- the buffer ends an item too.
unfoldable pub cut_arguments : ℕ → Bytes → Bytes → List Bytes
cut_arguments zero item buffer = []
cut_arguments (suc count) item [] = item ∷ []
cut_arguments (suc count) item (c ∷ s) =
    let cut = item ∷ cut_arguments count [] s in
    let more = cut_arguments (suc count) (item ++ (c ∷ [])) s in if c == 0 then cut else more

unfoldable pub starts_empty : Bytes → Bool
starts_empty [] = true
starts_empty (c ∷ s) = c == 0

unfoldable pub current_process_argv : Option Bytes → Option (List Bytes)
unfolding count_arguments cut_arguments starts_empty
current_process_argv none = none
current_process_argv (some buffer) =
    let argc = count_arguments buffer in
    if leb cmdline_limit (length buffer)
      || starts_empty buffer
      || argc == 0
      || ltb max_arguments argc
    then none
    else some (cut_arguments argc [] buffer)

unfoldable pub is_spawned : Option ℕ → Bool
is_spawned none = false
is_spawned (some pid) = true

unfoldable pub spawn_current_process : Toolkit → Bool
unfolding current_process_argv is_spawned
spawn_current_process toolkit = elim (current_process_argv toolkit.cmdline) [
  | none ↦ false
  | some argv ↦ is_spawned (toolkit.spawn argv)
]
