-- ===== src/Services.antt =====
-- runtime/linux/linux_backend.c: the table of 64 tracked service processes. `name` is NULL in a free
-- entry. The signals that the code sends are recorded in the order of the calls; `kill` is the
-- system's, so whether it succeeds (or fails with ESRCH) is a parameter.
pub mod Table
pub mod Unique
pub mod Shutdown
pub mod Lifecycle
use lepusa.Base.{
  ℕ, ◌+◌, Bool, true, false, not, List, [], ◌∷◌, ◌++◌, Option, none, some, map, ltb, if◌then◌else◌,
  ◌>>=◌, replicate, Bytes,
}
use lepusa.Argv.{Argv, argv, malformed, parse_command_packet}
use lepusa.CString.{c_str, strcmp_eq}

pub record ServiceProcess : Type 0 where
  pub name : Option Bytes
  pub pid : ℕ

pub data Signal : Type 0 where
  sigterm : ℕ → Signal
  wait_nohang : ℕ → Signal

abbrev pub free_entry : ServiceProcess
free_entry = record { name = none; pid = 0 }

abbrev pub table_size : ℕ
table_size = 64

-- The table of a process that has started no service.
abbrev pub no_services : List ServiceProcess
no_services = replicate table_size free_entry

-- `entry.name != NULL && strcmp(entry.name, name) == 0`
unfoldable pub is_named : Bytes → Option Bytes → Bool
is_named name none = false
is_named name (some n) = strcmp_eq n name

unfoldable pub is_free : Option Bytes → Bool
is_free none = true
is_free (some n) = false

-- The first loop of `track_service`: an entry of that name gets the new pid. It also gives the pid
-- that the entry held before.
unfoldable pub replace_pid : Bytes → ℕ → List ServiceProcess → Option (ℕ × List ServiceProcess)
replace_pid name pid [] = none
replace_pid name pid (e ∷ es) =
    if is_named name e.name
    then some (e.pid, record e { pid = pid } ∷ es)
    else replace_pid name pid es >>= λ (old, es'). some (old, e ∷ es')

-- The second loop: the first free entry takes the service.
unfoldable pub take_free : Bytes → ℕ → List ServiceProcess → Option (List ServiceProcess)
take_free name pid [] = none
take_free name pid (e ∷ es) =
    if is_free e.name
    then some (record { name = some name; pid = pid } ∷ es)
    else take_free name pid es >>= λ es'. some (e ∷ es')

pub record Tracked : Type 0 where
  pub entries : List ServiceProcess
  pub signals : List Signal
  pub result : Bool

-- `track_service` on a name that is not NULL.
unfoldable pub track_service : Bytes → ℕ → List ServiceProcess → Tracked
track_service [] pid entries = record { entries = entries; signals = []; result = false }
track_service (c ∷ cs) pid entries = elim (replace_pid (c ∷ cs) pid entries) [
  | some (old, entries') ↦ record {
    entries = entries';
    signals = if ltb 0 old then sigterm old ∷ wait_nohang old ∷ [] else [];
    result = true;
  }
  | none ↦ elim (take_free (c ∷ cs) pid entries) [
    | some entries' ↦ record { entries = entries'; signals = []; result = true }
    | none ↦ record { entries = entries; signals = []; result = false }
  ]
]

-- Gives the pid, or `none` where the source returns -1, and the table.
unfoldable pub untrack_service : Bytes → List ServiceProcess → Option ℕ × List ServiceProcess
untrack_service name [] = (none, [])
untrack_service name (e ∷ es) =
    let rest = untrack_service name es in
    if is_named name e.name then (some e.pid, free_entry ∷ es) else (rest.0, e ∷ rest.1)

module _ (kill_done : ℕ → Bool) where
  terminate_entry : ServiceProcess → List Signal
  terminate_entry e =
      if ltb 0 e.pid
      then sigterm e.pid ∷ (if kill_done e.pid then wait_nohang e.pid ∷ [] else [])
      else []

  -- `terminate_tracked_services(clear_entries)`
  unfoldable pub terminate_tracked_services :
      Bool → List ServiceProcess → List ServiceProcess × List Signal
  unfolding terminate_entry
  terminate_tracked_services clear [] = ([], [])
  terminate_tracked_services clear (e ∷ es) =
      let rest = terminate_tracked_services clear es in
      ((if clear then free_entry else e) ∷ rest.0, terminate_entry e ++ rest.1)

-- What `start_service` and `stop_service` give: the return code, the table and the signals sent.
pub record Outcome : Type 0 where
  pub code : Option ℕ
  pub entries : List ServiceProcess
  pub signals : List Signal

-- `start_service` behind `posix_spawnp`, which gives a pid or fails.
launch : Option ℕ → Bytes → List ServiceProcess → Outcome
launch none name entries = record { code = some 2; entries = entries; signals = [] }
launch (some pid) name entries =
    let t = track_service (c_str name) pid entries in
    if t.result
    then record { code = some 0; entries = t.entries; signals = t.signals }
    else record { code = some 3; entries = t.entries; signals = t.signals ++ sigterm pid ∷ [] }

module _ (spawn : List Bytes → Option ℕ) where
  start_with : Bytes → Argv → List ServiceProcess → Outcome
  unfolding launch
  start_with name (argv args) entries = launch (spawn (map c_str args)) name entries
  start_with name malformed entries = record { code = some 1; entries = entries; signals = [] }
  start_with name _ entries = record { code = none; entries = entries; signals = [] }

  -- `none` is a name or a packet that is NULL; the code is `none` where C leaves it undefined.
  unfoldable pub start_service : Option Bytes → Option Bytes → List ServiceProcess → Outcome
  unfolding start_with
  start_service none packet entries = record { code = some 1; entries = entries; signals = [] }
  start_service (some name) packet entries = start_with name (parse_command_packet packet) entries

module _ (kill_done : ℕ → Bool) where
  -- `stop_service` behind `untrack_service`.
  finish_stop : Option ℕ → List ServiceProcess → Outcome
  finish_stop none entries = record { code = some 1; entries = entries; signals = [] }
  finish_stop (some pid) entries =
      if not (ltb 0 pid)
      then record { code = some 1; entries = entries; signals = [] }
      else if not (kill_done pid)
      then record { code = some 2; entries = entries; signals = sigterm pid ∷ [] }
      else record { code = some 0; entries = entries; signals = sigterm pid ∷ wait_nohang pid ∷ [] }

  unfoldable pub stop_service : Option Bytes → List ServiceProcess → Outcome
  unfolding finish_stop
  stop_service none entries = record { code = some 2; entries = entries; signals = [] }
  stop_service (some name) entries =
      let found = untrack_service (c_str name) entries in finish_stop found.0 found.1
