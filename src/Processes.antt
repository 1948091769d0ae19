-- ===== src/Processes.antt =====
-- runtime/windows/windows_backend.c: the table of 64 tracked service processes and the handles that it
-- owns. The calls of the system are recorded in their order; whether a process still runs and what
-- CreateProcessA gives are parameters. The handle of the first thread, which is closed at once, is left
-- out, _strdup is taken to succeed, and parse_command_packet is the function of the backend for Linux,
-- whose text the file repeats.
pub mod Calls
pub mod Handles
pub mod History
use lepusa.Argv.{Argv, argv, malformed, parse_command_packet}
use lepusa.Base.{
  ℕ, ◌+◌, Bool, true, false, ◌||◌, List, [], ◌∷◌, ◌++◌, Option, none, some, map, ◌==◌,
  if◌then◌else◌, ◌>>=◌, length, Bytes,
}
use lepusa.CString.{c_str, strcmp_eq}
use lepusa.CommandLine.{command_line}

pub record ServiceHandle : Type 0 where
  pub name : Option Bytes
  -- 0 is NULL.
  pub process : ℕ

pub data Action : Type 0 where
  terminate_process : ℕ → ℕ → Action
  wait_for_process close_handle : ℕ → Action

abbrev pub free_handle : ServiceHandle
free_handle = record { name = none; process = 0 }

unfoldable pub is_of_name : Bytes → Option Bytes → Bool
is_of_name name none = false
is_of_name name (some n) = strcmp_eq n name

unfoldable pub is_unused : Option Bytes → Bool
is_unused none = true
is_unused (some n) = false

-- The first loop of `track_service`: an entry of that name gets the new process. It also gives the one
-- that the entry held before.
unfoldable pub replace_process : Bytes → ℕ → List ServiceHandle → Option (ℕ × List ServiceHandle)
unfolding is_of_name
replace_process name process [] = none
replace_process name process (e ∷ es) =
    if is_of_name name e.name
    then some (e.process, record e { process = process } ∷ es)
    else replace_process name process es >>= λ (old, es'). some (old, e ∷ es')

-- The second loop: the first free entry takes the process.
unfoldable pub take_unused : Bytes → ℕ → List ServiceHandle → Option (List ServiceHandle)
unfolding is_unused
take_unused name process [] = none
take_unused name process (e ∷ es) =
    if is_unused e.name
    then some (record { name = some name; process = process } ∷ es)
    else take_unused name process es >>= λ es'. some (e ∷ es')

-- The table after a call, the calls of the system, and whether the process is tracked.
pub record Tracked : Type 0 where
  pub entries : List ServiceHandle
  pub actions : List Action
  pub result : Bool

-- The code, the table and the calls; none for a code that C leaves undefined.
pub record Outcome : Type 0 where
  pub code : Option ℕ
  pub entries : List ServiceHandle
  pub actions : List Action

-- The process of the entry of that name, or 0, and the table without it.
unfoldable pub untrack_service : Bytes → List ServiceHandle → ℕ × List ServiceHandle
unfolding is_of_name
untrack_service name [] = (0, [])
untrack_service name (e ∷ es) =
    let rest = untrack_service name es in
    if is_of_name name e.name then (e.process, free_handle ∷ es) else (rest.0, e ∷ rest.1)

module _ (still_active : ℕ → Bool) where
  -- `GetExitCodeProcess` gives STILL_ACTIVE.
  unfoldable pub end_process : ℕ → List Action
  end_process process =
      if still_active process
      then terminate_process process 0 ∷ wait_for_process process ∷ []
      else []

  unfoldable pub track_service : Bytes → ℕ → List ServiceHandle → Tracked
  unfolding replace_process take_unused end_process
  track_service name process entries =
      if length name == 0 || process == 0
      then record { entries = entries; actions = []; result = false }
      else elim (replace_process name process entries) [
        | some (old, entries') ↦ record {
          entries = entries';
          actions = end_process old ++ (close_handle old ∷ []);
          result = true;
        }
        | none ↦ elim (take_unused name process entries) [
          | some entries' ↦ record { entries = entries'; actions = []; result = true }
          | none ↦ record { entries = entries; actions = []; result = false }
        ]
      ]

  unfoldable pub terminate_entry : Bool → ServiceHandle → List Action
  unfolding end_process
  terminate_entry clear e =
      if e.process == 0
      then []
      else end_process e.process ++ (if clear then close_handle e.process ∷ [] else [])

  -- `terminate_tracked_services(clear_entries)`
  unfoldable pub terminate_tracked_services :
      Bool → List ServiceHandle → List ServiceHandle × List Action
  unfolding terminate_entry
  terminate_tracked_services clear [] = ([], [])
  terminate_tracked_services clear (e ∷ es) =
      let rest = terminate_tracked_services clear es in
      ((if clear then free_handle else e) ∷ rest.0, terminate_entry clear e ++ rest.1)

  -- `start_service` behind CreateProcessA, which gives a process or fails.
  unfoldable pub launch : Option ℕ → Bytes → List ServiceHandle → Outcome
  unfolding track_service
  launch none name entries = record { code = some 2; entries = entries; actions = [] }
  launch (some process) name entries =
      let t = track_service name process entries in
      if t.result
      then record { code = some 0; entries = t.entries; actions = t.actions }
      else record {
        code = some 3;
        entries = t.entries;
        actions = t.actions ++ (terminate_process process 1 ∷ close_handle process ∷ []);
      }

  module _ (create_process : Bytes → Option ℕ) where
    unfoldable pub start_with : Bytes → Argv → List ServiceHandle → Outcome
    unfolding launch command_line c_str
    start_with name (argv args) entries =
        launch (create_process (command_line (map c_str args))) (c_str name) entries
    start_with name malformed entries = record { code = some 1; entries = entries; actions = [] }
    start_with name _ entries = record { code = none; entries = entries; actions = [] }

    -- `none` is a name or a packet that is NULL.
    unfoldable pub start_service : Option Bytes → Option Bytes → List ServiceHandle → Outcome
    unfolding start_with parse_command_packet
    start_service none packet entries = record { code = some 1; entries = entries; actions = [] }
    start_service (some name) packet entries = start_with name (parse_command_packet packet) entries

  unfoldable pub stop_service : Option Bytes → List ServiceHandle → Outcome
  unfolding untrack_service end_process c_str
  stop_service none entries = record { code = some 2; entries = entries; actions = [] }
  stop_service (some name) entries =
      let found = untrack_service (c_str name) entries in
      if found.0 == 0 then record { code = some 1; entries = found.1; actions = [] } else record {
        code = some 0;
        entries = found.1;
        actions = end_process found.0 ++ (close_handle found.0 ∷ []);
      }
