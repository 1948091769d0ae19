-- ===== src/Processes/History.antt =====
-- runtime/windows/windows_backend.c: the handles of service processes in a whole run of the program.
use lepusa.Argv.{Argv, argv, malformed, overflow, out_of_fuel, parse_command_packet}
use lepusa.Base.{
  ℕ, zero, suc, ◌+◌, ◌<◌, Bool, List, [], ◌∷◌, ◌++◌, ◌≡◌, inr, refl, Option, none, some, map, arith,
  replicate, Bytes,
}
use lepusa.CString.{c_str}
use lepusa.CommandLine.{command_line}
use lepusa.Processes.Calls.{
  Kept, launch-Kept, stop_service-Kept, refused-Kept, terminate-Kept, process_of,
}
use lepusa.Processes.Handles.{one, held, closed, IsClean, closed-append}
use lepusa.Processes.{
  ServiceHandle, Action, free_handle, start_with, start_service, stop_service,
  terminate_tracked_services,
}

-- A call, with what the system answers in it.
pub data ServiceCall : Type 0 where
  start : (ℕ → Bool) → (Bytes → Option ℕ) → Option Bytes → Option Bytes → ServiceCall
  stop : (ℕ → Bool) → Option Bytes → ServiceCall
  terminate : (ℕ → Bool) → Bool → ServiceCall

abbrev pub perform : ServiceCall → List ServiceHandle → List ServiceHandle × List Action
perform (start active create name packet) es =
    let o = start_service active create name packet es in (o.entries, o.actions)
perform (stop active name) es = let o = stop_service active name es in (o.entries, o.actions)
perform (terminate active clear) es = terminate_tracked_services active clear es

abbrev pub run : List ServiceCall → List ServiceHandle → List ServiceHandle × List Action
run [] es = (es, [])
run (call ∷ calls) es =
    let after = perform call es in let rest = run calls after.0 in (rest.0, after.1 ++ rest.1)

abbrev pub created_with : (Bytes → Option ℕ) → Argv → Option ℕ
created_with create (argv args) = create (command_line (map c_str args))
created_with create _ = none

-- The process that a call makes the system create.
abbrev pub created : ServiceCall → Option ℕ
created (start active create none packet) = none
created (start active create (some name) packet) = created_with create (parse_command_packet packet)
created (stop active name) = none
created (terminate active clear) = none

-- How often a handle is opened.
abbrev pub opened : ℕ → List ServiceCall → ℕ
opened h [] = 0
opened h (call ∷ calls) = one h (process_of (created call)) + opened h calls

created_with-Kept :
    (h : ℕ) (live : 0 < h) (active : ℕ → Bool) (create : Bytes → Option ℕ) (name : Bytes)
    (packet : Argv) (es : List ServiceHandle)
    → IsClean es
    → let o = start_with active create name packet es in
      Kept h es (process_of (created_with create packet)) o.entries o.actions
unfolding start_with
created_with-Kept h live active create name (argv args) es clean =
    launch-Kept h live active (create (command_line (map c_str args))) (c_str name) es clean
created_with-Kept h live active create name malformed es clean = refused-Kept h live active es clean
created_with-Kept h live active create name overflow es clean = refused-Kept h live active es clean
created_with-Kept h live active create name out_of_fuel es clean =
    refused-Kept h live active es clean

perform-Kept :
    (h : ℕ) (live : 0 < h) (call : ServiceCall) (es : List ServiceHandle)
    → IsClean es
    → let after = perform call es in Kept h es (process_of (created call)) after.0 after.1
unfolding start_service
perform-Kept h live (start active create none packet) es clean = refused-Kept h live active es clean
perform-Kept h live (start active create (some name) packet) es clean =
    created_with-Kept h live active create name (parse_command_packet packet) es clean
perform-Kept h live (stop active name) es clean = stop_service-Kept h live active name es clean
perform-Kept h live (terminate active clear) es clean = terminate-Kept h live active clear es clean

run-Kept :
    (h : ℕ) (live : 0 < h) (calls : List ServiceCall) (es : List ServiceHandle)
    → IsClean es
    → let after = run calls es in
      (held h after.0 + closed h after.1 ≡ held h es + opened h calls) × IsClean after.0
run-Kept h live [] es clean = (omega arith, clean)
run-Kept h live (call ∷ calls) es clean =
    let k = perform-Kept h live call es clean in
    let after = perform call es in
    let rest = run-Kept h live calls after.0 k.clean in
    (omega (arith, k.balance, rest.0, closed-append h after.1 (run calls after.0).1), rest.1)

no_entries :
    (h : ℕ) (n : ℕ)
    → 0 < h
    → (held h (replicate n free_handle) ≡ 0) × IsClean (replicate n free_handle)
no_entries h zero live = (refl, tt)
no_entries h (suc n) live =
    let rest = no_entries h n live in (ground (arith, live, rest.0), (inr refl, rest.1))

-- From the empty table of 64 entries, after any calls of start_service, stop_service and
-- terminate_tracked_services, with any answers of the system: of each process handle that is not NULL,
-- the times that the table holds it and the times that it was closed make the times that CreateProcessA
-- gave it.
pub handles_balance :
    (h : ℕ) (calls : List ServiceCall)
    → 0 < h
    → let after = run calls (replicate 64 free_handle) in
      held h after.0 + closed h after.1 ≡ opened h calls
handles_balance h calls live =
    let empty = no_entries h 64 live in
    omega (arith, empty.0, (run-Kept h live calls (replicate 64 free_handle) empty.1).0)
