-- ===== src/Services/Lifecycle.antt =====
-- runtime/linux/linux_backend.c: start_service and stop_service on the table.
use lepusa.Base.{
  ℕ, ◌<◌, Bool, true, List, [], ◌∷◌, ◌≡◌, ◌⊎◌, inl, inr, refl, ◌∙◌, Option, none, some, map, arith,
  if◌then◌else◌, Bool-cases, Bytes,
}
use lepusa.Argv.{argv, parse_command_packet}
use lepusa.CString.Laws.{strcmp_eq_iff}
use lepusa.CString.{c_str, strcmp_eq}
use lepusa.Services.Table.{find_service, find_service-track_service, track_service_failed}
use lepusa.Services.Unique.{IsTable, untrack_service_lem}
use lepusa.Services.{
  ServiceProcess, sigterm, wait_nohang, track_service, start_service, finish_stop, stop_service,
}

find_service-track_self :
    (name : Bytes) (pid : ℕ) (es : List ServiceProcess)
    → (track_service name pid es).result ≡ true
    → find_service name (track_service name pid es).entries ≡ some pid
find_service-track_self name pid es h =
    let self = (strcmp_eq_iff name name).1 refl in
    rw (find_service-track_service name name pid es h, self)

module _ (spawn : List Bytes → Option ℕ) (name packet : Bytes) (es : List ServiceProcess) where
  -- Once a command line is spawned, its process is tracked under the name, or it is told to
  -- terminate and the table is as before.
  pub start_service_keeps :
      (args : List Bytes) (pid : ℕ)
      → parse_command_packet (some packet) ≡ argv args
      → spawn (map c_str args) ≡ some pid
      → (((start_service spawn (some name) (some packet) es).code ≡ some 0)
          × (find_service (c_str name) (start_service spawn (some name) (some packet) es).entries
              ≡ some pid))
        ⊎ (((start_service spawn (some name) (some packet) es).code ≡ some 3)
            × ((start_service spawn (some name) (some packet) es).entries ≡ es)
            × ((start_service spawn (some name) (some packet) es).signals ≡ sigterm pid ∷ []))
  unfolding start_service
  start_service_keeps args pid read spawned =
      elim (Bool-cases (track_service (c_str name) pid es).result) [
        | inl h ↦ rw (read, spawned, h) (inl (refl, find_service-track_self (c_str name) pid es h))
        | inr h ↦
            let same = track_service_failed (c_str name) pid es h in
            rw (read, spawned, h) (inr (refl, same.0, rw same.1))
      ]

finish_stop-entries :
    (kill_done : ℕ → Bool) (found : Option ℕ) (es : List ServiceProcess)
    → (finish_stop kill_done found es).entries ≡ es
unfolding finish_stop
finish_stop-entries kill_done none es = refl
finish_stop-entries kill_done (some pid) es = ground arith

-- Stopping a service that a well-formed table holds with a pid forgets it whatever the system
-- answers, keeps every other one and the table well formed, and signals its process, which it reaps
-- if the kill is done. The code is 0, or 2 if the kill fails.
pub stop_service_lem :
    (kill_done : ℕ → Bool) (name other : Bytes) (es : List ServiceProcess) (pid : ℕ)
    → IsTable es
    → find_service (c_str name) es ≡ some pid
    → 0 < pid
    → (find_service other (stop_service kill_done (some name) es).entries
        ≡ (if strcmp_eq (c_str name) other then none else find_service other es))
      × IsTable (stop_service kill_done (some name) es).entries
      × ((stop_service kill_done (some name) es).code ≡ some (if kill_done pid then 0 else 2))
      × ((stop_service kill_done (some name) es).signals
          ≡ sigterm pid ∷ (if kill_done pid then wait_nohang pid ∷ [] else []))
unfolding stop_service
stop_service_lem kill_done name other es pid t f positive =
    let (found, forgets, table) = untrack_service_lem (c_str name) other es t in
    let held = found ∙ f in
    (
      rw (finish_stop-entries) forgets,
      rw (finish_stop-entries) table,
      rw held (ground arith),
      rw held (ground arith),
    )
