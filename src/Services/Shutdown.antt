-- ===== src/Services/Shutdown.antt =====
-- runtime/linux/linux_backend.c: terminate_tracked_services and the signals that it sends.
use lepusa.Base.{
  ℕ, Bool, List, [], ◌∷◌, ◌++◌, ◌≡◌, refl, ap, arith, ltb, if◌then◌else◌, length, replicate,
}
use lepusa.Services.{
  ServiceProcess, free_entry, Signal, sigterm, wait_nohang, terminate_entry,
  terminate_tracked_services,
}

-- The pids that are sent SIGTERM.
pub terminated : List Signal → List ℕ
terminated [] = []
terminated (sigterm pid ∷ signals) = pid ∷ terminated signals
terminated (wait_nohang pid ∷ signals) = terminated signals

-- The pids of the running services, in the order of the table.
pub running : List ServiceProcess → List ℕ
running [] = []
running (e ∷ es) = if ltb 0 e.pid then e.pid ∷ running es else running es

terminated-append : (xs ys : List Signal) → terminated (xs ++ ys) ≡ terminated xs ++ terminated ys
unfolding terminated
terminated-append [] ys = refl
terminated-append (sigterm pid ∷ xs) ys = ap (◌∷◌ pid) (terminated-append xs ys)
terminated-append (wait_nohang pid ∷ xs) ys = terminated-append xs ys

terminated-terminate_entry :
    (kill_done : ℕ → Bool) (e : ServiceProcess)
    → terminated (terminate_entry kill_done e) ≡ (if ltb 0 e.pid then e.pid ∷ [] else [])
unfolding terminate_entry terminated
terminated-terminate_entry kill_done e = ground arith

-- Termination sends SIGTERM to each running service once, in table order, whatever the system
-- answers. With the flag set the table is empty afterwards, and without it the table is unchanged.
pub terminate_tracked_services_lem :
    (kill_done : ℕ → Bool) (clear : Bool) (es : List ServiceProcess)
    → (terminated (terminate_tracked_services kill_done clear es).1 ≡ running es)
      × ((terminate_tracked_services kill_done clear es).0
          ≡ (if clear then replicate (length es) free_entry else es))
unfolding terminate_tracked_services running terminated
terminate_tracked_services_lem kill_done clear [] = (refl, ground arith)
terminate_tracked_services_lem kill_done clear (e ∷ es) =
    let ih = terminate_tracked_services_lem kill_done clear es in
    (rw (terminated-append, terminated-terminate_entry, ih.0) (ground arith), ground (arith, ih.1))
