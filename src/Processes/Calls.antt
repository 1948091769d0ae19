-- ===== src/Processes/Calls.antt =====
-- runtime/windows/windows_backend.c: the handles of service processes in one call.
use lepusa.Base.{
  ℕ, ◌+◌, ◌<◌, Bool, true, false, ◌||◌, List, [], ◌∷◌, ◌++◌, ◌≡◌, inl, inr, refl, Option, none,
  some, append-nil, arith, ◌==◌, if◌then◌else◌, Bool-cases, length, Bytes,
}
use lepusa.CString.{c_str}
use lepusa.Processes.Handles.{
  one, held, closed, IsClean, closed-append, replace_process-cases, take_unused-cases,
  untrack_service-Swapped,
}
use lepusa.Processes.{
  ServiceHandle, Action, terminate_process, close_handle, untrack_service, end_process,
  track_service, terminate_entry, terminate_tracked_services, launch, stop_service,
}

-- A call that gives the table a process, or none, and the table and the calls after it.
pub record Kept (h : ℕ) (before : List ServiceHandle) (got : ℕ) (after : List ServiceHandle)
    (actions : List Action) : Type 0 where
  pub balance : held h after + closed h actions ≡ held h before + one h got
  pub clean : IsClean after

abbrev pub process_of : Option ℕ → ℕ
process_of none = 0
process_of (some process) = process

module _ (h : ℕ) (live : 0 < h) where
  module _ (still_active : ℕ → Bool) where
    end_process-closed : (process : ℕ) → closed h (end_process still_active process) ≡ 0
    unfolding end_process
    end_process-closed process = elim (Bool-cases (still_active process)) [
      | inl active ↦ rw active refl
      | inr ended ↦ rw ended refl
    ]

    closing :
        (process : ℕ)
        → closed h (end_process still_active process ++ (close_handle process ∷ [])) ≡ one h process
    closing process =
        let joined =
          closed-append h (end_process still_active process) (close_handle process ∷ []) in
        omega (arith, joined, end_process-closed process)

    pub refused-Kept : (es : List ServiceHandle) → IsClean es → Kept h es 0 es []
    refused-Kept es clean = record { balance = ground (arith, live); clean = clean }

    -- A process that is tracked, or left to the caller.
    track_service-Kept :
        (name : Bytes) (process : ℕ) (es : List ServiceHandle)
        → IsClean es
        → let t = track_service still_active name process es in
          Kept h es (if t.result then process else 0) t.entries t.actions
    unfolding track_service
    track_service-Kept name process es clean =
        elim (Bool-cases (length name == 0 || process == 0)) [
          | inl refused ↦ rw refused (refused-Kept es clean)
          | inr named ↦ elim (replace_process-cases h live name process es clean) [
            | inr (old, es', p, s) ↦
                rw (named, p)
                  (record { balance = omega (arith, s.balance, closing old); clean = s.clean })
            | inl absent ↦ elim (take_unused-cases h live name process es clean) [
              | inl full ↦ rw (named, absent, full) (refused-Kept es clean)
              | inr (es', p, s) ↦
                  rw (named, absent, p)
                    (record { balance = ground (arith, live, s.balance); clean = s.clean })
            ]
          ]
        ]

    pub launch-Kept :
        (created : Option ℕ) (name : Bytes) (es : List ServiceHandle)
        → IsClean es
        → let o = launch still_active created name es in
          Kept h es (process_of created) o.entries o.actions
    unfolding launch
    launch-Kept none name es clean = refused-Kept es clean
    launch-Kept (some process) name es clean =
        let t = track_service still_active name process es in
        let k = track_service-Kept name process es clean in
        elim (Bool-cases t.result) [
          | inl tracked ↦ let k' = rw tracked at k in rw tracked k'
          | inr left ↦
              let k' = rw left at k in
              let joined =
                closed-append h t.actions
                  (terminate_process process 1 ∷ close_handle process ∷ []) in
              rw left
                (record { balance = ground (arith, joined, live, k'.balance); clean = k'.clean })
        ]

    pub stop_service-Kept :
        (name : Option Bytes) (es : List ServiceHandle)
        → IsClean es
        → let o = stop_service still_active name es in Kept h es 0 o.entries o.actions
    unfolding stop_service
    stop_service-Kept none es clean = refused-Kept es clean
    stop_service-Kept (some name) es clean =
        let s = untrack_service-Swapped h live (c_str name) es clean in
        let found = untrack_service (c_str name) es in
        elim (Bool-cases (found.0 == 0)) [
          | inl null ↦
              rw null (record { balance = ground (arith, null, live, s.balance); clean = s.clean })
          | inr process ↦
              rw process
                (record { balance = omega (arith, s.balance, closing found.0); clean = s.clean })
        ]

    -- Without clearing, what is terminated keeps its handle.
    terminate_entry-closed :
        (clear : Bool) (e : ServiceHandle)
        → one h (if clear then 0 else e.process) + closed h (terminate_entry still_active clear e)
          ≡ one h e.process
    unfolding terminate_entry
    terminate_entry-closed clear e = elim (Bool-cases (e.process == 0)) [
      | inl null ↦ elim (Bool-cases clear) [
        | inl clears ↦ rw (null, clears) (ground (arith, null, live))
        | inr keeps ↦ rw (null, keeps) (omega arith)
      ]
      | inr process ↦ elim (Bool-cases clear) [
        | inl clears ↦ rw (process, clears) (ground (arith, live, closing e.process))
        | inr keeps ↦
            rw (process, keeps, append-nil (end_process still_active e.process))
              (omega (arith, end_process-closed e.process))
      ]
    ]

    pub terminate-Kept :
        (clear : Bool) (es : List ServiceHandle)
        → IsClean es
        → let after = terminate_tracked_services still_active clear es in
          Kept h es 0 after.0 after.1
    unfolding terminate_tracked_services
    terminate-Kept clear [] clean = refused-Kept [] clean
    terminate-Kept true (e ∷ es) (ce, clean) =
        let k = terminate-Kept true es clean in
        let joined =
          closed-append h (terminate_entry still_active true e)
            (terminate_tracked_services still_active true es).1 in
        record {
          balance = omega (arith, terminate_entry-closed true e, joined, k.balance);
          clean = (inr refl, k.clean);
        }
    terminate-Kept false (e ∷ es) (ce, clean) =
        let k = terminate-Kept false es clean in
        let joined =
          closed-append h (terminate_entry still_active false e)
            (terminate_tracked_services still_active false es).1 in
        record {
          balance = omega (arith, terminate_entry-closed false e, joined, k.balance);
          clean = (ce, k.clean);
        }
