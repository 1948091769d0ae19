-- ===== src/Processes/Handles.antt =====
-- runtime/windows/windows_backend.c: who closes the handles of service processes.
use lepusa.Base.{
  ℕ, ◌+◌, ◌<◌, true, false, List, [], ◌∷◌, ◌++◌, ◌≡◌, ◌⊎◌, inl, inr, refl, Option, none, some,
  arith, ◌==◌, if◌then◌else◌, Bool-cases, All, Bytes,
}
use lepusa.Processes.{
  ServiceHandle, Action, terminate_process, wait_for_process, close_handle, is_of_name, is_unused,
  replace_process, take_unused, untrack_service,
}

abbrev pub one : ℕ → ℕ → ℕ
one h process = if process == h then 1 else 0

-- How often a handle stands in the table, and how often it is closed.
abbrev pub held : ℕ → List ServiceHandle → ℕ
held h [] = 0
held h (e ∷ es) = one h e.process + held h es

abbrev pub closes : ℕ → Action → ℕ
closes h (terminate_process process code) = 0
closes h (wait_for_process process) = 0
closes h (close_handle process) = one h process

abbrev pub closed : ℕ → List Action → ℕ
closed h [] = 0
closed h (a ∷ actions) = closes h a + closed h actions

-- A free entry holds no handle.
abbrev pub IsClean : List ServiceHandle → Type 0
IsClean = All (λ e. (is_unused e.name ≡ false) ⊎ (e.process ≡ 0))

pub closed-append :
    (h : ℕ) (actions more : List Action)
    → closed h (actions ++ more) ≡ closed h actions + closed h more
closed-append h [] more = omega arith
closed-append h (a ∷ actions) more = omega (arith, closed-append h actions more)

named_used : (name : Bytes) (o : Option Bytes) → is_of_name name o ≡ true → is_unused o ≡ false
unfolding is_of_name is_unused
named_used name none e = cc
named_used name (some n) e = refl

unused_handle :
    (e : ServiceHandle)
    → (is_unused e.name ≡ false) ⊎ (e.process ≡ 0)
    → is_unused e.name ≡ true
    → e.process ≡ 0
unused_handle e (inl used) free = cc
unused_handle e (inr null) free = null

-- What a table that got a process, and gave one back, holds.
pub record Swapped (h : ℕ) (before after : List ServiceHandle) (got gave : ℕ) : Type 0 where
  pub balance : held h after + one h gave ≡ held h before + one h got
  pub clean : IsClean after

module _ (h : ℕ) (live : 0 < h) where
  pub replace_process-cases :
      (name : Bytes) (process : ℕ) (es : List ServiceHandle)
      → IsClean es
      → (replace_process name process es ≡ none)
        ⊎ ((old : ℕ) × (es' : List ServiceHandle) × (replace_process name process es
              ≡ some (old, es'))
            × Swapped h es es' process old)
  unfolding replace_process
  replace_process-cases name process [] clean = inl refl
  replace_process-cases name process (e ∷ es) (ce, clean) =
      elim (Bool-cases (is_of_name name e.name)) [
        | inl found ↦ inr (
          e.process,
          record e { process = process } ∷ es,
          rw found refl,
          record { balance = omega arith; clean = (inl (named_used name e.name found), clean) },
        )
        | inr other ↦ elim (replace_process-cases name process es clean) [
          | inl p ↦ inl (rw (other, p) refl)
          | inr (old, es', p, s) ↦ inr (
            old,
            e ∷ es',
            rw (other, p) refl,
            record { balance = omega (arith, s.balance); clean = (ce, s.clean) },
          )
        ]
      ]

  pub take_unused-cases :
      (name : Bytes) (process : ℕ) (es : List ServiceHandle)
      → IsClean es
      → (take_unused name process es ≡ none)
        ⊎ ((es' : List ServiceHandle) × (take_unused name process es ≡ some es')
            × Swapped h es es' process 0)
  unfolding take_unused is_unused
  take_unused-cases name process [] clean = inl refl
  take_unused-cases name process (e ∷ es) (ce, clean) = elim (Bool-cases (is_unused e.name)) [
    | inl free ↦
        let none_held : e.process ≡ 0 = unused_handle e ce free in
        inr (
          record { name = some name; process = process } ∷ es,
          rw free refl,
          record { balance = ground (arith, none_held, live); clean = (inl refl, clean) },
        )
    | inr used ↦ elim (take_unused-cases name process es clean) [
      | inl p ↦ inl (rw (used, p) refl)
      | inr (es', p, s) ↦ inr (
        e ∷ es',
        rw (used, p) refl,
        record { balance = omega (arith, s.balance); clean = (ce, s.clean) },
      )
    ]
  ]

  pub untrack_service-Swapped :
      (name : Bytes) (es : List ServiceHandle)
      → IsClean es
      → Swapped h es (untrack_service name es).1 0 (untrack_service name es).0
  unfolding untrack_service
  untrack_service-Swapped name [] clean = record { balance = omega (arith, live); clean = tt }
  untrack_service-Swapped name (e ∷ es) (ce, clean) =
      let s = untrack_service-Swapped name es clean in
      elim (Bool-cases (is_of_name name e.name)) [
        | inl found ↦ rw found (record { balance = omega arith; clean = (inr refl, clean) })
        | inr other ↦
            rw other (record { balance = omega (arith, s.balance); clean = (ce, s.clean) })
      ]
