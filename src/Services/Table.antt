-- ===== src/Services/Table.antt =====
-- runtime/linux/linux_backend.c: the service table as a finite map from names to pids.
use lepusa.Base.{
  ℕ, Bool, true, false, ◌||◌, List, [], ◌∷◌, ◌≡◌, ◌≢◌, ◌↔◌, ◌⊎◌, inl, inr, refl, Option, none, some,
  arith, ltb, if◌then◌else◌, Bool-cases, Option-cases, length, Bytes,
}
use lepusa.CString.Laws.{strcmp_eq_iff}
use lepusa.CString.{strcmp_eq}
use lepusa.Services.{
  ServiceProcess, is_named, is_free, replace_pid, take_free, track_service, sigterm, wait_nohang,
}

-- The pid that the table holds for a name.
abbrev pub find_service : Bytes → List ServiceProcess → Option ℕ
find_service name [] = none
find_service name (e ∷ es) = if is_named name e.name then some e.pid else find_service name es

abbrev pub Fresh : Option Bytes → List ServiceProcess → Type 0
Fresh none es = Unit
Fresh (some n) es = find_service n es ≡ none

-- No two entries have one name.
abbrev pub IsUnique : List ServiceProcess → Type 0
IsUnique [] = Unit
IsUnique (e ∷ es) = Fresh e.name es × IsUnique es

pub has_free : List ServiceProcess → Bool
has_free [] = false
has_free (e ∷ es) = is_free e.name || has_free es

pub replace_pid-find_service :
    (name : Bytes) (pid : ℕ) (es : List ServiceProcess)
    → ((find_service name es ≡ none) × (replace_pid name pid es ≡ none))
      ⊎ ((old : ℕ) × (es' : List ServiceProcess) × (find_service name es ≡ some old)
          × (replace_pid name pid es ≡ some (old, es')))
unfolding replace_pid
replace_pid-find_service name pid [] = inl (refl, refl)
replace_pid-find_service name pid (e ∷ es) = elim (Bool-cases (is_named name e.name)) [
  | inl h ↦ inr (e.pid, record e { pid = pid } ∷ es, rw h, rw h)
  | inr h ↦ elim (replace_pid-find_service name pid es) [
    | inl (p, q) ↦ inl (rw h p, rw (h, q))
    | inr (old, es', p, q) ↦ inr (old, e ∷ es', rw h p, rw (h, q))
  ]
]

pub is_named_iff : (name : Bytes) (o : Option Bytes) → (is_named name o ≡ true) ↔ (o ≡ some name)
unfolding is_named
is_named_iff name none = ground arith
is_named_iff name (some n) = ground (arith, strcmp_eq_iff n name)

pub find_service-replace_pid :
    (name other : Bytes) (pid : ℕ) (es : List ServiceProcess) {old : ℕ} {es' : List ServiceProcess}
    → replace_pid name pid es ≡ some (old, es')
    → find_service other es' ≡ (if strcmp_eq name other then some pid else find_service other es)
unfolding replace_pid
find_service-replace_pid name other pid [] h = cc
find_service-replace_pid name other pid (e ∷ es) {old} {es'} h =
    elim (Option-cases (replace_pid name pid es)) [
      | inl p ↦
          ground
            (arith, is_named_iff name e.name, is_named_iff other e.name, strcmp_eq_iff name other)
      | inr ((old', rest), p) ↦ ground (
        arith,
        is_named_iff name e.name,
        is_named_iff other e.name,
        strcmp_eq_iff name other,
        find_service-replace_pid name other pid es {old = old'} {es' = rest} p,
      )
    ]

pub find_service-take_free :
    (name other : Bytes) (pid : ℕ) (es : List ServiceProcess) {es' : List ServiceProcess}
    → find_service name es ≡ none
    → take_free name pid es ≡ some es'
    → find_service other es' ≡ (if strcmp_eq name other then some pid else find_service other es)
unfolding take_free is_free
find_service-take_free name other pid [] f h = cc
find_service-take_free name other pid (e ∷ es) {es'} f h =
    elim (Option-cases (take_free name pid es)) [
      | inl p ↦ ground (
        arith,
        is_named_iff name e.name,
        is_named_iff other e.name,
        strcmp_eq_iff name other,
        is_named_iff other (some name),
      )
      | inr (rest, p) ↦ ground (
        arith,
        is_named_iff name e.name,
        is_named_iff other e.name,
        strcmp_eq_iff name other,
        is_named_iff other (some name),
        find_service-take_free name other pid es {es' = rest},
      )
    ]

-- After a service is tracked with success its name maps to the new pid, and every other name maps as before.
pub find_service-track_service :
    (name other : Bytes) (pid : ℕ) (es : List ServiceProcess)
    → (track_service name pid es).result ≡ true
    → find_service other (track_service name pid es).entries
      ≡ (if strcmp_eq name other then some pid else find_service other es)
unfolding track_service
find_service-track_service [] other pid es h = cc
find_service-track_service (c ∷ cs) other pid es h =
    let name = c ∷ cs in
    elim (replace_pid-find_service name pid es) [
      | inl (f, r) ↦ elim (Option-cases (take_free name pid es)) [
        | inl p ↦ ground arith
        | inr (es', p) ↦ ground (arith, find_service-take_free name other pid es {es' = es'} f p)
      ]
      | inr (old, es', f, r) ↦
          ground (arith, find_service-replace_pid name other pid es {old = old} {es' = es'} r)
    ]

take_free-has_free :
    (name : Bytes) (pid : ℕ) (es : List ServiceProcess)
    → ((has_free es ≡ false) × (take_free name pid es ≡ none))
      ⊎ ((has_free es ≡ true) × ((es' : List ServiceProcess) × (take_free name pid es ≡ some es')))
unfolding take_free has_free
take_free-has_free name pid [] = inl (refl, refl)
take_free-has_free name pid (e ∷ es) = elim (Bool-cases (is_free e.name)) [
  | inl h ↦ inr (rw h, (record { name = some name; pid = pid } ∷ es, rw h))
  | inr h ↦ elim (take_free-has_free name pid es) [
    | inl (p, q) ↦ inl (rw (h, p), rw (h, q))
    | inr (p, (es', q)) ↦ inr (rw (h, p), (e ∷ es', rw (h, q)))
  ]
]

-- Where tracking fails the table is unchanged and no process is signalled.
pub track_service_failed :
    (name : Bytes) (pid : ℕ) (es : List ServiceProcess)
    → (track_service name pid es).result ≡ false
    → ((track_service name pid es).entries ≡ es) × ((track_service name pid es).signals ≡ [])
unfolding track_service
track_service_failed [] pid es h = (refl, refl)
track_service_failed (c ∷ cs) pid es h =
    let name = c ∷ cs in
    elim (replace_pid-find_service name pid es) [
      | inl (f, r) ↦ elim (take_free-has_free name pid es) [
        | inl (p, q) ↦ (ground arith, ground arith)
        | inr (p, (es', q)) ↦ ground arith
      ]
      | inr (old, es', f, r) ↦ ground arith
    ]

-- The process that a name that is not empty stood for, if its pid is not 0, is terminated and reaped
-- when its name is tracked again, and no other process is signalled.
pub track_service_signals :
    (name : Bytes) (pid old : ℕ) (es : List ServiceProcess)
    → name ≢ []
    → find_service name es ≡ some old
    → (track_service name pid es).signals
      ≡ (if ltb 0 old then sigterm old ∷ wait_nohang old ∷ [] else [])
unfolding track_service
track_service_signals [] pid old es ne f = absurd (ne refl)
track_service_signals (c ∷ cs) pid old es ne f = elim (replace_pid-find_service (c ∷ cs) pid es) [
  | inl (f', r) ↦ cc
  | inr (old', es', f', r) ↦ ground arith
]

-- `replace_pid` and `take_free` keep the number of entries.
pub length-replace_pid :
    (name : Bytes) (pid : ℕ) (es : List ServiceProcess) {old : ℕ} {es' : List ServiceProcess}
    → replace_pid name pid es ≡ some (old, es')
    → length es' ≡ length es
unfolding replace_pid
length-replace_pid name pid [] h = cc
length-replace_pid name pid (e ∷ es) {old} {es'} h = elim (Option-cases (replace_pid name pid es)) [
  | inl p ↦ ground arith
  | inr ((old', rest), p) ↦
      ground (arith, length-replace_pid name pid es {old = old'} {es' = rest} p)
]

pub length-take_free :
    (name : Bytes) (pid : ℕ) (es : List ServiceProcess) {es' : List ServiceProcess}
    → take_free name pid es ≡ some es'
    → length es' ≡ length es
unfolding take_free
length-take_free name pid [] h = cc
length-take_free name pid (e ∷ es) {es'} h = elim (Option-cases (take_free name pid es)) [
  | inl p ↦ ground arith
  | inr (rest, p) ↦ ground (arith, length-take_free name pid es {es' = rest} p)
]
