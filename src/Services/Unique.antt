-- ===== src/Services/Unique.antt =====
-- runtime/linux/linux_backend.c: well-formed service tables, for track_service and
-- untrack_service.
use lepusa.Base.{
  ℕ, List, [], ◌∷◌, ◌≡◌, ◌≢◌, inl, inr, refl, sym, ap, ◌∙◌, Option, none, some, arith,
  if◌then◌else◌, Bool-cases, Option-cases, length, Bytes,
}
use mathlib.Core.Path.{subst}
use lepusa.CString.Laws.{strcmp_eq_iff}
use lepusa.CString.{strcmp_eq}
use lepusa.Services.Table.{
  find_service, Fresh, IsUnique, replace_pid-find_service, is_named_iff, find_service-replace_pid,
  find_service-take_free, length-replace_pid, length-take_free,
}
use lepusa.Services.{
  ServiceProcess, is_named, is_free, replace_pid, take_free, track_service, untrack_service,
  table_size,
}

-- The table is well formed: 64 entries, no name twice.
pub record IsTable (es : List ServiceProcess) : Type 0 where
  pub sized : length es ≡ table_size
  pub unique : IsUnique es

Fresh-replace_pid :
    (o : Option Bytes) (name : Bytes) (pid : ℕ) (es : List ServiceProcess) {old : ℕ}
    {es' : List ServiceProcess}
    → replace_pid name pid es ≡ some (old, es')
    → Fresh o es
    → Fresh o es'
Fresh-replace_pid none name pid es r f = tt
Fresh-replace_pid (some n) name pid es {old} {es'} r f =
    elim (replace_pid-find_service name pid es) [
      | inl (p, q) ↦ cc
      | inr (_, _, p, q) ↦ ground (
        arith,
        find_service-replace_pid name n pid es {old = old} {es' = es'} r,
        strcmp_eq_iff name n,
      )
    ]

IsUnique-replace_pid :
    (name : Bytes) (pid : ℕ) (es : List ServiceProcess) {old : ℕ} {es' : List ServiceProcess}
    → replace_pid name pid es ≡ some (old, es')
    → IsUnique es
    → IsUnique es'
unfolding replace_pid
IsUnique-replace_pid name pid [] r u = cc
IsUnique-replace_pid name pid (e ∷ es) {old} {es'} r u = elim (Bool-cases (is_named name e.name)) [
  | inl h ↦ let same : record e { pid = pid } ∷ es ≡ es' = ground arith in rw (← same) u
  | inr h ↦ elim (Option-cases (replace_pid name pid es)) [
    | inl p ↦ ground arith
    | inr ((old', rest), p) ↦
        let same : e ∷ rest ≡ es' = ground arith in
        rw (← same) (
          Fresh-replace_pid e.name name pid es p u.0,
          IsUnique-replace_pid name pid es {old = old'} {es' = rest} p u.1,
        )
  ]
]

Fresh-take_free :
    (o : Option Bytes) (name : Bytes) (pid : ℕ) (es : List ServiceProcess)
    {es' : List ServiceProcess}
    → find_service name es ≡ none
    → o ≢ some name
    → take_free name pid es ≡ some es'
    → Fresh o es
    → Fresh o es'
Fresh-take_free none name pid es g ne r f = tt
Fresh-take_free (some n) name pid es {es'} g ne r f =
    let differs : name ≢ n = λ p. ne (ap some (sym p)) in
    ground (arith, find_service-take_free name n pid es {es' = es'} g r, strcmp_eq_iff name n)

absent_tail :
    (name : Bytes) (e : ServiceProcess) (es : List ServiceProcess)
    → find_service name (e ∷ es) ≡ none
    → (find_service name es ≡ none) × (e.name ≢ some name)
absent_tail name e es h =
    (ground (arith, is_named_iff name e.name), λ p. ground (arith, is_named_iff name e.name))

IsUnique-take_free :
    (name : Bytes) (pid : ℕ) (es : List ServiceProcess) {es' : List ServiceProcess}
    → find_service name es ≡ none
    → take_free name pid es ≡ some es'
    → IsUnique es
    → IsUnique es'
unfolding take_free
IsUnique-take_free name pid [] g r u = cc
IsUnique-take_free name pid (e ∷ es) {es'} g r u = elim (Bool-cases (is_free e.name)) [
  | inl h ↦
      let same : record { name = some name; pid = pid } ∷ es ≡ es' = ground arith in
      rw (← same) ((absent_tail name e es g).0, u.1)
  | inr h ↦ elim (Option-cases (take_free name pid es)) [
    | inl p ↦ ground arith
    | inr (rest, p) ↦
        let same : e ∷ rest ≡ es' = ground arith in
        let absent = absent_tail name e es g in
        rw (← same) (
          Fresh-take_free e.name name pid es absent.0 absent.1 p u.0,
          IsUnique-take_free name pid es {es' = rest} absent.0 p u.1,
        )
  ]
]

-- Tracking keeps the table well formed, whether it succeeds or not.
pub track_service-IsTable :
    (name : Bytes) (pid : ℕ) (es : List ServiceProcess)
    → IsTable es
    → IsTable (track_service name pid es).entries
unfolding track_service
track_service-IsTable [] pid es t = t
track_service-IsTable (c ∷ cs) pid es t =
    let name = c ∷ cs in
    elim (replace_pid-find_service name pid es) [
      | inl (f, r) ↦ elim (Option-cases (take_free name pid es)) [
        | inl p ↦ rw (r, p, track_service) t
        | inr (es', p) ↦
            rw (r, p, track_service)
              (record {
                sized = length-take_free name pid es {es' = es'} p ∙ t.sized;
                unique = IsUnique-take_free name pid es {es' = es'} f p t.unique;
              })
      ]
      | inr (old, es', f, r) ↦
          rw (r, track_service)
            (record {
              sized = length-replace_pid name pid es {old = old} {es' = es'} r ∙ t.sized;
              unique = IsUnique-replace_pid name pid es {old = old} {es' = es'} r t.unique;
            })
    ]

-- The result of `untrack_service` is the pid that the table held.
pub untrack_service-find_service :
    (name : Bytes) (es : List ServiceProcess) → (untrack_service name es).0 ≡ find_service name es
unfolding untrack_service
untrack_service-find_service name [] = refl
untrack_service-find_service name (e ∷ es) = ground (arith, untrack_service-find_service name es)

find_service-untrack_service :
    (name other : Bytes) (es : List ServiceProcess)
    → IsUnique es
    → find_service other (untrack_service name es).1
      ≡ (if strcmp_eq name other then none else find_service other es)
unfolding untrack_service
find_service-untrack_service name other [] u = ground arith
find_service-untrack_service name other (e ∷ es) (f, u) = elim (Bool-cases (is_named name e.name)) [
  | inl h ↦
      let named = (is_named_iff name e.name).0 h in
      let gone : find_service name es ≡ none = subst (λ o. Fresh o es) named f in
      ground (arith, is_named_iff other e.name, strcmp_eq_iff name other, is_named_iff other none)
  | inr h ↦ ground (
    arith,
    find_service-untrack_service name other es u,
    is_named_iff name e.name,
    is_named_iff other e.name,
    strcmp_eq_iff name other,
  )
]

Fresh-untrack_service :
    (o : Option Bytes) (name : Bytes) (es : List ServiceProcess)
    → IsUnique es
    → Fresh o es
    → Fresh o (untrack_service name es).1
Fresh-untrack_service none name es u f = tt
Fresh-untrack_service (some n) name es u f =
    ground (arith, find_service-untrack_service name n es u)

IsUnique-untrack_service :
    (name : Bytes) (es : List ServiceProcess) → IsUnique es → IsUnique (untrack_service name es).1
unfolding untrack_service
IsUnique-untrack_service name [] u = u
IsUnique-untrack_service name (e ∷ es) (f, u) = elim (Bool-cases (is_named name e.name)) [
  | inl h ↦ rw (h, untrack_service) (tt, u)
  | inr h ↦
      rw (h, untrack_service)
        (Fresh-untrack_service e.name name es u f, IsUnique-untrack_service name es u)
]

length-untrack_service :
    (name : Bytes) (es : List ServiceProcess) → length (untrack_service name es).1 ≡ length es
unfolding untrack_service
length-untrack_service name [] = refl
length-untrack_service name (e ∷ es) = ground (arith, length-untrack_service name es)

-- Untracking a name in a well-formed table gives the pid that the table held for it, forgets that name
-- and no other, and keeps the table well formed.
pub untrack_service_lem :
    (name other : Bytes) (es : List ServiceProcess)
    → IsTable es
    → ((untrack_service name es).0 ≡ find_service name es)
      × (find_service other (untrack_service name es).1
          ≡ (if strcmp_eq name other then none else find_service other es))
      × IsTable (untrack_service name es).1
untrack_service_lem name other es t = (
  untrack_service-find_service name es,
  find_service-untrack_service name other es t.unique,
  record {
    sized = length-untrack_service name es ∙ t.sized;
    unique = IsUnique-untrack_service name es t.unique;
  },
)
