-- ===== src/FileDialog/Picks.antt =====
-- plugins/file_dialog/file_dialog_backend.c: which packets a call is answered with.
use lepusa.Base.{
  ℕ, Bool, true, false, not, ◌||◌, [], ◌∷◌, ◌≡◌, ◌↔◌, ◌⊎◌, inl, inr, refl, sym, ap, ◌∙◌, Option,
  none, some, arith, ◌==◌, if◌then◌else◌, Bool-cases, length, Bytes, codes, ℤ, pos, negsuc,
}
use lepusa.FileDialog.{
  Host, Platform, available, ask, answer, pick, is_code, c_text, cancelled_packet, failed_packet,
}
use lepusa.FileDialog.Commands.{same_text}
use lepusa.FileDialog.Failures.{Fails, or_iff, Fails-asked}
use lepusa.FileDialog.Payload.Bounds.{paths_json-list_text}
use lepusa.FileDialog.Payload.{packet, selected_json, cancelled_json, trim_newlines}

-- A caller takes the status of a packet up to the first newline.
abbrev pub status_of : Bytes → Bytes
status_of [] = []
status_of (c ∷ s) = let rest = status_of s in if c == b'\n' then [] else c ∷ rest

status_of-err : (body : Bytes) → status_of (packet (codes "err") body) ≡ codes "err"
unfolding packet
status_of-err body = refl

status_of-ok : (body : Bytes) → status_of (packet (codes "ok") body) ≡ codes "ok"
unfolding packet
status_of-ok body = refl

-- The payload of a choice is there, of several files or of one.
selected_json-some :
    (action : Bytes) (path : Option Bytes) (multiple : Bool)
    → (json : Bytes) × (selected_json action path multiple ≡ some json)
unfolding selected_json
selected_json-some action path true = rw (paths_json-list_text path) (_, refl)
selected_json-some action path false = (_, refl)

abbrev outcome : Bool → Bytes
outcome failed = if failed then codes "err" else codes "ok"

is_code-other : (code : ℤ) → is_code code 0 ≡ true → is_code code 1 ≡ false
is_code-other (pos n) zero_code = ground (arith, zero_code)
is_code-other (negsuc n) zero_code = refl

status_of-unchosen :
    (action : Bytes) (code : ℤ)
    → status_of (if not (is_code code 1) then cancelled_packet action else failed_packet)
      ≡ outcome (is_code code 1)
status_of-unchosen action code = elim (Bool-cases (is_code code 1)) [
  | inl failed ↦ rw failed (status_of-err (codes "native file dialog failed"))
  | inr left ↦ rw left (status_of-ok (cancelled_json action))
]

status_of-answer :
    (action : Bytes) (selection : Option Bytes) (code : ℤ)
    → status_of (answer action selection code) ≡ outcome (is_code code 1)
unfolding answer
status_of-answer action none code = status_of-unchosen action code
status_of-answer action (some selection) code = elim (Bool-cases (is_code code 0)) [
  | inl chosen ↦
      let (json, made) =
        selected_json-some action (some (trim_newlines selection))
          (same_text action (codes "openFiles")) in
      let other : is_code code 1 ≡ false = is_code-other code chosen in
      rw (chosen, made, other) (status_of-ok json)
  | inr left ↦ rw left (status_of-unchosen action code)
]

pick-status_of_asked :
    (host : Host) (platform : Platform) (action initial_path suggested_name : Option Bytes)
    → let asked = ask host platform (c_text action) (c_text initial_path) (c_text suggested_name) in
      status_of (pick host platform action initial_path suggested_name)
      ≡ outcome
          (length (c_text action) == 0 || (not (available host platform) || is_code asked.1 1))
unfolding pick
pick-status_of_asked host platform action initial_path suggested_name =
    let asked = ask host platform (c_text action) (c_text initial_path) (c_text suggested_name) in
    elim (Bool-cases (length (c_text action) == 0)) [
      | inl unnamed ↦ rw unnamed (status_of-err (codes "native file dialog action is required"))
      | inr named ↦ elim (Bool-cases (available host platform)) [
        | inr absent ↦
            rw (named, absent) (status_of-err (codes "native file dialog is unavailable"))
        | inl there ↦ rw (named, there) (status_of-answer (c_text action) asked.0 asked.1)
      ]
    ]

empty_iff : (s : Bytes) → ((length s == 0) ≡ true) ↔ (s ≡ [])
empty_iff [] = ((λ e. refl), (λ e. refl))
empty_iff (c ∷ s) = ((λ e. absurd (ground (arith, e))), (λ e. absurd (cc e)))

outcome_iff :
    (failed : Bool) {P : Type 0} (status : Bytes)
    → status ≡ outcome failed
    → ((failed ≡ true) ↔ P)
    → ((status ≡ codes "err") ↔ P) × ((status ≡ codes "err") ⊎ (status ≡ codes "ok"))
outcome_iff true status e p = (((λ h. p.0 refl), (λ x. e)), inl e)
outcome_iff false status e p =
    (((λ h. absurd (ground (arith, ap first (sym h ∙ e)))), (λ x. absurd (cc (p.1 x)))), inr e)
  where
    first : Bytes → ℕ
    first [] = 0
    first (c ∷ s) = c

-- A call is answered with `err` if and only if it names no action, the system has no dialog, or the
-- dialog could not be shown or gave the status 1, and otherwise with `ok`: also where nothing was chosen.
-- On Linux the system has a dialog if the command that looks for zenity gives 0, and the status is what
-- pclose gives.
pub pick-status_of :
    (host : Host) (platform : Platform) (action initial_path suggested_name : Option Bytes)
    → let status = status_of (pick host platform action initial_path suggested_name) in
      ((status ≡ codes "err") ↔ (
        (c_text action ≡ [])
        ⊎ Fails host platform (c_text action) (c_text initial_path) (c_text suggested_name)))
      × ((status ≡ codes "err") ⊎ (status ≡ codes "ok"))
pick-status_of host platform action initial_path suggested_name =
    outcome_iff _ (status_of (pick host platform action initial_path suggested_name))
      (pick-status_of_asked host platform action initial_path suggested_name)
      (or_iff _ _ (empty_iff (c_text action))
        (Fails-asked host platform (c_text action) (c_text initial_path) (c_text suggested_name)))
