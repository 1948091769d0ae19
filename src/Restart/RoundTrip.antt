-- ===== src/Restart/RoundTrip.antt =====
-- runtime/linux/linux_backend.c: current_process_argv on the text that the system makes of arguments.
use lepusa.Base.{
  ℕ, suc, ◌+◌, ◌<◌, true, false, List, [], ◌∷◌, ◌++◌, ◌≡◌, ◌≢◌, refl, ap, ◌∙◌, none, some,
  append_assoc, append-nil, arith, ltb, leb, ◌==◌, length, All, Bytes,
}
use lepusa.Restart.{
  cmdline_limit, max_arguments, count_arguments, cut_arguments, starts_empty, current_process_argv,
  is_spawned, spawn_current_process,
}
use lepusa.Session.{Toolkit}

-- Each argument and the NUL behind it.
abbrev pub cmdline_of : List Bytes → Bytes
cmdline_of [] = []
cmdline_of (a ∷ rest) = a ++ (0 ∷ cmdline_of rest)

abbrev pub NoNul : Bytes → Type 0
NoNul a = All (λ c. c ≢ 0) a

count_arguments-append :
    (a s : Bytes) → NoNul a → count_arguments (a ++ (0 ∷ s)) ≡ count_arguments s + 1
unfolding count_arguments
count_arguments-append [] [] h = refl
count_arguments-append [] (c ∷ s) h = refl
count_arguments-append (c ∷ []) s (hc, h) = ground (arith, count_arguments-append [] s tt)
count_arguments-append (c ∷ d ∷ a) s (hc, h) = ground (arith, count_arguments-append (d ∷ a) s h)

count_arguments-cmdline_of :
    (rest : List Bytes) → All NoNul rest → count_arguments (cmdline_of rest) ≡ length rest
count_arguments-cmdline_of [] h = unfold count_arguments in refl
count_arguments-cmdline_of (a ∷ rest) (h, h_rest) =
    omega
      (arith, count_arguments-append a (cmdline_of rest) h, count_arguments-cmdline_of rest h_rest)

cut_arguments-append :
    (count : ℕ) (item a s : Bytes)
    → NoNul a
    → cut_arguments (suc count) item (a ++ (0 ∷ s)) ≡ (item ++ a) ∷ cut_arguments count [] s
unfolding cut_arguments
cut_arguments-append count item [] s h = rw (append-nil item) refl
cut_arguments-append count item (c ∷ a) s (hc, h) =
    let other : (c == 0) ≡ false = ground arith in
    let rest = cut_arguments-append count (item ++ (c ∷ [])) a s h in
    rw other
      (rest ∙ ap (λ (t : Bytes). t ∷ cut_arguments count [] s) (append_assoc item (c ∷ []) a))

cut_arguments-cmdline_of :
    (rest : List Bytes) → All NoNul rest → cut_arguments (length rest) [] (cmdline_of rest) ≡ rest
cut_arguments-cmdline_of [] h = unfold cut_arguments in refl
cut_arguments-cmdline_of (a ∷ rest) (h, h_rest) =
    cut_arguments-append (length rest) [] a (cmdline_of rest) h
    ∙ ap (λ (ts : List Bytes). a ∷ ts) (cut_arguments-cmdline_of rest h_rest)

starts_empty-append : (a s : Bytes) → 0 < length a → NoNul a → starts_empty (a ++ s) ≡ false
unfolding starts_empty
starts_empty-append [] s long h = absurd (omega arith)
starts_empty-append (c ∷ a) s long (hc, h) = ground arith

current_process_argv_lem :
    (a : Bytes) (rest : List Bytes)
    → 0 < length a
    → NoNul a
    → All NoNul rest
    → length rest < max_arguments
    → length (cmdline_of (a ∷ rest)) < cmdline_limit
    → current_process_argv (some (cmdline_of (a ∷ rest))) ≡ some (a ∷ rest)
unfolding current_process_argv
current_process_argv_lem a rest long h h_rest few short =
    let counted = count_arguments-cmdline_of (a ∷ rest) (h, h_rest) in
    let cut = cut_arguments-cmdline_of (a ∷ rest) (h, h_rest) in
    let first = starts_empty-append a (0 ∷ cmdline_of rest) long h in
    let fits : leb cmdline_limit (length (cmdline_of (a ∷ rest))) ≡ false = ground (arith, short) in
    let few' : ltb max_arguments (suc (length rest)) ≡ false = ground (arith, few) in
    let some_given : (suc (length rest) == 0) ≡ false = ground arith in
    rw (counted, first, fits, few', cut, some_given) refl

-- The program is started again with its own arguments, empty ones included, and the call says whether
-- that could be done: where the system shows up to 256 arguments without NUL, in less than 1 MiB
-- together, of which the first is not empty.
pub current_process_argv-cmdline_of :
    (toolkit : Toolkit) (a : Bytes) (rest : List Bytes)
    → toolkit.cmdline ≡ some (cmdline_of (a ∷ rest))
    → 0 < length a
    → NoNul a
    → All NoNul rest
    → length rest < max_arguments
    → length (cmdline_of (a ∷ rest)) < cmdline_limit
    → (current_process_argv toolkit.cmdline ≡ some (a ∷ rest))
      × (toolkit.spawn (a ∷ rest) ≡ none → spawn_current_process toolkit ≡ false)
      × ((pid : ℕ) → toolkit.spawn (a ∷ rest) ≡ some pid → spawn_current_process toolkit ≡ true)
unfolding spawn_current_process is_spawned
current_process_argv-cmdline_of toolkit a rest shown long h h_rest few short =
    let read : current_process_argv toolkit.cmdline ≡ some (a ∷ rest) =
      ap current_process_argv shown ∙ current_process_argv_lem a rest long h h_rest few short in
    (
      read,
      (λ failed. rw (spawn_current_process, read, failed, is_spawned) refl),
      (λ pid started. rw (spawn_current_process, read, started, is_spawned) refl),
    )
