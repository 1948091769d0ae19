-- ===== src/Pipe.antt =====
-- plugins/file_dialog/file_dialog_backend.c and plugins/clipboard/clipboard_backend.c: reading what a
-- command prints into a buffer that grows. What a command prints is a parameter, and malloc and realloc
-- are taken to succeed.
use lepusa.Base.{
  ℕ, zero, suc, ◌+◌, ◌-◌, ◌*◌, ◌≤◌, ◌<◌, Bool, true, false, not, [], ◌∷◌, ◌++◌, ◌≡◌, inl, inr, refl,
  ap, ◌∙◌, Option, none, some, append_assoc, append-nil, arith, ltb, leb, ◌==◌, if◌then◌else◌,
  Bool-cases, ◌>>=◌, length, take, drop, length-append, take-append-drop, length-take, length-drop,
  Bytes, ℤ,
}
use lepusa.CString.{c_str}

-- A command that was started: what it prints, and the result of `pclose`.
pub record Finished : Type 0 where
  pub output : Bytes
  pub status : ℤ

-- A loop of `fread`, with the bytes that are kept free, the test that makes the buffer grow, the
-- capacity, what the buffer holds and what is left to read. None if a read leaves the buffer or there is
-- no fuel left.
unfoldable pub read_loop : ℕ → (ℕ → ℕ → Bool) → ℕ → ℕ → Bytes → Bytes → Option (ℕ × Bytes)
read_loop spare full zero capacity buffer rest = none
read_loop spare full (suc fuel) capacity buffer rest =
    let room = if full (length buffer) capacity then capacity * 2 else capacity in
    let n = room - length buffer - spare in
    let got = take n rest in
    let more = read_loop spare full fuel room (buffer ++ got) (drop n rest) in
    if not (leb (length buffer + spare) room)
    then none
    else if length got == 0
    then some (room, buffer)
    else more

-- `len + 1 >= capacity`
abbrev pub full_but_one : ℕ → ℕ → Bool
full_but_one len capacity = leb capacity (len + 1)

-- The text up to its first NUL, one byte of the buffer being kept for the one behind it.
unfoldable pub dialog_output : Bytes → Option Bytes
unfolding read_loop c_str
dialog_output output =
    read_loop 1 full_but_one (length output + 1) 4096 [] output >>= λ (capacity, buffer).
    if ltb (length buffer) capacity then some (c_str buffer) else none

unfoldable pub clipboard_output : Bytes → Option Bytes
unfolding read_loop
clipboard_output output =
    read_loop 0 (λ len capacity. len == capacity) (length output + 1) 4096 [] output
    >>= λ (capacity, buffer). some buffer

-- Growing leaves room to read, and is not put off once there is none.
record Grows (spare : ℕ) (full : ℕ → ℕ → Bool) : Type 0 where
  spares : spare ≤ 1
  notices :
      (len capacity : ℕ)
      → len + spare ≤ capacity
      → full len capacity ≡ false
      → len + spare < capacity

dialog-Grows : Grows 1 full_but_one
dialog-Grows = record {
  spares = omega arith;
  notices = λ len capacity fits left. ground (arith, left);
}

clipboard-Grows : Grows 0 (λ len capacity. len == capacity)
clipboard-Grows = record {
  spares = omega arith;
  notices = λ len capacity fits left. ground (arith, fits, left);
}

nothing_left : (xs : Bytes) → length xs ≡ 0 → xs ≡ []
nothing_left [] e = refl
nothing_left (x ∷ xs) e = absurd (omega (arith, e))

empty_read : (n : ℕ) (rest : Bytes) → 1 ≤ n → (length (take n rest) == 0) ≡ true → length rest ≡ 0
empty_read n rest one ended = let got = length-take n rest in ground (arith, got, one, ended)

read-shorter :
    (n fuel : ℕ) (rest : Bytes)
    → (length (take n rest) == 0) ≡ false
    → length rest < suc fuel
    → length (drop n rest) < fuel
read-shorter n fuel rest more enough =
    let got = length-take n rest in
    let left = length-drop n rest in ground (arith, got, left, more, enough)

room-two : (b : Bool) (capacity : ℕ) → 2 ≤ capacity → 2 ≤ (if b then capacity * 2 else capacity)
room-two true capacity two = omega (arith, two)
room-two false capacity two = two

-- A read fills the buffer at most up to what is kept free.
read-fits :
    (room spare : ℕ) (buffer rest : Bytes)
    → length buffer + spare < room
    → length (buffer ++ take (room - length buffer - spare) rest) + spare ≤ room
read-fits room spare buffer rest has =
    let n = room - length buffer - spare in
    let measured = length-append buffer (take n rest) in
    let got = length-take n rest in omega (arith, has, measured, got)

module _ (spare : ℕ) (full : ℕ → ℕ → Bool) (grows : Grows spare full) where
  has_room :
      (len capacity : ℕ)
      → 2 ≤ capacity
      → len + spare ≤ capacity
      → len + spare < (if full len capacity then capacity * 2 else capacity)
  has_room len capacity two fits = elim (Bool-cases (full len capacity)) [
    | inl grown ↦ rw grown (omega (arith, two, fits))
    | inr left ↦ rw left (grows.notices len capacity fits left)
  ]

  -- Everything is read, within the buffer, which ends up with more room than that.
  read_loop-all :
      (fuel capacity : ℕ) (buffer rest : Bytes)
      → 2 ≤ capacity
      → length buffer + spare ≤ capacity
      → length rest < fuel
      → (room : ℕ) × (length (buffer ++ rest) + spare < room)
        × (read_loop spare full fuel capacity buffer rest ≡ some (room, buffer ++ rest))
  unfolding read_loop
  read_loop-all zero capacity buffer rest two fits fuel = absurd (omega arith)
  read_loop-all (suc fuel) capacity buffer rest two fits enough =
      let room = if full (length buffer) capacity then capacity * 2 else capacity in
      let n = room - length buffer - spare in
      let has : length buffer + spare < room = has_room (length buffer) capacity two fits in
      let fit : leb (length buffer + spare) room ≡ true = ground (arith, has) in
      elim (Bool-cases (length (take n rest) == 0)) [
        | inl ended ↦
            let end = nothing_left rest (empty_read n rest (omega (arith, has)) ended) in
            let same : buffer ++ rest ≡ buffer = rw end (append-nil buffer) in
            (room, rw same has, rw (fit, ended, same) refl)
        | inr more ↦
            let (last, bound, done) =
              read_loop-all fuel room (buffer ++ take n rest) (drop n rest)
                (room-two (full (length buffer) capacity) capacity two)
                (read-fits room spare buffer rest has) (read-shorter n fuel rest more enough) in
            let joined : (buffer ++ take n rest) ++ drop n rest ≡ buffer ++ rest =
              append_assoc buffer (take n rest) (drop n rest)
              ∙ ap (λ t. buffer ++ t) (take-append-drop n rest) in
            (last, rw joined at bound, rw (fit, more) (rw joined at done))
      ]

-- However much a command prints, reading it ends, stays within the buffer and gives all of it, and for
-- the file dialogs leaves a byte for the NUL, so that they get what stands before the first NUL.
pub output-whole :
    (output : Bytes)
    → (dialog_output output ≡ some (c_str output)) × (clipboard_output output ≡ some output)
unfolding dialog_output clipboard_output
output-whole output =
    let (room, bound, done) =
      read_loop-all 1 full_but_one dialog-Grows (length output + 1) 4096 [] output (omega arith)
        (omega arith) (omega arith) in
    let (room', bound', done') =
      read_loop-all 0 (λ len capacity. len == capacity) clipboard-Grows (length output + 1) 4096 []
        output (omega arith) (omega arith) (omega arith) in
    let behind : ltb (length output) room ≡ true = ground (arith, bound) in
    (rw (done, behind) refl, rw done' refl)
