-- ===== src/CommandLine/ReadBack.antt =====
-- runtime/windows/windows_backend.c: the size of a command line, and how Windows reads a quoted
-- argument.
use lepusa.Base.{
  ℕ, ◌+◌, ◌/◌, ◌%◌, true, false, List, [], ◌∷◌, ◌++◌, ◌≡◌, inl, inr, refl, ap, ◌∙◌, Option, none,
  some, append_assoc, arith, ◌==◌, if◌then◌else◌, Bool-cases, ◌>>=◌, length, replicate,
  length-append, Bytes,
}
use lepusa.CommandLine.{
  is_escaped, needs_quote, quoted_loop, quoted_len, escape_all, append_quoted, measure,
  command_line_size, command_line,
}

quoted_loop-escape_all : (len : ℕ) (s : Bytes) → quoted_loop len s ≡ len + length (escape_all s)
unfolding quoted_loop escape_all
quoted_loop-escape_all len [] = omega arith
quoted_loop-escape_all len (c ∷ s) = elim (Bool-cases (is_escaped c)) [
  | inl e ↦ rw e (quoted_loop-escape_all (len + 2) s ∙ omega arith)
  | inr e ↦ rw e (quoted_loop-escape_all (len + 1) s ∙ omega arith)
]

quoted_len-append_quoted : (s : Bytes) → quoted_len s ≡ length (append_quoted s)
unfolding quoted_len append_quoted
quoted_len-append_quoted s =
    ground (arith, quoted_loop-escape_all 2 s, length-append (escape_all s) (b'"' ∷ []))

measure-command_line :
    (len : ℕ) (argv : List Bytes) → measure len argv ≡ len + length (command_line argv)
unfolding measure command_line
measure-command_line len [] = omega arith
measure-command_line len (a ∷ []) = omega (arith, quoted_len-append_quoted a)
measure-command_line len (a ∷ b ∷ more) = omega (
  arith,
  measure-command_line (len + quoted_len a + 1) (b ∷ more),
  quoted_len-append_quoted a,
  length-append (append_quoted a) (b' ' ∷ command_line (b ∷ more)),
)

-- The text and its NUL fill the buffer that was measured for them, to the last byte.
pub command_line_size_lem :
    (argv : List Bytes) → command_line_size argv ≡ length (command_line argv) + 1
unfolding command_line_size
command_line_size_lem argv = omega (arith, measure-command_line 1 argv)

-- How Windows documents the reading of an argument after the program's name, behind its opening
-- quote, with `n` backslashes
-- just read: before a quote two of them stand for one, and an odd one makes the quote part of the
-- argument; before anything else they stand for themselves. Gives the argument, and what follows.
pub read_quoted : ℕ → Bytes → Option (Bytes × Bytes)
read_quoted n [] = none
read_quoted n (c ∷ s) =
    let more = read_quoted (n + 1) s in
    let quote =
      read_quoted 0 s >>= λ (a, rest). some (replicate (n / 2) b'\\' ++ (b'"' ∷ a), rest) in
    let other = read_quoted 0 s >>= λ (a, rest). some (replicate n b'\\' ++ (c ∷ a), rest) in
    if c == b'\\'
    then more
    else if c == b'"'
    then (if n % 2 == 0 then some (replicate (n / 2) b'\\', s) else quote)
    else other

-- The argument with the backslashes doubled that stand neither before a quote nor at its end, `k` of
-- them just before it.
unfoldable pub doubled : ℕ → Bytes → Bytes
doubled k [] = replicate k b'\\'
doubled k (c ∷ s) =
    if c == b'\\'
    then doubled (k + 1) s
    else if c == b'"'
    then replicate k b'\\' ++ (b'"' ∷ doubled 0 s)
    else replicate (k + k) b'\\' ++ (c ∷ doubled 0 s)

escape_all-escaped :
    (c : ℕ) (s : Bytes) → is_escaped c ≡ true → escape_all (c ∷ s) ≡ b'\\' ∷ c ∷ escape_all s
unfolding escape_all
escape_all-escaped c s e = rw e refl

escape_all-plain :
    (c : ℕ) (s : Bytes) → is_escaped c ≡ false → escape_all (c ∷ s) ≡ c ∷ escape_all s
unfolding escape_all
escape_all-plain c s e = rw e refl

-- An escaped quote behind an even number of backslashes is a quote of the argument.
read_quoted-quote :
    (k : ℕ) (s : Bytes) {a rest : Bytes}
    → read_quoted 0 s ≡ some (a, rest)
    → read_quoted (k + k) (b'\\' ∷ b'"' ∷ s) ≡ some (replicate k b'\\' ++ (b'"' ∷ a), rest)
unfolding read_quoted
read_quoted-quote k s h =
    let odd : ((k + k + 1) % 2 == 0) ≡ false = ground arith in
    let half : (k + k + 1) / 2 ≡ k = omega arith in rw (odd, half, h) refl

read_quoted-backslashes :
    (k : ℕ) (s : Bytes)
    → read_quoted (k + k) (b'\\' ∷ b'\\' ∷ s) ≡ read_quoted ((k + 1) + (k + 1)) s
unfolding read_quoted
read_quoted-backslashes k s =
    let two_more : k + k + 1 + 1 ≡ (k + 1) + (k + 1) = omega arith in
    ap (λ (n : ℕ). read_quoted n s) two_more

read_quoted-other :
    (n c : ℕ) (s : Bytes) {a rest : Bytes}
    → (c == b'\\') ≡ false
    → (c == b'"') ≡ false
    → read_quoted 0 s ≡ some (a, rest)
    → read_quoted n (c ∷ s) ≡ some (replicate n b'\\' ++ (c ∷ a), rest)
unfolding read_quoted
read_quoted-other n c s b q h = rw (b, q, h) refl

read_quoted-escape_all :
    (k : ℕ) (s rest : Bytes)
    → read_quoted (k + k) (escape_all s ++ (b'"' ∷ rest)) ≡ some (doubled k s, rest)
unfolding doubled is_escaped
read_quoted-escape_all k [] rest =
    let even : (k + k) % 2 ≡ 0 = omega arith in
    let half : (k + k) / 2 ≡ k = omega arith in
    unfold read_quoted escape_all in rw (even, half) refl
read_quoted-escape_all k (c ∷ s) rest = elim (Bool-cases (c == b'\\')) [
  | inl e ↦
      let same : c ≡ b'\\' = ground arith in
      rw (same, escape_all-escaped b'\\' s refl)
        (read_quoted-backslashes k (escape_all s ++ (b'"' ∷ rest))
          ∙ read_quoted-escape_all (k + 1) s rest)
  | inr b ↦ elim (Bool-cases (c == b'"')) [
    | inl e ↦
        let same : c ≡ b'"' = ground arith in
        rw (same, escape_all-escaped b'"' s refl)
          (read_quoted-quote k (escape_all s ++ (b'"' ∷ rest)) (read_quoted-escape_all 0 s rest))
    | inr q ↦
        let unescaped : is_escaped c ≡ false = ground arith in
        rw (escape_all-plain c s unescaped, b, q)
          (read_quoted-other (k + k) c (escape_all s ++ (b'"' ∷ rest)) b q
            (read_quoted-escape_all 0 s rest))
  ]
]

-- An argument after the program's name that is quoted reaches the program with those of its backslashes doubled that stand
-- neither before a quote nor at its end; what follows its closing quote is left for the next one.
pub append_quoted_read :
    (s rest : Bytes)
    → needs_quote s ≡ true
    → (inside : Bytes) × (append_quoted s ++ rest ≡ b'"' ∷ inside)
      × (read_quoted 0 inside ≡ some (doubled 0 s, rest))
unfolding append_quoted
append_quoted_read s rest h = (
  escape_all s ++ (b'"' ∷ rest),
  rw h (ap (◌∷◌ b'"') (append_assoc (escape_all s) (b'"' ∷ []) rest)),
  read_quoted-escape_all 0 s rest,
)
