-- ===== src/AutoLaunch/Lines/Bounds.antt =====
-- plugins/auto_launch/auto_launch_backend.c: the buffers of the command lines.
use native.Mathlib.Nat.{mul-add}
use lepusa.AutoLaunch.Lines.{
  shell_escape, shell_escape_all, shell_quote, write_part, write_parts, command_line,
  command_line_size, is_desktop_escaped, desktop_escape_all, desktop_quote, desktop_command_line,
  desktop_command_line_size, bare, windows_command, windows_command_size,
}
use lepusa.Base.{
  ℕ, suc, ◌+◌, ◌*◌, ◌≤◌, ◌<◌, [], ◌∷◌, ◌++◌, ◌≡◌, inl, inr, arith, ◌==◌, Bool-cases, length,
  length-append, Bytes,
}

shell_escape_all-length : (text : Bytes) → length (shell_escape_all text) ≤ 4 * length text + 1
unfolding shell_escape_all shell_escape
shell_escape_all-length [] = omega arith
shell_escape_all-length (c ∷ text) = elim (Bool-cases (c == b'\'')) [
  | inl e ↦ rw e (omega (arith, shell_escape_all-length text))
  | inr e ↦ rw e (omega (arith, shell_escape_all-length text))
]

desktop_escape_all-length : (text : Bytes) → length (desktop_escape_all text) ≤ 2 * length text + 1
unfolding desktop_escape_all
desktop_escape_all-length [] = omega arith
desktop_escape_all-length (c ∷ text) = elim (Bool-cases (is_desktop_escaped c)) [
  | inl e ↦ rw e (omega (arith, desktop_escape_all-length text))
  | inr e ↦ rw e (omega (arith, desktop_escape_all-length text))
]

-- A way of quoting that writes at most `k` bytes for each byte and `extra` more.
module _ (quote : Bytes → Bytes) (k extra : ℕ)
    (quoted : (s : Bytes) → length (quote s) ≤ k * length s + extra) (few : extra < k) where
  write_part-length : (part : Bytes) → length (write_part quote part) ≤ k * length part + extra + 1
  unfolding write_part
  write_part-length [] = omega arith
  write_part-length (c ∷ part) = omega (arith, quoted (c ∷ part))

  write_parts-length :
      (part s : Bytes)
      → length (write_parts quote part s) ≤ k * (length part + length s) + extra + 1
  unfolding write_parts
  write_parts-length part [] = omega (arith, write_part-length part, mul-add k (length part) 0)
  write_parts-length part (c ∷ s) =
      let first = write_part-length part in
      let rest = write_parts-length [] s in
      let more = write_parts-length (part ++ (c ∷ [])) s in
      let measured = length-append part (c ∷ []) in
      let split = length-append (write_part quote part) (write_parts quote [] s) in
      let all = mul-add k (length part) (length s + 1) in
      let one = mul-add k (length s) 1 in
      elim (Bool-cases (c == b'\n')) [
        | inl e ↦ rw e (omega (arith, first, rest, split, all, one, few))
        | inr e ↦ rw e (
            let same : length (part ++ (c ∷ [])) + length s ≡ length part + suc (length s) =
              omega (arith, measured) in
            rw same at more)
      ]

-- The command lines of a shell, of a desktop entry and of Windows fit the buffers that are allocated for
-- them, with the NUL behind them, for every executable and all arguments.
pub command_line_sizes :
    (executable arguments : Bytes)
    → (length (command_line executable arguments) < command_line_size executable arguments)
      × (length (desktop_command_line executable arguments)
          < desktop_command_line_size executable arguments)
      × (length (windows_command executable arguments) < windows_command_size executable arguments)
unfolding command_line desktop_command_line windows_command shell_quote desktop_quote
command_line_sizes executable arguments =
    let shell = shell_escape_all-length in
    let desktop = desktop_escape_all-length in
    let shell_parts =
      write_parts-length shell_quote 4 2 (λ (t : Bytes). omega (arith, shell t)) (omega arith) []
        arguments in
    let desktop_parts =
      write_parts-length desktop_quote 3 2 (λ (t : Bytes). omega (arith, desktop t)) (omega arith)
        [] arguments in
    let bare_parts =
      write_parts-length bare 1 0 (λ (t : Bytes). omega arith) (omega arith) [] arguments in
    (
      omega (
        arith,
        shell_parts,
        length-append (shell_escape_all executable) (write_parts shell_quote [] arguments),
      ),
      omega (
        arith,
        desktop_parts,
        length-append (desktop_escape_all executable) (write_parts desktop_quote [] arguments),
      ),
      omega (arith, bare_parts, length-append executable (b'"' ∷ write_parts bare [] arguments)),
    )
