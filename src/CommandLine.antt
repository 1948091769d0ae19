-- ===== src/CommandLine.antt =====
-- runtime/windows/windows_backend.c: the command line of a service, which Windows takes as one text.
-- The buffer is measured first and filled then. Arguments are C strings, free of NUL; the model of the
-- filling is the bytes that are written, in their order.
pub mod ReadBack
use lepusa.Base.{
  ℕ, ◌+◌, Bool, true, false, not, ◌||◌, List, [], ◌∷◌, ◌++◌, ◌==◌, if◌then◌else◌, length, Bytes,
}

-- `*p == '"' || *p == '\\'`
unfoldable pub is_escaped : ℕ → Bool
is_escaped c = c == b'"' || c == b'\\'

quote_loop : Bytes → Bool
quote_loop [] = false
quote_loop (c ∷ s) = c == b' ' || c == b'\t' || c == b'"' || c == b'\\' || quote_loop s

unfoldable pub needs_quote : Bytes → Bool
unfolding quote_loop
needs_quote [] = true
needs_quote (c ∷ s) = quote_loop (c ∷ s)

quoted_loop : ℕ → Bytes → ℕ
unfolding is_escaped
quoted_loop len [] = len
quoted_loop len (c ∷ s) = quoted_loop (len + (if is_escaped c then 2 else 1)) s

unfoldable pub quoted_len : Bytes → ℕ
unfolding needs_quote quoted_loop
quoted_len text = if not (needs_quote text) then length text else quoted_loop 2 text

-- The loop of `append_quoted` between the quotes.
unfoldable pub escape_all : Bytes → Bytes
unfolding is_escaped
escape_all [] = []
escape_all (c ∷ s) = (if is_escaped c then b'\\' ∷ c ∷ [] else c ∷ []) ++ escape_all s

unfoldable pub append_quoted : Bytes → Bytes
unfolding needs_quote escape_all
append_quoted text =
    if not (needs_quote text) then text else b'"' ∷ (escape_all text ++ (b'"' ∷ []))

-- The first loop of `command_line`: the bytes that are allocated, `len` counted before.
measure : ℕ → List Bytes → ℕ
unfolding quoted_len
measure len [] = len
measure len (a ∷ []) = len + quoted_len a
measure len (a ∷ b ∷ more) = measure (len + quoted_len a + 1) (b ∷ more)

unfoldable pub command_line_size : List Bytes → ℕ
unfolding measure
command_line_size argv = measure 1 argv

-- The second loop; a NUL is written behind the text.
unfoldable pub command_line : List Bytes → Bytes
unfolding append_quoted
command_line [] = []
command_line (a ∷ []) = append_quoted a
command_line (a ∷ b ∷ more) = append_quoted a ++ (b' ' ∷ command_line (b ∷ more))
