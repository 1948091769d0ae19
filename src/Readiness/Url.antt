-- ===== src/Readiness/Url.antt =====
-- runtime/linux/linux_backend.c: parse_http_url with and without a port, and replies that are too
-- short.
use lepusa.Base.{
  ℕ, ◌+◌, ◌^◌, ◌≤◌, ◌<◌, true, false, [], ◌∷◌, ◌++◌, ◌≡◌, ◌≢◌, ◌⊎◌, refl, none, some, append-nil,
  arith, length, replicate, All, All-append, Bytes, codes,
}
use lepusa.Readiness.{
  split_at, PortLiteral, http_prefix, pointer_difference, raw_path, fits_buffer, parse_http_url,
  reply_is_ready,
}

split_at_found :
    (c : ℕ) (s rest : Bytes) → All (λ x. x ≢ c) s → split_at c (s ++ (c ∷ rest)) ≡ (s, c ∷ rest)
unfolding split_at
split_at_found c [] rest h = ground arith
split_at_found c (x ∷ s) rest h = ground (arith, split_at_found c s rest h.1)

split_at_absent : (c : ℕ) (s : Bytes) → All (λ x. x ≢ c) s → split_at c s ≡ (s, [])
unfolding split_at
split_at_absent c [] h = refl
split_at_absent c (x ∷ s) h = ground (arith, split_at_absent c s h.1)

-- Nothing, or a text that starts with a slash.
pub data IsPath : Bytes → Type 0 where
  nil : IsPath []
  slash : (s : Bytes) → IsPath (b'/' ∷ s)

split_at_path :
    (s path : Bytes) → IsPath path → All (λ x. x ≢ b'/') s → split_at b'/' (s ++ path) ≡ (s, path)
split_at_path s path nil h = rw append-nil (split_at_absent b'/' s h)
split_at_path s path (slash p) h = split_at_found b'/' s p h

-- A part of the authority.
abbrev pub IsPart : Bytes → Type 0
IsPart = All (λ x. (x ≢ b'/') × (x ≢ b':'))

no_slash : (s : Bytes) → IsPart s → All (λ x. x ≢ b'/') s
no_slash [] h = tt
no_slash (c ∷ s) h = (h.0.0, no_slash s h.1)

no_colon : (s : Bytes) → IsPart s → All (λ x. x ≢ b':') s
no_colon [] h = tt
no_colon (c ∷ s) h = (h.0.1, no_colon s h.1)

-- Addresses that are not within sixteen bytes differ by sixteen at least, as a `size_t`.
difference_large :
    (a b : ℕ)
    → a < 2 ^ 63
    → b < 2 ^ 63
    → (a ≤ b) ⊎ (b + 16 ≤ a)
    → (pointer_difference a b ≡ 0) ⊎ (16 ≤ pointer_difference a b)
difference_large a b ha hb h = omega arith

-- How a path is asked for: one that is not there as `/`, and another as it is.
pub data AskedAs : Bytes → Bytes → Type 0 where
  root : AskedAs [] (b'/' ∷ [])
  whole : (s : Bytes) → AskedAs (b'/' ∷ s) (b'/' ∷ s)

AskedAs-IsPath : {path asked : Bytes} → AskedAs path asked → IsPath path × (raw_path path ≡ asked)
unfolding raw_path
AskedAs-IsPath root = (nil, refl)
AskedAs-IsPath (whole s) = (slash s, refl)

AskedAs-long : {path asked : Bytes} → AskedAs path asked → 0 < length asked
AskedAs-long root = omega arith
AskedAs-long (whole s) = omega arith

fits_buffer-true : (len size : ℕ) → 0 < len → len < size → fits_buffer len size ≡ true
unfolding fits_buffer
fits_buffer-true len size some_text fits = ground arith

module _ (literal : PortLiteral) (url_at : ℕ) (host path : Bytes) where
  -- A URL with a port is taken apart exactly, with an empty path read as `/`: for a host and a port
  -- that are not empty and hold no slash and no colon, a path that is empty or starts with a slash,
  -- and at most 255 bytes of the host, 15 of the port and 511 of the path.
  pub parse_http_url_complete :
      (port asked : Bytes)
      → IsPart host
      → IsPart port
      → AskedAs path asked
      → 0 < length host
      → length host < 256
      → 0 < length port
      → length port < 16
      → length asked < 512
      → parse_http_url literal url_at (http_prefix ++ ((host ++ (b':' ∷ port)) ++ path))
        ≡ some (record { host = host; port = port; path = asked })
  parse_http_url_complete port asked hh hp p host_there host_short port_there port_short short =
      let authority = host ++ (b':' ∷ port) in
      let (is_path, read) = AskedAs-IsPath p in
      let at_slash =
        split_at_path authority path is_path
          (All-append _ host _ (no_slash host hh) ((omega arith), no_slash port hp)) in
      let at_colon = split_at_found b':' host port (no_colon host hh) in
      let fh = fits_buffer-true (length host) 256 host_there host_short in
      let fp = fits_buffer-true (length port) 16 port_there port_short in
      let fpath = fits_buffer-true (length asked) 512 (AskedAs-long p) short in
      unfold parse_http_url in rw (at_slash, at_colon, read) (ground (arith, fh, fp, fpath))

  -- Without a port the length is a difference of unrelated addresses: the URL is refused, unless the
  -- literal lies at most fifteen bytes below the end of the authority.
  pub parse_http_url_no_port :
      IsPart host
      → IsPath path
      → url_at + 7 + length host < 2 ^ 63
      → literal.address < 2 ^ 63
      → (url_at + 7 + length host ≤ literal.address)
        ⊎ (literal.address + 16 ≤ url_at + 7 + length host)
      → parse_http_url literal url_at (http_prefix ++ (host ++ path)) ≡ none
  parse_http_url_no_port hh p fits fits' apart =
      let at_slash = split_at_path host path p (no_slash host hh) in
      let at_colon = split_at_absent b':' host (no_colon host hh) in
      let large = difference_large (url_at + 7 + length host) literal.address fits fits' apart in
      unfold parse_http_url in rw (at_slash, at_colon) (ground (arith, large))

-- A reply of five to eight bytes that starts with `HTTP/` is judged by a byte that `recv` never wrote:
-- for every such reply there are contents of the stack for which it counts as ready and others for
-- which it does not.
pub reply_is_ready_stale :
    (rest : Bytes)
    → length rest ≤ 3
    → (reply_is_ready (codes "HTTP/" ++ rest) (replicate 64 b'2') ≡ true)
      × (reply_is_ready (codes "HTTP/" ++ rest) (replicate 64 b'0') ≡ false)
unfolding reply_is_ready
reply_is_ready_stale [] h = (refl, refl)
reply_is_ready_stale (a ∷ []) h = (refl, refl)
reply_is_ready_stale (a ∷ b ∷ []) h = (refl, refl)
reply_is_ready_stale (a ∷ b ∷ c ∷ []) h = (refl, refl)
reply_is_ready_stale (a ∷ b ∷ c ∷ d ∷ rest) h = absurd (omega arith)
