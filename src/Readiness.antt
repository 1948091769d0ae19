-- ===== src/Readiness.antt =====
-- runtime/linux/linux_backend.c: waiting until a service answers over HTTP. The network, the clock
-- and the addresses that the compiler and `malloc` chose are parameters.
pub mod Url
pub mod Wait
use lepusa.Base.{
  ℕ, zero, suc, ◌+◌, ◌-◌, ◌/◌, ◌%◌, ◌^◌, Bool, false, not, ◌&&◌, ◌||◌, [], ◌∷◌, ◌++◌, Option, none,
  some, ltb, leb, ◌==◌, if◌then◌else◌, length, get_elem?, take, drop, Bytes, codes, ℤ, pos, negsuc,
}
use lepusa.CString.{c_str, mem_eq}

-- The text before the first `c`, as `strchr` finds it, and the text from it on.
unfoldable pub split_at : ℕ → Bytes → Bytes × Bytes
split_at c [] = ([], [])
split_at c (x ∷ s) = let rest = split_at c s in if x == c then ([], x ∷ s) else (x ∷ rest.0, rest.1)

-- The string literal "80": its address, and the bytes of memory from there on.
pub record PortLiteral : Type 0 where
  pub address : ℕ
  pub memory : Bytes

pub record HttpUrl : Type 0 where
  pub host : Bytes
  pub port : Bytes
  pub path : Bytes

abbrev pub http_prefix : Bytes
http_prefix = codes "http://"

-- `(size_t)(a - b)` of two addresses.
abbrev pub pointer_difference : ℕ → ℕ → ℕ
pointer_difference a b = (a + 2 ^ 64 - b) % 2 ^ 64

-- `raw_port` and `raw_port_len`, as the bytes that `memcpy` would read and their number: behind a
-- colon the rest of the authority, else what stands from the literal up to `authority_end`.
unfoldable pub raw_port : PortLiteral → ℕ → Bytes → ℕ × Bytes
raw_port literal authority_end [] =
    let n = pointer_difference authority_end literal.address in (n, take n literal.memory)
raw_port literal authority_end (colon ∷ port) = (length port, port)

unfoldable pub raw_path : Bytes → Bytes
raw_path [] = codes "/"
raw_path (slash ∷ path) = slash ∷ path

-- `0 < len < size`: a part that is not empty and fits its buffer with a NUL.
unfoldable pub fits_buffer : ℕ → ℕ → Bool
fits_buffer len size = not (len == 0 || leb size len)

-- `parse_http_url` with the buffers of `wait_until_ready`: 256, 16 and 512 bytes. `url_at` is the
-- address of the text.
unfoldable pub parse_http_url : PortLiteral → ℕ → Bytes → Option HttpUrl
unfolding split_at raw_port raw_path fits_buffer mem_eq
parse_http_url literal url_at url =
    let (authority, slash) = split_at b'/' (drop 7 url) in
    let (host, colon) = split_at b':' authority in
    let port = raw_port literal (url_at + 7 + length authority) colon in
    let path = raw_path slash in
    if not (mem_eq 7 url http_prefix)
    then none
    else if not (fits_buffer (length host) 256)
    then none
    else if not (fits_buffer port.0 16)
    then none
    else if not (fits_buffer (length path) 512)
    then none
    else some (record { host = host; port = port.1; path = path })

-- `response[9] >= '2' && response[9] <= '3'`
is_success : Option ℕ → Bool
is_success none = false
is_success (some d) = leb b'2' d && leb d b'3'

-- What `try_http_ready` makes of a reply of `recv`: the buffer of 64 bytes held `stale` before it.
unfoldable pub reply_is_ready : Bytes → Bytes → Bool
unfolding mem_eq is_success
reply_is_ready [] stale = false
reply_is_ready (c ∷ reply) stale =
    let response = (c ∷ reply) ++ (0 ∷ drop (length (c ∷ reply) + 1) stale) in
    mem_eq 5 response (codes "HTTP/") && is_success (get_elem? response 9)

-- The `do … while` loop from round `i` on: `ready i` is whether the probe of that round succeeds,
-- `clock i` what the clock says after it and the pause. `none` means that the fuel ran out.
unfoldable pub wait_from : (ℕ → Bool) → (ℕ → ℕ) → ℕ → ℕ → ℕ → Option ℕ
wait_from ready clock deadline zero i = none
wait_from ready clock deadline (suc fuel) i =
    let rest = wait_from ready clock deadline fuel (i + 1) in
    if ready i then some 0 else if ltb (clock i) deadline then rest else some 1

-- `timeout_ms <= 0 ? 1 : timeout_ms`
unfoldable pub wait_ms : ℤ → ℕ
wait_ms (pos zero) = 1
wait_ms (pos (suc n)) = suc n
wait_ms (negsuc n) = 1

-- `wait_until_ready`: `start` is the clock at the call; a URL that is NULL is `none`. A timeout that
-- is not positive is taken as a millisecond.
unfoldable pub wait_until_ready :
    PortLiteral → ℕ → (HttpUrl → ℕ → Bool) → (ℕ → ℕ) → ℕ → ℕ → Option Bytes → ℤ → Option ℕ
unfolding parse_http_url wait_from wait_ms c_str
wait_until_ready literal url_at ready clock start fuel none timeout_ms = some 2
wait_until_ready literal url_at ready clock start fuel (some url) timeout_ms =
    elim (parse_http_url literal url_at (c_str url)) [
      | none ↦ some 2
      | some u ↦ wait_from (ready u) clock (start + wait_ms timeout_ms) fuel 0
    ]
