-- ===== src/AssetUrls/RoundTrip.antt =====
-- runtime/windows/windows_backend.c: an asset URL that goes to the web view of Windows and comes back.
use lepusa.AssetUrls.{
  Conversions, strncmp_eq, wstr_from_bytes, wstr_from_range, bytes_from_wstr, with_slash,
  without_slash, path_behind, first_of, resolved, webview_url_from_asset_url,
  resolver_url_from_webview_url,
}
use lepusa.Base.{
  ℕ, ◌+◌, ◌<◌, true, false, [], ◌∷◌, ◌++◌, ◌≡◌, ◌≢◌, inl, inr, refl, sym, ap, ◌∙◌, some, append-nil,
  arith, ltb, leb, ◌==◌, ==_iff, ==-refl, Bool-cases, length, length-append, drop-append, All,
  All-append, Bytes, codes,
}
use lepusa.CString.{c_str}
use lepusa.CString.Laws.{c_str-no_nul}
use lepusa.Utf8.{IsUtf8, ascii, append-IsUtf8, ascii-IsUtf8, behind_ascii}

strncmp_eq-append : (p s t : Bytes) → strncmp_eq (length p) (p ++ s) (p ++ t) ≡ true
unfolding strncmp_eq
strncmp_eq-append [] s t = refl
strncmp_eq-append (c ∷ p) s t = rw (==-refl c) (strncmp_eq-append p s t)

-- The whole of a text that a length reaches.
strncmp_eq-whole : (p s : Bytes) → strncmp_eq (length p) (p ++ s) p ≡ true
strncmp_eq-whole p s =
    rw (sym (ap (strncmp_eq (length p) (p ++ s)) (append-nil p))) (strncmp_eq-append p s [])

slash_back : (rest : Bytes) → with_slash rest ≡ b'/' ∷ without_slash rest
slash_back [] = refl
slash_back (c ∷ rest) = elim (Bool-cases (c == b'/')) [
  | inl slash ↦ let same = (==_iff c b'/').0 slash in rw same refl
  | inr other ↦ rw other refl
]

abbrev host_url : Bytes → Bytes → Bytes
host_url protocol path = codes "https://" ++ (protocol ++ (codes ".localhost" ++ (b'/' ∷ path)))

abbrev NoNul : Bytes → Type 0
NoNul = All (λ c. c ≢ 0)

c_str-append : (p s : Bytes) → NoNul p → c_str (p ++ s) ≡ p ++ c_str s
unfolding c_str
c_str-append [] s h = refl
c_str-append (c ∷ p) s (live, h) =
    let other : (c == 0) ≡ false = ground (arith, live) in rw (other, c_str-append p s h) refl

c_str_url :
    (protocol rest : Bytes)
    → NoNul protocol
    → NoNul rest
    → c_str (protocol ++ (codes "://" ++ rest)) ≡ protocol ++ (codes "://" ++ rest)
unfolding c_str
c_str_url protocol rest clean clean' =
    rw (c_str-append protocol (codes "://" ++ rest) clean, c_str-no_nul rest clean') refl

c_str-host_url :
    (protocol path : Bytes)
    → NoNul protocol
    → NoNul path
    → c_str (host_url protocol path) ≡ host_url protocol path
unfolding c_str
c_str-host_url protocol path clean clean' =
    rw (c_str-append protocol (codes ".localhost" ++ (b'/' ∷ path)) clean, c_str-no_nul path clean')
      refl

without_slash-NoNul : (rest : Bytes) → NoNul rest → NoNul (without_slash rest)
without_slash-NoNul [] h = tt
without_slash-NoNul (c ∷ rest) (live, h) = elim (Bool-cases (c == b'/')) [
  | inl slash ↦ rw slash h
  | inr other ↦ rw other (live, h)
]

webview_url-host_url :
    (conversions : Conversions) (protocol rest : Bytes)
    → (length protocol == 0) ≡ false
    → NoNul protocol
    → NoNul rest
    → webview_url_from_asset_url conversions
        (some (protocol ++ (codes "://" ++ rest)))
        (some protocol)
      ≡ wstr_from_range conversions (host_url protocol (without_slash rest))
unfolding webview_url_from_asset_url
webview_url-host_url conversions protocol rest named clean clean' =
    let url = protocol ++ (codes "://" ++ rest) in
    let long : ltb (length url) (length protocol + 3) ≡ false =
      (let measured = length-append protocol (codes "://" ++ rest) in ground (arith, measured)) in
    rw (c_str-no_nul protocol clean, c_str_url protocol rest clean clean') rw
      (
        named,
        long,
        strncmp_eq-whole protocol (codes "://" ++ rest),
        drop-append protocol (codes "://" ++ rest),
      )
      (ap
        (λ path.
          wstr_from_range conversions
            (codes "https://" ++ (protocol ++ (codes ".localhost" ++ path))))
        (slash_back rest))

path_behind-host_url :
    (protocol path : Bytes)
    → path_behind (codes "https://") protocol (host_url protocol path) ≡ some path
unfolding path_behind
path_behind-host_url protocol path =
    let behind = codes ".localhost" ++ (b'/' ∷ path) in
    let measured = length-append protocol behind in
    let long : leb (8 + length protocol + 10) (length (host_url protocol path)) ≡ true =
      ground (arith, measured) in
    rw (long, drop-append protocol behind, strncmp_eq-whole protocol behind) refl

-- What Windows promises: well-formed UTF-8 without NUL is turned into wide characters, some for a text
-- that is not empty, and comes back from them.
pub record Converts (conversions : Conversions) : Type 0 where
  pub filled :
      (text : Bytes) → IsUtf8 text → 0 < length text → 0 < length (conversions.wide_of text)
  pub back :
      (text : Bytes)
      → IsUtf8 text
      → All (λ c. c ≢ 0) text
      → conversions.utf8_of (c_str (conversions.wide_of text)) ≡ some text

bytes_from_wstr-wstr_from_range :
    (conversions : Conversions) (c : ℕ) (text : Bytes)
    → Converts conversions
    → IsUtf8 (c ∷ text)
    → NoNul (c ∷ text)
    → bytes_from_wstr conversions (wstr_from_range conversions (c ∷ text)) ≡ some (c ∷ text)
unfolding bytes_from_wstr wstr_from_range wstr_from_bytes
bytes_from_wstr-wstr_from_range conversions c text converts valid clean =
    let filled = converts.filled (c ∷ text) valid (omega arith) in
    let there : (length (conversions.wide_of (c ∷ text)) == 0) ≡ false = ground (arith, filled) in
    rw there (converts.back (c ∷ text) valid clean)

without_slash-IsUtf8 : (rest : Bytes) → IsUtf8 rest → IsUtf8 (without_slash rest)
without_slash-IsUtf8 [] h = h
without_slash-IsUtf8 (c ∷ rest) h = elim (Bool-cases (c == b'/')) [
  | inl slash ↦
      let same = (==_iff c b'/').0 slash in
      rw slash (behind_ascii (c ∷ rest) c rest h refl (omega (arith, same)))
  | inr other ↦ rw other h
]

host_url-IsUtf8 :
    (protocol path : Bytes) → IsUtf8 protocol → IsUtf8 path → IsUtf8 (host_url protocol path)
host_url-IsUtf8 protocol path hp h = append-IsUtf8 (ascii-IsUtf8 (codes "https://") (omega arith)) (
    append-IsUtf8 hp (
      append-IsUtf8 (ascii-IsUtf8 (codes ".localhost") (omega arith)) (ascii b'/' (omega arith) h)))

host_url-NoNul :
    (protocol path : Bytes) → NoNul protocol → NoNul path → NoNul (host_url protocol path)
host_url-NoNul protocol path hp h =
    All-append (λ c. c ≢ 0) (codes "https://") (protocol ++ (codes ".localhost" ++ (b'/' ∷ path)))
      (omega arith)
      (All-append (λ c. c ≢ 0) protocol (codes ".localhost" ++ (b'/' ∷ path)) hp
        (All-append (λ c. c ≢ 0) (codes ".localhost") (b'/' ∷ path) (omega arith) (omega arith, h)))

-- A URL of the application's protocol that is given to the web view, and that the web view asks for, is
-- asked of the application again as it was, except that a slash behind `://` is dropped: for a protocol
-- and a rest that are well-formed UTF-8 without NUL, the protocol not empty, and conversions of Windows
-- that give such texts back.
pub resolver_url-webview_url :
    (conversions : Conversions) (protocol rest : Bytes)
    → Converts conversions
    → (length protocol == 0) ≡ false
    → IsUtf8 protocol
    → IsUtf8 rest
    → All (λ c. c ≢ 0) protocol
    → All (λ c. c ≢ 0) rest
    → let shown =
        webview_url_from_asset_url conversions
          (some (protocol ++ (codes "://" ++ rest)))
          (some protocol) in
      resolver_url_from_webview_url (bytes_from_wstr conversions shown) (some protocol)
      ≡ some (protocol ++ (codes "://" ++ without_slash rest))
unfolding resolver_url_from_webview_url
resolver_url-webview_url conversions protocol rest converts named valid valid' clean clean' =
    let shown = webview_url-host_url conversions protocol rest named clean clean' in
    let path = without_slash rest in
    let url = host_url protocol path in
    let asked : bytes_from_wstr conversions (wstr_from_range conversions url) ≡ some url =
      bytes_from_wstr-wstr_from_range conversions b'h' _ converts
        (host_url-IsUtf8 protocol path valid (without_slash-IsUtf8 rest valid'))
        (host_url-NoNul protocol path clean (without_slash-NoNul rest clean')) in
    let whole = c_str-host_url protocol path clean (without_slash-NoNul rest clean') in
    let found : path_behind (codes "https://") protocol (c_str url) ≡ some path =
      ap (path_behind (codes "https://") protocol) whole ∙ path_behind-host_url protocol path in
    let other = path_behind (codes "http://") protocol (c_str url) in
    rw (shown, asked, named) (ap (λ o. some (resolved url protocol (first_of o other))) found)
