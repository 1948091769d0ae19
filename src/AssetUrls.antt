-- ===== src/AssetUrls.antt =====
-- runtime/windows/windows_backend.c: the URLs of the application's assets, which the web view of Windows
-- knows as pages of a host, and back. The conversions between UTF-8 and wide characters are parameters;
-- malloc and calloc are taken to succeed.
pub mod RoundTrip
use lepusa.Base.{
  ℕ, zero, suc, ◌+◌, ◌*◌, ◌/◌, Bool, true, false, not, ◌&&◌, ◌||◌, [], ◌∷◌, ◌++◌, Option, none,
  some, ltb, leb, ◌==◌, if◌then◌else◌, length, drop, Bytes, codes,
}
use lepusa.CString.{c_str}

-- `strncmp(s, t, n) == 0`
unfoldable pub strncmp_eq : ℕ → Bytes → Bytes → Bool
strncmp_eq zero s t = true
strncmp_eq (suc n) [] [] = true
strncmp_eq (suc n) [] (d ∷ t) = false
strncmp_eq (suc n) (c ∷ s) [] = false
strncmp_eq (suc n) (c ∷ s) (d ∷ t) = c == d && strncmp_eq n s t

-- What Windows does with texts.
pub record Conversions : Type 0 where
  -- `MultiByteToWideChar` of bytes that are taken to be UTF-8.
  pub wide_of : Bytes → Bytes
  -- `WideCharToMultiByte` of wide characters up to the first NUL, none if it fails.
  pub utf8_of : Bytes → Option Bytes

abbrev starts_slash : Bytes → Bool
starts_slash [] = false
starts_slash (c ∷ s) = c == b'/'

abbrev pub with_slash : Bytes → Bytes
with_slash rest = if starts_slash rest then rest else b'/' ∷ rest

abbrev pub without_slash : Bytes → Bytes
without_slash [] = []
without_slash (c ∷ s) = if c == b'/' then s else c ∷ s

abbrev at_path : Bytes → Bool
at_path [] = true
at_path (c ∷ s) = c == b'/'

-- What follows the host in a URL with that prefix.
unfoldable pub path_behind : Bytes → Bytes → Bytes → Option Bytes
unfolding strncmp_eq
path_behind prefix protocol url =
    let domain_end = length prefix + length protocol + 10 in
    let behind_prefix = drop (length prefix) url in
    let behind_protocol = drop (length protocol) behind_prefix in
    let path = drop 10 behind_protocol in
    if leb domain_end (length url)
      && strncmp_eq (length prefix) url prefix
      && strncmp_eq (length protocol) behind_prefix protocol
      && strncmp_eq 10 behind_protocol (codes ".localhost")
      && at_path path
    then some (without_slash path)
    else none

abbrev first_of {ℓ} : {A : Type ℓ} → Option A → Option A → Option A
first_of none o = o
first_of (some a) o = some a

abbrev resolved : Bytes → Bytes → Option Bytes → Bytes
resolved url protocol none = url
resolved url protocol (some rest) = protocol ++ (codes "://" ++ rest)

-- `protocol` is a C string, none for NULL.
unfoldable pub resolver_url_from_webview_url : Option Bytes → Option Bytes → Option Bytes
unfolding path_behind c_str
resolver_url_from_webview_url none protocol = none
resolver_url_from_webview_url (some url) none = some url
resolver_url_from_webview_url (some url) (some protocol) =
    if length protocol == 0
    then some url
    else some (
        resolved url protocol (
          first_of (path_behind (codes "https://") protocol (c_str url))
            (path_behind (codes "http://") protocol (c_str url))))

module _ (conversions : Conversions) where
  open conversions use {wide_of, utf8_of}

  -- What a buffer of wide characters holds before the NUL behind them, none if it is not made.
  unfoldable pub wstr_from_bytes : Bytes → Option Bytes
  wstr_from_bytes bytes = let wide = wide_of bytes in if length wide == 0 then none else some wide

  unfoldable pub wstr_from_range : Bytes → Option Bytes
  unfolding wstr_from_bytes
  wstr_from_range [] = some []
  wstr_from_range (c ∷ value) = wstr_from_bytes (c ∷ value)

  unfoldable pub bytes_from_wstr : Option Bytes → Option Bytes
  unfolding c_str
  bytes_from_wstr none = none
  bytes_from_wstr (some text) = utf8_of (c_str text)

  unfoldable pub asset_filter_from_protocol : Option Bytes → Option Bytes
  unfolding wstr_from_range c_str
  asset_filter_from_protocol none = none
  asset_filter_from_protocol (some asset_protocol) =
      if length (c_str asset_protocol) == 0
      then none
      else wstr_from_range (codes "https://" ++ (c_str asset_protocol ++ codes ".localhost/*"))

  -- A URL of the protocol becomes one of the host `protocol.localhost`; another one stays.
  unfoldable pub webview_url_from_asset_url : Option Bytes → Option Bytes → Option Bytes
  unfolding wstr_from_bytes wstr_from_range strncmp_eq c_str
  webview_url_from_asset_url none asset_protocol = none
  webview_url_from_asset_url (some url) none = wstr_from_bytes url
  webview_url_from_asset_url (some url) (some asset_protocol) =
      let url_text = c_str url in
      let protocol = c_str asset_protocol in
      let protocol_len = length asset_protocol in
      let scheme_len = protocol_len + 3 in
      if length protocol == 0
      then wstr_from_bytes url
      else if ltb (length url_text) scheme_len
          || not (strncmp_eq protocol_len url_text protocol)
          || not (strncmp_eq 3 (drop protocol_len url_text) (codes "://"))
      then wstr_from_bytes url
      else wstr_from_range (
          codes "https://"
          ++ (protocol ++ (codes ".localhost" ++ with_slash (drop 3 (drop protocol_len url_text)))))
