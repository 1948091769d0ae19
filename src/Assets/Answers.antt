-- ===== src/Assets/Answers.antt =====
-- runtime/linux/linux_backend.c: uri_scheme_request on the packets that the program writes.
use lepusa.CString.{strcmp_eq}
use lepusa.Assets.{
  Answer, packet_answer, finish_uri_bytes, failed, asset_of_kind, file_answer, asset_status,
  asset_lines, asset_body,
}
use lepusa.Base.{
  suc, ◌<◌, false, [], ◌∷◌, ◌++◌, ◌≡◌, ◌≢◌, inl, inr, refl, ap, ◌∙◌, Option, none, some, arith,
  ◌==◌, Bool-cases, length, All, All-append, Bytes, codes,
}
use lepusa.CString.Laws.{c_str-no_nul, strcmp_eq_iff}
use lepusa.Packet.Field.{find_newline_range_found}
use lepusa.Packet.Script.{next_packet_line}

-- The packet of an asset.
abbrev pub asset_packet : Bytes → Bytes → Bytes → Bytes
asset_packet kind mime_type body =
    codes "ok" ++ (b'\n' ∷ (kind ++ (b'\n' ∷ (mime_type ++ (b'\n' ∷ body)))))

abbrev pub NoNul : Bytes → Type 0
NoNul s = All (λ c. c ≢ 0) s

-- A line of a packet.
pub record IsLine (s : Bytes) : Type 0 where
  pub no_nul : NoNul s
  pub no_newline : All (λ c. c ≢ b'\n') s

next_packet_line-found :
    (line rest : Bytes)
    → All (λ c. c ≢ b'\n') line
    → next_packet_line (some (line ++ (b'\n' ∷ rest))) ≡ (some line, some rest)
unfolding next_packet_line
next_packet_line-found line rest h =
    rw (next_packet_line, find_newline_range_found line rest h) refl

asset_packet-NoNul :
    (kind mime_type body : Bytes)
    → NoNul kind
    → NoNul mime_type
    → NoNul body
    → NoNul (asset_packet kind mime_type body)
asset_packet-NoNul kind mime_type body hk hm hb =
    let behind = All-append (λ c. c ≢ 0) mime_type (b'\n' ∷ body) hm (omega arith, hb) in
    let lines =
      All-append (λ c. c ≢ 0) kind (b'\n' ∷ (mime_type ++ (b'\n' ∷ body))) hk
        (omega arith, behind) in
    (omega arith, (omega arith, (omega arith, lines)))

module _ (read_file : Bytes → Option Bytes) where
  packet_answer-kind :
      (kind mime_type body : Bytes)
      → IsLine kind
      → IsLine mime_type
      → NoNul body
      → packet_answer read_file (some (asset_packet kind mime_type body))
        ≡ asset_of_kind read_file kind mime_type body
  unfolding packet_answer asset_status asset_lines asset_body strcmp_eq
  packet_answer-kind kind mime_type body hk hm hb =
      let behind = kind ++ (b'\n' ∷ (mime_type ++ (b'\n' ∷ body))) in
      let whole =
        c_str-no_nul (asset_packet kind mime_type body)
          (asset_packet-NoNul kind mime_type body hk.no_nul hm.no_nul hb) in
      let status = next_packet_line-found (codes "ok") behind (omega arith, (omega arith, tt)) in
      let first = next_packet_line-found kind (mime_type ++ (b'\n' ∷ body)) hk.no_newline in
      let second = next_packet_line-found mime_type body hm.no_newline in
      ap (λ (t : Bytes). asset_status read_file (next_packet_line (some t))) whole
      ∙ ap (asset_status read_file) status
      ∙ ap (asset_lines read_file) first
      ∙ ap (asset_body read_file kind) second

-- What is served: the content with its type, which is that of bytes if none is given.
pub data Serves (mime_type content : Bytes) : Answer → Type 0 where
  typed :
      0 < length mime_type
      → Serves mime_type content (record { mime_type = mime_type; content = content })
  untyped :
      mime_type ≡ []
      → Serves mime_type content
          (record { mime_type = codes "application/octet-stream"; content = content })

abbrev pub Message : Bytes → Answer → Type 0
Message text answer = answer ≡ record { mime_type = codes "text/plain"; content = text }

finish_uri_bytes-Serves :
    (mime_type content : Bytes) → Serves mime_type content (finish_uri_bytes mime_type content)
unfolding finish_uri_bytes
finish_uri_bytes-Serves [] content = untyped refl
finish_uri_bytes-Serves (c ∷ s) content =
    let there : (suc (length s) == 0) ≡ false = ground arith in rw there (typed (omega arith))

file_answer-cases :
    (read_file : Bytes → Option Bytes) (mime_type : Bytes) (read : Option Bytes)
    → ((content : Bytes)
        → read ≡ some content
        → Serves mime_type content (file_answer read_file mime_type read))
      × (read ≡ none
          → Message (codes "asset file could not be read") (file_answer read_file mime_type read))
unfolding file_answer failed finish_uri_bytes
file_answer-cases read_file mime_type none = ((λ content e. absurd (cc)), (λ e. refl))
file_answer-cases read_file mime_type (some text) = (
  (λ content e.
      let same : text ≡ content = cc in rw same (finish_uri_bytes-Serves mime_type content)),
  (λ e. absurd (cc)),
)

-- An asset is answered as it is written down: a virtual one with the text behind the lines, a file with
-- the content of the file whose path stands there, both under the type that is given or, if that is
-- empty, application/octet-stream; a file that cannot be read and a kind that is neither with a message
-- in plain text. For a kind and a type without NUL and newline, and a text or a path without NUL, both
-- of any length and with newlines in it.
pub packet_answer-asset_packet :
    (read_file : Bytes → Option Bytes) (kind mime_type body : Bytes)
    → IsLine kind
    → IsLine mime_type
    → NoNul body
    → let answer = λ (k : Bytes). packet_answer read_file (some (asset_packet k mime_type body)) in
      Serves mime_type body (answer (codes "virtual"))
      × ((content : Bytes)
          → read_file body ≡ some content
          → Serves mime_type content (answer (codes "file")))
      × (read_file body ≡ none
          → Message (codes "asset file could not be read") (answer (codes "file")))
      × (kind ≢ codes "virtual"
          → kind ≢ codes "file"
          → Message (codes "unsupported asset packet kind") (answer kind))
unfolding asset_of_kind failed finish_uri_bytes
packet_answer-asset_packet read_file kind mime_type body hk hm hb = (
  rw (packet_answer-kind read_file (codes "virtual") mime_type body virtual_line hm hb)
      (finish_uri_bytes-Serves mime_type body),
  λ content there.
      rw (packet_answer-kind read_file (codes "file") mime_type body file_line hm hb)
        ((file_answer-cases read_file mime_type (read_file body)).0 content there),
  λ missing.
      rw (packet_answer-kind read_file (codes "file") mime_type body file_line hm hb)
        ((file_answer-cases read_file mime_type (read_file body)).1 missing),
  λ not_virtual not_file.
      packet_answer-kind read_file kind mime_type body hk hm hb ∙ other not_virtual not_file,
)
  where
    virtual_line : IsLine (codes "virtual")
    virtual_line = record { no_nul = ground arith; no_newline = ground arith }

    file_line : IsLine (codes "file")
    file_line = record { no_nul = ground arith; no_newline = ground arith }

    other :
        kind ≢ codes "virtual"
        → kind ≢ codes "file"
        → asset_of_kind read_file kind mime_type body
          ≡ failed (codes "unsupported asset packet kind")
    other nv nf = elim (Bool-cases (strcmp_eq kind (codes "virtual"))) [
      | inl v ↦ absurd (nv ((strcmp_eq_iff kind (codes "virtual")).0 v))
      | inr v ↦ elim (Bool-cases (strcmp_eq kind (codes "file"))) [
        | inl f ↦ absurd (nf ((strcmp_eq_iff kind (codes "file")).0 f))
        | inr f ↦ rw (v, f) refl
      ]
    ]
