-- ===== src/Assets.antt =====
-- runtime/linux/linux_backend.c: what a request for an asset is answered. The program behind the windows
-- answers a URI with the lines `ok`, a kind and a type, and the text of the asset or the path of its
-- file. `read_file` is the content of a file, none if it cannot be read; the stream that the toolkit
-- makes of an answer is taken to be made.
pub mod Answers
use lepusa.Base.{◌-◌, ◌/◌, not, [], Option, none, some, ◌==◌, if◌then◌else◌, length, Bytes, codes}
use lepusa.CString.{c_str, strcmp_eq}
use lepusa.Dispatch.{bytes_from_cstr}
use lepusa.Open.{App}
use lepusa.Packet.Script.{next_packet_line}
use lepusa.Session.{World}

pub record Answer : Type 0 where
  pub mime_type : Bytes
  pub content : Bytes

-- An answer without a type has one all the same.
unfoldable pub finish_uri_bytes : Bytes → Bytes → Answer
finish_uri_bytes mime_type content = record {
  mime_type = if length mime_type == 0 then codes "application/octet-stream" else mime_type;
  content = content;
}

abbrev or_empty : Option Bytes → Bytes
or_empty none = []
or_empty (some text) = text

unfoldable pub failed : Bytes → Answer
unfolding finish_uri_bytes
failed message = finish_uri_bytes (codes "text/plain") message

-- The message of an asset that is not `ok`.
unfoldable pub unresolved : Option Bytes → Answer
unfolding failed
unresolved none = failed (codes "asset resolution failed")
unresolved (some rest) = failed rest

module _ (read_file : Bytes → Option Bytes) where
  unfoldable pub file_answer : Bytes → Option Bytes → Answer
  unfolding finish_uri_bytes failed
  file_answer mime_type none = failed (codes "asset file could not be read")
  file_answer mime_type (some content) = finish_uri_bytes mime_type content

  unfoldable pub asset_of_kind : Bytes → Bytes → Bytes → Answer
  unfolding finish_uri_bytes failed file_answer strcmp_eq
  asset_of_kind kind mime_type body =
      if strcmp_eq kind (codes "virtual")
      then finish_uri_bytes mime_type body
      else if strcmp_eq kind (codes "file")
      then file_answer mime_type (read_file body)
      else failed (codes "unsupported asset packet kind")

  -- Behind the kind: the type, and where the body begins.
  unfoldable pub asset_body : Bytes → Option Bytes × Option Bytes → Answer
  unfolding asset_of_kind failed
  asset_body kind (none, cursor) = failed (codes "malformed asset packet")
  asset_body kind (some mime_type, cursor) = asset_of_kind kind mime_type (or_empty cursor)

  -- Behind the status: the kind.
  unfoldable pub asset_lines : Option Bytes × Option Bytes → Answer
  unfolding next_packet_line asset_body failed
  asset_lines (none, cursor) = failed (codes "malformed asset packet")
  asset_lines (some kind, cursor) = asset_body kind (next_packet_line cursor)

  unfoldable pub asset_status : Option Bytes × Option Bytes → Answer
  unfolding unresolved asset_lines next_packet_line strcmp_eq
  asset_status (none, cursor) = unresolved cursor
  asset_status (some status, cursor) =
      if strcmp_eq status (codes "ok")
      then asset_lines (next_packet_line cursor)
      else unresolved cursor

  -- The packet, none for NULL.
  unfoldable pub packet_answer : Option Bytes → Answer
  unfolding asset_status next_packet_line c_str
  packet_answer none = asset_status (next_packet_line none)
  packet_answer (some packet) = asset_status (next_packet_line (some (c_str packet)))

  unfoldable pub uri_scheme_request : App → World → Option Bytes → Option Answer
  unfolding packet_answer bytes_from_cstr
  uri_scheme_request app world uri = elim app.resolve_asset [
    | none ↦ none
    | some resolve ↦ some (packet_answer (resolve world (bytes_from_cstr uri)))
  ]
