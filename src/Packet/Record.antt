-- ===== src/Packet/Record.antt =====
-- runtime/linux/linux_backend.c: read_native_operation_record against the encoding of a record,
-- fourteen fields in a row.
use lepusa.Base.{
  ℕ, zero, suc, List, [], ◌∷◌, ◌++◌, ◌≡◌, ◌↔◌, ap, ◌∙◌, Option, none, some, arith, ◌>>=◌,
  >>=-eq-some, length, Bytes,
}
use lepusa.Packet.Field.{IsLength, read_packet_field_complete, read_packet_field_sound}
use lepusa.Packet.{NativeOperationRecord, read_packet_field, read_native_operation_record}

-- The fields in the order of the packet.
unfoldable pub fields : NativeOperationRecord → List Bytes
fields r =
    r.kind ∷ r.window ∷ r.action ∷ r.url ∷ r.title ∷ r.width ∷ r.height ∷ r.x ∷ r.y ∷ r.fullscreen
    ∷ r.resizable ∷ r.bridge_source ∷ r.native_hook ∷ r.asset_protocol ∷ []

-- `bytes` are these fields, each behind its length, and then `rest`.
pub data IsEncoded (rest : Bytes) : List Bytes → Bytes → Type 0 where
  nil : {bytes : Bytes} → bytes ≡ rest → IsEncoded rest [] bytes
  cons :
      {value : Bytes} {values : List Bytes} {bytes : Bytes} (line after : Bytes)
      → IsLength line (length value)
      → bytes ≡ line ++ (b'\n' ∷ (value ++ after))
      → IsEncoded rest values after
      → IsEncoded rest (value ∷ values) bytes

-- Reads `n` fields.
read_fields : ℕ → Bytes → Option (List Bytes × Bytes)
read_fields zero cursor = some ([], cursor)
read_fields (suc n) cursor = do
  (value, cursor) ← read_packet_field cursor
  (values, cursor) ← read_fields n cursor
  some (value ∷ values, cursor)

read_fields_complete :
    {rest : Bytes} {values : List Bytes} {bytes : Bytes}
    → IsEncoded rest values bytes
    → read_fields (length values) bytes ≡ some (values, rest)
unfolding read_fields
read_fields_complete (nil e) = rw e
read_fields_complete (cons {value} line after len e t) =
    rw (e, read_packet_field_complete line value after len, read_fields_complete t)

read_more :
    {value : Bytes} {values' values : List Bytes} {bytes rest rest' : Bytes} (line after : Bytes)
    → IsLength line (length value)
    → bytes ≡ line ++ (b'\n' ∷ (value ++ after))
    → IsEncoded rest' values' after
    → ◌≡◌ {A = Option (List Bytes × Bytes)} (some (value ∷ values', rest')) (some (values, rest))
    → IsEncoded rest values bytes
read_more {value} {values'} {values} {bytes} {rest} {rest'} line after len split tail h =
    let e₀ : value ∷ values' ≡ values = cc in
    let e₁ : rest' ≡ rest = cc in rw (← e₀, ← e₁) (cons line after len split tail)

read_fields_sound :
    (n : ℕ) (bytes : Bytes) {values : List Bytes} {rest : Bytes}
    → read_fields n bytes ≡ some (values, rest)
    → IsEncoded rest values bytes
unfolding read_fields
read_fields_sound zero bytes {values} {rest} h =
    let e₀ : [] ≡ values = cc in let e₁ : bytes ≡ rest = cc in rw (← e₀) (nil e₁)
read_fields_sound (suc n) bytes {values} {rest} h =
    let ((value, after), e, h₁) = >>=-eq-some (read_packet_field bytes) _ h in
    let ((values', rest'), e', h₂) = >>=-eq-some (read_fields n after) _ h₁ in
    let (line, split, len) = read_packet_field_sound bytes {value = value} {rest = after} e in
    let tail = read_fields_sound n after {values = values'} {rest = rest'} e' in
    read_more {values' = values'} {rest' = rest'} line after len split tail h₂

to_record : List Bytes × Bytes → Option (NativeOperationRecord × Bytes)
to_record (k ∷ w ∷ a ∷ u ∷ t ∷ wi ∷ h ∷ x ∷ y ∷ f ∷ r ∷ b ∷ n ∷ p ∷ [], rest) = some (
  record {
    kind = k;
    window = w;
    action = a;
    url = u;
    title = t;
    width = wi;
    height = h;
    x = x;
    y = y;
    fullscreen = f;
    resizable = r;
    bridge_source = b;
    native_hook = n;
    asset_protocol = p;
  },
  rest,
)
to_record _ = none

read_record-read_fields :
    (cursor : Bytes) → read_native_operation_record cursor ≡ (read_fields 14 cursor >>= to_record)
unfolding read_native_operation_record read_fields to_record
read_record-read_fields cursor = ground arith

-- A record is read from exactly the bytes that encode its fields.
pub read_record_complete :
    (r : NativeOperationRecord) {rest cursor : Bytes}
    → IsEncoded rest (fields r) cursor
    → read_native_operation_record cursor ≡ some (r, rest)
unfolding fields to_record
read_record_complete r {rest} {cursor} h = rw (read_record-read_fields, read_fields_complete h)

to_record_sound :
    (p : List Bytes × Bytes) {r : NativeOperationRecord} {rest : Bytes}
    → to_record p ≡ some (r, rest)
    → p ≡ (fields r, rest)
unfolding to_record fields
to_record_sound p {r} {rest} h = ground arith

pub read_record_sound :
    (cursor : Bytes) {r : NativeOperationRecord} {rest : Bytes}
    → read_native_operation_record cursor ≡ some (r, rest)
    → IsEncoded rest (fields r) cursor
read_record_sound cursor {r} {rest} h =
    let ((values, after), e, h') =
      >>=-eq-some (read_fields 14 cursor) to_record (rw read_record-read_fields at h) in
    let joined = to_record_sound (values, after) {r = r} {rest = rest} h' in
    read_fields_sound 14 cursor (e ∙ ap some joined)

-- A record is read exactly where its fourteen fields stand at the cursor, each behind its length, and the
-- cursor then stands behind them.
pub read_record_iff :
    (cursor rest : Bytes) (r : NativeOperationRecord)
    → (read_native_operation_record cursor ≡ some (r, rest)) ↔ IsEncoded rest (fields r) cursor
read_record_iff cursor rest r =
    (λ h. read_record_sound cursor {r = r} {rest = rest} h, λ h. read_record_complete r h)
