-- ===== src/Packet.antt =====
-- runtime/linux/linux_backend.c: the handoff packet, `immediate\n<label>\n<length>\n<script>` and then
-- the operations, `lepusa-ops-v3\n<count>\n` and `count` records of fourteen length-prefixed
-- fields. A cursor is the list of the bytes from it up to `end`.
pub mod Field
pub mod Record
pub mod Loop
pub mod Header
pub mod Numbers
pub mod Script
use lepusa.Base.{
  ℕ, zero, suc, ◌+◌, ◌-◌, ◌*◌, ◌&&◌, ◌||◌, [], ◌∷◌, Option, none, some, ltb, ◌==◌, if◌then◌else◌,
  ◌>>=◌, length, take, drop, Bytes, codes, int32_max,
}
use lepusa.CString.{is_digit, mem_eq, range_equals}

-- `find_newline_range`: what stands before the newline, and the bytes from `newline + 1` on.
unfoldable pub find_newline_range : Bytes → Option (Bytes × Bytes)
find_newline_range [] = none
find_newline_range (c ∷ s) =
    if c == b'\n'
    then some ([], s)
    else find_newline_range s >>= λ (line, rest). some (c ∷ line, rest)

-- The loop over a length or a count: `acc * 10 + (*p - '0')`, held against INT32_MAX each round.
unfoldable pub read_length : ℕ → Bytes → Option ℕ
read_length acc [] = some acc
read_length acc (c ∷ s) =
    let acc' = acc * 10 + (c - b'0') in
    if ltb c b'0' || ltb b'9' c
    then none
    else if ltb int32_max acc'
    then none
    else read_length acc' s

-- Gives the value and the cursor behind it.
unfoldable pub read_packet_field : Bytes → Option (Bytes × Bytes)
unfolding find_newline_range read_length
read_packet_field cursor = do
  (line, value) ← find_newline_range cursor
  len ← read_length 0 line
  if ltb (length value) len then none else some (take len value, drop len value)

pub record NativeOperationRecord : Type 0 where
  pub kind : Bytes
  pub window : Bytes
  pub action : Bytes
  pub url : Bytes
  pub title : Bytes
  pub width : Bytes
  pub height : Bytes
  pub x : Bytes
  pub y : Bytes
  pub fullscreen : Bytes
  pub resizable : Bytes
  pub bridge_source : Bytes
  pub native_hook : Bytes
  pub asset_protocol : Bytes

unfoldable pub read_native_operation_record : Bytes → Option (NativeOperationRecord × Bytes)
read_native_operation_record cursor = do
  (kind, cursor) ← read_packet_field cursor
  (window, cursor) ← read_packet_field cursor
  (action, cursor) ← read_packet_field cursor
  (url, cursor) ← read_packet_field cursor
  (title, cursor) ← read_packet_field cursor
  (width, cursor) ← read_packet_field cursor
  (height, cursor) ← read_packet_field cursor
  (x, cursor) ← read_packet_field cursor
  (y, cursor) ← read_packet_field cursor
  (fullscreen, cursor) ← read_packet_field cursor
  (resizable, cursor) ← read_packet_field cursor
  (bridge_source, cursor) ← read_packet_field cursor
  (native_hook, cursor) ← read_packet_field cursor
  (asset_protocol, cursor) ← read_packet_field cursor
  some (
    record {
      kind = kind;
      window = window;
      action = action;
      url = url;
      title = title;
      width = width;
      height = height;
      x = x;
      y = y;
      fullscreen = fullscreen;
      resizable = resizable;
      bridge_source = bridge_source;
      native_hook = native_hook;
      asset_protocol = asset_protocol;
    },
    cursor,
  )

-- `if (operations < end && *operations == '\n') operations++`
skip_newline : Bytes → Bytes
skip_newline [] = []
skip_newline (c ∷ s) = if c == b'\n' then s else c ∷ s

-- The operations of a packet; a packet that is NULL is `none`.
unfoldable pub handoff_operations_range : Option Bytes → Option Bytes
unfolding find_newline_range read_length skip_newline
handoff_operations_range packet = do
  start ← packet
  (first, rest) ← find_newline_range start
  (label, rest) ←
      (if length first == 9 && mem_eq 9 first (codes "immediate")
        then find_newline_range rest
        else none)
  (line, rest) ← find_newline_range rest
  body_len ← read_length 0 line
  if ltb (length rest) body_len then none else some (skip_newline (drop body_len rest))

-- The count, and the cursor at the first record.
unfoldable pub handoff_operation_records : Option Bytes → Option (ℕ × Bytes)
unfolding handoff_operations_range range_equals
handoff_operation_records packet = do
  operations ← handoff_operations_range packet
  (version, rest) ← find_newline_range operations
  (line, cursor) ←
      (if range_equals version (codes "lepusa-ops-v3") then find_newline_range rest else none)
  count ← read_length 0 line
  some (count, cursor)

-- The loop `for (i = 0; i < count; i++)` of the six `apply_…_from_handoff_packet` functions: a
-- record that cannot be read ends it.
unfoldable pub for_each_record {ℓ} :
    {S : Type ℓ} → ℕ → Bytes → (NativeOperationRecord → S → S) → S → S
for_each_record zero cursor handle s = s
for_each_record (suc count) cursor handle s = elim (read_native_operation_record cursor) [
  | none ↦ s
  | some (r, cursor') ↦ for_each_record count cursor' handle (handle r s)
]

-- The prologue and the loop of such a function.
unfoldable pub apply_records {ℓ} :
    {S : Type ℓ} → Option Bytes → (NativeOperationRecord → S → S) → S → S
unfolding handoff_operation_records for_each_record read_native_operation_record read_packet_field
apply_records packet handle s = elim (handoff_operation_records packet) [
  | none ↦ s
  | some (count, cursor) ↦ for_each_record count cursor handle s
]
