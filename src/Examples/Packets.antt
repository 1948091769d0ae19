-- ===== src/Examples/Packets.antt =====
-- A handoff packet of the shape that the runtime sends, with one script and one navigation.
use mathlib.Core.List.{foldl}
use lepusa.Base.{
  ℕ, ◌+◌, true, List, [], ◌∷◌, ◌++◌, ◌≡◌, ◌↔◌, refl, some, arith, leb, if◌then◌else◌, length, All,
  Bytes, codes, int32_max, negsuc, signed,
}
use lepusa.Argv.Encode.{IsCommand}
use lepusa.CString.{mem_eq, c_str}
use lepusa.Argv.RoundTrip.{HasProgram, parse_command_packet_iff}
use lepusa.Argv.{argv, parse_command_packet}
use lepusa.Packet.Field.{IsLength, value_from}
use lepusa.Packet.Header.{IsHandoff, IsOperations, apply_records-foldl}
use lepusa.Packet.Loop.{IsRecords}
use lepusa.Packet.Numbers.{
  parsed, overflow, parse_record_int, parse_record_int-value_from, sign_text,
}
use lepusa.Packet.Record.{IsEncoded, fields, read_record_iff}
use lepusa.Packet.{
  NativeOperationRecord, read_native_operation_record, handoff_operation_records, apply_records,
}

abbrev empty_record : NativeOperationRecord
empty_record = record {
  kind = [];
  window = [];
  action = [];
  url = [];
  title = [];
  width = [];
  height = [];
  x = [];
  y = [];
  fullscreen = [];
  resizable = [];
  bridge_source = [];
  native_hook = [];
  asset_protocol = [];
}

abbrev pub script_record : NativeOperationRecord
script_record = record empty_record {
  kind = codes "evaluate-script";
  window = codes "main";
  url = codes "tick()";
}

abbrev pub navigation_record : NativeOperationRecord
navigation_record = record empty_record {
  kind = codes "navigate-window";
  window = codes "side";
  url = codes "app://x";
}

abbrev pub records : List NativeOperationRecord
records = script_record ∷ navigation_record ∷ []

-- Values with the lines that spell their lengths, one behind the other.
abbrev write_fields : List (Bytes × Bytes) → Bytes → Bytes
write_fields [] rest = rest
write_fields ((line, value) ∷ fs) rest = line ++ (b'\n' ∷ (value ++ write_fields fs rest))

abbrev values : List (Bytes × Bytes) → List Bytes
values [] = []
values ((line, value) ∷ fs) = value ∷ values fs

abbrev IsField : Bytes × Bytes → Type 0
IsField (line, value) = IsLength line (length value)

write_fields-IsEncoded :
    (fs : List (Bytes × Bytes)) (rest : Bytes)
    → All IsField fs
    → IsEncoded rest (values fs) (write_fields fs rest)
write_fields-IsEncoded [] rest h = IsEncoded.nil refl
write_fields-IsEncoded ((line, value) ∷ fs) rest (h, hs) =
    IsEncoded.cons line (write_fields fs rest) h refl (write_fields-IsEncoded fs rest hs)

abbrev blank : Bytes × Bytes
blank = (codes "0", [])

abbrev operation_fields : Bytes → Bytes → Bytes → Bytes → List (Bytes × Bytes)
operation_fields kind window url_line url =
    (codes "15", kind)
    ∷ (codes "4", window)
    ∷ blank
    ∷ (url_line, url)
    ∷ blank
    ∷ blank
    ∷ blank
    ∷ blank
    ∷ blank
    ∷ blank
    ∷ blank
    ∷ blank
    ∷ blank
    ∷ blank
    ∷ []

abbrev script_fields : List (Bytes × Bytes)
script_fields =
    operation_fields (codes "evaluate-script") (codes "main") (codes "6") (codes "tick()")

abbrev navigation_fields : List (Bytes × Bytes)
navigation_fields =
    operation_fields (codes "navigate-window") (codes "side") (codes "7") (codes "app://x")

abbrev pub record_bytes : Bytes
record_bytes = write_fields script_fields (write_fields navigation_fields [])

abbrev pub operations : Bytes
operations = codes "lepusa-ops-v3\n2\n" ++ record_bytes

abbrev pub packet : Bytes
packet = codes "immediate\nmain\n3\nx()\n" ++ operations

navigation-IsEncoded : IsEncoded [] (fields navigation_record) (write_fields navigation_fields [])
unfolding fields
navigation-IsEncoded = write_fields-IsEncoded navigation_fields [] (omega arith)

script-IsEncoded : IsEncoded (write_fields navigation_fields []) (fields script_record) record_bytes
unfolding fields
script-IsEncoded =
    write_fields-IsEncoded script_fields (write_fields navigation_fields []) (omega arith)

pub is_operations : IsOperations records operations
is_operations = record {
  count_line = codes "2";
  rest = [];
  records = record_bytes;
  splits = refl;
  count_is = omega arith;
  encoded =
      IsRecords.next (write_fields navigation_fields []) script-IsEncoded
        (IsRecords.next [] navigation-IsEncoded (IsRecords.done refl));
}

unfoldable pub is_handoff : IsHandoff (codes "main") (codes "x()") operations packet
is_handoff = record {
  length_line = codes "3";
  splits = refl;
  one_line = omega arith;
  length_is = omega arith;
}

count_records : handoff_operation_records (some packet) ≡ some (2, record_bytes)
unfolding handoff_operation_records mem_eq c_str
count_records = refl

apply_records-foldl_example :
    apply_records (some packet) (λ r (n : ℕ). n + length r.url) 0
    ≡ foldl (λ n (r : NativeOperationRecord). n + length r.url) 0 records
apply_records-foldl_example =
    apply_records-foldl (λ r (n : ℕ). n + length r.url) 0 is_handoff is_operations

read_record_iff_example :
    (read_native_operation_record record_bytes
      ≡ some (script_record, write_fields navigation_fields []))
    ↔ IsEncoded (write_fields navigation_fields []) (fields script_record) record_bytes
read_record_iff_example =
    read_record_iff record_bytes (write_fields navigation_fields []) script_record

parse_record_int-value_from_example : parse_record_int (sign_text true ++ codes "2147483648") ≡ (
    if leb (value_from 0 (codes "2147483648")) int32_max
    then parsed (signed true (value_from 0 (codes "2147483648")))
    else overflow)
parse_record_int-value_from_example =
    parse_record_int-value_from true b'2' (codes "147483648") (omega arith)

minus_forty : parse_record_int (codes "-40") ≡ parsed (negsuc 39)
unfolding parse_record_int
minus_forty = refl

abbrev command : Bytes
command = codes "4\nnode2\n-v"

command_read : parse_command_packet (some command) ≡ argv (codes "node" ∷ codes "-v" ∷ [])
unfolding parse_command_packet
command_read = refl

parse_command_packet_iff_example :
    (parse_command_packet (some command) ≡ argv (codes "node" ∷ codes "-v" ∷ [])) ↔ (
      IsCommand (codes "node" ∷ codes "-v" ∷ []) command
      × HasProgram (codes "node" ∷ codes "-v" ∷ []))
parse_command_packet_iff_example = parse_command_packet_iff command (codes "node" ∷ codes "-v" ∷ [])
