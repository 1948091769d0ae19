-- ===== src/Examples/Texts.antt =====
-- A script in a packet, quoted texts and a shortcut.
use lepusa.Base.{
  ◌+◌, ◌*◌, ◌≤◌, true, [], ◌∷◌, ◌++◌, ◌≡◌, refl, none, some, arith, length, Bytes, codes,
}
use lepusa.Accelerator.Keys.{KeyValue, character}
use lepusa.Accelerator.Names.{control, shift, ctrl_name, shift_name}
use lepusa.Accelerator.Words.{Spelled}
use lepusa.Accelerator.Parse.{join_parts}
use lepusa.Accelerator.Shortcuts.{Reads, known, nothing, parse_accelerator_complete}
use lepusa.Accelerator.{parse_accelerator}
use lepusa.CommandLine.ReadBack.{read_quoted, doubled, command_line_size_lem, append_quoted_read}
use lepusa.CommandLine.{needs_quote, append_quoted, command_line, command_line_size}
use lepusa.CString.{is_space, to_lower}
use lepusa.Examples.Packets.{packet, operations, is_handoff}
use lepusa.JsString.RoundTrip.{Inside, js_string_literal_lem}
use lepusa.JsString.{js_string_literal_from_range}
use lepusa.Packet.Script.Complete.{immediate_script_complete}
use lepusa.Packet.Script.{immediate_script_from_handoff_packet}
use lepusa.Packet.{handoff_operations_range}

immediate_script_complete_example :
    (immediate_script_from_handoff_packet (some packet) ≡ some (codes "x()"))
    × (handoff_operations_range (some packet) ≡ some operations)
unfolding is_handoff
immediate_script_complete_example =
    immediate_script_complete is_handoff (omega arith) (omega arith) (omega arith)

js_string_literal_lem_example :
    ((inside : Bytes) × (js_string_literal_from_range (codes "a\"\n\0") ++ codes ";"
        ≡ b'"' ∷ inside)
      × Inside (codes ";") inside (codes "a\"\n\0"))
    × (length (js_string_literal_from_range (codes "a\"\n\0")) + 1
        ≤ length (codes "a\"\n\0") * 6 + 3)
js_string_literal_lem_example = js_string_literal_lem (codes "a\"\n\0") (codes ";")

ctrl-Spelled : Spelled (codes "Ctrl ") (codes "Ctrl")
unfolding is_space
ctrl-Spelled = record {
  left = [];
  right = codes " ";
  splits = refl;
  blank_left = tt;
  blank_right = (refl, tt);
  no_blank = (refl, (refl, (refl, (refl, tt))));
  nonempty = omega arith;
}

shift-Spelled : Spelled (codes "Shift") (codes "Shift")
unfolding is_space
shift-Spelled = record {
  left = [];
  right = [];
  splits = refl;
  blank_left = tt;
  blank_right = tt;
  no_blank = (refl, (refl, (refl, (refl, (refl, tt)))));
  nonempty = omega arith;
}

p-Spelled : Spelled (codes " P") (codes "P")
unfolding is_space
p-Spelled = record {
  left = codes " ";
  right = [];
  splits = refl;
  blank_left = (refl, tt);
  blank_right = tt;
  no_blank = (refl, tt);
  nonempty = omega arith;
}

both-Reads : Reads (codes "Ctrl " ∷ codes "Shift" ∷ []) (some (control ∷ shift ∷ []))
unfolding to_lower
both-Reads =
    known (codes "Ctrl") (codes "ctrl") ctrl-Spelled ctrl_name refl
      (known (codes "Shift") (codes "shift") shift-Spelled shift_name refl nothing)

p-KeyValue : KeyValue none (codes "P") b'p'
unfolding to_lower
p-KeyValue = character b'P' refl refl

parse_accelerator_complete_example :
    parse_accelerator none (join_parts (codes "Ctrl " ∷ codes "Shift" ∷ []) (codes " P"))
    ≡ some (b'p', 5)
parse_accelerator_complete_example =
    parse_accelerator_complete none (codes "Ctrl " ∷ codes "Shift" ∷ []) (codes " P") (codes "P")
      (some (control ∷ shift ∷ [])) b'p' (omega arith) (omega arith) both-Reads p-Spelled p-KeyValue

ctrl_shift_p : parse_accelerator none (codes "Ctrl +Shift+ P") ≡ some (b'p', 5)
unfolding parse_accelerator is_space
ctrl_shift_p = refl

command_line_size_lem_example :
    command_line_size (codes "node" ∷ codes "a b" ∷ [])
    ≡ length (command_line (codes "node" ∷ codes "a b" ∷ [])) + 1
command_line_size_lem_example = command_line_size_lem (codes "node" ∷ codes "a b" ∷ [])

abbrev folder : Bytes
folder = codes "C:\\x"

folder_quoted : needs_quote folder ≡ true
unfolding needs_quote
folder_quoted = refl

folder-doubled : doubled 0 folder ≡ codes "C:\\\\x"
unfolding doubled
folder-doubled = refl

append_quoted_read_example :
    (inside : Bytes) × (append_quoted folder ++ codes " -v" ≡ b'"' ∷ inside)
    × (read_quoted 0 inside ≡ some (doubled 0 folder, codes " -v"))
append_quoted_read_example = append_quoted_read folder (codes " -v") folder_quoted
