-- ===== src/FileDialog/Payload/Bounds.antt =====
-- plugins/file_dialog/file_dialog_backend.c: what paths_json writes, and that it stays within its block.
use lepusa.Base.{
  ℕ, ◌+◌, ◌*◌, ◌≤◌, Bool, true, false, List, [], ◌∷◌, ◌++◌, ◌≡◌, inl, inr, refl, sym, ap, ◌∙◌,
  Option, some, append_assoc, append-nil, arith, ltb, leb, ◌==◌, if◌then◌else◌, Bool-cases, ◌>>=◌,
  length, length-append, Bytes, codes,
}
use lepusa.FileDialog.Payload.{
  json_escape, json_escape_all, json_escape_byte, text_of, Buffer, put, reserve, put_line,
  put_lines, put_end, paths_json,
}

-- The lines that are not empty, with the bytes of the first one so far.
abbrev pub lines_from : Bytes → Bytes → List Bytes
lines_from [] [] = []
lines_from (d ∷ line) [] = (d ∷ line) ∷ []
lines_from line (c ∷ text) =
    let next = lines_from [] text in
    let more = lines_from (line ++ (c ∷ [])) text in
    if c == b'\n' then (if length line == 0 then next else line ∷ next) else more

abbrev pub lines_of : Bytes → List Bytes
lines_of text = lines_from [] text

-- Every item behind a comma, and the first one without.
abbrev pub later_items : List Bytes → Bytes
later_items [] = []
later_items (l ∷ ls) = codes "," ++ (json_escape (some l) ++ later_items ls)

abbrev pub items : List Bytes → Bytes
items [] = []
items (l ∷ ls) = json_escape (some l) ++ later_items ls

abbrev items_after : Bytes → List Bytes → Bytes
items_after bytes ls = if ltb 1 (length bytes) then later_items ls else items ls

-- The block has room for the bracket and the NUL.
abbrev Fits : Buffer → Type 0
Fits buffer = (1 ≤ length buffer.bytes) × (length buffer.bytes + 2 ≤ buffer.capacity)

json_escape-length : (text : Option Bytes) → 2 ≤ length (json_escape text)
unfolding json_escape json_escape_all
json_escape-length text = go (text_of text)
  where
    go : (t : Bytes) → 2 ≤ length (b'"' ∷ json_escape_all t)
    go [] = omega arith
    go (c ∷ t) = omega (arith, go t, length-append (json_escape_byte c) (json_escape_all t))

-- The buffer after a step that stays within its block.
record Written (result : Option Buffer) (bytes : Bytes) : Type 0 where
  buffer : Buffer
  done : result ≡ some buffer
  is : buffer.bytes ≡ bytes
  fits : Fits buffer

reserve-room :
    (n : ℕ) (b : Buffer) → Fits b → length (reserve n b).bytes + n + 3 ≤ (reserve n b).capacity
unfolding reserve
reserve-room n b (one, two) = ground arith

reserve-bytes : (n : ℕ) (b : Buffer) → (reserve n b).bytes ≡ b.bytes
unfolding reserve
reserve-bytes n b = elim (Bool-cases (leb b.capacity (length b.bytes + n + 3))) [
  | inl grown ↦ rw grown refl
  | inr same ↦ rw same refl
]

-- Writing where there is room.
put-room :
    (t : Bytes) (b : Buffer)
    → length b.bytes + length t ≤ b.capacity
    → put t b ≡ some (record b { bytes = b.bytes ++ t })
put-room t b room =
    let e : leb (length b.bytes + length t) b.capacity ≡ true = ground (arith, room) in rw e refl

put_item-Written :
    (escaped : Bytes) (later : Bool) (b : Buffer)
    → 1 ≤ length b.bytes
    → length b.bytes + length escaped + 3 ≤ b.capacity
    → Written
        ((if later then put (codes ",") b else some b) >>= put escaped)
        (b.bytes ++ ((if later then codes "," else []) ++ escaped))
put_item-Written escaped false b one room =
    let measured = length-append b.bytes escaped in
    record {
      buffer = record b { bytes = b.bytes ++ escaped };
      done = put-room escaped b (omega (arith, room));
      is = refl;
      fits = (omega (arith, measured, one), omega (arith, measured, room));
    }
put_item-Written escaped true b one room =
    let comma : Buffer = record b { bytes = b.bytes ++ codes "," } in
    let measured = length-append b.bytes (codes ",") in
    let measured' = length-append comma.bytes escaped in
    record {
      buffer = record b { bytes = comma.bytes ++ escaped };
      done =
          rw (put-room (codes ",") b (omega (arith, room)))
            (put-room escaped comma (omega (arith, measured, room)));
      is = append_assoc b.bytes (codes ",") escaped;
      fits = (omega (arith, measured, measured', one), omega (arith, measured, measured', room));
    }

abbrev separated : Bytes → Bytes → Bytes
separated bytes escaped = bytes ++ ((if ltb 1 (length bytes) then codes "," else []) ++ escaped)

put_reserved-Written :
    (escaped : Bytes) (b : Buffer)
    → Fits b
    → let room = reserve (length escaped) b in
      Written
        ((if ltb 1 (length room.bytes) then put (codes ",") room else some room) >>= put escaped)
        (separated b.bytes escaped)
put_reserved-Written escaped b h =
    let room = reserve (length escaped) b in
    let same = reserve-bytes (length escaped) b in
    let one : 1 ≤ length room.bytes = rw same (h.0) in
    let w =
      put_item-Written escaped (ltb 1 (length room.bytes)) room one
        (reserve-room (length escaped) b h) in
    record {
      buffer = w.buffer;
      done = w.done;
      is = w.is ∙ ap (λ bytes. separated bytes escaped) same;
      fits = w.fits;
    }

items_after-one :
    (bytes l : Bytes) → bytes ++ items_after bytes (l ∷ []) ≡ separated bytes (json_escape (some l))
items_after-one bytes l = elim (Bool-cases (ltb 1 (length bytes))) [
  | inl later ↦ rw (later, append-nil (json_escape (some l))) refl
  | inr first ↦ rw (first, append-nil (json_escape (some l))) refl
]

put_line-nil : (b : Buffer) → put_line [] b ≡ some b
unfolding put_line
put_line-nil b = refl

put_line-cons :
    (c : ℕ) (l : Bytes) (b : Buffer)
    → Fits b
    → Written (put_line (c ∷ l) b) (b.bytes ++ items_after b.bytes ((c ∷ l) ∷ []))
unfolding put_line
put_line-cons c l b h =
    let w = put_reserved-Written (json_escape (some (c ∷ l))) b h in
    record {
      buffer = w.buffer;
      done = w.done;
      is = w.is ∙ sym (items_after-one b.bytes (c ∷ l));
      fits = w.fits;
    }

longer : (bytes t : Bytes) → 1 ≤ length bytes → 1 ≤ length t → ltb 1 (length (bytes ++ t)) ≡ true
longer bytes t one more =
    let measured = length-append bytes t in ground (arith, measured, one, more)

items_after-cons :
    (bytes l : Bytes) (ls : List Bytes)
    → 1 ≤ length bytes
    → let before = bytes ++ items_after bytes (l ∷ []) in
      before ++ items_after before ls ≡ bytes ++ items_after bytes (l ∷ ls)
items_after-cons bytes l ls one =
    let escaped = json_escape (some l) in
    let some_left = json_escape-length (some l) in
    elim (Bool-cases (ltb 1 (length bytes))) [
      | inl later ↦
          rw (later, append-nil escaped, longer bytes (codes "," ++ escaped) one (omega arith))
            (append_assoc bytes (codes "," ++ escaped) (later_items ls))
      | inr first ↦
          rw (first, append-nil escaped, longer bytes escaped one (omega (arith, some_left)))
            (append_assoc bytes escaped (later_items ls))
    ]

items_after-nil : (bytes : Bytes) → bytes ++ items_after bytes [] ≡ bytes
items_after-nil bytes = elim (Bool-cases (ltb 1 (length bytes))) [
  | inl later ↦ rw later (append-nil bytes)
  | inr first ↦ rw first (append-nil bytes)
]

-- One step after another.
then-Written :
    (result : Option Buffer) (k : Buffer → Option Buffer) (bytes bytes' : Bytes)
    → Written result bytes
    → ((b : Buffer) → Fits b → b.bytes ≡ bytes → Written (k b) bytes')
    → Written (result >>= k) bytes'
then-Written result k bytes bytes' w h = let done = w.done in rw done (h w.buffer w.fits w.is)

retarget : {result : Option Buffer} {x y : Bytes} → Written result x → x ≡ y → Written result y
retarget w e = record { buffer = w.buffer; done = w.done; is = w.is ∙ e; fits = w.fits }

put_end-Fits : (b : Buffer) → Fits b → put_end b ≡ some (b.bytes ++ codes "]")
unfolding put_end
put_end-Fits b (one, room) =
    let closed : Buffer = record b { bytes = b.bytes ++ codes "]" } in
    let measured = length-append b.bytes (codes "]") in
    rw
      (
        put-room (codes "]") b (omega (arith, room)),
        put-room (0 ∷ []) closed (omega (arith, room, measured)),
      )
      refl

put_lines-Written :
    (l text : Bytes) (b : Buffer)
    → Fits b
    → Written (put_lines l text b) (b.bytes ++ items_after b.bytes (lines_from l text))
unfolding put_lines
put_lines-Written [] [] b h = record {
  buffer = b;
  done = put_line-nil b;
  is = sym (items_after-nil b.bytes);
  fits = h;
}
put_lines-Written (d ∷ l) [] b h = put_line-cons d l b h
put_lines-Written [] (c ∷ text) b h = elim (Bool-cases (c == b'\n')) [
  | inl newline ↦ let next = put_lines-Written [] text b h in rw newline next
  | inr other ↦ let more = put_lines-Written (c ∷ []) text b h in rw other more
]
put_lines-Written (d ∷ l) (c ∷ text) b h = elim (Bool-cases (c == b'\n')) [
  | inl newline ↦
      let ls = lines_from [] text in
      let line = put_line-cons d l b h in
      let both =
        then-Written (put_line (d ∷ l) b) (put_lines [] text)
          (b.bytes ++ items_after b.bytes ((d ∷ l) ∷ []))
          (b.bytes ++ items_after b.bytes ((d ∷ l) ∷ ls)) line
          (λ b' h' same. retarget (put_lines-Written [] text b' h') (
            ap (λ bytes. bytes ++ items_after bytes ls) same
            ∙ items_after-cons b.bytes (d ∷ l) ls (h.0))) in
      let full : (length (d ∷ l) == 0) ≡ false = ground arith in rw (newline, full) both
  | inr other ↦ let more = put_lines-Written (d ∷ l ++ (c ∷ [])) text b h in rw other more
]

-- What paths_json answers: every line that is not empty as a string.
abbrev pub list_text : List Bytes → Bytes
list_text ls = codes "[" ++ (items ls ++ codes "]")

-- The list of paths is written within its block, whose growth is by what a line may need, and holds
-- every line that is not empty as a string, in their order and with commas between them.
pub paths_json-list_text :
    (paths : Option Bytes) → paths_json paths ≡ some (list_text (lines_of (text_of paths)))
unfolding paths_json
paths_json-list_text paths =
    let text = text_of paths in
    let begun : Buffer = record { bytes = codes "["; capacity = length text * 2 + 8 } in
    let w = put_lines-Written [] text begun (omega arith, omega arith) in
    let done = w.done in
    let started : put (codes "[") (record { bytes = []; capacity = length text * 2 + 8 })
        ≡ some begun =
      put-room (codes "[") (record { bytes = []; capacity = length text * 2 + 8 }) (omega arith) in
    rw (started, done)
      (put_end-Fits w.buffer w.fits ∙ ap (λ bytes. some (bytes ++ codes "]")) (w.is))
