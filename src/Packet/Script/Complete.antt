-- ===== src/Packet/Script/Complete.antt =====
-- runtime/linux/linux_backend.c: immediate_script_from_handoff_packet beside
-- handoff_operations_range on one packet.
use lepusa.Base.{
  ℕ, ◌+◌, ◌-◌, ◌*◌, ◌≤◌, ◌<◌, false, not, [], ◌∷◌, ◌++◌, ◌≡◌, ◌≢◌, refl, ap, ◌∙◌, Option, none,
  some, arith, if◌then◌else◌, length, length-append, take-append, All, Bytes, int32_max, pos,
}
use lepusa.CString.{is_space, is_digit, trim_start, c_str, strcmp_eq}
use lepusa.Packet.Field.{
  IsLength, IsDigit, value_from, find_newline_range_found, IsDigit-ne_newline,
}
use lepusa.Packet.Header.{IsHandoff, immediate, handoff_operations_range_complete}
use lepusa.Packet.Script.{
  next_packet_line, strtol_sign, strtol_digits, strtol, read_body_len, is_status, script_behind,
  script_of_text, immediate_script_from_handoff_packet,
}
use lepusa.Packet.{handoff_operations_range}

c_str-append : (s rest : Bytes) → All (λ c. c ≢ 0) s → c_str (s ++ rest) ≡ s ++ c_str rest
unfolding c_str
c_str-append [] rest h = refl
c_str-append (c ∷ s) rest h = ground (arith, c_str-append s rest h.1)

IsDigit-ne_nul : (s : Bytes) → All IsDigit s → All (λ c. c ≢ 0) s
IsDigit-ne_nul [] h = tt
IsDigit-ne_nul (c ∷ s) h = (omega (arith, h.0), IsDigit-ne_nul s h.1)

strtol_digits_complete :
    (n : ℕ) (s : Bytes) → All IsDigit s → strtol_digits n s ≡ (value_from n s, [])
unfolding strtol_digits is_digit
strtol_digits_complete n [] h = refl
strtol_digits_complete n (c ∷ s) h =
    rw (strtol_digits_complete (n * 10 + (c - b'0')) s h.1) (ground (arith, h.0))

trim_start-IsDigit : (c : ℕ) (s : Bytes) → IsDigit c → trim_start (c ∷ s) ≡ c ∷ s
unfolding trim_start is_space
trim_start-IsDigit c s h = ground (arith, h)

strtol_sign-IsDigit : (c : ℕ) (s : Bytes) → IsDigit c → strtol_sign (c ∷ s) ≡ (false, c ∷ s)
unfolding strtol_sign
strtol_sign-IsDigit c s h = ground (arith, h)

strtol_complete :
    (c : ℕ) (s : Bytes)
    → All IsDigit (c ∷ s)
    → value_from 0 (c ∷ s) ≤ int32_max
    → strtol (c ∷ s) ≡ (pos (value_from 0 (c ∷ s)), [])
unfolding strtol
strtol_complete c s h fits =
    rw (trim_start-IsDigit c s h.0, strtol_sign-IsDigit c s h.0, strtol_digits_complete 0 (c ∷ s) h)
      (ground arith)

-- `strtol` reads a length that is not empty as `handoff_operations_range` does.
read_body_len-IsLength :
    (c : ℕ) (s : Bytes) (len : ℕ) → IsLength (c ∷ s) len → read_body_len (c ∷ s) ≡ some len
unfolding read_body_len
read_body_len-IsLength c s len h =
    let fits : value_from 0 (c ∷ s) ≤ int32_max = omega (arith, h.exact, h.fits) in
    rw (strtol_complete c s h.digits fits) (ground (arith, h.exact, h.fits))

next_packet_line_found :
    (line rest : Bytes)
    → All (λ c. c ≢ b'\n') line
    → next_packet_line (some (line ++ (b'\n' ∷ rest))) ≡ (some line, some rest)
unfolding next_packet_line
next_packet_line_found line rest h =
    rw (find_newline_range_found line rest h, next_packet_line) refl

c_str-line :
    (s rest : Bytes) → All (λ c. c ≢ 0) s → c_str (s ++ (b'\n' ∷ rest)) ≡ s ++ (b'\n' ∷ c_str rest)
unfolding c_str
c_str-line s rest h = c_str-append s (b'\n' ∷ rest) h

-- The text of a packet with these parts.
abbrev packet_of : Bytes → Bytes → Bytes → Bytes → Bytes
packet_of label line script rest =
    immediate ++ (b'\n' ∷ (label ++ (b'\n' ∷ (line ++ (b'\n' ∷ (script ++ (b'\n' ∷ rest)))))))

c_str-packet_of :
    (label line script rest : Bytes)
    → All (λ c. c ≢ 0) label
    → All (λ c. c ≢ 0) line
    → All (λ c. c ≢ 0) script
    → c_str (packet_of label line script rest) ≡ packet_of label line script (c_str rest)
c_str-packet_of label line script rest hl hn hs =
    c_str-line immediate _ (omega arith)
    ∙ ap (λ t. immediate ++ (b'\n' ∷ t))
        (c_str-line label _ hl
          ∙ ap (λ t. label ++ (b'\n' ∷ t))
              (c_str-line line _ hn ∙ ap (λ t. line ++ (b'\n' ∷ t)) (c_str-line script rest hs)))

script_of_text-packet_of :
    (label script rest : Bytes) (c : ℕ) (s : Bytes)
    → All (λ c. c ≢ b'\n') label
    → IsLength (c ∷ s) (length script)
    → script_of_text (packet_of label (c ∷ s) script rest) ≡ some script
unfolding script_of_text script_behind is_status strcmp_eq
script_of_text-packet_of label script rest c s hn h =
    let after = script ++ (b'\n' ∷ rest) in
    let behind = (c ∷ s) ++ (b'\n' ∷ after) in
    let with_status : Option Bytes × Option Bytes → Option Bytes = λ status.
      if not (is_status status.0 immediate)
      then none
      else script_behind (next_packet_line (next_packet_line status.1).1) in
    ap with_status (next_packet_line_found immediate (label ++ (b'\n' ∷ behind)) (omega arith))
    ∙ ap (λ (l : Option Bytes × Option Bytes). script_behind (next_packet_line l.1))
        (next_packet_line_found label behind hn)
    ∙ ap script_behind (next_packet_line_found (c ∷ s) after (IsDigit-ne_newline (c ∷ s) h.digits))
    ∙ rw (read_body_len-IsLength c s (length script) h)
        (ground (arith, length-append script (b'\n' ∷ rest), take-append script (b'\n' ∷ rest)))

immediate_script-packet_of :
    (label script rest : Bytes) (c : ℕ) (s : Bytes)
    → All (λ c. c ≢ 0) label
    → All (λ c. c ≢ b'\n') label
    → All (λ c. c ≢ 0) script
    → IsLength (c ∷ s) (length script)
    → immediate_script_from_handoff_packet (some (packet_of label (c ∷ s) script rest))
      ≡ some script
unfolding immediate_script_from_handoff_packet
immediate_script-packet_of label script rest c s hl hn hs h =
    ap script_of_text
      (c_str-packet_of label (c ∷ s) script rest hl (IsDigit-ne_nul (c ∷ s) h.digits) hs)
    ∙ script_of_text-packet_of label script (c_str rest) c s hn h

-- A packet whose label and script hold no NUL and whose length is spelled out is read alike by both
-- readers: the script is what is run at once, and the operations stand behind it.
pub immediate_script_complete :
    {label script operations packet : Bytes} (h : IsHandoff label script operations packet)
    → All (λ c. c ≢ 0) label
    → All (λ c. c ≢ 0) script
    → 0 < length h.length_line
    → (immediate_script_from_handoff_packet (some packet) ≡ some script)
      × (handoff_operations_range (some packet) ≡ some operations)
immediate_script_complete {label} {script} {operations} {packet} h no_nul no_nul' spelled =
    (rw h.splits (read h.length_line h.length_is spelled), handoff_operations_range_complete h)
  where
    read :
        (line : Bytes)
        → IsLength line (length script)
        → 0 < length line
        → immediate_script_from_handoff_packet (some (packet_of label line script operations))
          ≡ some script
    read [] is_length some_digit = absurd (omega arith)
    read (c ∷ s) is_length some_digit =
        immediate_script-packet_of label script operations c s no_nul h.one_line no_nul' is_length
