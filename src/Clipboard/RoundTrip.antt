-- ===== src/Clipboard/RoundTrip.antt =====
-- plugins/clipboard/clipboard_backend.c: a text that is copied and then pasted.
use lepusa.Base.{
  ℕ, ◌+◌, ◌*◌, true, [], ◌∷◌, ◌++◌, ◌≡◌, inl, inr, refl, Option, none, some, arith, ◌==◌,
  Bool-cases, length, Bytes, codes, ℤ, pos, negsuc,
}
use lepusa.CString.{c_str}
use lepusa.Clipboard.{
  Platform, macos, linux, windows, other, System, packet, read_command, write_command,
  paste_command, copy_command, windows_data, windows_read_text, windows_write_text, read_text,
  write_text,
}
use lepusa.Pipe.{output-whole}
use lepusa.Utf8.{IsUtf8}

-- What the commands promise that copy and paste: one that took all of a text and succeeds has made it
-- the text on the clipboard, and the other one prints the text on the clipboard.
pub record CopiesByPipe (sys : System) (platform : Platform) : Type 0 where
  pub on_clipboard : sys.Desk → Option Bytes
  pub copies :
      (text : Bytes) (desk : sys.Desk)
      → (sys.write_pipe (copy_command platform) text desk).1 ≡ some (length text, pos 0)
      → on_clipboard (sys.write_pipe (copy_command platform) text desk).0 ≡ some text
  pub pastes :
      (text : Bytes) (desk : sys.Desk)
      → on_clipboard desk ≡ some text
      → sys.read_pipe (paste_command platform) desk
        ≡ some (record { output = text; status = pos 0 })

-- What Windows promises: the data that was set is there and can be read, and well-formed UTF-8 comes
-- back from the wide characters that it is turned into, up to its first NUL.
pub record CopiesByData (sys : System) : Type 0 where
  pub stays :
      (wide : Bytes) (desk : sys.Desk)
      → (sys.set_clipboard_data wide desk).1 ≡ true
      → let after = (sys.set_clipboard_data wide desk).0 in
        (sys.opens after ≡ true) × (sys.locks after ≡ true) × (sys.clipboard_data after ≡ some wide)
  pub decodes :
      (text : Bytes) → IsUtf8 text → sys.utf8_of (sys.wide_of text ++ 0 ∷ []) ≡ some (c_str text)

-- The texts that can be copied.
abbrev pub IsCopied : Platform → Bytes → Type 0
IsCopied windows text = IsUtf8 text
IsCopied platform text = Unit {0}

-- What of a text is pasted.
abbrev pub pasted : Platform → Bytes → Bytes
pasted windows text = c_str text
pasted platform text = text

write_command-done :
    (len : ℕ) (wrote : Option (ℕ × ℤ)) → write_command len wrote ≡ 0 → wrote ≡ some (len, pos 0)
unfolding write_command
write_command-done len none done = absurd (omega (arith, done))
write_command-done len (some (written, negsuc n)) done = ground (arith, done)
write_command-done len (some (written, pos n)) done =
    let all : written ≡ len = ground (arith, done) in
    let fine : n ≡ 0 = ground (arith, done) in rw (all, fine) refl

c_str-c_str : (text : Bytes) → c_str (c_str text) ≡ c_str text
unfolding c_str
c_str-c_str [] = refl
c_str-c_str (c ∷ text) = elim (Bool-cases (c == 0)) [
  | inl ends ↦ rw ends refl
  | inr goes ↦ rw goes rw (goes, c_str-c_str text) refl
]

read_command-printed :
    (text : Bytes) → read_command (some (record { output = text; status = pos 0 })) ≡ some text
unfolding read_command
read_command-printed text = (output-whole text).1

module _ (sys : System) where
  open sys use {Desk, write_pipe, set_clipboard_data, allocates, opens, wide_of, empty_clipboard}

  abbrev Pastes : Platform → Bytes → Desk → Type 0
  Pastes platform text after =
      read_text sys platform after ≡ packet (codes "ok") (pasted platform text)

  macos-Pastes :
      (copies : CopiesByPipe sys macos) (text : Bytes) (desk : Desk)
      → (write_text sys macos (some text) desk).1 ≡ 0
      → Pastes macos text (write_text sys macos (some text) desk).0
  unfolding read_text write_text
  macos-Pastes copies text desk done =
      let wrote =
        write_command-done (length text) (write_pipe (copy_command macos) text desk).1 done in
      let there = copies.copies text desk wrote in
      let after = (write_pipe (copy_command macos) text desk).0 in
      rw (copies.pastes text after there, read_command-printed text) refl

  linux-Pastes :
      (copies : CopiesByPipe sys linux) (text : Bytes) (desk : Desk)
      → (write_text sys linux (some text) desk).1 ≡ 0
      → Pastes linux text (write_text sys linux (some text) desk).0
  unfolding read_text write_text
  linux-Pastes copies text desk done =
      let wrote =
        write_command-done (length text) (write_pipe (copy_command linux) text desk).1 done in
      let there = copies.copies text desk wrote in
      let after = (write_pipe (copy_command linux) text desk).0 in
      rw (copies.pastes text after there, read_command-printed text) refl

  windows-Pastes :
      (copies : CopiesByData sys) (text : Bytes) (desk : Desk)
      → IsUtf8 text
      → (write_text sys windows (some text) desk).1 ≡ 0
      → Pastes windows text (write_text sys windows (some text) desk).0
  unfolding read_text write_text windows_write_text windows_read_text windows_data
  windows-Pastes copies text desk valid done =
      let wide = wide_of text in
      let put = set_clipboard_data (wide ++ 0 ∷ []) (empty_clipboard desk) in
      elim (Bool-cases (allocates ((length wide + 1) * 2) desk)) [
        | inr full ↦ ground (arith, rw full at done)
        | inl made ↦ elim (Bool-cases (opens desk)) [
          | inr busy ↦ ground (arith, rw (made, busy) at done)
          | inl opened ↦ elim (Bool-cases put.1) [
            | inr refused ↦ ground (arith, rw (made, opened, refused) at done)
            | inl set_ok ↦
                let (again, locked, there) =
                  copies.stays (wide ++ 0 ∷ []) (empty_clipboard desk) set_ok in
                rw (made, opened) rw (again, there) rw
                  (locked, copies.decodes text valid, c_str-c_str text) refl
          ]
        ]
      ]

-- What the clipboard must do: the commands on Linux and macOS, and the functions on Windows.
abbrev pub Copies : System → Platform → Type 0
Copies sys windows = CopiesByData sys
Copies sys platform = CopiesByPipe sys platform

pub write_text-read_text :
    (sys : System) (platform : Platform) (text : Bytes) (desk : sys.Desk)
    → Copies sys platform
    → IsCopied platform text
    → (write_text sys platform (some text) desk).1 ≡ 0
    → read_text sys platform (write_text sys platform (some text) desk).0
      ≡ packet (codes "ok") (pasted platform text)
write_text-read_text sys macos text desk copies valid done = macos-Pastes sys copies text desk done
write_text-read_text sys linux text desk copies valid done = linux-Pastes sys copies text desk done
write_text-read_text sys windows text desk copies valid done =
    windows-Pastes sys copies text desk valid done
write_text-read_text sys other text desk copies valid done =
    unfold write_text in absurd (omega (arith, done))
