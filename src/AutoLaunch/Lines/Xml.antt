-- ===== src/AutoLaunch/Lines/Xml.antt =====
-- plugins/auto_launch/auto_launch_backend.c: how xml_escape is read back.
use lepusa.AutoLaunch.Lines.{xml_entity, xml_escape}
use lepusa.Base.{
  ℕ, zero, suc, ◌<◌, List, [], ◌∷◌, ◌++◌, ◌≡◌, inl, inr, refl, Option, none, some, arith, ◌==◌,
  ==_iff, if◌then◌else◌, Bool-cases, ◌>>=◌, length, Bytes, codes,
}

-- The text behind a prefix.
abbrev behind : Bytes → Bytes → Option Bytes
behind [] s = some s
behind (p ∷ ps) [] = none
behind (p ∷ ps) (c ∷ s) = if c == p then behind ps s else none

abbrev entity : List (Bytes × ℕ) → Bytes → Option (ℕ × Bytes)
entity [] s = none
entity ((name, c) ∷ more) s = elim (behind name s) [
  | some rest ↦ some (c, rest)
  | none ↦ entity more s
]

-- The entities that XML defines of itself.
abbrev entities : List (Bytes × ℕ)
entities =
    (codes "amp;", b'&')
    ∷ (codes "lt;", b'<')
    ∷ (codes "gt;", b'>')
    ∷ (codes "quot;", b'"')
    ∷ (codes "apos;", b'\'')
    ∷ []

-- The characters that a text in an XML document stands for, up to the tag behind it; a round for each.
unfoldable pub xml_text : ℕ → Bytes → Option (Bytes × Bytes)
xml_text zero s = none
xml_text (suc n) [] = some ([], [])
xml_text (suc n) (c ∷ s) =
    let more = xml_text n s >>= λ (text, rest). some (c ∷ text, rest) in
    let referred =
      entity entities s >>= λ (d, s'). xml_text n s' >>= λ (text, rest). some (d ∷ text, rest) in
    if c == b'<' then some ([], c ∷ s) else if c == b'&' then referred else more

-- A text that is escaped is read back as itself, and ends where the tag behind it begins.
pub xml_text-xml_escape :
    (rounds : ℕ) (text rest : Bytes)
    → length text < rounds
    → xml_text rounds (xml_escape text ++ (b'<' ∷ rest)) ≡ some (text, b'<' ∷ rest)
unfolding xml_text xml_escape xml_entity
xml_text-xml_escape zero text rest h = absurd (omega arith)
xml_text-xml_escape (suc n) [] rest h = refl
xml_text-xml_escape (suc n) (c ∷ text) rest h =
    let more = xml_text-xml_escape n text rest (omega arith) in
    elim (Bool-cases (c == b'&')) [
      | inl e ↦ let same : c ≡ b'&' = (==_iff c b'&').0 e in rw (same, more) refl
      | inr amp ↦ elim (Bool-cases (c == b'<')) [
        | inl e ↦ let same : c ≡ b'<' = (==_iff c b'<').0 e in rw (same, more) refl
        | inr lt ↦ elim (Bool-cases (c == b'>')) [
          | inl e ↦ let same : c ≡ b'>' = (==_iff c b'>').0 e in rw (same, more) refl
          | inr gt ↦ elim (Bool-cases (c == b'"')) [
            | inl e ↦ let same : c ≡ b'"' = (==_iff c b'"').0 e in rw (same, more) refl
            | inr quot ↦ elim (Bool-cases (c == b'\'')) [
              | inl e ↦ let same : c ≡ b'\'' = (==_iff c b'\'').0 e in rw (same, more) refl
              | inr apos ↦ rw (amp, lt, gt, quot, apos) (rw (amp, lt, more) refl)
            ]
          ]
        ]
      ]
    ]
