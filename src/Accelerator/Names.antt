-- ===== src/Accelerator/Names.antt =====
-- runtime/linux/linux_backend.c: the modifiers of accelerator_modifier by their names.
use lepusa.Accelerator.Words.{Spelled, trim_range-Spelled, lower, range_iequals-lower, differs}
use lepusa.Accelerator.{accelerator_modifier, modifier_bit, or_bit}
use lepusa.Base.{
  ℕ, ◌<◌, false, ◌||◌, List, [], ◌∷◌, ◌≡◌, ◌≢◌, refl, ap, ◌∙◌, Option, none, some, arith, ◌==◌,
  if◌then◌else◌, ◌>>=◌, length, All, Bytes, codes,
}
use lepusa.CString.{to_lower, c_str, trim_range, strcmp_eq}

pub data Modifier : Type 0 where
  shift control alt super : Modifier

-- The names of a modifier, in lower case.
pub data Names : Modifier → Bytes → Type 0 where
  shift_name : Names shift (codes "shift")
  ctrl_name : Names control (codes "ctrl")
  control_name : Names control (codes "control")
  cmdorctrl_name : Names control (codes "cmdorctrl")
  alt_name : Names alt (codes "alt")
  option_name : Names alt (codes "option")
  cmd_name : Names super (codes "cmd")
  command_name : Names super (codes "command")
  super_name : Names super (codes "super")
  meta_name : Names super (codes "meta")

abbrev pub modifier_names : List Bytes
modifier_names =
    codes "shift"
    ∷ codes "ctrl"
    ∷ codes "control"
    ∷ codes "cmdorctrl"
    ∷ codes "alt"
    ∷ codes "option"
    ∷ codes "cmd"
    ∷ codes "command"
    ∷ codes "super"
    ∷ codes "meta"
    ∷ []

-- The bits that GDK has for them.
abbrev pub bit_of : Modifier → ℕ
bit_of shift = 1
bit_of control = 4
bit_of alt = 8
bit_of super = 67108864

-- `modifier_bit` of a name in lower case.
bit_of_name : Bytes → Option ℕ
unfolding strcmp_eq
bit_of_name name =
    if strcmp_eq name (codes "cmd")
      || strcmp_eq name (codes "command")
      || strcmp_eq name (codes "super")
      || strcmp_eq name (codes "meta")
    then some 67108864
    else if strcmp_eq name (codes "cmdorctrl")
        || strcmp_eq name (codes "ctrl")
        || strcmp_eq name (codes "control")
    then some 4
    else if strcmp_eq name (codes "alt") || strcmp_eq name (codes "option")
    then some 8
    else if strcmp_eq name (codes "shift")
    then some 1
    else none

modifier_bit-lower : (word : Bytes) → 0 < length word → modifier_bit word ≡ bit_of_name (lower word)
unfolding modifier_bit bit_of_name to_lower c_str
modifier_bit-lower word long =
    let there : (length word == 0) ≡ false = ground (arith, long) in
    rw there (simp (range_iequals-lower) refl)

bit_of_name-Names :
    (m : Modifier) (name word : Bytes)
    → Names m name
    → word ≡ name
    → bit_of_name word ≡ some (bit_of m)
unfolding bit_of_name strcmp_eq
bit_of_name-Names m name word n e = ap bit_of_name e ∙ known m name n
  where
    known : (m : Modifier) (name : Bytes) → Names m name → bit_of_name name ≡ some (bit_of m)
    known m name shift_name = refl
    known m name ctrl_name = refl
    known m name control_name = refl
    known m name cmdorctrl_name = refl
    known m name alt_name = refl
    known m name option_name = refl
    known m name cmd_name = refl
    known m name command_name = refl
    known m name super_name = refl
    known m name meta_name = refl

bit_of_name-unknown :
    (word : Bytes) → All (λ name. word ≢ name) modifier_names → bit_of_name word ≡ none
unfolding bit_of_name
bit_of_name-unknown word (n1, (n2, (n3, (n4, (n5, (n6, (n7, (n8, (n9, (n10, _)))))))))) =
    rw
      (
        differs word (codes "shift") n1,
        differs word (codes "ctrl") n2,
        differs word (codes "control") n3,
        differs word (codes "cmdorctrl") n4,
        differs word (codes "alt") n5,
        differs word (codes "option") n6,
        differs word (codes "cmd") n7,
        differs word (codes "command") n8,
        differs word (codes "super") n9,
        differs word (codes "meta") n10,
      )
      refl

pub accelerator_modifier-Names :
    (m : Modifier) (name text word : Bytes) (mask : ℕ)
    → Spelled text word
    → Names m name
    → lower word ≡ name
    → accelerator_modifier (trim_range text) mask ≡ some (or_bit mask (bit_of m))
unfolding accelerator_modifier
accelerator_modifier-Names m name text word mask h n e =
    let bit = modifier_bit-lower word h.nonempty ∙ bit_of_name-Names m name (lower word) n e in
    ap (λ (w : Bytes). accelerator_modifier w mask) (trim_range-Spelled h)
    ∙ ap (λ (o : Option ℕ). o >>= λ b. some (or_bit mask b)) bit

pub accelerator_modifier-unknown :
    (text word : Bytes) (mask : ℕ)
    → Spelled text word
    → All (λ name. lower word ≢ name) modifier_names
    → accelerator_modifier (trim_range text) mask ≡ none
unfolding accelerator_modifier
accelerator_modifier-unknown text word mask h unknown =
    let bit = modifier_bit-lower word h.nonempty ∙ bit_of_name-unknown (lower word) unknown in
    ap (λ (w : Bytes). accelerator_modifier w mask) (trim_range-Spelled h)
    ∙ ap (λ (o : Option ℕ). o >>= λ b. some (or_bit mask b)) bit
