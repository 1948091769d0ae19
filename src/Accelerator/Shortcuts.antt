-- ===== src/Accelerator/Shortcuts.antt =====
-- runtime/linux/linux_backend.c: what parse_accelerator reads in a shortcut.
use mathlib.Core.List.{foldl}
use lepusa.Accelerator.Keys.{KeyValue, accelerator_keyval-KeyValue}
use lepusa.Accelerator.Names.{
  Modifier, shift, control, alt, super, Names, modifier_names, bit_of, accelerator_modifier-Names,
  accelerator_modifier-unknown,
}
use lepusa.Accelerator.Words.{Spelled, lower, trim_range-Spelled}
use lepusa.Accelerator.Parse.{
  IsPart, join_parts, all_modifiers, parse_key, parse_accelerator-all_modifiers,
}
use lepusa.Accelerator.{accelerator_keyval, or_bit, parse_accelerator}
use lepusa.Base.{
  ℕ, ◌+◌, ◌<◌, Bool, true, false, List, [], ◌∷◌, ◌++◌, ◌≡◌, ◌≢◌, ◌⊎◌, inl, inr, refl, ap, ◌∙◌,
  Option, none, some, arith, ◌==◌, if◌then◌else◌, ◌>>=◌, length, length-append, All, Bytes,
}
use lepusa.CString.{trim_range}

-- Which modifiers are held.
pub record Held : Type 0 where
  pub shift_held : Bool
  pub control_held : Bool
  pub alt_held : Bool
  pub super_held : Bool

abbrev pub nothing_held : Held
nothing_held = record {
  shift_held = false;
  control_held = false;
  alt_held = false;
  super_held = false;
}

abbrev pub hold : Held → Modifier → Held
hold held shift = record held { shift_held = true }
hold held control = record held { control_held = true }
hold held alt = record held { alt_held = true }
hold held super = record held { super_held = true }

abbrev bit_if : Bool → Modifier → ℕ
bit_if true m = bit_of m
bit_if false m = 0

-- The mask: the bits of the modifiers that are held, each once.
abbrev pub mask_of : Held → ℕ
mask_of held =
    bit_if held.shift_held shift
    + bit_if held.control_held control
    + bit_if held.alt_held alt
    + bit_if held.super_held super

bit_if-cases : (b : Bool) (m : Modifier) → (bit_if b m ≡ 0) ⊎ (bit_if b m ≡ bit_of m)
bit_if-cases true m = inr refl
bit_if-cases false m = inl refl

hold-or_bit :
    (held : Held) (m : Modifier) → or_bit (mask_of held) (bit_of m) ≡ mask_of (hold held m)
unfolding or_bit
hold-or_bit held m = go m held.shift_held held.control_held held.alt_held held.super_held
  where
    go :
        (m : Modifier) (s c a u : Bool)
        → let held : Held = record {
          shift_held = s;
          control_held = c;
          alt_held = a;
          super_held = u;
        } in
          or_bit (mask_of held) (bit_of m) ≡ mask_of (hold held m)
    go shift true c a u =
        ground (arith, bit_if-cases c control, bit_if-cases a alt, bit_if-cases u super)
    go shift false c a u =
        ground (arith, bit_if-cases c control, bit_if-cases a alt, bit_if-cases u super)
    go control s true a u =
        ground (arith, bit_if-cases s shift, bit_if-cases a alt, bit_if-cases u super)
    go control s false a u =
        ground (arith, bit_if-cases s shift, bit_if-cases a alt, bit_if-cases u super)
    go alt s c true u =
        ground (arith, bit_if-cases s shift, bit_if-cases c control, bit_if-cases u super)
    go alt s c false u =
        ground (arith, bit_if-cases s shift, bit_if-cases c control, bit_if-cases u super)
    go super s c a true =
        ground (arith, bit_if-cases s shift, bit_if-cases c control, bit_if-cases a alt)
    go super s c a false =
        ground (arith, bit_if-cases s shift, bit_if-cases c control, bit_if-cases a alt)

-- What the modifiers of a shortcut are, none if one of them is unknown. Their case does not matter.
pub data Reads : List Bytes → Option (List Modifier) → Type 0 where
  nothing : Reads [] (some [])
  known :
      {text : Bytes} {texts : List Bytes} {m : Modifier} {ms : List Modifier} (word name : Bytes)
      → Spelled text word
      → Names m name
      → lower word ≡ name
      → Reads texts (some ms)
      → Reads (text ∷ texts) (some (m ∷ ms))
  unknown :
      {text : Bytes} {texts : List Bytes} (word : Bytes)
      → Spelled text word
      → All (λ name. lower word ≢ name) modifier_names
      → Reads (text ∷ texts) none
  unknown_behind :
      {text : Bytes} {texts : List Bytes} {m : Modifier} (word name : Bytes)
      → Spelled text word
      → Names m name
      → lower word ≡ name
      → Reads texts none
      → Reads (text ∷ texts) none

abbrev masked : Held → Option (List Modifier) → Option ℕ
masked held none = none
masked held (some ms) = some (mask_of (foldl hold held ms))

all_modifiers-Reads :
    (held : Held) (texts : List Bytes) (read : Option (List Modifier))
    → Reads texts read
    → all_modifiers texts (mask_of held) ≡ masked held read
all_modifiers-Reads held texts read nothing = refl
all_modifiers-Reads held texts read (known {text} {texts = behind} {m} {ms} word name h n e r) =
    let first = accelerator_modifier-Names m name text word (mask_of held) h n e in
    ap (λ (o : Option ℕ). o >>= all_modifiers behind) first
    ∙ ap (all_modifiers behind) (hold-or_bit held m)
    ∙ all_modifiers-Reads (hold held m) behind (some ms) r
all_modifiers-Reads held texts read (unknown {text} {texts = behind} word h u) =
    ap (λ (o : Option ℕ). o >>= all_modifiers behind)
      (accelerator_modifier-unknown text word (mask_of held) h u)
all_modifiers-Reads held texts read (unknown_behind {text} {texts = behind} {m} word name h n e r) =
    let first = accelerator_modifier-Names m name text word (mask_of held) h n e in
    ap (λ (o : Option ℕ). o >>= all_modifiers behind) first
    ∙ ap (all_modifiers behind) (hold-or_bit held m)
    ∙ all_modifiers-Reads (hold held m) behind none r

-- A shortcut that has a key, if the key has a value, and the modifiers that are held.
abbrev pub shortcut : Option (List Modifier) → ℕ → Option (ℕ × ℕ)
shortcut none value = none
shortcut (some ms) value =
    if value == 0 then none else some (value, mask_of (foldl hold nothing_held ms))

shortcut-masked :
    (read : Option (List Modifier)) (value : ℕ)
    → (masked nothing_held read >>= λ mask. if value == 0 then none else some (value, mask))
      ≡ shortcut read value
shortcut-masked none value = refl
shortcut-masked (some ms) value = refl

Spelled-length : {text word : Bytes} → Spelled text word → 0 < length text
Spelled-length {text} {word} h = omega (
  arith,
  ap length h.splits,
  length-append h.left (word ++ h.right),
  length-append word h.right,
  h.nonempty,
)

-- A shortcut of words joined by `+`, each with any blanks around it and none within, is read as the value
-- of its last word, the key, and the bits of the modifiers before it, each bit once however often its
-- modifier is named; it is refused if a modifier is unknown or the key has the value 0. The names of
-- modifiers and of keys are read in any case. A key of one character is that character in lower case, and
-- one with no value of its own is looked up by the toolkit.
pub parse_accelerator_complete :
    (keyval_from_name : Option (Bytes → ℕ)) (texts : List Bytes) (key word : Bytes)
    (read : Option (List Modifier)) (value : ℕ)
    → All IsPart texts
    → IsPart key
    → Reads texts read
    → Spelled key word
    → KeyValue keyval_from_name word value
    → parse_accelerator keyval_from_name (join_parts texts key) ≡ shortcut read value
unfolding parse_key
parse_accelerator_complete f texts key word read value parts part reads spelled valued =
    let keyed : accelerator_keyval f (trim_range key) ≡ value =
      ap (accelerator_keyval f) (trim_range-Spelled spelled)
      ∙ accelerator_keyval-KeyValue f word value valued in
    parse_accelerator-all_modifiers f texts key parts (Spelled-length spelled) part
    ∙ ap (λ (o : Option ℕ). o >>= parse_key f key)
        (all_modifiers-Reads nothing_held texts read reads)
    ∙ ap (λ (v : ℕ). masked nothing_held read >>= λ mask. if v == 0 then none else some (v, mask))
        keyed
    ∙ shortcut-masked read value
