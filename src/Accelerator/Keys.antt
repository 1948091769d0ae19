-- ===== src/Accelerator/Keys.antt =====
-- runtime/linux/linux_backend.c: the values of accelerator_keyval for the keys by their names.
use lepusa.Accelerator.Words.{lower, length-lower, range_iequals-lower, differs}
use lepusa.Accelerator.{accelerator_keyval, named_keyval}
use lepusa.Base.{
  ℕ, ◌≤◌, ◌||◌, List, [], ◌∷◌, ◌≡◌, ◌≢◌, refl, sym, ap, ◌∙◌, Option, none, some, arith,
  if◌then◌else◌, length, All, Bytes, codes,
}
use lepusa.CString.{to_lower, c_str, strcmp_eq}

-- The keys with a value of their own, by their names in lower case.
pub data KeyNames : Bytes → ℕ → Type 0 where
  space_key : KeyNames (codes "space") 0x20
  tab_key : KeyNames (codes "tab") 0xff09
  enter_key : KeyNames (codes "enter") 0xff0d
  return_key : KeyNames (codes "return") 0xff0d
  esc_key : KeyNames (codes "esc") 0xff1b
  escape_key : KeyNames (codes "escape") 0xff1b
  delete_key : KeyNames (codes "delete") 0xffff
  backspace_key : KeyNames (codes "backspace") 0xff08

abbrev pub key_names : List Bytes
key_names =
    codes "space"
    ∷ codes "tab"
    ∷ codes "enter"
    ∷ codes "return"
    ∷ codes "esc"
    ∷ codes "escape"
    ∷ codes "delete"
    ∷ codes "backspace"
    ∷ []

-- What the toolkit knows of a name, 0 for a name that it does not know or if it cannot be asked.
abbrev pub looked_up : Option (Bytes → ℕ) → Bytes → ℕ
looked_up none word = 0
looked_up (some keyval_from_name) word = keyval_from_name (c_str word)

-- The value of a key: a character stands for itself, a letter in lower case.
pub data KeyValue (keyval_from_name : Option (Bytes → ℕ)) (word : Bytes) (value : ℕ) : Type 0 where
  character : (c : ℕ) → word ≡ c ∷ [] → value ≡ to_lower c → KeyValue keyval_from_name word value
  named :
      (name : Bytes)
      → lower word ≡ name
      → KeyNames name value
      → KeyValue keyval_from_name word value
  other :
      2 ≤ length word
      → All (λ name. lower word ≢ name) key_names
      → value ≡ looked_up keyval_from_name word
      → KeyValue keyval_from_name word value

value_of_name : Option (Bytes → ℕ) → Bytes → Bytes → ℕ
unfolding strcmp_eq
value_of_name keyval_from_name word name =
    if strcmp_eq name (codes "space")
    then 0x20
    else if strcmp_eq name (codes "tab")
    then 0xff09
    else if strcmp_eq name (codes "enter") || strcmp_eq name (codes "return")
    then 0xff0d
    else if strcmp_eq name (codes "esc") || strcmp_eq name (codes "escape")
    then 0xff1b
    else if strcmp_eq name (codes "delete")
    then 0xffff
    else if strcmp_eq name (codes "backspace")
    then 0xff08
    else looked_up keyval_from_name word

accelerator_keyval-lower :
    (keyval_from_name : Option (Bytes → ℕ)) (word : Bytes)
    → 2 ≤ length word
    → accelerator_keyval keyval_from_name word ≡ value_of_name keyval_from_name word (lower word)
unfolding accelerator_keyval value_of_name to_lower c_str named_keyval
accelerator_keyval-lower keyval_from_name [] long = absurd (omega arith)
accelerator_keyval-lower keyval_from_name (c ∷ []) long = absurd (omega arith)
accelerator_keyval-lower none (c ∷ d ∷ s) long = simp (range_iequals-lower) refl
accelerator_keyval-lower (some f) (c ∷ d ∷ s) long = simp (range_iequals-lower) refl

value_of_name-KeyNames :
    (keyval_from_name : Option (Bytes → ℕ)) (word name : Bytes) (value : ℕ)
    → KeyNames name value
    → (2 ≤ length name) × (value_of_name keyval_from_name word name ≡ value)
unfolding value_of_name strcmp_eq
value_of_name-KeyNames f word name value space_key = (omega arith, refl)
value_of_name-KeyNames f word name value tab_key = (omega arith, refl)
value_of_name-KeyNames f word name value enter_key = (omega arith, refl)
value_of_name-KeyNames f word name value return_key = (omega arith, refl)
value_of_name-KeyNames f word name value esc_key = (omega arith, refl)
value_of_name-KeyNames f word name value escape_key = (omega arith, refl)
value_of_name-KeyNames f word name value delete_key = (omega arith, refl)
value_of_name-KeyNames f word name value backspace_key = (omega arith, refl)

value_of_name-other :
    (keyval_from_name : Option (Bytes → ℕ)) (word name : Bytes)
    → All (λ n. name ≢ n) key_names
    → value_of_name keyval_from_name word name ≡ looked_up keyval_from_name word
unfolding value_of_name
value_of_name-other keyval_from_name word name (n1, (n2, (n3, (n4, (n5, (n6, (n7, (n8, _)))))))) =
    rw
      (
        differs name (codes "space") n1,
        differs name (codes "tab") n2,
        differs name (codes "enter") n3,
        differs name (codes "return") n4,
        differs name (codes "esc") n5,
        differs name (codes "escape") n6,
        differs name (codes "delete") n7,
        differs name (codes "backspace") n8,
      )
      refl

pub accelerator_keyval-KeyValue :
    (keyval_from_name : Option (Bytes → ℕ)) (word : Bytes) (value : ℕ)
    → KeyValue keyval_from_name word value
    → accelerator_keyval keyval_from_name word ≡ value
unfolding accelerator_keyval
accelerator_keyval-KeyValue f word value (character c e v) = ap (accelerator_keyval f) e ∙ sym v
accelerator_keyval-KeyValue f word value (named name e n) =
    let (long, known) = value_of_name-KeyNames f word name value n in
    accelerator_keyval-lower f word (omega (arith, ap length e, length-lower word, long))
    ∙ ap (value_of_name f word) e
    ∙ known
accelerator_keyval-KeyValue f word value (other long unknown v) =
    accelerator_keyval-lower f word long ∙ value_of_name-other f word (lower word) unknown ∙ sym v
