-- ===== src/Accelerator/Words.antt =====
-- runtime/linux/linux_backend.c: words with blanks around them, and names in any case.
use lepusa.Base.{
  ℕ, suc, ◌<◌, true, false, [], ◌∷◌, ◌++◌, ◌≡◌, ◌≢◌, inl, inr, refl, sym, ap, ◌∙◌, arith, ◌==◌,
  Bool-cases, length, All, Bytes,
}
use lepusa.CString.Laws.{strcmp_eq_iff}
use lepusa.CString.{
  is_space, to_lower, c_str, iequal, range_iequals, trim_start, keep_before, trim_end, trim_range,
  strcmp_eq,
}

abbrev pub IsBlank : Bytes → Type 0
IsBlank = All (λ c. is_space c ≡ true)

-- A word without blanks that stands in a text with blanks around it.
pub record Spelled (text word : Bytes) : Type 0 where
  pub left : Bytes
  pub right : Bytes
  pub splits : text ≡ left ++ (word ++ right)
  pub blank_left : IsBlank left
  pub blank_right : IsBlank right
  pub no_blank : All (λ c. is_space c ≡ false) word
  pub nonempty : 0 < length word

trim_start-blank :
    (left : Bytes) (c : ℕ) (s : Bytes)
    → IsBlank left
    → is_space c ≡ false
    → trim_start (left ++ (c ∷ s)) ≡ c ∷ s
unfolding trim_start
trim_start-blank [] c s h e = rw e refl
trim_start-blank (d ∷ left) c s (hd, h) e = rw hd (trim_start-blank left c s h e)

trim_end-blank : (right : Bytes) → IsBlank right → trim_end right ≡ []
unfolding trim_end keep_before
trim_end-blank [] h = refl
trim_end-blank (c ∷ right) (hc, h) = rw (trim_end-blank right h, hc) refl

trim_end-word :
    (word right : Bytes)
    → All (λ c. is_space c ≡ false) word
    → IsBlank right
    → trim_end (word ++ right) ≡ word
unfolding trim_end keep_before
trim_end-word [] right h blank = trim_end-blank right blank
trim_end-word (c ∷ []) right (hc, h) blank = rw (trim_end-blank right blank, hc) refl
trim_end-word (c ∷ d ∷ word) right (hc, h) blank =
    ap (keep_before c) (trim_end-word (d ∷ word) right h blank)

trim_range-split :
    (left word right : Bytes)
    → IsBlank left
    → IsBlank right
    → All (λ c. is_space c ≡ false) word
    → 0 < length word
    → trim_range (left ++ (word ++ right)) ≡ word
unfolding trim_range
trim_range-split left [] right hl hr h long = absurd (omega arith)
trim_range-split left (c ∷ word) right hl hr h long =
    ap trim_end (trim_start-blank left c (word ++ right) hl h.0)
    ∙ trim_end-word (c ∷ word) right h hr

pub trim_range-Spelled : {text word : Bytes} → Spelled text word → trim_range text ≡ word
trim_range-Spelled {word} h =
    ap trim_range h.splits
    ∙ trim_range-split h.left word h.right h.blank_left h.blank_right h.no_blank h.nonempty

abbrev pub lower : Bytes → Bytes
lower [] = []
lower (c ∷ s) = to_lower c ∷ lower s

iequal-lower : (s t : Bytes) → length s ≡ length t → iequal s t ≡ strcmp_eq (lower s) (lower t)
unfolding iequal strcmp_eq
iequal-lower [] [] e = refl
iequal-lower [] (d ∷ t) e = absurd (omega (arith, e))
iequal-lower (c ∷ s) [] e = absurd (omega (arith, e))
iequal-lower (c ∷ s) (d ∷ t) e = rw (iequal-lower s t (omega (arith, e))) refl

pub length-lower : (s : Bytes) → length (lower s) ≡ length s
length-lower [] = refl
length-lower (c ∷ s) = ap suc (length-lower s)

strcmp_eq-length :
    (s t : Bytes) → (length s == length t) ≡ false → strcmp_eq (lower s) (lower t) ≡ false
strcmp_eq-length s t differs = elim (Bool-cases (strcmp_eq (lower s) (lower t))) [
  | inr other ↦ other
  | inl same ↦
      let equal = ap length ((strcmp_eq_iff (lower s) (lower t)).0 same) in
      absurd (ground (arith, equal, length-lower s, length-lower t, differs))
]

-- A name is compared in lower case.
pub range_iequals-lower : (s t : Bytes) → range_iequals s t ≡ strcmp_eq (lower s) (lower (c_str t))
unfolding range_iequals
range_iequals-lower s t = elim (Bool-cases (length s == length (c_str t))) [
  | inl same ↦ rw same (iequal-lower s (c_str t) (ground (arith, same)))
  | inr differs ↦ rw differs (sym (strcmp_eq-length s (c_str t) differs))
]

pub differs : (s t : Bytes) → s ≢ t → strcmp_eq s t ≡ false
differs s t other = elim (Bool-cases (strcmp_eq s t)) [
  | inl same ↦ absurd (other ((strcmp_eq_iff s t).0 same))
  | inr e ↦ e
]
