-- ===== src/CString/Laws.antt =====
-- runtime/linux/linux_backend.c: lemmas about the comparisons and the copies of CString.
use lepusa.Base.{
  ℕ, ◌-◌, ◌<◌, true, [], ◌∷◌, ◌++◌, ◌≡◌, ◌≢◌, ◌↔◌, refl, arith, length, length-take, All, Bytes,
}
use lepusa.CString.{c_str, mem_eq, range_equals, copy_label_range, strcmp_eq}

pub c_str-no_nul : (s : Bytes) → All (λ c. c ≢ 0) s → c_str s ≡ s
unfolding c_str
c_str-no_nul [] h = refl
c_str-no_nul (c ∷ s) h = ground (arith, c_str-no_nul s h.1)

pub mem_eq_self : (s t : Bytes) → mem_eq (length s) (s ++ t) s ≡ true
unfolding mem_eq
mem_eq_self [] t = refl
mem_eq_self (c ∷ s) t = ground (arith, mem_eq_self s t)

pub mem_eq_sound : (a b : Bytes) → length a ≡ length b → mem_eq (length b) a b ≡ true → a ≡ b
unfolding mem_eq
mem_eq_sound [] [] l h = refl
mem_eq_sound [] (y ∷ b) l h = absurd (omega arith)
mem_eq_sound (x ∷ a) [] l h = absurd (omega arith)
mem_eq_sound (x ∷ a) (y ∷ b) l h = ground (arith, mem_eq_sound a b)

pub mem_eq_refl : (a : Bytes) → mem_eq (length a) a a ≡ true
unfolding mem_eq
mem_eq_refl [] = refl
mem_eq_refl (c ∷ s) = ground (arith, mem_eq_refl s)

-- A range equals a literal exactly if it holds the literal's bytes.
pub range_equals_iff : (v l : Bytes) → (range_equals v l ≡ true) ↔ (v ≡ c_str l)
unfolding range_equals
range_equals_iff v l = (
  λ h. mem_eq_sound v (c_str l) (ground arith) (ground arith),
  λ e. rw e (ground (arith, mem_eq_refl (c_str l))),
)

pub copy_label_range-length :
    (n : ℕ) (label : Bytes) → 0 < n → length (copy_label_range n label) < n
unfolding copy_label_range
copy_label_range-length n label h = ground (arith, length-take (n - 1) label)

pub copy_label_range_short :
    (n : ℕ) (label : Bytes) → length label < n → copy_label_range n label ≡ label
unfolding copy_label_range
copy_label_range_short n label h = ground arith

pub strcmp_eq_iff : (a b : Bytes) → (strcmp_eq a b ≡ true) ↔ (a ≡ b)
unfolding strcmp_eq
strcmp_eq_iff (x ∷ a) (y ∷ b) = ground (arith, strcmp_eq_iff a b)
strcmp_eq_iff _ _ = ground arith
