-- ===== src/Utf8.antt =====
-- The texts that MultiByteToWideChar takes without a replacement character: well-formed UTF-8.
use lepusa.Base.{ℕ, ◌≤◌, ◌<◌, [], ◌∷◌, ◌++◌, ◌≡◌, ◌⊎◌, arith, All, Bytes}

abbrev pub IsTail : ℕ → Type 0
IsTail c = (128 ≤ c) × (c < 192)

-- The first two bytes of three, and of four: neither overlong, nor a surrogate, nor too large.
abbrev pub IsThree : ℕ → ℕ → Type 0
IsThree a b =
    ((a ≡ 224) × (160 ≤ b) × (b < 192))
    ⊎ (((225 ≤ a) × (a < 240) × ((a < 237) ⊎ (238 ≤ a)) × IsTail b)
        ⊎ ((a ≡ 237) × (128 ≤ b) × (b < 160)))

abbrev pub IsFour : ℕ → ℕ → Type 0
IsFour a b =
    ((a ≡ 240) × (144 ≤ b) × (b < 192))
    ⊎ (((241 ≤ a) × (a < 244) × IsTail b) ⊎ ((a ≡ 244) × (128 ≤ b) × (b < 144)))

pub data IsUtf8 : Bytes → Type 0 where
  nil : IsUtf8 []
  ascii : (a : ℕ) {s : Bytes} → a < 128 → IsUtf8 s → IsUtf8 (a ∷ s)
  two : (a b : ℕ) {s : Bytes} → 194 ≤ a → a < 224 → IsTail b → IsUtf8 s → IsUtf8 (a ∷ b ∷ s)
  three : (a b c : ℕ) {s : Bytes} → IsThree a b → IsTail c → IsUtf8 s → IsUtf8 (a ∷ b ∷ c ∷ s)
  four :
      (a b c d : ℕ) {s : Bytes}
      → IsFour a b
      → IsTail c
      → IsTail d
      → IsUtf8 s
      → IsUtf8 (a ∷ b ∷ c ∷ d ∷ s)

pub append-IsUtf8 : {s t : Bytes} → IsUtf8 s → IsUtf8 t → IsUtf8 (s ++ t)
append-IsUtf8 nil h = h
append-IsUtf8 (ascii a p s) h = ascii a p (append-IsUtf8 s h)
append-IsUtf8 (two a b p q r s) h = two a b p q r (append-IsUtf8 s h)
append-IsUtf8 (three a b c p q s) h = three a b c p q (append-IsUtf8 s h)
append-IsUtf8 (four a b c d p q r s) h = four a b c d p q r (append-IsUtf8 s h)

pub ascii-IsUtf8 : (s : Bytes) → All (λ c. c < 128) s → IsUtf8 s
ascii-IsUtf8 [] h = nil
ascii-IsUtf8 (c ∷ s) (p, h) = ascii c p (ascii-IsUtf8 s h)

-- What stands behind a byte below 128.
pub behind_ascii : (u : Bytes) (c : ℕ) (t : Bytes) → IsUtf8 u → u ≡ c ∷ t → c < 128 → IsUtf8 t
behind_ascii u c t nil e p = cc
behind_ascii u c t (ascii a {s} q h) e p = let same : s ≡ t = cc in rw (← same) h
behind_ascii u c t (two a b q r tail h) e p = let same : a ≡ c = cc in absurd (omega (arith, same))
behind_ascii u c t (three a b d q tail h) e p =
    let same : a ≡ c = cc in absurd (omega (arith, same, q))
behind_ascii u c t (four a b d f q tail tail' h) e p =
    let same : a ≡ c = cc in absurd (omega (arith, same, q))
