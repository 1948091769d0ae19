-- ===== src/Accelerator/Parse.antt =====
-- runtime/linux/linux_backend.c: parse_accelerator on parts joined by `+`.
use lepusa.Base.{
  ℕ, zero, suc, ◌≤◌, ◌<◌, List, [], ◌∷◌, ◌++◌, ◌≡◌, ◌≢◌, inl, inr, refl, ap, ◌∙◌, Option, none,
  some, arith, ◌==◌, if◌then◌else◌, Bool-cases, Option-cases, ◌>>=◌, length, length-append, All,
  Bytes,
}
use lepusa.CString.{trim_range}
use lepusa.Accelerator.{
  accelerator_modifier, accelerator_keyval, split_plus, key_result, read_token, parse_parts,
  parse_accelerator,
}

-- A text without `+`.
abbrev pub IsPart : Bytes → Type 0
IsPart = All (λ c. c ≢ b'+')

-- The modifiers and the key, joined by `+`.
abbrev pub join_parts : List Bytes → Bytes → Bytes
join_parts [] key = key
join_parts (m ∷ ms) key = m ++ (b'+' ∷ join_parts ms key)

-- The mask after the modifiers; blanks around each are ignored, and an unknown one is refused.
abbrev pub all_modifiers : List Bytes → ℕ → Option ℕ
all_modifiers [] mask = some mask
all_modifiers (m ∷ ms) mask = accelerator_modifier (trim_range m) mask >>= all_modifiers ms

split_plus_found : (s rest : Bytes) → IsPart s → split_plus (s ++ (b'+' ∷ rest)) ≡ (s, some rest)
unfolding split_plus
split_plus_found [] rest h = ground arith
split_plus_found (c ∷ s) rest h = ground (arith, split_plus_found s rest h.1)

split_plus_absent : (s : Bytes) → IsPart s → split_plus s ≡ (s, none)
unfolding split_plus
split_plus_absent [] h = refl
split_plus_absent (c ∷ s) h = ground (arith, split_plus_absent s h.1)

module _ (keyval_from_name : Option (Bytes → ℕ)) where
  -- The key alone; without a key value the shortcut is refused.
  unfoldable pub parse_key : Bytes → ℕ → Option (ℕ × ℕ)
  parse_key key mask =
      let keyval = accelerator_keyval keyval_from_name (trim_range key) in
      if keyval == 0 then none else some (keyval, mask)

  no_key : (key : Bytes) → key ≡ [] → accelerator_keyval keyval_from_name key ≡ 0
  unfolding accelerator_keyval
  no_key [] e = refl
  no_key (c ∷ s) e = absurd (ground arith)

  read_token-key :
      (next : ℕ → Bytes → Option (ℕ × ℕ)) (mask : ℕ) (key : Bytes)
      → read_token keyval_from_name next mask (key, none) ≡ parse_key key mask
  unfolding read_token parse_key key_result
  read_token-key next mask key = elim (Bool-cases (length (trim_range key) == 0)) [
    | inl e ↦ rw (e, no_key (trim_range key) (ground arith)) refl
    | inr e ↦ rw e refl
  ]

  read_token-modifier :
      (next : ℕ → Bytes → Option (ℕ × ℕ)) (mask : ℕ) (m part : Bytes)
      → read_token keyval_from_name next mask (m, some part)
        ≡ (accelerator_modifier (trim_range m) mask >>= λ mask'. next mask' part)
  unfolding read_token
  read_token-modifier next mask m part = elim (Bool-cases (length (trim_range m) == 0)) [
    | inl e ↦ rw e refl
    | inr e ↦ rw e refl
  ]

  parse_parts-read_token :
      (fuel mask : ℕ) (s : Bytes)
      → 0 < length s
      → parse_parts keyval_from_name (suc fuel) mask s
        ≡ read_token keyval_from_name (parse_parts keyval_from_name fuel) mask (split_plus s)
  unfolding parse_parts
  parse_parts-read_token fuel mask [] h = absurd (omega arith)
  parse_parts-read_token fuel mask (c ∷ s) h = refl

  parse_parts_complete :
      (fuel mask : ℕ) (ms : List Bytes) (key : Bytes)
      → All IsPart ms
      → 0 < length key
      → IsPart key
      → length (join_parts ms key) ≤ fuel
      → parse_parts keyval_from_name fuel mask (join_parts ms key)
        ≡ (all_modifiers ms mask >>= parse_key key)
  parse_parts_complete zero mask [] key hm h part enough = absurd (omega arith)
  parse_parts_complete zero mask (m ∷ ms) key hm h part enough =
      absurd (omega (arith, length-append m (b'+' ∷ join_parts ms key)))
  parse_parts_complete (suc fuel) mask [] key hm h part enough =
      parse_parts-read_token fuel mask key h
      ∙ ap (read_token keyval_from_name (parse_parts keyval_from_name fuel) mask)
          (split_plus_absent key part)
      ∙ read_token-key (parse_parts keyval_from_name fuel) mask key
  parse_parts_complete (suc fuel) mask (m ∷ ms) key (hm, hms) h part enough =
      let behind = join_parts ms key in
      let next = parse_parts keyval_from_name fuel in
      let measured = length-append m (b'+' ∷ behind) in
      parse_parts-read_token fuel mask (m ++ (b'+' ∷ behind)) (omega (arith, measured))
      ∙ ap (read_token keyval_from_name next mask) (split_plus_found m behind hm)
      ∙ read_token-modifier next mask m behind
      ∙ elim (Option-cases (accelerator_modifier (trim_range m) mask)) [
        | inl e ↦ rw e refl
        | inr (mask', e) ↦
            rw e
              (parse_parts_complete fuel mask' ms key hms h part (omega (arith, enough, measured)))
      ]

  pub parse_accelerator-all_modifiers :
      (ms : List Bytes) (key : Bytes)
      → All IsPart ms
      → 0 < length key
      → IsPart key
      → parse_accelerator keyval_from_name (join_parts ms key)
        ≡ (all_modifiers ms 0 >>= parse_key key)
  unfolding parse_accelerator
  parse_accelerator-all_modifiers ms key hm h part =
      parse_parts_complete (length (join_parts ms key)) 0 ms key hm h part (omega arith)
