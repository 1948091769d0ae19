-- ===== src/Json/Members.antt =====
-- runtime/linux/linux_backend.c: json_find_member_value on objects written without blanks.
use lepusa.Base.{
  ℕ, zero, suc, ◌-◌, ◌<◌, true, false, ◌&&◌, List, [], ◌∷◌, ◌++◌, ◌≡◌, ◌≢◌, ◌⊎◌, inl, inr, refl, ap,
  ◌∙◌, Option, none, some, append_assoc, arith, ◌==◌, if◌then◌else◌, Bool-cases, ◌>>=◌, length,
  length-append, All, Bytes,
}
use lepusa.CString.{is_space, mem_eq, strcmp_eq}
use lepusa.Json.Strings.{IsBody, json_string_end_complete}
use lepusa.Json.{
  json_skip_space, json_string_end, is_delimiter, scalar_end, value_end_at, json_value_end,
  skip_byte, skip_comma, at_member, is_key, find_member_from, json_find_member_value,
}

-- A byte that may start a number, `true`, `false` or `null`.
abbrev IsScalarStart : ℕ → Type 0
IsScalarStart c = (is_space c ≡ false) × (c ≢ b'"') × (c ≢ b'{') × (c ≢ b'[')

-- The text of a string, or of a value with no delimiter in it.
pub data IsValue : Bytes → Type 0 where
  text : {v : Bytes} (body : Bytes) → v ≡ b'"' ∷ (body ++ (b'"' ∷ [])) → IsBody body → IsValue v
  scalar :
      {v : Bytes} (c : ℕ)
      → IsScalarStart c
      → All (λ d. is_delimiter d ≡ false) (c ∷ v)
      → IsValue (c ∷ v)

pub record Member : Type 0 where
  pub key : Bytes
  pub value : Bytes

pub record IsMember (m : Member) : Type 0 where
  pub key_body : IsBody m.key
  pub value_ok : IsValue m.value

abbrev render_member : Member → Bytes → Bytes
render_member m rest = b'"' ∷ (m.key ++ (b'"' ∷ b':' ∷ (m.value ++ rest)))

-- The members after the first, the closing brace and what follows it.
abbrev render_rest : List Member → Bytes → Bytes
render_rest [] after = b'}' ∷ after
render_rest (m ∷ ms) after = b',' ∷ render_member m (render_rest ms after)

-- An object without blanks, and what follows it.
abbrev pub render : List Member → Bytes → Bytes
render [] after = b'{' ∷ b'}' ∷ after
render (m ∷ ms) after = b'{' ∷ render_member m (render_rest ms after)

-- The value of the first member of that name.
abbrev pub first_value : Bytes → List Member → Option Bytes
first_value name [] = none
first_value name (m ∷ ms) = if strcmp_eq m.key name then some m.value else first_value name ms

data Stops : Bytes → Type 0 where
  stops : {d : ℕ} (rest : Bytes) → is_delimiter d ≡ true → Stops (d ∷ rest)

scalar_end_complete :
    (v rest : Bytes)
    → All (λ d. is_delimiter d ≡ false) v
    → Stops rest
    → scalar_end (v ++ rest) ≡ rest
unfolding scalar_end
scalar_end_complete [] _ h (stops rest d) = rw d
scalar_end_complete (c ∷ v) rest (hc, hv) s = rw hc (scalar_end_complete v rest hv s)

skip_space_scalar : (c : ℕ) (s : Bytes) → is_space c ≡ false → json_skip_space (c ∷ s) ≡ c ∷ s
unfolding json_skip_space
skip_space_scalar c s h = rw h

skip_space_quote : (s : Bytes) → json_skip_space (b'"' ∷ s) ≡ b'"' ∷ s
unfolding json_skip_space
skip_space_quote s = refl

value_end_at_scalar :
    (c : ℕ) (s : Bytes) → IsScalarStart c → value_end_at (c ∷ s) ≡ some (scalar_end (c ∷ s))
unfolding value_end_at
value_end_at_scalar c s (blank, q, b, k) = ground arith

value_end_at_quote : (s : Bytes) → value_end_at (b'"' ∷ s) ≡ json_string_end (b'"' ∷ s)
unfolding value_end_at
value_end_at_quote s = refl

json_value_end_lem : (s : Bytes) → json_value_end s ≡ value_end_at (json_skip_space s)
unfolding json_value_end
json_value_end_lem s = refl

-- A value ends at the delimiter behind it, and has no blanks before it.
value_end_complete :
    {v : Bytes} (rest : Bytes)
    → IsValue v
    → Stops rest
    → (json_skip_space (v ++ rest) ≡ v ++ rest) × (json_value_end (v ++ rest) ≡ some rest)
value_end_complete rest (text body e h) s = rw e (
  skip_space_quote _,
  json_value_end_lem _
      ∙ ap value_end_at (skip_space_quote _)
      ∙ value_end_at_quote _
      ∙ rw append_assoc (json_string_end_complete rest h),
)
value_end_complete rest (scalar {v} c start all) s = (
  skip_space_scalar c _ start.0,
  json_value_end_lem _
      ∙ ap value_end_at (skip_space_scalar c (v ++ rest) start.0)
      ∙ value_end_at_scalar c _ start
      ∙ ap some (scalar_end_complete (c ∷ v) rest all s),
)

same_text :
    (key name rest : Bytes)
    → (length key == length name && mem_eq (length name) (key ++ rest) name) ≡ strcmp_eq key name
unfolding mem_eq strcmp_eq
same_text [] [] rest = refl
same_text [] (y ∷ name) rest = ground arith
same_text (x ∷ key) [] rest = ground arith
same_text (x ∷ key) (y ∷ name) rest = ground (arith, same_text key name rest)

-- The loop's comparison of a key is a comparison of texts.
is_key-strcmp_eq :
    (key name after : Bytes)
    → is_key (b'"' ∷ (key ++ (b'"' ∷ after))) after name ≡ strcmp_eq key name
is_key-strcmp_eq key name after =
    let measured : length (b'"' ∷ (key ++ (b'"' ∷ after))) - length after - 2 ≡ length key =
      omega (arith, length-append key (b'"' ∷ after)) in
    unfold is_key in (rw measured (same_text key name (b'"' ∷ after)))

find_member_round :
    (fuel : ℕ) (name cursor : Bytes)
    → find_member_from (suc fuel) name cursor ≡ (
        if at_member (json_skip_space cursor)
        then (json_string_end (json_skip_space cursor) >>= λ key_end.
            skip_byte b':' (json_skip_space key_end) >>= λ after_colon.
            json_value_end (json_skip_space after_colon) >>= λ value_end.
            if is_key (json_skip_space cursor) key_end name
            then some (json_skip_space after_colon, value_end)
            else find_member_from fuel name (skip_comma (json_skip_space value_end)))
        else none)
unfolding find_member_from
find_member_round fuel name cursor = refl

skip_colon : (s : Bytes) → skip_byte b':' (json_skip_space (b':' ∷ s)) ≡ some s
unfolding skip_byte json_skip_space
skip_colon s = refl

at_quote : (s : Bytes) → at_member (b'"' ∷ s) ≡ true
unfolding at_member
at_quote s = refl

find_member_step :
    (fuel : ℕ) (name : Bytes) (m : Member) (rest : Bytes)
    → IsMember m
    → Stops rest
    → find_member_from (suc fuel) name (render_member m rest) ≡ (
        if strcmp_eq m.key name
        then some (m.value ++ rest, rest)
        else find_member_from fuel name (skip_comma (json_skip_space rest)))
find_member_step fuel name m rest h s =
    let (no_blank, ends) = value_end_complete rest h.value_ok s in
    let closed = json_string_end_complete (b':' ∷ (m.value ++ rest)) h.key_body in
    let key = is_key-strcmp_eq m.key name (b':' ∷ (m.value ++ rest)) in
    find_member_round fuel name _
    ∙ rw (skip_space_quote, at_quote, closed, skip_colon, no_blank, ends, key)

-- What the loop does at the separator behind a value.
after_comma : (s : Bytes) → skip_comma (json_skip_space (b',' ∷ s)) ≡ s
unfolding skip_comma json_skip_space
after_comma s = refl

at_end :
    (fuel : ℕ) (name after : Bytes)
    → find_member_from fuel name (skip_comma (json_skip_space (b'}' ∷ after))) ≡ none
unfolding find_member_from
at_end zero name after = refl
at_end (suc fuel) name after = refl

-- The outcome that `first_value` calls for.
abbrev pub Finds : Bytes → List Member → Option (Bytes × Bytes) → Type 0
Finds name ms found =
    ((first_value name ms ≡ none) × (found ≡ none))
    ⊎ ((value : Bytes) × (rest : Bytes) × (first_value name ms ≡ some value)
        × (found ≡ some (value ++ rest, rest)))

find_members :
    (fuel : ℕ) (name after : Bytes) (m : Member) (ms : List Member)
    → All IsMember (m ∷ ms)
    → length ms < fuel
    → Finds name (m ∷ ms) (find_member_from fuel name (render_member m (render_rest ms after)))
find_members zero name after m ms h enough = absurd (omega arith)
find_members (suc fuel) name after m [] (h, _) enough =
    let rest = b'}' ∷ after in
    let step =
      find_member_step fuel name m rest h (stops {d = b'}'} after (unfold is_delimiter in refl)) in
    elim (Bool-cases (strcmp_eq m.key name)) [
      | inl same ↦ inr (m.value, rest, rw same, step ∙ rw same)
      | inr other ↦ inl (rw other, step ∙ rw other (at_end fuel name after))
    ]
find_members (suc fuel) name after m (x ∷ ms) (h, hs) enough =
    let next = render_member x (render_rest ms after) in
    let rest = b',' ∷ next in
    let step =
      find_member_step fuel name m rest h (stops {d = b','} next (unfold is_delimiter in refl)) in
    elim (Bool-cases (strcmp_eq m.key name)) [
      | inl same ↦ inr (m.value, rest, rw same, step ∙ rw same)
      | inr other ↦
          rw (step, other, after_comma) (find_members fuel name after x ms hs (omega arith))
    ]

length-render_rest : (ms : List Member) (after : Bytes) → length ms < length (render_rest ms after)
length-render_rest [] after = omega arith
length-render_rest (m ∷ ms) after = omega (
  arith,
  length-render_rest ms after,
  length-append m.value (render_rest ms after),
  length-append m.key (b'"' ∷ b':' ∷ (m.value ++ render_rest ms after)),
)

-- In an object written without blanks, whose values are strings or have no delimiter in them, a lookup
-- finds the value of the first member of that name, and fails exactly if there is none.
pub json_find_member_value_lem :
    (name after : Bytes) (ms : List Member)
    → All IsMember ms
    → Finds name ms (json_find_member_value (render ms after) name)
unfolding json_find_member_value json_skip_space
json_find_member_value_lem name after [] h = inl (refl, refl)
json_find_member_value_lem name after (m ∷ ms) h =
    find_members (length (render_member m (render_rest ms after))) name after m ms h (
      omega (
        arith,
        length-render_rest ms after,
        length-append m.value (render_rest ms after),
        length-append m.key (b'"' ∷ b':' ∷ (m.value ++ render_rest ms after)),
      ))
