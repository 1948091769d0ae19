-- ===== src/Json/Payload.antt =====
-- runtime/linux/linux_backend.c: json_payload_string, on a string by itself and as a member.
use lepusa.Base.{
  ◌-◌, List, [], ◌∷◌, ◌++◌, ◌≡◌, inl, inr, refl, ◌∙◌, Option, some, arith, ◌>>=◌, length,
  length-append, take-append, All, Bytes,
}
use lepusa.Json.Members.{Member, IsMember, render, first_value, Finds, json_find_member_value_lem}
use lepusa.Json.Strings.{IsBody, json_string_end_complete}
use lepusa.Json.{
  json_skip_space, between, json_string_value, starts_string, json_payload_string,
  json_find_member_value,
}

-- The text of a string.
abbrev pub quoted : Bytes → Bytes
quoted body = b'"' ∷ (body ++ (b'"' ∷ []))

json_string_value-quoted :
    (body : Bytes) → IsBody body → json_string_value (quoted body) ≡ some body
unfolding json_string_value
json_string_value-quoted body h =
    rw (json_string_end_complete [] h)
      (ground (arith, length-append body (b'"' ∷ []), take-append body (b'"' ∷ [])))

json_payload_string-quoted :
    (name body : Bytes) → json_payload_string (quoted body) name ≡ json_string_value (quoted body)
unfolding json_payload_string json_skip_space starts_string
json_payload_string-quoted name body = refl

-- A payload that is an object is searched for the member.
member_string : Option (Bytes × Bytes) → Option Bytes
member_string found = found >>= λ (value, stop). json_string_value (between value stop)

json_payload_string-render :
    (name after : Bytes) (ms : List Member)
    → json_payload_string (render ms after) name
      ≡ member_string (json_find_member_value (render ms after) name)
unfolding json_payload_string json_find_member_value json_skip_space starts_string member_string
json_payload_string-render name after [] = refl
json_payload_string-render name after (m ∷ ms) = refl

between-append : (value rest : Bytes) → between (value ++ rest) rest ≡ value
between-append value rest =
    let measured = length-append value rest in
    let same : length (value ++ rest) - length rest ≡ length value = omega (arith, measured) in
    rw same (take-append value rest)

member_string-Finds :
    (name body : Bytes) (ms : List Member) (found : Option (Bytes × Bytes))
    → IsBody body
    → first_value name ms ≡ some (quoted body)
    → Finds name ms found
    → member_string found ≡ some body
unfolding member_string
member_string-Finds name body ms found h first (inl (absent, _)) = cc
member_string-Finds name body ms found h first (inr (value, rest, first', at_value)) =
    let same : value ≡ quoted body = cc in
    rw (at_value, between-append value rest, same) (json_string_value-quoted body h)

-- The string that a payload holds is taken out whole: the payload is the string itself, or an object
-- without blanks, with strings or values without delimiters as its members, whose first member of that
-- name is the string.
pub json_payload_string_lem :
    (name body after : Bytes) (ms : List Member)
    → IsBody body
    → All IsMember ms
    → first_value name ms ≡ some (quoted body)
    → (json_payload_string (quoted body) name ≡ some body)
      × (json_payload_string (render ms after) name ≡ some body)
json_payload_string_lem name body after ms h hm found = (
  json_payload_string-quoted name body ∙ json_string_value-quoted body h,
  json_payload_string-render name after ms
      ∙ member_string-Finds name body ms (json_find_member_value (render ms after) name) h found
          (json_find_member_value_lem name after ms hm),
)
