-- ===== src/Examples/Payloads.antt =====
-- The payload of a notification, as the bridge writes it.
use lepusa.Base.{List, [], ◌∷◌, ◌≢◌, refl, arith, All, Bytes, codes}
use lepusa.CString.{is_space}
use lepusa.Json.Members.{text, scalar, Member, IsMember, render, Finds, json_find_member_value_lem}
use lepusa.Json.Strings.{IsBody, nil, plain}
use lepusa.Json.{is_delimiter, json_find_member_value}

abbrev members : List Member
members =
    record { key = codes "title"; value = codes "\"ok\"" }
    ∷ record { key = codes "id"; value = codes "7" }
    ∷ []

-- Bytes of which none is a quote or a backslash.
abbrev IsPlain : Bytes → Type 0
IsPlain = All (λ c. (c ≢ b'"') × (c ≢ b'\\'))

plain-IsBody : (s : Bytes) → IsPlain s → IsBody s
plain-IsBody [] h = nil
plain-IsBody (c ∷ s) ((q, b), h) = plain c q b (plain-IsBody s h)

title-IsMember : IsMember (record { key = codes "title"; value = codes "\"ok\"" })
title-IsMember = record {
  key_body = plain-IsBody (codes "title") (omega arith);
  value_ok = text (codes "ok") refl (plain-IsBody (codes "ok") (omega arith));
}

id-IsMember : IsMember (record { key = codes "id"; value = codes "7" })
unfolding is_space is_delimiter
id-IsMember = record {
  key_body = plain-IsBody (codes "id") (omega arith);
  value_ok = scalar b'7' (refl, omega arith, omega arith, omega arith) (refl, tt);
}

json_find_member_value_lem_example :
    Finds (codes "id") members (json_find_member_value (render members (codes "\n")) (codes "id"))
json_find_member_value_lem_example =
    json_find_member_value_lem (codes "id") (codes "\n") members (title-IsMember, (id-IsMember, tt))
