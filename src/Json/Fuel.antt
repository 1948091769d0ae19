-- ===== src/Json/Fuel.antt =====
-- runtime/linux/linux_backend.c: the fuel of the loop of json_value_end over an object or an
-- array.
use lepusa.Base.{
  ℕ, zero, suc, ◌+◌, ◌-◌, ◌≤◌, [], ◌∷◌, ◌≡◌, inl, inr, refl, sym, ◌∙◌, some, arith, ◌==◌,
  if◌then◌else◌, Option-cases, ◌>>=◌, length, Bytes,
}
use lepusa.Json.Strings.{json_string_end_shorter}
use lepusa.Json.{json_string_end, container_end}

container_step :
    (fuel opening closing depth c : ℕ) (s : Bytes)
    → container_end (suc fuel) opening closing depth (c ∷ s) ≡ (
        if c == b'"'
        then json_string_end (c ∷ s) >>= container_end fuel opening closing depth
        else if c == opening
        then container_end fuel opening closing (depth + 1) s
        else if c == closing
        then (if depth - 1 == 0 then some s else container_end fuel opening closing (depth - 1) s)
        else container_end fuel opening closing depth s)
unfolding container_end
container_step fuel opening closing depth c s = refl

-- With at least as much fuel as there are bytes the loop over an object or an array runs to its end:
-- the amount does not matter.
pub container_end_fuel :
    (n m opening closing depth : ℕ) (s : Bytes)
    → length s ≤ n
    → length s ≤ m
    → container_end n opening closing depth s ≡ container_end m opening closing depth s
container_end_fuel n m opening closing depth [] hn hm = unfold container_end in refl
container_end_fuel zero m opening closing depth (c ∷ s) hn hm = absurd (omega arith)
container_end_fuel (suc n) zero opening closing depth (c ∷ s) hn hm = absurd (omega arith)
container_end_fuel (suc n) (suc m) opening closing depth (c ∷ s) hn hm =
    let deeper = container_end_fuel n m opening closing (depth + 1) s (omega arith) (omega arith) in
    let out = container_end_fuel n m opening closing (depth - 1) s (omega arith) (omega arith) in
    let along = container_end_fuel n m opening closing depth s (omega arith) (omega arith) in
    let behind : (json_string_end (c ∷ s) >>= container_end n opening closing depth)
        ≡ (json_string_end (c ∷ s) >>= container_end m opening closing depth) =
      elim (Option-cases (json_string_end (c ∷ s))) [
        | inl e ↦ rw e
        | inr (rest, e) ↦
            let shorter = json_string_end_shorter (c ∷ s) {rest = rest} e in
            rw e (container_end_fuel n m opening closing depth rest (omega arith) (omega arith))
      ] in
    container_step n opening closing depth c s
    ∙ rw (deeper, out, along, behind) (sym (container_step m opening closing depth c s))
