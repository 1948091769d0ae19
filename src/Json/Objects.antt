-- ===== src/Json/Objects.antt =====
-- runtime/linux/linux_backend.c: json_value_end at an object, with objects and strings inside it.
use lepusa.Base.{
  ℕ, zero, suc, ◌+◌, ◌-◌, ◌≤◌, ◌<◌, false, [], ◌∷◌, ◌++◌, ◌≡◌, ◌≢◌, refl, ap, ◌∙◌, Option, some,
  append_assoc, arith, ◌==◌, length, length-append, Bytes,
}
use lepusa.Json.Fuel.{container_end_fuel}
use lepusa.Json.Strings.{IsBody, json_string_end_complete}
use lepusa.Json.{json_value_end, json_skip_space, container_end, value_end_at}

-- What may stand between the braces of an object, as far as its end hangs on it.
pub data IsContent : Bytes → Type 0 where
  empty : IsContent []
  plain : {s : Bytes} (c : ℕ) → c ≢ b'"' → c ≢ b'{' → c ≢ b'}' → IsContent s → IsContent (c ∷ s)
  text :
      {v s : Bytes} (body : Bytes)
      → v ≡ b'"' ∷ (body ++ (b'"' ∷ s))
      → IsBody body
      → IsContent s
      → IsContent v
  nested :
      {v s : Bytes} (inner : Bytes)
      → v ≡ b'{' ∷ (inner ++ (b'}' ∷ s))
      → IsContent inner
      → IsContent s
      → IsContent v

-- The loop on an object.
abbrev object_end : ℕ → ℕ → Bytes → Option Bytes
object_end fuel depth s = container_end fuel b'{' b'}' depth s

object_end-plain :
    (fuel depth c : ℕ) (s : Bytes)
    → c ≢ b'"'
    → c ≢ b'{'
    → c ≢ b'}'
    → object_end (suc fuel) depth (c ∷ s) ≡ object_end fuel depth s
unfolding container_end
object_end-plain fuel depth c s q o k =
    let quote : (c == b'"') ≡ false = ground (arith, q) in
    let opens : (c == b'{') ≡ false = ground (arith, o) in
    let closes : (c == b'}') ≡ false = ground (arith, k) in rw (quote, opens, closes) refl

object_end-text :
    (fuel depth : ℕ) (body s : Bytes)
    → IsBody body
    → object_end (suc fuel) depth (b'"' ∷ (body ++ (b'"' ∷ s))) ≡ object_end fuel depth s
unfolding container_end
object_end-text fuel depth body s h = rw (json_string_end_complete s h) refl

object_end-open :
    (fuel depth : ℕ) (s : Bytes)
    → object_end (suc fuel) depth (b'{' ∷ s) ≡ object_end fuel (depth + 1) s
unfolding container_end
object_end-open fuel depth s = refl

object_end-close :
    (fuel depth : ℕ) (s : Bytes)
    → object_end (suc fuel) (depth + 1 + 1) (b'}' ∷ s) ≡ object_end fuel (depth + 1) s
unfolding container_end
object_end-close fuel depth s =
    let out : depth + 1 + 1 - 1 ≡ depth + 1 = omega arith in
    let inside : (depth + 1 + 1 - 1 == 0) ≡ false = ground arith in
    rw inside (ap (λ (d : ℕ). object_end fuel d s) out)

-- That the loop goes through a content and comes out behind it at the depth it had.
abbrev Passes : Bytes → Type 0
Passes s =
    (fuel depth : ℕ) (tail : Bytes)
    → length (s ++ tail) ≤ fuel
    → object_end fuel (depth + 1) (s ++ tail) ≡ object_end fuel (depth + 1) tail

-- The fuel of the loop does not matter where there is enough.
more_fuel :
    (fuel depth : ℕ) (tail : Bytes)
    → length tail ≤ fuel
    → object_end fuel depth tail ≡ object_end (suc fuel) depth tail
more_fuel fuel depth tail enough =
    container_end_fuel fuel (suc fuel) b'{' b'}' depth tail enough (omega arith)

plain-Passes : (c : ℕ) (s : Bytes) → c ≢ b'"' → c ≢ b'{' → c ≢ b'}' → Passes s → Passes (c ∷ s)
plain-Passes c s q o k passes zero depth tail enough = absurd (omega arith)
plain-Passes c s q o k passes (suc fuel) depth tail enough =
    let measured = length-append s tail in
    object_end-plain fuel (depth + 1) c (s ++ tail) q o k
    ∙ passes fuel depth tail (omega arith)
    ∙ more_fuel fuel (depth + 1) tail (omega (arith, measured))

text-Passes : (body s : Bytes) → IsBody body → Passes s → Passes (b'"' ∷ (body ++ (b'"' ∷ s)))
text-Passes body s hb passes zero depth tail enough = absurd (omega arith)
text-Passes body s hb passes (suc fuel) depth tail enough =
    let split : (body ++ (b'"' ∷ s)) ++ tail ≡ body ++ (b'"' ∷ (s ++ tail)) =
      append_assoc body (b'"' ∷ s) tail in
    let short : length ((body ++ (b'"' ∷ s)) ++ tail) ≤ fuel = omega arith in
    let measured = length-append body (b'"' ∷ (s ++ tail)) in
    let short' = rw split at short in
    let measured' = length-append s tail in
    rw split (
      object_end-text fuel (depth + 1) body (s ++ tail) hb
      ∙ passes fuel depth tail (omega (arith, measured, short'))
      ∙ more_fuel fuel (depth + 1) tail (omega (arith, measured, measured', short')))

nested-Passes : (inner s : Bytes) → Passes inner → Passes s → Passes (b'{' ∷ (inner ++ (b'}' ∷ s)))
nested-Passes inner s passes_inner passes zero depth tail enough = absurd (omega arith)
nested-Passes inner s passes_inner passes (suc zero) depth tail enough =
    let measured = length-append inner (b'}' ∷ s) in
    let measured' = length-append (inner ++ (b'}' ∷ s)) tail in
    absurd (omega (arith, measured, measured'))
nested-Passes inner s passes_inner passes (suc (suc fuel)) depth tail enough =
    let split : (inner ++ (b'}' ∷ s)) ++ tail ≡ inner ++ (b'}' ∷ (s ++ tail)) =
      append_assoc inner (b'}' ∷ s) tail in
    let short : length ((inner ++ (b'}' ∷ s)) ++ tail) ≤ suc fuel = omega arith in
    let short' = rw split at short in
    let measured = length-append inner (b'}' ∷ (s ++ tail)) in
    let measured' = length-append s tail in
    let few : length tail ≤ fuel = omega (arith, measured, measured', short') in
    rw split (
      object_end-open (suc fuel) (depth + 1) (inner ++ (b'}' ∷ (s ++ tail)))
      ∙ passes_inner (suc fuel) (depth + 1) (b'}' ∷ (s ++ tail)) short'
      ∙ object_end-close fuel depth (s ++ tail)
      ∙ passes fuel depth tail (omega (arith, measured, short'))
      ∙ more_fuel fuel (depth + 1) tail few
      ∙ more_fuel (suc fuel) (depth + 1) tail (omega (arith, few)))

IsContent-Passes : {s : Bytes} → IsContent s → Passes s
IsContent-Passes empty = λ fuel depth tail enough. refl
IsContent-Passes (plain {s} c q o k h) = plain-Passes c s q o k (IsContent-Passes h)
IsContent-Passes (text {v} {s} body split hb h) =
    rw split (text-Passes body s hb (IsContent-Passes h))
IsContent-Passes (nested {v} {s} inner split hi h) =
    rw split (nested-Passes inner s (IsContent-Passes hi) (IsContent-Passes h))

-- An object is a value, whatever stands behind it: json_value_end gives the end of an object whose
-- braces match outside of its strings.
pub json_value_end-object :
    (s rest : Bytes) → IsContent s → json_value_end (b'{' ∷ (s ++ (b'}' ∷ rest))) ≡ some rest
unfolding json_value_end json_skip_space value_end_at container_end
json_value_end-object s rest h =
    let fuel = length (s ++ (b'}' ∷ rest)) in
    let measured = length-append s (b'}' ∷ rest) in
    let closes : object_end fuel 1 (b'}' ∷ rest) ≡ some rest =
      ends fuel (omega (arith, measured)) in
    IsContent-Passes h fuel 0 (b'}' ∷ rest) (omega arith) ∙ closes
  where
    ends : (fuel : ℕ) → 0 < fuel → object_end fuel 1 (b'}' ∷ rest) ≡ some rest
    ends zero h = absurd (omega arith)
    ends (suc fuel) h = refl
