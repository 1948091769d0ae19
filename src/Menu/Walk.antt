-- ===== src/Menu/Walk.antt =====
-- runtime/linux/linux_backend.c: the loop over the items of a menu.
use lepusa.Json.Objects.{IsContent, json_value_end-object}
use lepusa.Base.{
  ℕ, zero, suc, ◌+◌, ◌-◌, ◌<◌, Bool, true, false, List, [], ◌∷◌, ◌++◌, ◌≡◌, refl, sym, ap, ◌∙◌,
  some, append_assoc, arith, length, length-append, take-append, All, Bytes,
}
use lepusa.Effect.{M, ◌>>◌, skip, maybe}
use lepusa.Json.{json_skip_space, json_value_end, between, skip_byte, skip_comma}
use lepusa.Menu.{item_round, for_each_item, for_each_value}
use lepusa.Session.{World}

-- At a closing brace, where a value is expected, the loop goes on without end: however many rounds it
-- is given, it has not come to its end after them.
pub for_each_item-stuck :
    (lenient : Bool) (item : Bytes → M (Unit {0})) (rounds : ℕ) (s : Bytes) (world : World)
    → (for_each_item lenient item rounds (b'}' ∷ s) world).1.undefined ≡ true
unfolding for_each_item json_value_end json_skip_space skip_comma maybe
for_each_item-stuck lenient item zero s world = refl
for_each_item-stuck true item (suc rounds) s world =
    for_each_item-stuck true item rounds s (item (between (b'}' ∷ s) (b'}' ∷ s)) world).1
for_each_item-stuck false item (suc rounds) s world =
    for_each_item-stuck false item rounds s (item (between (b'}' ∷ s) (b'}' ∷ s)) world).1

-- A text that is one value of an array: an object whose braces match outside of its strings.
pub record IsItem (v : Bytes) : Type 0 where
  pub content : Bytes
  pub content_ok : IsContent content
  pub braces : v ≡ b'{' ∷ (content ++ (b'}' ∷ []))

abbrev pub render_rest : List Bytes → Bytes → Bytes
render_rest [] after = b']' ∷ after
render_rest (v ∷ vs) after = b',' ∷ (v ++ render_rest vs after)

-- The values of an array behind its bracket, the closing one and what follows it.
abbrev pub render_items : List Bytes → Bytes → Bytes
render_items [] after = b']' ∷ after
render_items (v ∷ vs) after = v ++ render_rest vs after

-- The items one after another.
abbrev pub each : (Bytes → M (Unit {0})) → List Bytes → M (Unit {0})
each item [] = skip
each item (v ∷ vs) = item v >> each item vs

item_text : (v rest : Bytes) (h : IsItem v) → v ++ rest ≡ b'{' ∷ (h.content ++ (b'}' ∷ rest))
item_text v rest h =
    ap (λ (s : Bytes). s ++ rest) h.braces
    ∙ ap (λ (s : Bytes). b'{' ∷ s) (append_assoc h.content (b'}' ∷ []) rest)

-- A round at an opening brace.
item_round-value :
    (lenient : Bool) (item : Bytes → M (Unit {0})) (next : Bytes → M (Unit {0})) (s rest : Bytes)
    (w : World)
    → json_value_end (b'{' ∷ s) ≡ some rest
    → item_round next lenient item (b'{' ∷ s) w
      ≡ next (skip_comma (json_skip_space rest)) (item (between (b'{' ∷ s) rest) w).1
unfolding item_round maybe
item_round-value true item next s rest w e = rw e refl
item_round-value false item next s rest w e = rw e refl

behind_item :
    (vs : List Bytes) (after : Bytes)
    → All IsItem vs
    → skip_comma (json_skip_space (render_rest vs after)) ≡ render_items vs after
unfolding skip_comma json_skip_space
behind_item [] after h = refl
behind_item (v ∷ vs) after h = refl

between-append : (v rest : Bytes) → between (v ++ rest) rest ≡ v
between-append v rest =
    let measured = length-append v rest in
    let same : length (v ++ rest) - length rest ≡ length v = omega (arith, measured) in
    rw same (take-append v rest)

module _ (lenient : Bool) (item : Bytes → M (Unit {0})) where
  -- A round at an item.
  item_round-here :
      (next : Bytes → M (Unit {0})) (v rest : Bytes) (w : World)
      → IsItem v
      → item_round next lenient item (json_skip_space (v ++ rest)) w
        ≡ next (skip_comma (json_skip_space rest)) (item v w).1
  unfolding json_skip_space
  item_round-here next v rest w h =
      let s = h.content ++ (b'}' ∷ rest) in
      let text : v ++ rest ≡ b'{' ∷ s = item_text v rest h in
      let whole : between (b'{' ∷ s) rest ≡ v =
        ap (λ (t : Bytes). between t rest) (sym text) ∙ between-append v rest in
      let at_end = json_value_end-object h.content rest h.content_ok in
      let next_at = next (skip_comma (json_skip_space rest)) in
      rw text (
        item_round-value lenient item next s rest w at_end
        ∙ ap (λ (o : Bytes). next_at (item o w).1) whole)

  for_each_item-items :
      (rounds : ℕ) (vs : List Bytes) (after : Bytes) (w : World)
      → All IsItem vs
      → length vs < rounds
      → for_each_item lenient item rounds (render_items vs after) w ≡ each item vs w
  unfolding for_each_item
  for_each_item-items zero vs after w h enough = absurd (omega arith)
  for_each_item-items (suc rounds) [] after w h enough = refl
  for_each_item-items (suc rounds) (v ∷ vs) after w (hv, hvs) enough =
      item_round-here (for_each_item lenient item rounds) v (render_rest vs after) w hv
      ∙ rw (behind_item vs after hvs)
          (for_each_item-items rounds vs after (item v w).1 hvs (omega arith))

render_rest-length : (vs : List Bytes) (after : Bytes) → length vs < length (render_rest vs after)
render_rest-length [] after = omega arith
render_rest-length (v ∷ vs) after =
    omega (arith, length-append v (render_rest vs after), render_rest-length vs after)

-- The objects of an array are taken one after another, each once, whole and in their order, and what
-- stands behind the array is not read: for an array without blanks whose objects have matching braces
-- outside of their strings, with either way of treating commas, whatever is done with an object.
pub for_each_value-items :
    (lenient : Bool) (item : Bytes → M (Unit {0})) (vs : List Bytes) (after : Bytes) (world : World)
    → All IsItem vs
    → for_each_value lenient item (b'[' ∷ render_items vs after) world ≡ each item vs world
unfolding for_each_value json_skip_space skip_byte maybe
for_each_value-items lenient item [] after world h =
    for_each_item-items lenient item (suc (length after) + 1) [] after world tt (omega arith)
for_each_value-items lenient item (v ∷ vs) after world h =
    let rest = render_rest vs after in
    for_each_item-items lenient item (length (v ++ rest) + 1) (v ∷ vs) after world h
      (omega (arith, length-append v rest, render_rest-length vs after))
