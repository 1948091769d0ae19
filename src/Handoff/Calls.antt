-- ===== src/Handoff/Calls.antt =====
-- runtime/linux/linux_backend.c: the toolkit calls of apply_evaluate_scripts and
-- apply_navigation.
use mathlib.Core.List.{foldl}
use lepusa.Base.{
  ℕ, ◌<◌, false, ◌&&◌, List, [], ◌∷◌, ◌++◌, ◌≡◌, ◌≢◌, ◌⊎◌, inl, inr, refl, sym, ◌∙◌, Option, none,
  some, append_assoc, append-nil, arith, ltb, ◌==◌, if◌then◌else◌, Bool-cases, length, Bytes, codes,
}
use lepusa.CString.Laws.{range_equals_iff}
use lepusa.CString.{c_str, range_equals}
use lepusa.Handoff.{evaluate_script, apply_evaluate_scripts, navigate, apply_navigation}
use lepusa.Packet.Header.{IsHandoff, IsOperations, apply_records-foldl}
use lepusa.Packet.{NativeOperationRecord}
use lepusa.Session.{Call, load_uri, run_javascript, World, emit, slot_webview}
use lepusa.Window.Addressed.{Addressed, webview_or, find_window_slot-Addressed}
use lepusa.Window.{WindowSlot, BridgeContext, find_window_slot}

-- The web view that a label addresses: that of its window, or of the first one.
abbrev target : BridgeContext → Bytes → ℕ
target context label = slot_webview (find_window_slot context label)

-- The calls that a record asks for.
script_calls : BridgeContext → NativeOperationRecord → List Call
script_calls context r =
    if range_equals r.kind (codes "evaluate-script")
      && (ltb 0 (length r.url) && ltb 0 (target context r.window))
    then run_javascript (target context r.window) (c_str r.url) ∷ []
    else []

navigation_calls : BridgeContext → NativeOperationRecord → List Call
navigation_calls context r =
    if range_equals r.kind (codes "navigate-window") && ltb 0 (target context r.window)
    then load_uri (target context r.window) (c_str r.url) ∷ []
    else []

-- The calls of the records, one after the other.
abbrev pub all_calls : (NativeOperationRecord → List Call) → List NativeOperationRecord → List Call
all_calls calls [] = []
all_calls calls (r ∷ rs) = calls r ++ all_calls calls rs

emit-nil : (world : World) → emit [] world ≡ world
emit-nil world = λ i. record world { calls = append-nil world.calls i }

emit-emit : (xs ys : List Call) (world : World) → emit ys (emit xs world) ≡ emit (xs ++ ys) world
emit-emit xs ys world = λ i. record world { calls = append_assoc world.calls xs ys i }

evaluate_script-emit :
    (r : NativeOperationRecord) (world : World)
    → evaluate_script r world ≡ emit (script_calls world.context r) world
unfolding evaluate_script script_calls
evaluate_script-emit r world = ground (arith, emit-nil world)

navigate-emit :
    (r : NativeOperationRecord) (world : World)
    → navigate r world ≡ emit (navigation_calls world.context r) world
unfolding navigate navigation_calls
navigate-emit r world = ground (arith, emit-nil world)

module _ (handle : NativeOperationRecord → World → World)
    (calls : BridgeContext → NativeOperationRecord → List Call)
    (emits : (r : NativeOperationRecord) (w : World)
      → handle r w ≡ emit (calls w.context r) w) where
  foldl-emit :
      (rs : List NativeOperationRecord) (world : World)
      → foldl (λ w r. handle r w) world rs ≡ emit (all_calls (calls world.context) rs) world
  foldl-emit [] world = sym (emit-nil world)
  foldl-emit (r ∷ rs) world = rw (emits r world) (
      foldl-emit rs (emit (calls world.context r) world)
      ∙ emit-emit (calls world.context r) (all_calls (calls world.context) rs) world)

-- What a record makes a web view run: a script that is not empty, in the one that its label addresses,
-- and nothing if it is no script, is empty or addresses none.
pub data Runs (targets : Bytes → ℕ) (r : NativeOperationRecord) (calls : List Call) : Type 0 where
  runs :
      r.kind ≡ codes "evaluate-script"
      → 0 < length r.url
      → 0 < targets r.window
      → calls ≡ run_javascript (targets r.window) (c_str r.url) ∷ []
      → Runs targets r calls
  skips :
      (r.kind ≢ codes "evaluate-script") ⊎ ((length r.url ≡ 0) ⊎ (targets r.window ≡ 0))
      → calls ≡ []
      → Runs targets r calls

-- What a record makes a web view load.
pub data Loads (targets : Bytes → ℕ) (r : NativeOperationRecord) (calls : List Call) : Type 0 where
  loads :
      r.kind ≡ codes "navigate-window"
      → 0 < targets r.window
      → calls ≡ load_uri (targets r.window) (c_str r.url) ∷ []
      → Loads targets r calls
  skips :
      (r.kind ≢ codes "navigate-window") ⊎ (targets r.window ≡ 0)
      → calls ≡ []
      → Loads targets r calls

target-Addressed :
    (context : BridgeContext) (label : Bytes)
    → Addressed 0 context.windows label (target context label)
target-Addressed context label =
    same (find_window_slot context label) (find_window_slot-Addressed 0 context label)
  where
    same :
        (o : Option (ℕ × WindowSlot))
        → Addressed 0 context.windows label (webview_or 0 o)
        → Addressed 0 context.windows label (slot_webview o)
    same none a = a
    same (some (i, s)) a = a

script_calls-Runs :
    (context : BridgeContext) (r : NativeOperationRecord)
    → Runs (target context) r (script_calls context r)
unfolding script_calls c_str
script_calls-Runs context r =
    let is_kind = range_equals_iff r.kind (codes "evaluate-script") in
    elim (Bool-cases (range_equals r.kind (codes "evaluate-script"))) [
      | inr other ↦ skips (inl (λ e. ground (arith, other, is_kind.1 e))) (rw other refl)
      | inl script ↦ elim (Bool-cases (ltb 0 (length r.url))) [
        | inr blank ↦ skips (inr (inl (ground (arith, blank)))) (rw (script, blank) refl)
        | inl full ↦ elim (Bool-cases (ltb 0 (target context r.window))) [
          | inr nowhere ↦
              skips (inr (inr (ground (arith, nowhere)))) (rw (script, full, nowhere) refl)
          | inl there ↦
              runs (is_kind.0 script) (ground (arith, full)) (ground (arith, there))
                (rw (script, full, there) refl)
        ]
      ]
    ]

navigation_calls-Loads :
    (context : BridgeContext) (r : NativeOperationRecord)
    → Loads (target context) r (navigation_calls context r)
unfolding navigation_calls c_str
navigation_calls-Loads context r =
    let is_kind = range_equals_iff r.kind (codes "navigate-window") in
    elim (Bool-cases (range_equals r.kind (codes "navigate-window"))) [
      | inr other ↦ skips (inl (λ e. ground (arith, other, is_kind.1 e))) (rw other refl)
      | inl goes ↦ elim (Bool-cases (ltb 0 (target context r.window))) [
        | inr nowhere ↦ skips (inr (ground (arith, nowhere))) (rw (goes, nowhere) refl)
        | inl there ↦ loads (is_kind.0 goes) (ground (arith, there)) (rw (goes, there) refl)
      ]
    ]

-- The calls of the records, each by its own relation, in the web views that the labels address.
abbrev pub EmitsEach :
    ((Bytes → ℕ) → NativeOperationRecord → List Call → Type 0)
    → List NativeOperationRecord
    → World
    → World
    → Type 0
EmitsEach Calls rs world after =
    (targets : Bytes → ℕ) × (calls : NativeOperationRecord → List Call) × ((label : Bytes)
      → Addressed 0 world.context.windows label (targets label))
    × ((r : NativeOperationRecord) → Calls targets r (calls r))
    × (after ≡ emit (all_calls calls rs) world)

module _ {label script operations packet : Bytes} {rs : List NativeOperationRecord}
    (h : IsHandoff label script operations packet) (o : IsOperations rs operations) (world : World)
    (ready : 0 < world.context.webview) where
  -- With a primary web view, applying the scripts of a well-formed packet runs each script that is not
  -- empty in the web view that its label addresses, if any, in the packet's order, and changes nothing
  -- else. A label addresses the first slot that has it, and the first slot of all if it is empty or no
  -- slot has it.
  pub apply_evaluate_scripts_lem :
      EmitsEach Runs rs world (apply_evaluate_scripts (some packet) world)
  unfolding apply_evaluate_scripts
  apply_evaluate_scripts_lem =
      let live : (world.context.webview == 0) ≡ false = ground arith in
      (
        target world.context,
        script_calls world.context,
        target-Addressed world.context,
        script_calls-Runs world.context,
        rw live (
            apply_records-foldl evaluate_script world h o
            ∙ foldl-emit evaluate_script script_calls evaluate_script-emit rs world),
      )

  -- With a primary web view, a well-formed packet loads each URL of a navigation in the web view that
  -- its label addresses, if any, in the packet's order, and changes nothing else.
  pub apply_navigation_lem : EmitsEach Loads rs world (apply_navigation (some packet) world)
  unfolding apply_navigation
  apply_navigation_lem =
      let live : (world.context.webview == 0) ≡ false = ground arith in
      (
        target world.context,
        navigation_calls world.context,
        target-Addressed world.context,
        navigation_calls-Loads world.context,
        rw live (
            apply_records-foldl navigate world h o
            ∙ foldl-emit navigate navigation_calls navigate-emit rs world),
      )
