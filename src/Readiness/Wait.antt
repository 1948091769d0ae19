-- ===== src/Readiness/Wait.antt =====
-- runtime/linux/linux_backend.c: the loop of wait_until_ready.
use native.Mathlib.Decide.{ℕ_discrete}
use lepusa.Base.{
  ℕ, zero, suc, ◌+◌, ◌*◌, ◌≤◌, ◌<◌, Bool, true, false, ◌≡◌, ◌⊎◌, inl, inr, refl, ◌∙◌, some, arith,
  ltb, if◌then◌else◌, Bool-cases,
}
use lepusa.Readiness.{wait_from}

module _ (ready : ℕ → Bool) (clock : ℕ → ℕ) (deadline : ℕ) where
  -- The rounds from `i` up to `j` have failed before the deadline.
  abbrev pub Failed : ℕ → ℕ → Type 0
  Failed i j = (k : ℕ) → i ≤ k → k < j → (ready k ≡ false) × (clock k < deadline)

  -- Round `j` decides the return code `r`: a probe succeeds, or it fails at or past the deadline.
  pub record Verdict (i : ℕ) (r : ℕ) : Type 0 where
    pub last : ℕ
    pub begins : i ≤ last
    pub before : Failed i last
    pub outcome :
        ((r ≡ 0) × (ready last ≡ true)) ⊎ ((r ≡ 1) × (ready last ≡ false) × (deadline ≤ clock last))

  Failed-extend : (i j : ℕ) → ready i ≡ false → clock i < deadline → Failed (i + 1) j → Failed i j
  Failed-extend i j r c f k lo hi = elim (ℕ_discrete i k) [
    | yes e ↦ rw (← e) (r, c)
    | no ne ↦ f k (omega arith) hi
  ]

  wait_from-Verdict :
      (fuel i : ℕ) {r : ℕ} → wait_from ready clock deadline fuel i ≡ some r → Verdict i r
  unfolding wait_from
  wait_from-Verdict zero i h = cc
  wait_from-Verdict (suc fuel) i {r} h = elim (Bool-cases (ready i)) [
    | inl p ↦ record {
      last = i;
      begins = omega arith;
      before = λ k lo hi. absurd (omega arith);
      outcome = inl (ground arith, p);
    }
    | inr p ↦ elim (Bool-cases (ltb (clock i) deadline)) [
      | inl early ↦
          let v = wait_from-Verdict fuel (i + 1) {r = r} (ground arith) in
          record {
            last = v.last;
            begins = omega (arith, v.begins);
            before = Failed-extend i v.last p (ground arith) v.before;
            outcome = v.outcome;
          }
      | inr late ↦ record {
        last = i;
        begins = omega arith;
        before = λ k lo hi. absurd (omega arith);
        outcome = inr (ground arith, p, ground arith);
      }
    ]
  ]

  wait_from_step :
      (fuel i : ℕ)
      → wait_from ready clock deadline (suc fuel) i ≡ (
          if ready i
          then some 0
          else if ltb (clock i) deadline
          then wait_from ready clock deadline fuel (i + 1)
          else some 1)
  unfolding wait_from
  wait_from_step fuel i = refl

  wait_from_ends :
      (fuel i : ℕ)
      → ((j : ℕ) → clock j + 100 ≤ clock (j + 1))
      → deadline ≤ clock i + 100 * fuel
      → (r : ℕ) × (wait_from ready clock deadline (suc fuel) i ≡ some r)
  wait_from_ends zero i step enough = elim (Bool-cases (ready i)) [
    | inl p ↦ (0, wait_from_step zero i ∙ rw p)
    | inr p ↦
        let late : ltb (clock i) deadline ≡ false = ground arith in
        (1, wait_from_step zero i ∙ rw (p, late))
  ]
  wait_from_ends (suc fuel) i step enough = elim (Bool-cases (ready i)) [
    | inl p ↦ (0, wait_from_step (suc fuel) i ∙ rw p)
    | inr p ↦ elim (Bool-cases (ltb (clock i) deadline)) [
      | inl early ↦
          let (r, e) = wait_from_ends fuel (i + 1) step (omega (arith, step i)) in
          (r, wait_from_step (suc fuel) i ∙ rw (p, early, e))
      | inr late ↦ (1, wait_from_step (suc fuel) i ∙ rw (p, late))
    ]
  ]

  -- If every pause takes 100 milliseconds at least, the loop ends within one round for each 100
  -- milliseconds to the deadline and one more. The code is 0 if a probe succeeds, after rounds that all
  -- fail before the deadline, and 1 if a probe fails at or past the deadline after such rounds.
  pub wait_from_total :
      (fuel i : ℕ)
      → ((j : ℕ) → clock j + 100 ≤ clock (j + 1))
      → deadline ≤ clock i + 100 * fuel
      → (r : ℕ) × (wait_from ready clock deadline (suc fuel) i ≡ some r) × Verdict i r
  wait_from_total fuel i step enough =
      let (r, e) = wait_from_ends fuel i step enough in
      (r, e, wait_from-Verdict (suc fuel) i {r = r} e)
