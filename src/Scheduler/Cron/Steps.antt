-- ===== src/Scheduler/Cron/Steps.antt =====
-- internal/scheduler/scheduler.go: the values of `*/N`.
use vcdeploy.Prelude.{
  ℕ, zero, suc, ◌+◌, ◌*◌, ◌≤◌, ◌<◌, ◌≡◌, refl, ◌↔◌, List, [], ◌∷◌, arith, inl, inr, All, ℤ, pos,
  negsuc, int_limit, Any, ◌⊎◌,
}
use native.Mathlib.Decide.{dec_le}
use vcdeploy.Scheduler.Cron.{step_values}
use vcdeploy.Scheduler.Cron.Range.{Fits}

step_values_past : (f a max_val step : ℕ) → max_val < a → step_values f (pos a) max_val step ≡ []
unfolding step_values
step_values_past zero a max_val step h = refl
step_values_past (suc f) a max_val step h = ground arith

-- The numbers that the loop from `a` is to list.
abbrev pub Listed : ℕ → ℕ → ℕ → ℕ → Type 0
Listed a max_val step n = (k : ℕ) × (n ≡ a + k * step) × (n ≤ max_val)

-- One more round: `n` is the first number or is listed from the next one.
Listed-step :
    (a max_val step n : ℕ)
    → 0 < step
    → a ≤ max_val
    → ((a ≡ n) ⊎ Listed (a + step) max_val step n) ↔ Listed a max_val step n
Listed-step a max_val step n h le = (
  λ c. elim c [
    | inl e ↦ (0, omega arith, omega arith)
    | inr l ↦ (suc l.0, grind (arith, l.1), l.2)
  ],
  λ l. later l.0 l.1 l.2,
)
  where
    later : (k : ℕ) → n ≡ a + k * step → n ≤ max_val → (a ≡ n) ⊎ Listed (a + step) max_val step n
    later zero e b = inl (omega arith)
    later (suc k) e b = inr (k, grind arith, b)

Fits-weaken : (a b hi : ℕ) (vs : List ℤ) → a ≤ b → All (Fits b hi) vs → All (Fits a hi) vs
Fits-weaken a b hi [] h all = tt
Fits-weaken a b hi (pos n ∷ vs) h all =
    ((omega (arith, all.0.0), all.0.1), Fits-weaken a b hi vs h all.1)
Fits-weaken a b hi (negsuc n ∷ vs) h all = absurd all.0

pos_iff : (a n : ℕ) → (pos a ≡ pos n) ↔ (a ≡ n)
pos_iff a n = ((λ e. ground arith), (λ e. ground arith))

-- The loop, when its values do not pass the largest `int`.
abbrev IsExact : ℕ → ℕ → ℕ → List ℤ → Type 0
IsExact a max_val step vs =
    All (Fits a max_val) vs × ((n : ℕ) → Any (λ v. v ≡ pos n) vs ↔ Listed a max_val step n)

IsExact-nil : (a max_val step : ℕ) → max_val < a → IsExact a max_val step []
IsExact-nil a max_val step h = (tt, λ n. ((λ c. absurd c), (λ l. absurd (omega (arith, l.1, l.2)))))

IsExact-cons :
    (a max_val step : ℕ) (vs : List ℤ)
    → 0 < step
    → a ≤ max_val
    → IsExact (a + step) max_val step vs
    → IsExact a max_val step (pos a ∷ vs)
IsExact-cons a max_val step vs h le rest = (
  ((omega arith, le), Fits-weaken a (a + step) max_val vs (omega arith) rest.0),
  λ n. (
    λ c. (Listed-step a max_val step n h le).0 (forth n c),
    λ l. back n ((Listed-step a max_val step n h le).1 l),
  ),
)
  where
    forth : (n : ℕ) → Any (λ v. v ≡ pos n) (pos a ∷ vs) → (a ≡ n) ⊎ Listed (a + step) max_val step n
    forth n (inl e) = inl ((pos_iff a n).0 e)
    forth n (inr c) = inr ((rest.1 n).0 c)

    back : (n : ℕ) → (a ≡ n) ⊎ Listed (a + step) max_val step n → Any (λ v. v ≡ pos n) (pos a ∷ vs)
    back n (inl e) = inl ((pos_iff a n).1 e)
    back n (inr l) = inr ((rest.1 n).1 l)

step_values_step :
    (f a max_val step : ℕ)
    → a ≤ max_val
    → a + step < int_limit
    → step_values (suc f) (pos a) max_val step ≡ pos a ∷ step_values f (pos (a + step)) max_val step
unfolding step_values
step_values_step f a max_val step h k = ground arith

-- While the sums fit an `int`, the loop of `*/N` from `a` lists exactly `a`, `a + N`, `a + 2N`, …
-- as far as the largest value, and its fuel outlasts it.
pub step_values_exact :
    (f a max_val step : ℕ)
    → 0 < step
    → a + step < int_limit
    → max_val + max_val < int_limit
    → max_val + 1 < f + a
    → All (Fits a max_val) (step_values f (pos a) max_val step)
      × ((n : ℕ)
          → Any (λ v. v ≡ pos n) (step_values f (pos a) max_val step) ↔ Listed a max_val step n)
step_values_exact zero a max_val step h fits small enough =
    rw (step_values_past 0 a max_val step (omega arith)) (IsExact-nil a max_val step (omega arith))
step_values_exact (suc f) a max_val step h fits small enough = elim (dec_le a max_val) [
  | no past ↦
      rw (step_values_past (suc f) a max_val step (omega arith))
        (IsExact-nil a max_val step (omega arith))
  | yes le ↦ rw (step_values_step f a max_val step le fits) (
      IsExact-cons a max_val step _ h le (
        rest (dec_le (a + step) max_val) (λ more.
          step_values_exact f (a + step) max_val step h (omega arith) small (omega arith))))
]
  where
    rest :
        Dec (a + step ≤ max_val)
        → (a + step ≤ max_val
            → IsExact (a + step) max_val step (step_values f (pos (a + step)) max_val step))
        → IsExact (a + step) max_val step (step_values f (pos (a + step)) max_val step)
    rest (yes more) exact = exact more
    rest (no past) exact =
        rw (step_values_past f (a + step) max_val step (omega arith))
          (IsExact-nil (a + step) max_val step (omega arith))
