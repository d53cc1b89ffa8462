-- ===== src/Webhooks/Processor/Messages.antt =====
-- internal/webhooks/processor.go: `truncateMessage`.
use vcdeploy.Prelude.{
  ℕ, zero, suc, ◌-◌, ◌≤◌, ◌≡◌, refl, ◌≢◌, [], ◌∷◌, ◌++◌, arith, ltb, length, length-append, take,
  length-take-le, Text, codes, first_line, All, ◌==◌, Bool-cases, inl, inr,
}
use vcdeploy.Webhooks.Processor.{truncate_message}

abbrev pub IsOneLine : Text → Type 0
IsOneLine = All (λ c. c ≢ 10)

first_line-IsOneLine : (s : Text) → IsOneLine (first_line s)
unfolding first_line
first_line-IsOneLine [] = tt
first_line-IsOneLine (c ∷ s) = elim (Bool-cases (c == 10)) [
  | inl e ↦ rw e tt
  | inr e ↦ rw e ((λ q. ground arith), first_line-IsOneLine s)
]

first_line_of_one : (s : Text) → IsOneLine s → first_line s ≡ s
unfolding first_line
first_line_of_one [] h = refl
first_line_of_one (c ∷ s) h = ground (arith, first_line_of_one s h.1, h.0)

All-take : (n : ℕ) (s : Text) → IsOneLine s → IsOneLine (take n s)
All-take zero s h = tt
All-take (suc n) [] h = tt
All-take (suc n) (c ∷ s) h = (h.0, All-take n s h.1)

dots-IsOneLine : (s : Text) → IsOneLine s → IsOneLine (s ++ codes "...")
dots-IsOneLine [] h = ((λ e. ground arith), ((λ e. ground arith), ((λ e. ground arith), tt)))
dots-IsOneLine (c ∷ s) h = (h.0, dots-IsOneLine s h.1)

-- With a limit of at least 3, a truncated message is one line and no longer than the limit, and a
-- message that is one line within the limit comes through as it is.
pub truncate_message_lem :
    (s : Text) (n : ℕ)
    → 3 ≤ n
    → IsOneLine (truncate_message s n)
      × (length (truncate_message s n) ≤ n)
      × (IsOneLine s → length s ≤ n → truncate_message s n ≡ s)
unfolding truncate_message
truncate_message_lem s n h = (
  elim (Bool-cases (ltb n (length (first_line s)))) [
    | inl e ↦ rw e (dots-IsOneLine _ (All-take (n - 3) (first_line s) (first_line-IsOneLine s)))
    | inr e ↦ rw e (first_line-IsOneLine s)
  ],
  ground (
    arith,
    length-append (take (n - 3) (first_line s)) (codes "..."),
    length-take-le (n - 3) (first_line s),
  ),
  λ one short. ground (arith, first_line_of_one s one),
)
