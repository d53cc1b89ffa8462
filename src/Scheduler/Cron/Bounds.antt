-- ===== src/Scheduler/Cron/Bounds.antt =====
-- internal/scheduler/scheduler.go: the fields of a parsed cron expression lie in their ranges, with
-- one exception.
use vcdeploy.Prelude.{
  split_on, ℕ, zero, suc, ◌+◌, ◌≤◌, ◌<◌, ◌≡◌, refl, Option, none, some, List, [], ◌∷◌, arith,
  Bool-cases, inl, inr, All, drop, Text, codes, text_eq, has_prefix, fields, ℤ, pos, negsuc, atoi,
  atoi-lt-int_limit, int_limit,
}
use vcdeploy.Scheduler.Cron.{
  ok, int_range, step_values, step_fuel, parse_step, parse_field, CronSchedule, parse_five,
  parse_cron,
}
use vcdeploy.Scheduler.Cron.Range.{Fits, >>=-ok, int_range-Fits, parse_parts-Fits}
use vcdeploy.Scheduler.Cron.Steps.{step_values_exact}

-- The step of `*/N`, if it is one, does not pass the largest `int` when the smallest value is
-- added to it.
abbrev pub NoOverflow : ℕ → Text → Type 0
NoOverflow min_val field = (n : ℕ) → atoi (drop 2 field) ≡ some (pos n) → min_val + n < int_limit

parse_step-Fits :
    (lo hi : ℕ) (z : Option ℤ) (vs : List ℤ)
    → hi ≤ 59
    → ((n : ℕ) → z ≡ some (pos n) → lo + n < int_limit)
    → parse_step lo hi z ≡ ok vs
    → All (Fits lo hi) vs
unfolding parse_step
parse_step-Fits lo hi none vs small fits h = absurd (ground arith)
parse_step-Fits lo hi (some (pos zero)) vs small fits h = absurd (ground arith)
parse_step-Fits lo hi (some (negsuc n)) vs small fits h = absurd (ground arith)
parse_step-Fits lo hi (some (pos (suc n))) vs small fits h =
    let same : step_values step_fuel (pos lo) hi (suc n) ≡ vs = ground arith in
    rw (← same)
      (step_values_exact step_fuel lo hi (suc n) (omega arith) (fits (suc n) refl) (omega arith)
        (omega arith)).0

-- The values that `parseField` returns for a field of at most 60 values lie in the field's range,
-- where the step does not overflow. A field that starts at 0 needs no such condition.
pub parse_field-Fits :
    (lo hi : ℕ) (field : Text) (vs : List ℤ)
    → lo ≤ hi
    → hi ≤ 59
    → NoOverflow lo field
    → parse_field field lo hi ≡ ok vs
    → All (Fits lo hi) vs
unfolding parse_field
parse_field-Fits lo hi field vs le small fits h = elim (Bool-cases (text_eq field (codes "*"))) [
  | inl star ↦
      let same : int_range (pos lo) (pos hi) ≡ vs = ground arith in
      rw (← same)
        (int_range-Fits lo hi (pos lo) (pos hi) (ground arith) (ground arith) (ground arith))
  | inr plain ↦ elim (Bool-cases (has_prefix field (codes "*/"))) [
    | inl stepped ↦
        parse_step-Fits lo hi (atoi (drop 2 field)) vs small fits (rw (plain, stepped) at h)
    | inr listed ↦ parse_parts-Fits lo hi (split_on b',' field) vs (rw (plain, listed) at h)
  ]
]

NoOverflow-at_zero : (field : Text) → NoOverflow 0 field
NoOverflow-at_zero field n h = omega (arith, atoi-lt-int_limit (drop 2 field) n h)

-- An accepted cron expression of five fields has its minutes, hours, days, months and weekdays in
-- 0-59, 0-23, 1-31, 1-12 and 0-6, where the steps of the day and of the month, if they have one, do
-- not overflow.
pub parse_cron_in_range :
    (expr mi ho da mo we : Text) (s : CronSchedule)
    → fields expr ≡ mi ∷ ho ∷ da ∷ mo ∷ we ∷ []
    → NoOverflow 1 da
    → NoOverflow 1 mo
    → parse_cron expr ≡ ok s
    → All (Fits 0 59) s.minute
      × All (Fits 0 23) s.hour
      × All (Fits 1 31) s.day
      × All (Fits 1 12) s.month
      × All (Fits 0 6) s.weekday
unfolding parse_cron
parse_cron_in_range expr mi ho da mo we s split day_fits month_fits h =
    let five : parse_five (mi ∷ ho ∷ da ∷ mo ∷ we ∷ []) ≡ ok s = rw split at h in
    let (minute, h₁, a) = >>=-ok (parse_field mi 0 59) _ five in
    let (hour, h₂, b) = >>=-ok (parse_field ho 0 23) _ h₁ in
    let (day, h₃, c) = >>=-ok (parse_field da 1 31) _ h₂ in
    let (month, h₄, d) = >>=-ok (parse_field mo 1 12) _ h₃ in
    let (weekday, h₅, e) = >>=-ok (parse_field we 0 6) _ h₄ in
    let minute_is : minute ≡ s.minute = ground arith in
    let hour_is : hour ≡ s.hour = ground arith in
    let day_is : day ≡ s.day = ground arith in
    let month_is : month ≡ s.month = ground arith in
    let weekday_is : weekday ≡ s.weekday = ground arith in
    (
      rw minute_is at
          (parse_field-Fits 0 59 mi minute (omega arith) (omega arith) (NoOverflow-at_zero mi) a),
      rw hour_is at
          (parse_field-Fits 0 23 ho hour (omega arith) (omega arith) (NoOverflow-at_zero ho) b),
      rw day_is at (parse_field-Fits 1 31 da day (omega arith) (omega arith) day_fits c),
      rw month_is at (parse_field-Fits 1 12 mo month (omega arith) (omega arith) month_fits d),
      rw weekday_is at
          (parse_field-Fits 0 6 we weekday (omega arith) (omega arith) (NoOverflow-at_zero we) e),
    )

-- The text of the step that overflows a field which starts at 1.
abbrev pub largest_step : Text
largest_step = codes "*/9223372036854775807"

-- A field that starts at 1, such as the day or the month, accepts a step of the largest `int`, and
-- gets the values 1, -9223372036854775808 and -1, of which two are out of its range.
pub largest_step_out_of_range :
    (hi : ℕ)
    → 1 ≤ hi
    → hi ≤ 59
    → parse_field largest_step 1 hi ≡ ok (pos 1 ∷ negsuc 9223372036854775807 ∷ negsuc 0 ∷ [])
unfolding parse_field
largest_step_out_of_range hi h k = ground arith
