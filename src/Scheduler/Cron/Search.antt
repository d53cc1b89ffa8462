-- ===== src/Scheduler/Cron/Search.antt =====
-- internal/scheduler/scheduler.go: `CronSchedule.Next` finds the first minute that matches.
use vcdeploy.Prelude.{
  ℕ, zero, suc, ◌+◌, ◌*◌, ◌/◌, ◌<◌, ◌≡◌, refl, ◌⊎◌, true, false, none, some, arith, Bool-cases, inl,
  inr,
}
use mathlib.Core.Path.{subst}
use vcdeploy.Scheduler.Cron.{
  Calendar, CronSchedule, matches, minute_ns, max_iterations, search_from, next_minute, next_cron,
}

-- The k-th minute from `t` on.
abbrev pub minute_at : ℕ → ℕ → ℕ
minute_at t k = t + k * minute_ns

-- No minute among the first n matches.
abbrev pub NoneAmong : Calendar → CronSchedule → ℕ → ℕ → Type 0
NoneAmong cal s t n = (j : ℕ) → j < n → matches s (cal.civil (minute_at t j)) ≡ false

-- The k-th minute is the first among n that matches.
pub record IsFirst (cal : Calendar) (s : CronSchedule) (t n k : ℕ) : Type 0 where
  pub within : k < n
  pub matching : matches s (cal.civil (minute_at t k)) ≡ true
  pub none_before : NoneAmong cal s t k

NoneAmong-suc :
    (cal : Calendar) (s : CronSchedule) (t n : ℕ)
    → matches s (cal.civil t) ≡ false
    → NoneAmong cal s (t + minute_ns) n
    → NoneAmong cal s t (suc n)
NoneAmong-suc cal s t n miss later zero h =
    let same : minute_at t 0 ≡ t = omega arith in rw same miss
NoneAmong-suc cal s t n miss later (suc j) h =
    let same : minute_at t (suc j) ≡ minute_at (t + minute_ns) j = omega arith in
    rw same (later j (omega arith))

search_from_lem :
    (cal : Calendar) (s : CronSchedule) (n t : ℕ)
    → ((k : ℕ) × (search_from cal s n t ≡ some (minute_at t k)) × IsFirst cal s t n k)
      ⊎ ((search_from cal s n t ≡ none) × NoneAmong cal s t n)
unfolding search_from
search_from_lem cal s zero t = inr (refl, λ j h. absurd (omega arith))
search_from_lem cal s (suc n) t = elim (Bool-cases (matches s (cal.civil t))) [
  | inl hit ↦
      let same : minute_at t 0 ≡ t = omega arith in
      inl (
        0,
        rw (hit, search_from, same) refl,
        record {
          within = omega arith;
          matching = rw same hit;
          none_before = λ j h. absurd (omega arith);
        },
      )
  | inr miss ↦ elim (search_from_lem cal s n (t + minute_ns)) [
    | inl (k, found, first) ↦
        let same : minute_at t (suc k) ≡ minute_at (t + minute_ns) k = omega arith in
        inl (
          suc k,
          rw (miss, search_from, same) found,
          record {
            within = omega (arith, first.within);
            matching = rw same first.matching;
            none_before = NoneAmong-suc cal s t k miss first.none_before;
          },
        )
    | inr (gone, never) ↦ inr (rw (miss, search_from) gone, NoneAmong-suc cal s t n miss never)
  ]
]

-- The full minutes after a time, in nanoseconds, counted from 0.
abbrev pub full_minute : ℕ → ℕ → ℕ
full_minute after k = (after / 60000000000 + 1 + k) * 60000000000

-- No full minute among the first n after a time matches.
abbrev pub NoFullMinute : Calendar → CronSchedule → ℕ → ℕ → Type 0
NoFullMinute cal s after n = (j : ℕ) → j < n → matches s (cal.civil (full_minute after j)) ≡ false

-- The k-th full minute is the first that matches.
pub record IsFirstMinute (cal : Calendar) (s : CronSchedule) (after k : ℕ) : Type 0 where
  pub matching : matches s (cal.civil (full_minute after k)) ≡ true
  pub none_before : NoFullMinute cal s after k

minute_at-next_minute : (after k : ℕ) → minute_at (next_minute after) k ≡ full_minute after k
unfolding next_minute
minute_at-next_minute after k = omega arith

NoneAmong-NoFullMinute :
    (cal : Calendar) (s : CronSchedule) (after n : ℕ)
    → NoneAmong cal s (next_minute after) n
    → NoFullMinute cal s after n
NoneAmong-NoFullMinute cal s after n never j h =
    subst (λ t. matches s (cal.civil t) ≡ false) (minute_at-next_minute after j) (never j h)

-- `Next` returns the first of the 2102400 full minutes after the given time at which the schedule
-- matches; if there is none among them, the given time ten years on.
pub next_cron_lem :
    (cal : Calendar) (s : CronSchedule) (after : ℕ)
    → ((k : ℕ) × (next_cron cal s after ≡ full_minute after k)
        × (k < 2102400)
        × IsFirstMinute cal s after k)
      ⊎ ((next_cron cal s after ≡ cal.ten_years after) × NoFullMinute cal s after 2102400)
unfolding next_cron
next_cron_lem cal s after = elim (search_from_lem cal s max_iterations (next_minute after)) [
  | inl (k, found, first) ↦ inl (
    k,
    rw (found, next_cron) (minute_at-next_minute after k),
    first.within,
    record {
      matching =
          subst (λ t. matches s (cal.civil t) ≡ true) (minute_at-next_minute after k)
            first.matching;
      none_before = NoneAmong-NoFullMinute cal s after k first.none_before;
    },
  )
  | inr (gone, never) ↦
      inr (rw (gone, next_cron) refl, NoneAmong-NoFullMinute cal s after max_iterations never)
]
