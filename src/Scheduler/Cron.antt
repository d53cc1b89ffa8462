-- ===== src/Scheduler/Cron.antt =====
-- internal/scheduler/scheduler.go: `ParseCron`, `parseField` and the schedule's `Next`. A time is a
-- number of nanoseconds since Go's zero time; what the package `time` knows of the calendar and of
-- the location is the record `Calendar`.
pub mod Range
pub mod Steps
pub mod Bounds
pub mod Search
mod Witnesses
use vcdeploy.Prelude.{
  split_on, ℕ, zero, suc, ◌+◌, ◌-◌, ◌*◌, ◌%◌, Bool, true, false, ◌&&◌, ◌||◌, Option, none, some,
  List, [], ◌∷◌, ◌++◌, if◌then◌else◌, ltb, leb, ◌==◌, any, drop, Text, codes, text_eq, has_prefix,
  contains, fields, trim_space, ℤ, pos, negsuc, leb_int, eq_int, add_int, atoi, not,
}

pub data CronError : Type 0 where
  invalid_step invalid_range invalid_range_start invalid_range_end range_out_of_bounds : CronError
  invalid_value value_out_of_bounds : CronError
  wrong_field_count : CronError

pub data Result (A : Type 0) : Type 0 where
  ok : A → Result A
  err : CronError → Result A

infixl 5 ◌>>=◌
abbrev pub ◌>>=◌ : {A B : Type 0} → Result A → (A → Result B) → Result B
ok a >>= f = f a
err e >>= f = err e

-- `for i := lo; i < lo + count; i++ { values = append(values, i) }`
unfoldable pub count_up : ℕ → ℕ → List ℤ
count_up zero lo = []
count_up (suc n) lo = pos lo ∷ count_up n (suc lo)

-- The loop over `lo..hi`. Both are at least the field's smallest value, so none is negative.
unfoldable pub int_range : ℤ → ℤ → List ℤ
unfolding count_up
int_range (pos lo) (pos hi) = count_up (suc hi - lo) lo
int_range _ _ = []

-- The loop of `*/N`, with fuel: `for i := minVal; i <= maxVal; i += step`.
unfoldable pub step_values : ℕ → ℤ → ℕ → ℕ → List ℤ
unfolding add_int
step_values zero i max_val step = []
step_values (suc f) i max_val step = elim (leb_int i (pos max_val)) [
  | true ↦ i ∷ step_values f (add_int i step) max_val step
  | false ↦ []
]

-- A range N-M.
unfoldable pub parse_range : ℕ → ℕ → List Text → Result (List ℤ)
unfolding int_range atoi
parse_range min_val max_val (a ∷ b ∷ []) = elim (atoi a) [
  | none ↦ err invalid_range_start
  | some start ↦ elim (atoi b) [
    | none ↦ err invalid_range_end
    | some end ↦
        if not (leb_int (pos min_val) start)
          || not (leb_int end (pos max_val))
          || not (leb_int start end)
        then err range_out_of_bounds
        else ok (int_range start end)
  ]
]
parse_range min_val max_val _ = err invalid_range

-- A single value.
unfoldable pub parse_value : ℕ → ℕ → Text → Result (List ℤ)
unfolding atoi
parse_value min_val max_val part = elim (atoi part) [
  | none ↦ err invalid_value
  | some val ↦
      if not (leb_int (pos min_val) val) || not (leb_int val (pos max_val))
      then err value_out_of_bounds
      else ok (val ∷ [])
]

unfoldable pub parse_part : ℕ → ℕ → Text → Result (List ℤ)
unfolding parse_range parse_value split_on contains
parse_part min_val max_val part =
    if contains part (codes "-")
    then parse_range min_val max_val (split_on b'-' part)
    else parse_value min_val max_val part

-- The loop over the parts between commas.
unfoldable pub parse_parts : ℕ → ℕ → List Text → Result (List ℤ)
unfolding parse_part
parse_parts min_val max_val [] = ok []
parse_parts min_val max_val (part ∷ parts) = do
  vs ← parse_part min_val max_val part
  rest ← parse_parts min_val max_val parts
  ok (vs ++ rest)

-- The fuel for `*/N`: no field of a cron expression has more than 60 values.
abbrev pub step_fuel : ℕ
step_fuel = 64

unfoldable pub parse_step : ℕ → ℕ → Option ℤ → Result (List ℤ)
unfolding step_values
parse_step min_val max_val (some (pos (suc n))) =
    ok (step_values step_fuel (pos min_val) max_val (suc n))
parse_step min_val max_val _ = err invalid_step

-- `parseField`
unfoldable pub parse_field : Text → ℕ → ℕ → Result (List ℤ)
unfolding int_range parse_step parse_parts has_prefix text_eq split_on atoi
parse_field field min_val max_val =
    if text_eq field (codes "*")
    then ok (int_range (pos min_val) (pos max_val))
    else if has_prefix field (codes "*/")
    then parse_step min_val max_val (atoi (drop 2 field))
    else parse_parts min_val max_val (split_on b',' field)

pub record CronSchedule : Type 0 where
  pub minute : List ℤ
  pub hour : List ℤ
  pub day : List ℤ
  pub month : List ℤ
  pub weekday : List ℤ

unfoldable pub parse_five : List Text → Result CronSchedule
unfolding parse_field
parse_five (mi ∷ ho ∷ da ∷ mo ∷ we ∷ []) = do
  minute ← parse_field mi 0 59
  hour ← parse_field ho 0 23
  day ← parse_field da 1 31
  month ← parse_field mo 1 12
  weekday ← parse_field we 0 6
  ok (record { minute = minute; hour = hour; day = day; month = month; weekday = weekday })
parse_five _ = err wrong_field_count

-- `ParseCron`
unfoldable pub parse_cron : Text → Result CronSchedule
unfolding parse_five fields
parse_cron expr = parse_five (fields expr)

-- The parts of a time in the location.
pub record Civil : Type 0 where
  pub minute : ℕ
  pub hour : ℕ
  pub day : ℕ
  pub month : ℕ
  pub weekday : ℕ

-- `civil t` are the parts of `t`; `at_time t h m` is h:m on the day of `t`; `next_day` and
-- `ten_years` are `AddDate(0, 0, 1)` and `AddDate(10, 0, 0)`.
pub record Calendar : Type 0 where
  pub civil : ℕ → Civil
  pub at_time : ℕ → ℕ → ℕ → ℕ
  pub next_day : ℕ → ℕ
  pub ten_years : ℕ → ℕ

-- `contains`
unfoldable pub has_value : List ℤ → ℕ → Bool
unfolding any
has_value values n = any (λ v. eq_int v (pos n)) values

-- `matches`
unfoldable pub matches : CronSchedule → Civil → Bool
unfolding has_value
matches s t =
    has_value s.minute t.minute
    && has_value s.hour t.hour
    && has_value s.day t.day
    && has_value s.month t.month
    && has_value s.weekday t.weekday

-- `time.Minute`
abbrev pub minute_ns : ℕ
minute_ns = 60000000000

-- `4 * 365 * 24 * 60`
abbrev pub max_iterations : ℕ
max_iterations = 2102400

-- The loop of `Next`: the first minute from `t` on that matches, among so many.
unfoldable pub search_from : Calendar → CronSchedule → ℕ → ℕ → Option ℕ
unfolding matches
search_from cal s zero t = none
search_from cal s (suc n) t = elim (matches s (cal.civil t)) [
  | true ↦ some t
  | false ↦ search_from cal s n (t + minute_ns)
]

-- `after.Add(time.Minute).Truncate(time.Minute)`
unfoldable pub next_minute : ℕ → ℕ
next_minute after = after + minute_ns - (after + minute_ns) % minute_ns

-- `CronSchedule.Next`
unfoldable pub next_cron : Calendar → CronSchedule → ℕ → ℕ
unfolding search_from next_minute
next_cron cal s after = elim (search_from cal s max_iterations (next_minute after)) [
  | some t ↦ t
  | none ↦ cal.ten_years after
]
