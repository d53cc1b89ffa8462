-- ===== src/Scheduler/Cron/Witnesses.antt =====
-- Parses of cron expressions, and the theorems at concrete inputs.
use vcdeploy.Prelude.{
  ℕ, ◌+◌, ◌/◌, ◌%◌, ◌<◌, ◌≡◌, refl, ◌⊎◌, [], ◌∷◌, arith, All, Text, codes, text_eq, has_prefix,
  contains, fields, pos, atoi,
}
use vcdeploy.Scheduler.Cron.{
  ok, err, value_out_of_bounds, CronSchedule, parse_cron, Calendar, next_cron, count_up,
}
use vcdeploy.Scheduler.Cron.Range.{Fits}
use vcdeploy.Scheduler.Cron.Bounds.{parse_cron_in_range}
use vcdeploy.Scheduler.Cron.Search.{full_minute, NoFullMinute, IsFirstMinute, next_cron_lem}

abbrev expr : Text
expr = codes "*/30 2-4 1,15 * 0"

abbrev parsed : CronSchedule
parsed = record {
  minute = pos 0 ∷ pos 30 ∷ [];
  hour = pos 2 ∷ pos 3 ∷ pos 4 ∷ [];
  day = pos 1 ∷ pos 15 ∷ [];
  month = count_up 12 1;
  weekday = pos 0 ∷ [];
}

parse_run : parse_cron expr ≡ ok parsed
unfolding parse_cron contains has_prefix text_eq count_up
parse_run = refl

hour_out_of_bounds : parse_cron (codes "0 24 * * *") ≡ err value_out_of_bounds
unfolding parse_cron contains has_prefix text_eq count_up
hour_out_of_bounds = refl

parse_cron_in_range_example :
    All (Fits 0 59) parsed.minute
    × All (Fits 0 23) parsed.hour
    × All (Fits 1 31) parsed.day
    × All (Fits 1 12) parsed.month
    × All (Fits 0 6) parsed.weekday
unfolding fields atoi
parse_cron_in_range_example =
    parse_cron_in_range expr (codes "*/30") (codes "2-4") (codes "1,15") (codes "*") (codes "0")
      parsed refl (λ n h. ground arith) (λ n h. ground arith) parse_run

-- A calendar of months of 31 days, that begins on a Sunday.
abbrev plain_calendar : Calendar
plain_calendar = record {
  civil = λ t. record {
    minute = t / 60000000000 % 60;
    hour = t / 3600000000000 % 24;
    day = t / 86400000000000 % 31 + 1;
    month = t / 2678400000000000 % 12 + 1;
    weekday = t / 86400000000000 % 7;
  };
  at_time = λ t hour minute. t;
  next_day = λ t. t + 86400000000000;
  ten_years = λ t. t + 311040000000000000;
}

-- From one o'clock of the first day on, the next run is at two o'clock.
next_run : next_cron plain_calendar parsed 3600000000005 ≡ 7200000000000
unfolding next_cron count_up
next_run = refl

next_cron_lem_example :
    ((k : ℕ) × (next_cron plain_calendar parsed 3600000000005 ≡ full_minute 3600000000005 k)
      × (k < 2102400)
      × IsFirstMinute plain_calendar parsed 3600000000005 k)
    ⊎ ((next_cron plain_calendar parsed 3600000000005 ≡ plain_calendar.ten_years 3600000000005)
        × NoFullMinute plain_calendar parsed 3600000000005 2102400)
next_cron_lem_example = next_cron_lem plain_calendar parsed 3600000000005
