-- ===== src/Alerting/Witnesses.antt =====
-- Runs of the alert manager, and the theorems at concrete inputs.
use vcdeploy.Prelude.{ℕ, ◌≡◌, refl, Bool, true, false, [], ◌∷◌, arith, leb}
use vcdeploy.Alerting.{
  disk_critical, Thresholds, Manager, is_cooling, note_alert, send_alert, alert_once,
  check_disk_usage,
}
use vcdeploy.Alerting.Marks.{start, note, send, disk}
use vcdeploy.Alerting.Cooldown.{cooldown_holds}

abbrev at_least : ℕ → ℕ → Bool
at_least a b = leb b a

abbrev thresholds : Thresholds ℕ
thresholds = record {
  disk_warning_percent = 80;
  disk_critical_percent = 90;
  memory_warning_percent = 85;
  cpu_warning_percent = 90;
  deployment_timeout = 1800;
  alert_cooldown = 900;
}

abbrev manager : Manager ℕ
manager = record { has_notifier = true; thresholds = thresholds; cooldowns = []; notified = [] }

-- Two critical readings within the cooldown send one alert; the third comes after it.
three_readings :
    (check_disk_usage at_least 1000 "a1" 97 (
      check_disk_usage at_least 200 "a1" 96
        (check_disk_usage at_least 100 "a1" 95 manager))).notified
    ≡ record { kind = disk_critical; subject = "a1"; timestamp = 100 }
      ∷ record { kind = disk_critical; subject = "a1"; timestamp = 1000 }
      ∷ []
unfolding check_disk_usage
three_readings = refl

-- Two calls of one key whose tests both come before the writes both send, one within the cooldown of
-- the other.
overlapping_tests :
    (is_cooling 100 "disk_critical_a1" manager ≡ false)
    × (is_cooling 101 "disk_critical_a1" manager ≡ false)
unfolding is_cooling
overlapping_tests = (refl, refl)

overlapping_sends :
    (send_alert 101 disk_critical "a1" (
      note_alert 101 "disk_critical_a1"
        (send_alert 100 disk_critical "a1" (note_alert 100 "disk_critical_a1" manager)))).notified
    ≡ record { kind = disk_critical; subject = "a1"; timestamp = 100 }
      ∷ record { kind = disk_critical; subject = "a1"; timestamp = 101 }
      ∷ []
unfolding send_alert note_alert
overlapping_sends = refl

abbrev noted : Manager ℕ
noted = note_alert 100 "disk_critical_a1" manager

-- A second call that had passed its test writes and sends in between.
abbrev overlapped : Manager ℕ
overlapped =
    check_disk_usage at_least 200 "a2" 85
      (send_alert 101 disk_critical "a1" (note_alert 101 "disk_critical_a1" noted))

cooldown_holds_example :
    alert_once 999 "disk_critical_a1" disk_critical "a1" overlapped ≡ overlapped
cooldown_holds_example =
    cooldown_holds at_least "disk_critical_a1" 100 999 disk_critical "a1" manager overlapped
      (omega arith)
      (disk 200 "a2" 85
        (send 101 disk_critical "a1" (note 101 "disk_critical_a1" start (omega arith)))
        (omega arith))
      (omega arith)
