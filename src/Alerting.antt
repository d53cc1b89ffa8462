-- ===== src/Alerting.antt =====
-- internal/alerting/alerting.go: alerts with a cooldown for each key. The time of a call is one
-- argument, a number of nanoseconds of a clock that does not go back; a duration that is not
-- positive acts as zero does. The texts of titles and messages are left out.
pub mod Marks
pub mod Cooldown
mod Witnesses
use Prim.Native.String.{◌++◌ as ◌<>◌}
use vcdeploy.Prelude.{
  ℕ, ◌-◌, String, Bool, true, false, Option, none, some, List, [], ◌∷◌, ◌++◌, if◌then◌else◌, ltb,
  Table, lookup, insert, delete,
}

-- `AlertType`
pub data AlertType : Type 0 where
  agent_disconnected agent_reconnected disk_warning disk_critical : AlertType
  high_memory high_cpu deployment_stuck high_error_rate : AlertType

-- `Thresholds`, with percentages of type `F`.
pub record Thresholds (F : Type 0) : Type 0 where
  pub disk_warning_percent : F
  pub disk_critical_percent : F
  pub memory_warning_percent : F
  pub cpu_warning_percent : F
  pub deployment_timeout : ℕ
  pub alert_cooldown : ℕ

-- The event given to the notifier: its type, the agent or deployment that its message names, and
-- its time.
pub record Event : Type 0 where
  pub kind : AlertType
  pub subject : String
  pub timestamp : ℕ

-- `Manager`: `has_notifier` says that `notifier` is not nil, `notified` lists the calls of it.
pub record Manager (F : Type 0) : Type 0 where
  pub has_notifier : Bool
  pub thresholds : Thresholds F
  pub cooldowns : Table ℕ
  pub notified : List Event

module _ {F : Type 0} where
  -- `NewManager`
  unfoldable pub new_manager : Bool → Thresholds F → Manager F
  new_manager has_notifier thresholds = record {
    has_notifier = has_notifier;
    thresholds = thresholds;
    cooldowns = [];
    notified = [];
  }

  -- The test of `canAlert`, under its read lock.
  unfoldable pub is_cooling : ℕ → String → Manager F → Bool
  unfolding lookup
  is_cooling now key m = elim (lookup key m.cooldowns) [
    | none ↦ false
    | some last_alert ↦ ltb (now - last_alert) m.thresholds.alert_cooldown
  ]

  -- The write of `canAlert`, under its write lock.
  unfoldable pub note_alert : ℕ → String → Manager F → Manager F
  unfolding insert
  note_alert now key m = record m { cooldowns = insert key now m.cooldowns }

  -- `canAlert`, where no other call comes between its two locks; the locks are released in between.
  unfoldable pub can_alert : ℕ → String → Manager F → Manager F × Bool
  unfolding is_cooling note_alert
  can_alert now key m = if is_cooling now key m then (m, false) else (note_alert now key m, true)

  -- `sendAlert`
  unfoldable pub send_alert : ℕ → AlertType → String → Manager F → Manager F
  send_alert now kind subject m =
      let event : Event = record { kind = kind; subject = subject; timestamp = now } in
      if m.has_notifier then record m { notified = m.notified ++ event ∷ [] } else m

  -- What the checks do once their condition holds.
  unfoldable pub alert_once : ℕ → String → AlertType → String → Manager F → Manager F
  unfolding can_alert send_alert
  alert_once now key kind subject m =
      let (m', allowed) = can_alert now key m in
      if allowed then send_alert now kind subject m' else m'

  -- `CheckAgentDisconnect`
  unfoldable pub check_agent_disconnect : ℕ → String → Manager F → Manager F
  unfolding alert_once
  check_agent_disconnect now agent_id m =
      alert_once now ("agent_disconnect_" <> agent_id) agent_disconnected agent_id m

  -- `ClearCooldown`
  unfoldable pub clear_cooldown : String → Manager F → Manager F
  unfolding delete
  clear_cooldown key m = record m { cooldowns = delete key m.cooldowns }

  -- `ClearAllCooldowns`
  unfoldable pub clear_all_cooldowns : Manager F → Manager F
  clear_all_cooldowns m = record m { cooldowns = [] }

  -- `CheckAgentReconnect`
  unfoldable pub check_agent_reconnect : ℕ → String → Manager F → Manager F
  unfolding clear_cooldown send_alert
  check_agent_reconnect now agent_id m =
      send_alert now agent_reconnected agent_id (clear_cooldown ("agent_disconnect_" <> agent_id) m)

  -- `CheckDeploymentStuck`
  unfoldable pub check_deployment_stuck : ℕ → String → ℕ → Manager F → Manager F
  unfolding alert_once
  check_deployment_stuck now deployment_id start_time m =
      if ltb (now - start_time) m.thresholds.deployment_timeout
      then m
      else alert_once now ("deployment_stuck_" <> deployment_id) deployment_stuck deployment_id m

-- `at_least` is the comparison `>=` of float64.
module _ {F : Type 0} (at_least : F → F → Bool) where
  -- `CheckDiskUsage`
  unfoldable pub check_disk_usage : ℕ → String → F → Manager F → Manager F
  unfolding alert_once
  check_disk_usage now agent_id disk_percent m =
      if at_least disk_percent m.thresholds.disk_critical_percent
      then alert_once now ("disk_critical_" <> agent_id) disk_critical agent_id m
      else if at_least disk_percent m.thresholds.disk_warning_percent
      then alert_once now ("disk_warning_" <> agent_id) disk_warning agent_id m
      else m

  -- `CheckMemoryUsage`
  unfoldable pub check_memory_usage : ℕ → String → F → Manager F → Manager F
  unfolding alert_once
  check_memory_usage now agent_id mem_percent m =
      if at_least mem_percent m.thresholds.memory_warning_percent
      then alert_once now ("memory_warning_" <> agent_id) high_memory agent_id m
      else m

  -- `CheckCPUUsage`
  unfoldable pub check_cpu_usage : ℕ → String → F → Manager F → Manager F
  unfolding alert_once
  check_cpu_usage now agent_id cpu_percent m =
      if at_least cpu_percent m.thresholds.cpu_warning_percent
      then alert_once now ("cpu_warning_" <> agent_id) high_cpu agent_id m
      else m

  -- `CheckAgentMetrics`
  unfoldable pub check_agent_metrics : ℕ → String → F → F → F → Manager F → Manager F
  unfolding check_cpu_usage check_memory_usage check_disk_usage
  check_agent_metrics now agent_id cpu_percent mem_percent disk_percent m =
      check_disk_usage now agent_id disk_percent
        (check_memory_usage now agent_id mem_percent (check_cpu_usage now agent_id cpu_percent m))
