-- ===== src/Alerting/Marks.antt =====
-- internal/alerting/alerting.go: the mark of an alert, under everything that may happen before the
-- cooldown ends.
use Prim.Native.String.{◌++◌ as ◌<>◌}
use vcdeploy.Prelude.{
  ℕ, ◌+◌, ◌-◌, ◌<◌, ◌≤◌, String, ◌≡◌, Bool, true, false, some, arith, inl, inr, Bool-cases, ltb,
  lookup, str_eq, eq_iff, lookup-insert, lookup-delete,
}
use vcdeploy.Alerting.{
  AlertType, agent_disconnected, deployment_stuck, disk_critical, disk_warning, high_memory,
  high_cpu, Manager, is_cooling, can_alert, note_alert, send_alert, alert_once,
  check_agent_disconnect, check_agent_reconnect, check_deployment_stuck, check_disk_usage,
  check_memory_usage, check_cpu_usage, clear_cooldown,
}

-- What happens between a note of `key` at `last` and the time `until`, if nothing clears the cooldown
-- of the key: any check, the clearing of another key, as by the reconnection of an agent, and, since
-- `canAlert` releases its locks, the writes and the sends of calls whose test came earlier.
pub data ReachBefore {F : Type 0} (at_least : F → F → Bool) (last until : ℕ) (key : String)
    (s : Manager F) : Manager F → Type 0 where
  start : ReachBefore at_least last until key s s
  note :
      {m : Manager F} (now : ℕ) (other : String)
      → ReachBefore at_least last until key s m
      → last ≤ now
      → ReachBefore at_least last until key s (note_alert now other m)
  send :
      {m : Manager F} (now : ℕ) (kind : AlertType) (subject : String)
      → ReachBefore at_least last until key s m
      → ReachBefore at_least last until key s (send_alert now kind subject m)
  disconnect :
      {m : Manager F} (now : ℕ) (agent_id : String)
      → ReachBefore at_least last until key s m
      → now < until
      → ReachBefore at_least last until key s (check_agent_disconnect now agent_id m)
  reconnect :
      {m : Manager F} (now : ℕ) (agent_id : String)
      → ReachBefore at_least last until key s m
      → str_eq ("agent_disconnect_" <> agent_id) key ≡ false
      → ReachBefore at_least last until key s (check_agent_reconnect now agent_id m)
  stuck :
      {m : Manager F} (now start_time : ℕ) (deployment_id : String)
      → ReachBefore at_least last until key s m
      → now < until
      → ReachBefore at_least last until key s
          (check_deployment_stuck now deployment_id start_time m)
  disk :
      {m : Manager F} (now : ℕ) (agent_id : String) (percent : F)
      → ReachBefore at_least last until key s m
      → now < until
      → ReachBefore at_least last until key s (check_disk_usage at_least now agent_id percent m)
  memory :
      {m : Manager F} (now : ℕ) (agent_id : String) (percent : F)
      → ReachBefore at_least last until key s m
      → now < until
      → ReachBefore at_least last until key s (check_memory_usage at_least now agent_id percent m)
  cpu :
      {m : Manager F} (now : ℕ) (agent_id : String) (percent : F)
      → ReachBefore at_least last until key s m
      → now < until
      → ReachBefore at_least last until key s (check_cpu_usage at_least now agent_id percent m)
  clear :
      {m : Manager F} (other : String)
      → ReachBefore at_least last until key s m
      → str_eq other key ≡ false
      → ReachBefore at_least last until key s (clear_cooldown other m)

module _ {F : Type 0} where
  -- The last alert of the key was noted at `last` or later, and the cooldown is `d`.
  pub record IsMarked (key : String) (last d : ℕ) (m : Manager F) : Type 0 where
    pub time : ℕ
    pub mark : lookup key m.cooldowns ≡ some time
    pub later : last ≤ time
    pub cooldown : m.thresholds.alert_cooldown ≡ d

  alert_once-IsMarked :
      (key : String) (last d now : ℕ) (other : String) (kind : AlertType) (subject : String)
      (m : Manager F)
      → now < last + d
      → 0 < d
      → IsMarked key last d m
      → IsMarked key last d (alert_once now other kind subject m)
  unfolding alert_once can_alert is_cooling send_alert note_alert
  alert_once-IsMarked key last d now other kind subject m early late h =
      let before : now < h.time + d = omega (arith, h.later) in
      record {
        time = h.time;
        mark = ground (
          arith,
          before,
          h.mark,
          h.cooldown,
          eq_iff other key,
          lookup-insert other key now m.cooldowns,
        );
        later = h.later;
        cooldown = ground (arith, h.cooldown);
      }

  note_alert-IsMarked :
      (key : String) (last d now : ℕ) (other : String) (m : Manager F)
      → last ≤ now
      → IsMarked key last d m
      → IsMarked key last d (note_alert now other m)
  unfolding note_alert
  note_alert-IsMarked key last d now other m late h = elim (Bool-cases (str_eq other key)) [
    | inl e ↦ record {
      time = now;
      mark = ground (arith, lookup-insert other key now m.cooldowns);
      later = late;
      cooldown = h.cooldown;
    }
    | inr e ↦ record {
      time = h.time;
      mark = ground (arith, h.mark, lookup-insert other key now m.cooldowns);
      later = h.later;
      cooldown = h.cooldown;
    }
  ]

  send_alert-IsMarked :
      (key : String) (last d now : ℕ) (kind : AlertType) (subject : String) (m : Manager F)
      → IsMarked key last d m
      → IsMarked key last d (send_alert now kind subject m)
  unfolding send_alert
  send_alert-IsMarked key last d now kind subject m h = record {
    time = h.time;
    mark = ground (arith, h.mark);
    later = h.later;
    cooldown = ground (arith, h.cooldown);
  }

  pub is_cooling-marked :
      (key : String) (last d now : ℕ) (m : Manager F)
      → 0 < d
      → now < last + d
      → IsMarked key last d m
      → is_cooling now key m ≡ true
  unfolding is_cooling
  is_cooling-marked key last d now m p early h =
      let before : now < h.time + d = omega (arith, h.later) in
      ground (arith, before, h.mark, h.cooldown)

module _ {F : Type 0} (at_least : F → F → Bool) where
  pub ReachBefore-IsMarked :
      (key : String) (last d : ℕ) (s m : Manager F)
      → 0 < d
      → IsMarked key last d s
      → ReachBefore at_least last (last + d) key s m
      → IsMarked key last d m
  unfolding check_agent_disconnect check_agent_reconnect check_deployment_stuck check_disk_usage
      check_memory_usage check_cpu_usage clear_cooldown send_alert
  ReachBefore-IsMarked key last d s m p h start = h
  ReachBefore-IsMarked key last d s m p h (note {m = t} now other r late) =
      note_alert-IsMarked key last d now other t late (ReachBefore-IsMarked key last d s t p h r)
  ReachBefore-IsMarked key last d s m p h (send {m = t} now kind subject r) =
      send_alert-IsMarked key last d now kind subject t (ReachBefore-IsMarked key last d s t p h r)
  ReachBefore-IsMarked key last d s m p h (disconnect {m = t} now id r early) =
      alert_once-IsMarked key last d now ("agent_disconnect_" <> id) agent_disconnected id t early p
        (ReachBefore-IsMarked key last d s t p h r)
  ReachBefore-IsMarked key last d s m p h (reconnect {m = t} now id r ne) =
      let before = ReachBefore-IsMarked key last d s t p h r in
      record {
        time = before.time;
        later = before.later;
        mark =
            ground (arith, before.mark, lookup-delete ("agent_disconnect_" <> id) key t.cooldowns);
        cooldown = ground (arith, before.cooldown);
      }
  ReachBefore-IsMarked key last d s m p h (stuck {m = t} now began id r early) =
      let before = ReachBefore-IsMarked key last d s t p h r in
      elim (Bool-cases (ltb (now - began) t.thresholds.deployment_timeout)) [
        | inl e ↦ rw e before
        | inr e ↦ rw e (
            alert_once-IsMarked key last d now ("deployment_stuck_" <> id) deployment_stuck id t
              early p before)
      ]
  ReachBefore-IsMarked key last d s m p h (disk {m = t} now id percent r early) =
      let before = ReachBefore-IsMarked key last d s t p h r in
      elim (Bool-cases (at_least percent t.thresholds.disk_critical_percent)) [
        | inl e ↦ rw e (
            alert_once-IsMarked key last d now ("disk_critical_" <> id) disk_critical id t early p
              before)
        | inr e ↦ elim (Bool-cases (at_least percent t.thresholds.disk_warning_percent)) [
          | inl f ↦
              rw (e, f)
                (alert_once-IsMarked key last d now ("disk_warning_" <> id) disk_warning id t early
                  p before)
          | inr f ↦ rw (e, f) before
        ]
      ]
  ReachBefore-IsMarked key last d s m p h (memory {m = t} now id percent r early) =
      let before = ReachBefore-IsMarked key last d s t p h r in
      elim (Bool-cases (at_least percent t.thresholds.memory_warning_percent)) [
        | inl e ↦ rw e (
            alert_once-IsMarked key last d now ("memory_warning_" <> id) high_memory id t early p
              before)
        | inr e ↦ rw e before
      ]
  ReachBefore-IsMarked key last d s m p h (cpu {m = t} now id percent r early) =
      let before = ReachBefore-IsMarked key last d s t p h r in
      elim (Bool-cases (at_least percent t.thresholds.cpu_warning_percent)) [
        | inl e ↦
            rw e (
              alert_once-IsMarked key last d now ("cpu_warning_" <> id) high_cpu id t early p
                before)
        | inr e ↦ rw e before
      ]
  ReachBefore-IsMarked key last d s m p h (clear {m = t} other r ne) =
      let before = ReachBefore-IsMarked key last d s t p h r in
      record {
        time = before.time;
        later = before.later;
        mark = ground (arith, before.mark, lookup-delete other key t.cooldowns);
        cooldown = before.cooldown;
      }
