-- ===== src/Alerting/Cooldown.antt =====
-- internal/alerting/alerting.go: how often an alert is sent.
use Prim.Native.String.{◌++◌ as ◌<>◌}
use vcdeploy.Prelude.{
  ℕ, ◌+◌, ◌<◌, String, ◌≡◌, refl, Bool, true, [], ◌∷◌, ◌++◌, arith, eq_iff, lookup-insert,
  lookup-delete,
}
use vcdeploy.Alerting.{
  AlertType, agent_disconnected, agent_reconnected, Manager, is_cooling, can_alert, note_alert,
  send_alert, alert_once, check_agent_disconnect, check_agent_reconnect, clear_cooldown,
}
use vcdeploy.Alerting.Marks.{ReachBefore, IsMarked, is_cooling-marked, ReachBefore-IsMarked}

module _ {F : Type 0} (at_least : F → F → Bool) where
  -- Once an alert of a key is noted, a call whose test comes before the end of a positive cooldown
  -- sends nothing and changes nothing. This holds after any checks before that end, any clearing of
  -- other keys, and any writes and sends of calls that are in between their locks.
  pub cooldown_holds :
      (key : String) (last now : ℕ) (kind : AlertType) (subject : String) (s m : Manager F)
      → 0 < s.thresholds.alert_cooldown
      → ReachBefore at_least last (last + s.thresholds.alert_cooldown) key (note_alert last key s) m
      → now < last + s.thresholds.alert_cooldown
      → alert_once now key kind subject m ≡ m
  unfolding alert_once can_alert send_alert note_alert
  cooldown_holds key last now kind subject s m p r early =
      let d = s.thresholds.alert_cooldown in
      let marked : IsMarked key last d (note_alert last key s) = record {
        time = last;
        mark = ground (arith, lookup-insert key key last s.cooldowns, eq_iff key key);
        later = omega arith;
        cooldown = refl;
      } in
      let after = ReachBefore-IsMarked at_least key last d (note_alert last key s) m p marked r in
      let cooling : is_cooling now key m ≡ true =
        is_cooling-marked key last d now m p early after in
      ground (arith, cooling)

module _ {F : Type 0} where
  -- A reconnection ends the cooldown of the disconnection: with a notifier, it is notified itself,
  -- and so is the next disconnection of the agent, however soon it comes.
  pub disconnect_after_reconnect :
      (now later : ℕ) (agent_id : String) (m : Manager F)
      → m.has_notifier ≡ true
      → (check_agent_disconnect later agent_id (check_agent_reconnect now agent_id m)).notified
        ≡ (m.notified
            ++ record { kind = agent_reconnected; subject = agent_id; timestamp = now } ∷ [])
          ++ record { kind = agent_disconnected; subject = agent_id; timestamp = later } ∷ []
  unfolding check_agent_disconnect check_agent_reconnect clear_cooldown alert_once can_alert
      is_cooling note_alert send_alert
  disconnect_after_reconnect now later agent_id m on =
      let key = "agent_disconnect_" <> agent_id in
      ground (arith, on, lookup-delete key key m.cooldowns, eq_iff key key)
