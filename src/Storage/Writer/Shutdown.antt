-- ===== src/Storage/Writer/Shutdown.antt =====
-- internal/storage/memory.go: the worker after `Close` has closed `done`.
use vcdeploy.Prelude.{ℕ, ◌≡◌, refl, sym, ap, ◌∙◌, List, [], ◌∷◌, ◌++◌}
use mathlib.Core.List.{append_assoc, append-nil}
use vcdeploy.Storage.Types.{WriteOp}
use vcdeploy.Storage.Writer.{
  Backend, Writer, running, draining, stopped, flush, flush_batch, take_op, Step, see_done,
  drain_one, drain_end,
}
use vcdeploy.Storage.Writer.Order.{Reach, here, next, IsOrdered}

module _ {D : Type 0} (backend : Backend D) (capacity batch_size : ℕ) where
  -- A writer that has stopped with nothing waiting, and flushed all of `ops`.
  pub record Drains (w : Writer D) (ops : List WriteOp) : Type 0 where
    pub final : Writer D
    pub reached : Reach backend capacity batch_size w final
    pub has_stopped : final.phase ≡ stopped
    pub none_waits : final.queue ≡ []
    pub all_flushed : final.flushed ≡ ops
    pub one_batch : final.db ≡ (flush_batch backend (w.batch ++ w.queue) w.db).2

  Reach_first :
      (w v u : Writer D)
      → Step backend capacity batch_size w v
      → Reach backend capacity batch_size v u
      → Reach backend capacity batch_size w u
  Reach_first w _ _ s (here v) = next w w v (here w) s
  Reach_first w _ _ s (next v u t r s') = next w u t (Reach_first w v u s r) s'

  draining-Drains :
      (queue : List WriteOp) (w : Writer D)
      → w.queue ≡ queue
      → w.phase ≡ draining
      → Drains w (w.flushed ++ (w.batch ++ queue))
  unfolding flush
  draining-Drains [] w e phase = record {
    final = record (flush backend w) { phase = stopped };
    reached = next w w _ (here w) (drain_end w phase e);
    has_stopped = refl;
    none_waits = e;
    all_flushed = ap (λ xs. w.flushed ++ xs) (sym (append-nil w.batch));
    one_batch =
        ap (λ xs. (flush_batch backend xs w.db).2)
          (sym (append-nil w.batch) ∙ ap (λ q. w.batch ++ q) (sym e));
  }
  draining-Drains (op ∷ rest) w e phase =
      let w' = take_op backend op rest w in
      let h = draining-Drains rest w' refl phase in
      let moved = append_assoc w.batch (op ∷ []) rest in
      record {
        final = h.final;
        reached = Reach_first w w' h.final (drain_one w op rest phase e) h.reached;
        has_stopped = h.has_stopped;
        none_waits = h.none_waits;
        all_flushed = h.all_flushed ∙ ap (λ xs. w.flushed ++ xs) moved;
        one_batch =
            h.one_batch
            ∙ ap (λ xs. (flush_batch backend xs w.db).2) (moved ∙ ap (λ q. w.batch ++ q) (sym e));
      }

  -- A running worker, once it sees that `done` is closed, can always go on to its end: it stops with
  -- nothing left in the channel, everything that was sent has been handed to flushes in order, and
  -- what was in the batch and in the channel went into one last flush.
  pub running-Drains :
      (w : Writer D) → w.phase ≡ running → IsOrdered backend capacity batch_size w → Drains w w.sent
  running-Drains w phase ordered =
      let v : Writer D = record w { phase = draining } in
      let h = draining-Drains w.queue v refl refl in
      record {
        final = h.final;
        reached = Reach_first w v h.final (see_done w phase) h.reached;
        has_stopped = h.has_stopped;
        none_waits = h.none_waits;
        all_flushed = h.all_flushed ∙ ordered.in_order;
        one_batch = h.one_batch;
      }
