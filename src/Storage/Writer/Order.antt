-- ===== src/Storage/Writer/Order.antt =====
-- internal/storage/memory.go: what the write worker hands to flushes, and in which order.
use vcdeploy.Prelude.{
  ℕ, ◌<◌, ◌≡◌, refl, sym, ap, ◌∙◌, List, [], ◌∷◌, ◌++◌, length, leb, inl, inr, Bool-cases, arith,
}
use mathlib.Core.List.{append_assoc}
use vcdeploy.Storage.Types.{WriteOp}
use vcdeploy.Storage.Writer.{
  Backend, Writer, running, stopped, flush, take_op, receive, Step, a_send, a_receive, a_tick,
  see_done, drain_one, drain_end,
}

module _ {D : Type 0} (backend : Backend D) (capacity batch_size : ℕ) where
  -- Any steps, one after the other.
  pub data Reach : Writer D → Writer D → Type 0 where
    here : (w : Writer D) → Reach w w
    next : (w v u : Writer D) → Reach w v → Step backend capacity batch_size v u → Reach w u

  -- Everything that was sent was flushed, or is in the batch, or waits, in the order it was sent; a
  -- worker that runs has room in its batch, and one that stopped has nothing in it.
  pub record IsOrdered (w : Writer D) : Type 0 where
    pub in_order : w.flushed ++ (w.batch ++ w.queue) ≡ w.sent
    pub has_room : w.phase ≡ running → length w.batch < batch_size
    pub has_none : w.phase ≡ stopped → w.batch ≡ []

  flush_in_order :
      (w : Writer D)
      → (flush backend w).flushed ++ ((flush backend w).batch ++ (flush backend w).queue)
        ≡ w.flushed ++ (w.batch ++ w.queue)
  unfolding flush
  flush_in_order w = append_assoc w.flushed w.batch w.queue

  take_in_order :
      (w : Writer D) (op : WriteOp) (rest : List WriteOp)
      → w.queue ≡ op ∷ rest
      → (take_op backend op rest w).flushed
          ++ ((take_op backend op rest w).batch ++ (take_op backend op rest w).queue)
        ≡ w.flushed ++ (w.batch ++ w.queue)
  take_in_order w op rest e =
      rw e (ap (λ xs. w.flushed ++ xs) (append_assoc w.batch (op ∷ []) rest))

  receive-IsOrdered :
      (w : Writer D) (op : WriteOp) (rest : List WriteOp)
      → 0 < batch_size
      → w.phase ≡ running
      → w.queue ≡ op ∷ rest
      → IsOrdered w
      → IsOrdered (receive backend batch_size op rest w)
  unfolding receive flush
  receive-IsOrdered w op rest positive phase e h =
      let took = take_in_order w op rest e in
      elim (Bool-cases (leb batch_size (length (w.batch ++ op ∷ [])))) [
        | inl q ↦
            rw (q, receive)
              (record {
                in_order = flush_in_order (take_op backend op rest w) ∙ took ∙ h.in_order;
                has_room = λ p. positive;
                has_none = λ p. refl;
              })
        | inr q ↦
            rw (q, receive)
              (record {
                in_order = took ∙ h.in_order;
                has_room = λ p. ground arith;
                has_none = λ p. absurd (ground arith);
              })
      ]

  Step-IsOrdered :
      (w v : Writer D)
      → 0 < batch_size
      → IsOrdered w
      → Step backend capacity batch_size w v
      → IsOrdered v
  unfolding flush
  Step-IsOrdered w _ positive h (a_send _ op room) = record {
    in_order =
        ap (λ xs. w.flushed ++ xs) (sym (append_assoc w.batch w.queue (op ∷ [])))
        ∙ sym (append_assoc w.flushed (w.batch ++ w.queue) (op ∷ []))
        ∙ ap (λ xs. xs ++ op ∷ []) h.in_order;
    has_room = h.has_room;
    has_none = h.has_none;
  }
  Step-IsOrdered w _ positive h (a_receive _ op rest phase e) =
      receive-IsOrdered w op rest positive phase e h
  Step-IsOrdered w _ positive h (a_tick _ phase) = record {
    in_order = flush_in_order w ∙ h.in_order;
    has_room = λ p. positive;
    has_none = λ p. refl;
  }
  Step-IsOrdered w _ positive h (see_done _ phase) = record {
    in_order = h.in_order;
    has_room = λ p. absurd (ground arith);
    has_none = λ p. absurd (ground arith);
  }
  Step-IsOrdered w _ positive h (drain_one _ op rest phase e) = record {
    in_order = take_in_order w op rest e ∙ h.in_order;
    has_room = λ p. absurd (ground arith);
    has_none = λ p. absurd (ground arith);
  }
  Step-IsOrdered w _ positive h (drain_end _ phase e) = record {
    in_order = flush_in_order w ∙ h.in_order;
    has_room = λ p. absurd (ground arith);
    has_none = λ p. refl;
  }

  -- Whatever senders and the worker do, in whatever order: what was handed to flushes, then the batch,
  -- then the channel are just what was sent, in the order it was sent, each once; while the worker
  -- runs its batch is smaller than the batch size, and when it has stopped its batch is empty. This
  -- is from a writer for which it holds, and a batch size that is not 0.
  pub Reach-IsOrdered : (w v : Writer D) → 0 < batch_size → IsOrdered w → Reach w v → IsOrdered v
  Reach-IsOrdered w _ positive h (here _) = h
  Reach-IsOrdered w _ positive h (next _ v u r s) =
      Step-IsOrdered v u positive (Reach-IsOrdered w v positive h r) s
