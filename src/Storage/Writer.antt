-- ===== src/Storage/Writer.antt =====
-- internal/storage/writeop.go and memory.go: the worker that writes queued operations to a database in
-- batches. A database is a value of any type; `begin_tx`, `execute` and `commit` are those of its
-- transactions, and a rollback gives back the database as it was.
pub mod Batches
pub mod Order
pub mod Shutdown
mod Witnesses
use vcdeploy.Prelude.{
  ℕ, ◌+◌, ◌<◌, ◌≡◌, Bool, true, false, Option, none, some, List, [], ◌∷◌, ◌++◌, if◌then◌else◌,
  length, leb,
}
use vcdeploy.Storage.Types.{WriteOp}

pub record Backend (D : Type 0) : Type 0 where
  pub begin_tx : D → Option D
  pub execute : WriteOp → D → Option D
  pub commit : D → Option D

pub data FlushError : Type 0 where
  begin_failed commit_failed : FlushError
  execute_failed : WriteOp → FlushError

-- What the loop of `FlushBatch` comes to, with the number of operations executed.
pub data Executed (D : Type 0) : Type 0 where
  all_executed : ℕ → D → Executed D
  stopped_at : ℕ → WriteOp → Executed D

pub data Phase : Type 0 where
  running draining stopped : Phase

-- A worker and its channel: what was ever sent, what waits in the channel, the batch, what was handed
-- to flushes, and the database.
pub record Writer (D : Type 0) : Type 0 where
  pub phase : Phase
  pub sent : List WriteOp
  pub queue : List WriteOp
  pub batch : List WriteOp
  pub flushed : List WriteOp
  pub db : D

module _ {D : Type 0} (backend : Backend D) where
  unfoldable pub execute_ops : List WriteOp → ℕ → D → Executed D
  execute_ops [] executed tx = all_executed executed tx
  execute_ops (op ∷ ops) executed tx = elim (backend.execute op tx) [
    | none ↦ stopped_at executed op
    | some tx' ↦ execute_ops ops (executed + 1) tx'
  ]

  abbrev pub committed : D → ℕ → Option D → ℕ × Option FlushError × D
  committed db executed none = (executed, some commit_failed, db)
  committed db executed (some db') = (executed, none, db')

  abbrev pub finish : D → Executed D → ℕ × Option FlushError × D
  finish db (stopped_at executed op) = (executed, some (execute_failed op), db)
  finish db (all_executed executed tx) = committed db executed (backend.commit tx)

  abbrev pub begun : D → List WriteOp → Option D → ℕ × Option FlushError × D
  begun db batch none = (0, some begin_failed, db)
  begun db batch (some tx) = finish db (execute_ops batch 0 tx)

  -- `FlushBatch` and `FlushBatchFunc`: the count, the error, and the database.
  unfoldable pub flush_batch : List WriteOp → D → ℕ × Option FlushError × D
  unfolding execute_ops
  flush_batch [] db = (0, none, db)
  flush_batch (op ∷ ops) db = begun db (op ∷ ops) (backend.begin_tx db)

  -- `flush` of `startWriteWorker`, which logs an error and goes on.
  unfoldable pub flush : Writer D → Writer D
  unfolding flush_batch
  flush w = record w {
    batch = [];
    flushed = w.flushed ++ w.batch;
    db = (flush_batch w.batch w.db).2;
  }

  abbrev pub take_op : WriteOp → List WriteOp → Writer D → Writer D
  take_op op rest w = record w { queue = rest; batch = w.batch ++ op ∷ [] }

  -- The case of `startWriteWorker` that receives an operation.
  unfoldable pub receive : ℕ → WriteOp → List WriteOp → Writer D → Writer D
  unfolding flush
  receive batch_size op rest w =
      let w' = take_op op rest w in if leb batch_size (length w'.batch) then flush w' else w'

  -- One step of a sender or of the worker; `done` may be seen whenever it is closed.
  pub data Step (capacity batch_size : ℕ) : Writer D → Writer D → Type 0 where
    a_send :
        (w : Writer D) (op : WriteOp)
        → length w.queue < capacity
        → Step capacity batch_size w
            (record w { sent = w.sent ++ op ∷ []; queue = w.queue ++ op ∷ [] })
    a_receive :
        (w : Writer D) (op : WriteOp) (rest : List WriteOp)
        → w.phase ≡ running
        → w.queue ≡ op ∷ rest
        → Step capacity batch_size w (receive batch_size op rest w)
    a_tick : (w : Writer D) → w.phase ≡ running → Step capacity batch_size w (flush w)
    see_done :
        (w : Writer D)
        → w.phase ≡ running
        → Step capacity batch_size w (record w { phase = draining })
    drain_one :
        (w : Writer D) (op : WriteOp) (rest : List WriteOp)
        → w.phase ≡ draining
        → w.queue ≡ op ∷ rest
        → Step capacity batch_size w (take_op op rest w)
    drain_end :
        (w : Writer D)
        → w.phase ≡ draining
        → w.queue ≡ []
        → Step capacity batch_size w (record (flush w) { phase = stopped })
