-- ===== src/Storage/Writer/Batches.antt =====
-- internal/storage/writeop.go: a batch is written whole or not at all.
use vcdeploy.Prelude.{
  ℕ, ◌+◌, ◌≡◌, refl, Option, none, some, List, [], ◌∷◌, inl, inr, Option-cases, arith, length,
}
use vcdeploy.Storage.Types.{WriteOp}
use vcdeploy.Storage.Writer.{
  Backend, FlushError, Executed, all_executed, stopped_at, execute_ops, finish, begun, flush_batch,
}

module _ {D : Type 0} (backend : Backend D) where
  -- The operations one after the other, from one state of a transaction to another.
  pub data Executes : List WriteOp → D → D → Type 0 where
    no_more : (tx : D) → Executes [] tx tx
    one_more :
        (op : WriteOp) (ops : List WriteOp) (tx tx' tx'' : D)
        → backend.execute op tx ≡ some tx'
        → Executes ops tx' tx''
        → Executes (op ∷ ops) tx tx''

  -- A transaction of the whole batch, committed.
  pub record Commits (batch : List WriteOp) (db db' : D) : Type 0 where
    pub at_begin : D
    pub at_end : D
    pub begins : backend.begin_tx db ≡ some at_begin
    pub executes : Executes batch at_begin at_end
    pub commits : backend.commit at_end ≡ some db'

  -- What the loop comes to: all operations executed, or one of them failed.
  abbrev Ends : List WriteOp → ℕ → D → Executed D → Type 0
  Ends ops n tx (all_executed m tx') = (m ≡ n + length ops) × Executes ops tx tx'
  Ends ops n tx (stopped_at m op) = Unit {0}

  execute_ops_lem :
      (ops : List WriteOp) (n : ℕ) (tx : D) → Ends ops n tx (execute_ops backend ops n tx)
  unfolding execute_ops
  execute_ops_lem [] n tx = (omega arith, no_more tx)
  execute_ops_lem (op ∷ ops) n tx = elim (Option-cases (backend.execute op tx)) [
    | inl e ↦ rw (e, execute_ops) tt
    | inr (tx', e) ↦
        rw (e, execute_ops)
          (more tx' e (execute_ops backend ops (n + 1) tx') (execute_ops_lem ops (n + 1) tx'))
  ]
    where
      more :
          (tx' : D)
          → backend.execute op tx ≡ some tx'
          → (x : Executed D) → Ends ops (n + 1) tx' x
          → Ends (op ∷ ops) n tx x
      more tx' e (all_executed m t) (c, h) = (omega arith, one_more op ops tx tx' t e h)
      more tx' e (stopped_at m o) h = tt

  -- The report of a flush, against the database before it.
  abbrev pub Reports : List WriteOp → D → ℕ × Option FlushError × D → Type 0
  Reports batch db (n, none, db') = (n ≡ length batch) × Commits batch db db'
  Reports batch db (n, some e, db') = db' ≡ db

  finish_lem :
      (batch : List WriteOp) (db tx : D)
      → backend.begin_tx db ≡ some tx
      → (x : Executed D) → Ends batch 0 tx x
      → Reports batch db (finish backend db x)
  finish_lem batch db tx b (stopped_at n op) h = refl
  finish_lem batch db tx b (all_executed n tx') (c, h) = elim (Option-cases (backend.commit tx')) [
    | inl e ↦ rw e refl
    | inr (db', e) ↦
        rw e (
          omega arith,
          record { at_begin = tx; at_end = tx'; begins = b; executes = h; commits = e },
        )
  ]

  reports :
      (batch : List WriteOp) (db : D)
      → Reports batch db (begun backend db batch (backend.begin_tx db))
  reports batch db = elim (Option-cases (backend.begin_tx db)) [
    | inl e ↦ rw e refl
    | inr (tx, e) ↦ rw e (finish_lem batch db tx e _ (execute_ops_lem batch 0 tx))
  ]

  -- The report of a flush of a batch that is not empty: without an error, it counts all operations,
  -- and a transaction has executed them in order and was committed; with an error, the database is as
  -- it was before.
  pub flush_batch_lem :
      (op : WriteOp) (ops : List WriteOp) (db : D)
      → Reports (op ∷ ops) db (flush_batch backend (op ∷ ops) db)
  unfolding flush_batch
  flush_batch_lem op ops db = reports (op ∷ ops) db
