-- ===== src/Storage/Writer/Witnesses.antt =====
-- Runs of the write worker over a list as the database, and the theorems at concrete inputs.
use vcdeploy.Prelude.{
  ◌≡◌, refl, none, some, List, [], ◌∷◌, ◌++◌, arith, if◌then◌else◌, str_eq, String,
}
use vcdeploy.Storage.Types.{WriteOp, write_insert, by_id, new_write_op}
use vcdeploy.Storage.Writer.{
  Backend, Writer, running, execute_failed, flush_batch, flush, receive, a_send, a_receive,
}
use vcdeploy.Storage.Writer.Batches.{Reports, flush_batch_lem}
use vcdeploy.Storage.Writer.Order.{Reach, here, next, IsOrdered, Reach-IsOrdered}
use vcdeploy.Storage.Writer.Shutdown.{Drains, running-Drains}

-- A database that is the list of the operations it took, and refuses those on a table `bad`.
abbrev journal : Backend (List WriteOp)
journal = record {
  begin_tx = λ db. some db;
  execute = λ op tx. if str_eq op.table "bad" then none else some (tx ++ op ∷ []);
  commit = λ tx. some tx;
}

abbrev good : String → WriteOp
good id = new_write_op write_insert "users" (by_id id) 1

abbrev bad : WriteOp
bad = new_write_op write_insert "bad" (by_id "x") 1

abbrev fresh : Writer (List WriteOp)
fresh = record { phase = running; sent = []; queue = []; batch = []; flushed = []; db = [] }

abbrev sent_one : Writer (List WriteOp)
sent_one = record fresh { sent = good "a" ∷ []; queue = good "a" ∷ [] }

flush_two : flush_batch journal (good "a" ∷ good "b" ∷ []) [] ≡ (2, none, good "a" ∷ good "b" ∷ [])
unfolding flush_batch
flush_two = refl

flush_stops :
    flush_batch journal (good "a" ∷ bad ∷ good "b" ∷ []) [] ≡ (1, some (execute_failed bad), [])
unfolding flush_batch
flush_stops = refl

-- The operations of a batch that fails are in no later batch.
lost_batch :
    flush journal (record fresh { batch = good "a" ∷ bad ∷ [] })
    ≡ record fresh { flushed = good "a" ∷ bad ∷ [] }
unfolding flush
lost_batch = refl

fresh-IsOrdered : IsOrdered journal 10 2 fresh
fresh-IsOrdered = record { in_order = refl; has_room = λ p. omega arith; has_none = λ p. refl }

received : Reach journal 10 2 fresh (receive journal 2 (good "a") [] sent_one)
received =
    next fresh sent_one _ (next fresh fresh _ (here fresh) (a_send fresh (good "a") (omega arith)))
      (a_receive sent_one (good "a") [] refl refl)

flush_batch_lem_example :
    Reports journal (good "a" ∷ bad ∷ []) [] (flush_batch journal (good "a" ∷ bad ∷ []) [])
flush_batch_lem_example = flush_batch_lem journal (good "a") (bad ∷ []) []

Reach-IsOrdered_example : IsOrdered journal 10 2 (receive journal 2 (good "a") [] sent_one)
Reach-IsOrdered_example =
    Reach-IsOrdered journal 10 2 fresh (receive journal 2 (good "a") [] sent_one) (omega arith)
      fresh-IsOrdered received

sent_one-IsOrdered : IsOrdered journal 10 2 sent_one
sent_one-IsOrdered = record { in_order = refl; has_room = λ p. omega arith; has_none = λ p. refl }

running-Drains_example : Drains journal 10 2 sent_one (good "a" ∷ [])
running-Drains_example = running-Drains journal 10 2 sent_one refl sent_one-IsOrdered
