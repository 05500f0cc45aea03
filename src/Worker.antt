-- ===== src/Worker.antt =====
-- The worker shell and the in-process queue (services/ml_service/src/ml_service/workers/runner.py,
-- adapters/queue/inproc_queue.py): consume, process, then ack or nack.
-- The state is the database and the queue. A queue keeps the jobs that wait, in order, the number of
-- jobs that were put and not yet settled by `task_done` (`unfinished`, as asyncio.Queue counts it;
-- positive while a lease is out), and the receipt counter.
pub mod Delivery
pub mod Completion
use ml_service.Prelude.{ℕ, ◌+◌, ◌-◌, Option, none, some, List, [], ◌∷◌, ◌++◌}
use ml_service.Failure.{Result, ok, err}
use ml_service.Media.{EventJob, EventOutcome}
use ml_service.EventStore.{mark_event_failed}
use ml_service.Inference.{Db, Settings, Ports}
use ml_service.Inference.Event.{process_event}

pub record JobLease : Type 0 where
  pub job : EventJob
  pub receipt : ℕ

pub record DeadLetter : Type 0 where
  pub job : EventJob
  pub receipt : ℕ

pub record JobQueue : Type 0 where
  pub waiting : List EventJob
  pub unfinished : ℕ
  pub counter : ℕ

pub record World : Type 0 where
  pub db : Db
  pub queue : JobQueue

-- `put` counts the job as unfinished until `task_done`.
unfoldable pub enqueue : EventJob → JobQueue → JobQueue
enqueue job q = record q { waiting = q.waiting ++ job ∷ []; unfinished = q.unfinished + 1 }

abbrev task_done : JobQueue → JobQueue
task_done q = record q { unfinished = q.unfinished - 1 }

-- One round of `consume`; `none` is the wait for a job.
pub consume : JobQueue → Option (JobLease × JobQueue)
consume q = elim q.waiting [
  | [] ↦ none
  | ◌∷◌ job rest ↦ some (
    record { job = job; receipt = q.counter + 1 },
    record q { waiting = rest; counter = q.counter + 1 },
  )
]

pub ack : JobLease → JobQueue → JobQueue
ack lease q = task_done q

pub nack : JobLease → JobQueue → JobQueue
unfolding enqueue
nack lease q = enqueue lease.job (task_done q)

module _ {Image Embedding : Type 0} (s : Settings) (p : Ports Image Embedding) where
  abbrev settle_lease : JobLease → Result EventOutcome × Db → JobQueue → World
  settle_lease lease (ok outcome, db) q = record { db = db; queue = ack lease q }
  settle_lease lease (err e, db) q = record { db = db; queue = nack lease q }

  -- `handle`: every failure, the version mismatch too, ends in a nack.
  pub handle : JobLease → World → World
  unfolding ack nack
  handle lease w = settle_lease lease (process_event s p lease.job w.db) w.queue

  -- One round of `_consume_loop`.
  pub consume_once : World → World
  unfolding consume handle
  consume_once w = elim (consume w.queue) [
    | none ↦ w
    | some (lease, q) ↦ handle lease (record w { queue = q })
  ]

-- `_drain_dead_letters_once`: each event is marked failed before its entry is removed.
pub drain_dead_letters_once : List DeadLetter → Db → Db
drain_dead_letters_once [] db = db
drain_dead_letters_once (dead ∷ rest) db =
    drain_dead_letters_once rest
      (record db { events = mark_event_failed dead.job.school_id dead.job.event_id db.events })
