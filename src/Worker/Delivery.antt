-- ===== src/Worker/Delivery.antt =====
-- At-least-once delivery: a lease is settled exactly once, and a job that failed is queued again.
use ml_service.Prelude.{◌+◌, ◌-◌, ◌≡◌, refl, List, [], ◌∷◌, ◌++◌}
use ml_service.Failure.{Result, ok, err}
use ml_service.Media.{EventJob, EventOutcome}
use ml_service.EventStore.{mark_event_processing, mark_event_completed}
use ml_service.Inference.{Db, Settings, Ports}
use ml_service.Inference.Event.{process_event}
use ml_service.Inference.Event.Status.{EndsEvent, process_event-EndsEvent}
use ml_service.Worker.{JobLease, JobQueue, World, ack, nack, settle_lease, consume_once}

-- How a round over the job at the head of the queue ends: the job left the queue and its event was
-- completed, or the job is at the end of the queue again and its event is still `processing`.
abbrev pub Settles : EventJob → List EventJob → World → World → Result EventOutcome → Type 0
Settles job rest w w' (ok o) =
    (w'.queue.waiting ≡ rest)
    × (w'.queue.unfinished ≡ w.queue.unfinished - 1)
    × (w'.db.events
        ≡ mark_event_completed job.school_id job.event_id
            (mark_event_processing job.school_id job.event_id w.db.events))
Settles job rest w w' (err e) =
    (w'.queue.waiting ≡ rest ++ job ∷ [])
    × (w'.queue.unfinished ≡ w.queue.unfinished - 1 + 1)
    × (w'.db.events ≡ mark_event_processing job.school_id job.event_id w.db.events)

module _ {Image Embedding : Type 0} (s : Settings) (p : Ports Image Embedding) where
  settle_lease-Settles :
      (lease : JobLease) (w : World) (rest : List EventJob) (x : Result EventOutcome × Db)
      → EndsEvent lease.job w.db.events x.0 x.1.events
      → Settles lease.job rest w
          (settle_lease s p lease x
            (record w.queue { waiting = rest; counter = w.queue.counter + 1 }))
          x.0
  unfolding ack nack
  settle_lease-Settles lease w rest (ok o, db) h = (refl, refl, h)
  settle_lease-Settles lease w rest (err e, db) h = (refl, refl, h.1)

  -- One round over a queue that is not empty takes its first job, and settles that job once, in one
  -- of the two ways, by what processing the event returned.
  pub consume_once-Settles :
      (db : Db) (q : JobQueue) (job : EventJob) (rest : List EventJob)
      → let w : World = record { db = db; queue = record q { waiting = job ∷ rest } } in
        Settles job rest w (consume_once s p w) (process_event s p job db).0
  unfolding consume_once
  consume_once-Settles db q job rest =
      settle_lease-Settles (record { job = job; receipt = q.counter + 1 })
        (record { db = db; queue = record q { waiting = job ∷ rest } }) rest
        (process_event s p job db) (process_event-EndsEvent s p job db)
