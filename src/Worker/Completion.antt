-- ===== src/Worker/Completion.antt =====
-- From the jobs that wait to their completed events, over the rounds of the worker.
use ml_service.Prelude.{
  ℕ, zero, suc, ◌≡◌, refl, sym, subst, Bool, true, false, Option, none, some, List, [], ◌∷◌, All,
  length, arith, find,
}
use ml_service.Failure as Ml
use ml_service.Media.{EventJob, EventOutcome}
use ml_service.EventStore.{
  not_started, queued, processing, completed, failed, EventRow, set_event, mark_event_processing,
  mark_event_completed,
}
use ml_service.EventStore.Status.{is_event}
use ml_service.Inference.{Settings, Ports}
use ml_service.Inference.Event as Event
use ml_service.Inference.Healthy.{IsHealthy, IsOk, process_event-IsOk}
use ml_service.Worker.{World, consume_once}
use ml_service.Worker.Delivery.{Settles, consume_once-Settles}

-- The row of an event is there and says `completed`.
abbrev pub is_completed_row : Option EventRow → Bool
is_completed_row none = false
is_completed_row (some row) = elim row.status [
  | completed ↦ true
  | not_started ↦ false
  | queued ↦ false
  | processing ↦ false
  | failed ↦ false
]

abbrev pub is_found : Option EventRow → Bool
is_found none = false
is_found (some row) = true

module _ (school event : ℕ) where
  found-processing :
      (s e : ℕ) (rows : List EventRow)
      → is_found (find (is_event school event) rows) ≡ true
      → is_found (find (is_event school event) (mark_event_processing s e rows)) ≡ true
  unfolding mark_event_processing set_event
  found-processing s e [] h = h
  found-processing s e (row ∷ rows) h = ground (arith, found-processing s e rows, h)

  found-completed :
      (s e : ℕ) (rows : List EventRow)
      → is_found (find (is_event school event) rows) ≡ true
      → is_found (find (is_event school event) (mark_event_completed s e rows)) ≡ true
  unfolding mark_event_completed set_event
  found-completed s e [] h = h
  found-completed s e (row ∷ rows) h = ground (arith, found-completed s e rows, h)

  completed_row :
      (rows : List EventRow)
      → is_found (find (is_event school event) rows) ≡ true
      → is_completed_row (find (is_event school event) (mark_event_completed school event rows))
        ≡ true
  unfolding mark_event_completed set_event
  completed_row [] h = ground (arith, h)
  completed_row (row ∷ rows) h = ground (arith, completed_row rows, h)

  stays_completed :
      (s e : ℕ) (rows : List EventRow)
      → is_completed_row (find (is_event school event) rows) ≡ true
      → is_completed_row
          (find (is_event school event) (mark_event_completed s e (mark_event_processing s e rows)))
        ≡ true
  unfolding mark_event_completed mark_event_processing set_event
  stays_completed s e [] h = h
  stays_completed s e (row ∷ rows) h = ground (arith, stays_completed s e rows, h)

-- The event of a job is there, and it is completed.
abbrev pub IsThere : List EventRow → EventJob → Type 0
IsThere rows job = is_found (find (is_event job.school_id job.event_id) rows) ≡ true

abbrev pub IsCompleted : List EventRow → EventJob → Type 0
IsCompleted rows job = is_completed_row (find (is_event job.school_id job.event_id) rows) ≡ true

module _ {Image Embedding : Type 0} (s : Settings) (p : Ports Image Embedding) where
  -- So many rounds of the worker.
  unfoldable pub rounds : ℕ → World → World
  rounds zero w = w
  rounds (suc n) w = rounds n (consume_once s p w)

  module _ (healthy : IsHealthy p) where
    abbrev Took : List EventJob → EventJob → World → World → Type 0
    Took rest job w w' =
        (w'.queue.waiting ≡ rest)
        × (w'.db.events
            ≡ mark_event_completed job.school_id job.event_id
                (mark_event_processing job.school_id job.event_id w.db.events))

    settled :
        (job : EventJob) (rest : List EventJob) (w w' : World) (r : Ml.Result EventOutcome)
        → IsOk r
        → Settles job rest w w' r
        → Took rest job w w'
    settled job rest w w' (Ml.ok o) fine h = (h.0, h.2)
    settled job rest w w' (Ml.err e) fine h = elim fine [ ]

    -- A round over a queue that is not empty completes the event of its first job.
    consume_once-Took :
        (w : World) (job : EventJob) (rest : List EventJob)
        → w.queue.waiting ≡ job ∷ rest
        → Took rest job w (consume_once s p w)
    consume_once-Took w job rest h =
        let w1 : World = record w { queue = record w.queue { waiting = job ∷ rest } } in
        subst
          (λ (ws : List EventJob).
            let w0 : World = record w { queue = record w.queue { waiting = ws } } in
            Took rest job w0 (consume_once s p w0))
          (sym h)
          (settled job rest w1 (consume_once s p w1) (Event.process_event s p job w.db).0
            (process_event-IsOk s p healthy job w.db)
            (consume_once-Settles s p w.db w.queue job rest))

    rounds-IsCompleted :
        (job : EventJob) (jobs : List EventJob) (w : World)
        → w.queue.waiting ≡ jobs
        → IsCompleted w.db.events job
        → IsCompleted (rounds (length jobs) w).db.events job
    unfolding rounds
    rounds-IsCompleted job [] w h done = done
    rounds-IsCompleted job (x ∷ jobs) w h done =
        let took = consume_once-Took w x jobs h in
        rounds-IsCompleted job jobs (consume_once s p w) took.0 (
          subst (λ (rows : List EventRow). IsCompleted rows job) (sym took.1)
            (stays_completed job.school_id job.event_id x.school_id x.event_id w.db.events done))

    All-IsThere :
        (x : EventJob) (jobs : List EventJob) (rows : List EventRow)
        → All (IsThere rows) jobs
        → All
            (IsThere (
              mark_event_completed x.school_id x.event_id
                (mark_event_processing x.school_id x.event_id rows)))
            jobs
    All-IsThere x [] rows h = tt
    All-IsThere x (job ∷ jobs) rows h = (
      found-completed job.school_id job.event_id x.school_id x.event_id _
          (found-processing job.school_id job.event_id x.school_id x.event_id rows h.0),
      All-IsThere x jobs rows h.1,
    )

    rounds_drain :
        (jobs : List EventJob) (w : World)
        → w.queue.waiting ≡ jobs
        → All (IsThere w.db.events) jobs
        → ((rounds (length jobs) w).queue.waiting ≡ [])
          × All (IsCompleted (rounds (length jobs) w).db.events) jobs
    unfolding rounds
    rounds_drain [] w h there = (h, tt)
    rounds_drain (x ∷ jobs) w h there =
        let took = consume_once-Took w x jobs h in
        let rest = rounds_drain jobs (consume_once s p w) took.0 (
          subst (λ (rows : List EventRow). All (IsThere rows) jobs) (sym took.1)
            (All-IsThere x jobs w.db.events there.1)) in
        (
          rest.0,
          (
            rounds-IsCompleted x jobs (consume_once s p w) took.0 (
                subst (λ (rows : List EventRow). IsCompleted rows x) (sym took.1)
                  (completed_row x.school_id x.event_id _ (
                    found-processing x.school_id x.event_id x.school_id x.event_id w.db.events
                      there.0))),
            rest.1,
          ),
        )

    -- Where no port reports a stale index, the event of every job that waits has a row, and nobody
    -- else writes or adds a job: once the worker has taken as many rounds as jobs wait in the
    -- in-process queue, the queue is empty, and the event of every one of these jobs says
    -- `completed`, whatever its photos are and however each of them ends, also where several jobs
    -- are for one event.
    pub rounds-completes :
        (w : World)
        → All (IsThere w.db.events) w.queue.waiting
        → ((rounds (length w.queue.waiting) w).queue.waiting ≡ [])
          × All (IsCompleted (rounds (length w.queue.waiting) w).db.events) w.queue.waiting
    rounds-completes w = rounds_drain w.queue.waiting w refl
