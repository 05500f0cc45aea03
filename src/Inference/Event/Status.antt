-- ===== src/Inference/Event/Status.antt =====
-- The status of the event after a run, and the one failure that ends a run.
use ml_service.Prelude.{ℕ, ◌≡◌, refl, ◌∙◌, inl, inr, Bool-cases, List, [], ◌∷◌}
use ml_service.Failure.{media_fetch, media_decode, version_mismatch, unexpected, Result, ok, err}
use ml_service.Media.{EventJob, BackendMedia, JobOutcome}
use ml_service.EventStore.{EventRow, mark_event_processing, mark_event_completed}
use ml_service.Inference.{Db, Settings, Ports, process}
use ml_service.Inference.Photo.{process-rows}
use ml_service.Inference.Event.{
  is_completed, to_photo_job, Tally, zero_tally, settle, photo_step, event_loop, continue_with,
  process_event, roster_of, finish_event, started,
}

-- The events table after a run that began with `events`, by how the run ended.
abbrev pub EndsEvent : {A : Type 0} → EventJob → List EventRow → Result A → List EventRow → Type 0
EndsEvent job events (ok _) events' =
    events'
    ≡ mark_event_completed job.school_id job.event_id
        (mark_event_processing job.school_id job.event_id events)
EndsEvent job events (err e) events' =
    (e ≡ version_mismatch) × (events' ≡ mark_event_processing job.school_id job.event_id events)

-- A part of the run: the events table is as before, and only a version mismatch ends it.
abbrev KeepsEvents : {A : Type 0} → List EventRow → Result A × Db → Type 0
KeepsEvents events (ok _, db) = db.events ≡ events
KeepsEvents events (err e, db) = (e ≡ version_mismatch) × (db.events ≡ events)

settle-KeepsEvents :
    (job : EventJob) (m : BackendMedia) (t : Tally) (r : Result JobOutcome) (events : List EventRow)
    (db : Db)
    → db.events ≡ events
    → KeepsEvents events (settle job m t r db)
unfolding settle
settle-KeepsEvents job m t (err version_mismatch) events db e = (refl, e)
settle-KeepsEvents job m t (err media_fetch) events db e = e
settle-KeepsEvents job m t (err media_decode) events db e = e
settle-KeepsEvents job m t (err unexpected) events db e = e
settle-KeepsEvents job m t (ok o) events db e = e

module _ {Image Embedding : Type 0} (s : Settings) (p : Ports Image Embedding)
    (job : EventJob) where
  photo_step-KeepsEvents :
      (m : BackendMedia) (t : Tally) (events : List EventRow) (db : Db)
      → db.events ≡ events
      → KeepsEvents events (photo_step s p job m t db)
  unfolding photo_step
  photo_step-KeepsEvents m t events db e = elim (Bool-cases (is_completed m.processing_status)) [
    | inl done ↦ rw done e
    | inr todo ↦
        let (r, db1) = process s p (to_photo_job job m) db in
        rw todo (
          settle-KeepsEvents job m t r events db1
            ((process-rows s p (to_photo_job job m) db).1 ∙ e))
  ]

  next-KeepsEvents :
      (roster : List BackendMedia) (events : List EventRow) (x : Result Tally × Db)
      → KeepsEvents {A = Tally} events x
      → ((t : Tally) (db : Db)
          → db.events ≡ events
          → KeepsEvents events (event_loop s p job roster t db))
      → KeepsEvents events (continue_with (λ t2 db2. event_loop s p job roster t2 db2) x)
  next-KeepsEvents roster events (ok t, db) h rest = rest t db h
  next-KeepsEvents roster events (err e, db) h rest = h

  event_loop-KeepsEvents :
      (roster : List BackendMedia) (t : Tally) (events : List EventRow) (db : Db)
      → db.events ≡ events
      → KeepsEvents events (event_loop s p job roster t db)
  unfolding event_loop
  event_loop-KeepsEvents [] t events db e = e
  event_loop-KeepsEvents (m ∷ roster) t events db e =
      next-KeepsEvents roster events (photo_step s p job m t db)
        (photo_step-KeepsEvents m t events db e)
        (λ t1 db1 e1. event_loop-KeepsEvents roster t1 events db1 e1)

  finish_event-EndsEvent :
      (n : ℕ) (events : List EventRow) (x : Result Tally × Db)
      → KeepsEvents (mark_event_processing job.school_id job.event_id events) x
      → EndsEvent job events (finish_event s p job n x).0 (finish_event s p job n x).1.events
  finish_event-EndsEvent n events (ok t, db) h = rw h
  finish_event-EndsEvent n events (err e, db) h = h

  pub process_event-EndsEvent :
      (db : Db)
      → EndsEvent job db.events (process_event s p job db).0 (process_event s p job db).1.events
  unfolding process_event
  process_event-EndsEvent db =
      finish_event-EndsEvent _ db.events
        (event_loop s p job (roster_of s p job db) zero_tally (started s p job db))
        (event_loop-KeepsEvents (roster_of s p job db) zero_tally _ (started s p job db) refl)
