-- ===== src/Inference/Event/Redelivery.antt =====
-- A second run over an event: finished photos are skipped, and stored matches only gain confidence.
use ml_service.Prelude.{
  ℕ, ◌+◌, ◌≡◌, refl, ◌∙◌, ap, ◌≤ℤ◌, true, inl, inr, Bool-cases, some, List, [], ◌∷◌, arith, All,
  length,
}
use ml_service.Failure.{media_fetch, media_decode, version_mismatch, unexpected, Result, ok, err}
use ml_service.Media.{EventJob, BackendMedia, JobOutcome, MatchRecord}
use ml_service.EventStore.{mark_event_processing, mark_event_completed}
use ml_service.Matches.{find_match}
use ml_service.Inference.{Db, Settings, Ports, process}
use ml_service.Inference.Photo.{process-keeps}
use ml_service.Inference.Event.{
  is_completed, to_photo_job, Tally, zero_tally, settle, photo_step, event_loop, continue_with,
  process_event, roster_of, finish_event, started, event_outcome,
}

abbrev pub Keeps : ℕ → ℕ → MatchRecord → Db → Type 0
Keeps media student old db =
    (new : MatchRecord) × (find_match media student db.matches ≡ some new)
    × (old.confidence_score ≤ℤ new.confidence_score)

settle-matches :
    (job : EventJob) (m : BackendMedia) (t : Tally) (r : Result JobOutcome) (db : Db)
    → (settle job m t r db).1.matches ≡ db.matches
unfolding settle
settle-matches job m t (err version_mismatch) db = refl
settle-matches job m t (err media_fetch) db = refl
settle-matches job m t (err media_decode) db = refl
settle-matches job m t (err unexpected) db = refl
settle-matches job m t (ok o) db = refl

module _ {Image Embedding : Type 0} (s : Settings) (p : Ports Image Embedding)
    (job : EventJob) where
  photo_step-Keeps :
      (m : BackendMedia) (t : Tally) (media student : ℕ) (old : MatchRecord) (db : Db)
      → find_match media student db.matches ≡ some old
      → Keeps media student old (photo_step s p job m t db).1
  unfolding photo_step
  photo_step-Keeps m t media student old db found =
      elim (Bool-cases (is_completed m.processing_status)) [
        | inl done ↦ rw done (old, found, omega arith)
        | inr todo ↦
            let (r, db1) = process s p (to_photo_job job m) db in
            let (new, found', le) =
              process-keeps s p (to_photo_job job m) media student old db found in
            rw todo (new, ap (find_match media student) (settle-matches job m t r db1) ∙ found', le)
      ]

  next-Keeps :
      (roster : List BackendMedia) (media student : ℕ) (old : MatchRecord) (x : Result Tally × Db)
      → Keeps media student old x.1
      → ((t : Tally) → Keeps media student old (event_loop s p job roster t x.1).1)
      → Keeps media student old (continue_with (λ t2 db2. event_loop s p job roster t2 db2) x).1
  next-Keeps roster media student old (ok t, db) h rest = rest t
  next-Keeps roster media student old (err e, db) h rest = h

  event_loop-Keeps :
      (roster : List BackendMedia) (t : Tally) (media student : ℕ) (old : MatchRecord) (db : Db)
      → Keeps media student old db
      → Keeps media student old (event_loop s p job roster t db).1
  unfolding event_loop
  event_loop-Keeps [] t media student old db h = h
  event_loop-Keeps (m ∷ roster) t media student old db (cur, found, le) =
      let (new, found', le') = photo_step-Keeps m t media student cur db found in
      let h' =
        (let k : Keeps media student old (photo_step s p job m t db).1 =
            (new, found', omega (arith, le, le')) in
          k) in
      next-Keeps roster media student old (photo_step s p job m t db) h'
        (λ t1. event_loop-Keeps roster t1 media student old (photo_step s p job m t db).1 h')

  finish_event-matches :
      (n : ℕ) (x : Result Tally × Db) → (finish_event s p job n x).1.matches ≡ x.1.matches
  finish_event-matches n (ok t, db) = refl
  finish_event-matches n (err e, db) = refl

  -- Whatever a run over an event does, and however it ends, a stored match stays stored and its
  -- confidence does not fall.
  pub process_event-Keeps :
      (media student : ℕ) (old : MatchRecord) (db : Db)
      → find_match media student db.matches ≡ some old
      → Keeps media student old (process_event s p job db).1
  unfolding process_event
  process_event-Keeps media student old db found =
      let (new, found', le) =
        event_loop-Keeps (roster_of s p job db) zero_tally media student old (started s p job db)
          (old, found, omega arith) in
      (new, ap (find_match media student) (finish_event-matches _ _) ∙ found', le)

  skip_one :
      (m : BackendMedia) (t : Tally) (db : Db)
      → is_completed m.processing_status ≡ true
      → photo_step s p job m t db ≡ (ok (record t { skipped = t.skipped + 1 }), db)
  unfolding photo_step
  skip_one m t db done = rw done refl

  skip_all :
      (n : ℕ) (roster : List BackendMedia) (t : Tally) (db : Db)
      → n ≡ t.skipped + length roster
      → All (λ m. is_completed m.processing_status ≡ true) roster
      → event_loop s p job roster t db ≡ (ok (record t { skipped = n }), db)
  unfolding event_loop
  skip_all n [] t db e h = ground (arith, e)
  skip_all n (m ∷ roster) t db e h =
      ap (continue_with (λ t2 db2. event_loop s p job roster t2 db2)) (skip_one m t db h.0)
      ∙ skip_all n roster (record t { skipped = t.skipped + 1 }) db (omega (arith, e)) h.1

  -- A run over an event whose photos are all completed processes nothing: it counts every photo as
  -- skipped, and only the event's own status is written.
  pub process_event_finished :
      (db : Db)
      → All (λ m. is_completed m.processing_status ≡ true) (roster_of s p job db)
      → process_event s p job db ≡ (
        ok (
            event_outcome s
              (length (roster_of s p job db))
              (record zero_tally { skipped = length (roster_of s p job db) })),
        record db {
          events =
              mark_event_completed job.school_id job.event_id
                (mark_event_processing job.school_id job.event_id db.events);
        },
      )
  unfolding process_event
  process_event_finished db h = ap (finish_event s p job (length (roster_of s p job db))) (
      skip_all (length (roster_of s p job db)) (roster_of s p job db) zero_tally
        (started s p job db) (omega arith) h)
