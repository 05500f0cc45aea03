-- ===== src/Inference/Event/Roster.antt =====
-- The photos of an event over a run: what is counted, and that none is left pending.
use ml_service.Prelude.{
  ℕ, ◌+◌, ◌≡◌, refl, ap, subst, Bool, true, false, not, ◌&&◌, ◌||◌, inl, inr, Bool-cases, List, [],
  ◌∷◌, map, arith, ◌==◌, any, All, is_some, length, All-of_In, In, Option-cases,
}
use ml_service.Failure.{media_fetch, media_decode, version_mismatch, unexpected, Result, ok, err}
use ml_service.Media.{
  EventJob, MediaStatus, pending, media_completed, media_failed, BackendMedia, JobOutcome,
  EventOutcome,
}
use ml_service.EventStore.{
  MediaRow, list_event_media, mark_media_completed, mark_event_completed, mark_media_failed,
}
use ml_service.Inference.{Db, Settings, Ports, process}
use ml_service.Inference.Photo.{process-rows}
use ml_service.Inference.Event.{
  event_outcome, is_completed, to_photo_job, Tally, zero_tally, settle, photo_step, event_loop,
  continue_with, process_event, roster_of, finish_event, started,
}

abbrev total : Tally → ℕ
total t = t.processed + t.skipped + t.failed

settle-total :
    (job : EventJob) (m : BackendMedia) (t t' : Tally) (r : Result JobOutcome) (db : Db)
    → (settle job m t r db).0 ≡ ok t'
    → total t' ≡ total t + 1
unfolding settle
settle-total job m t t' (err version_mismatch) db e = absurd (cc)
settle-total job m t t' (err media_fetch) db e = ground arith
settle-total job m t t' (err media_decode) db e = ground arith
settle-total job m t t' (err unexpected) db e = ground arith
settle-total job m t t' (ok o) db e = ground arith

-- The event of a photo, a kind that is known, and a status that is no longer `pending`.
abbrev pub in_event : EventJob → MediaRow → Bool
in_event job row =
    (row.school_id == job.school_id && row.event_id == job.event_id) && is_some row.media_type

abbrev pub is_settled : MediaStatus → Bool
is_settled pending = false
is_settled media_completed = true
is_settled media_failed = true

-- A photo that the rest of the roster will process.
abbrev owed : List BackendMedia → MediaRow → Bool
owed roster row = any (λ m. m.media_id == row.id && not (is_completed m.processing_status)) roster

abbrev IsCovered : EventJob → List BackendMedia → MediaRow → Type 0
IsCovered job roster row =
    ((not (in_event job row) || is_settled row.status) || owed roster row) ≡ true

is_settled-of_completed : (st : MediaStatus) → is_completed st ≡ true → is_settled st ≡ true
is_settled-of_completed pending h = cc
is_settled-of_completed media_completed h = refl
is_settled-of_completed media_failed h = refl

-- At the start the roster covers every photo of the event.
roster-covers :
    (job : EventJob) (row : MediaRow) (rows : List MediaRow)
    → In row rows
    → IsCovered job (list_event_media job.school_id job.event_id rows) row
unfolding list_event_media
roster-covers job row [] m = absurd m
roster-covers job row (x ∷ rows) (inl same) = elim (Option-cases x.media_type) [
  | inl unknown ↦ rw same (ground (arith, unknown))
  | inr (kind, known) ↦ rw same (ground (arith, known, is_settled-of_completed x.status))
]
roster-covers job row (x ∷ rows) (inr m) = elim (Option-cases x.media_type) [
  | inl unknown ↦ ground (arith, unknown, roster-covers job row rows m)
  | inr (kind, known) ↦ ground (arith, known, roster-covers job row rows m)
]

All-map :
    {A B : Type 0} (P : A → Type 0) (Q : B → Type 0) (f : A → B) (xs : List A)
    → ((x : A) → P x → Q (f x))
    → All P xs
    → All Q (map f xs)
All-map P Q f [] step h = tt
All-map P Q f (x ∷ xs) step h = (step x h.0, All-map P Q f xs step h.1)

marked-covers :
    (job : EventJob) (m : BackendMedia) (roster : List BackendMedia) (rows : List MediaRow)
    → All (IsCovered job (m ∷ roster)) rows
    → All (IsCovered job roster) (mark_media_failed job.school_id m.media_id rows)
      × All (IsCovered job roster) (mark_media_completed job.school_id m.media_id rows)
unfolding mark_media_failed mark_media_completed
marked-covers job m roster rows h = (
  All-map (IsCovered job (m ∷ roster)) (IsCovered job roster) _ rows (λ row c. ground (arith, c)) h,
  All-map (IsCovered job (m ∷ roster)) (IsCovered job roster) _ rows (λ row c. ground (arith, c)) h,
)

skipped-covers :
    (job : EventJob) (m : BackendMedia) (roster : List BackendMedia) (rows : List MediaRow)
    → is_completed m.processing_status ≡ true
    → All (IsCovered job (m ∷ roster)) rows
    → All (IsCovered job roster) rows
skipped-covers job m roster [] done h = tt
skipped-covers job m roster (row ∷ rows) done h =
    (ground (arith, done, h.0), skipped-covers job m roster rows done h.1)

settle-covers :
    (job : EventJob) (m : BackendMedia) (roster : List BackendMedia) (t t' : Tally)
    (r : Result JobOutcome) (db db' : Db)
    → All (IsCovered job (m ∷ roster)) db.media
    → settle job m t r db ≡ (ok t', db')
    → All (IsCovered job roster) db'.media
unfolding settle
settle-covers job m roster t t' (err version_mismatch) db db' h e = absurd (cc)
settle-covers job m roster t t' (err media_fetch) db db' h e =
    subst (λ (x : Result Tally × Db). All (IsCovered job roster) x.1.media) e
      (marked-covers job m roster db.media h).0
settle-covers job m roster t t' (err media_decode) db db' h e =
    subst (λ (x : Result Tally × Db). All (IsCovered job roster) x.1.media) e
      (marked-covers job m roster db.media h).0
settle-covers job m roster t t' (err unexpected) db db' h e =
    subst (λ (x : Result Tally × Db). All (IsCovered job roster) x.1.media) e
      (marked-covers job m roster db.media h).0
settle-covers job m roster t t' (ok o) db db' h e =
    subst (λ (x : Result Tally × Db). All (IsCovered job roster) x.1.media) e
      (marked-covers job m roster db.media h).1

none_owed :
    (job : EventJob) (rows : List MediaRow)
    → All (IsCovered job []) rows
    → All (λ row. (not (in_event job row) || is_settled row.status) ≡ true) rows
none_owed job [] h = tt
none_owed job (row ∷ rows) h = (ground (arith, h.0), none_owed job rows h.1)

module _ {Image Embedding : Type 0} (s : Settings) (p : Ports Image Embedding)
    (job : EventJob) where
  photo_step-total :
      (m : BackendMedia) (t t' : Tally) (db : Db)
      → (photo_step s p job m t db).0 ≡ ok t'
      → total t' ≡ total t + 1
  unfolding photo_step
  photo_step-total m t t' db e = elim (Bool-cases (is_completed m.processing_status)) [
    | inl done ↦ ground (arith, done, e)
    | inr todo ↦
        let (r, db') = process s p (to_photo_job job m) db in
        settle-total job m t t' r db' (rw todo at e)
  ]

  next_photo :
      (roster : List BackendMedia) (x : Result Tally × Db) (t' : Tally) (db' : Db)
      → continue_with (λ t2 db2. event_loop s p job roster t2 db2) x ≡ (ok t', db')
      → (t1 : Tally) × (db1 : Db) × (x ≡ (ok t1, db1))
        × (event_loop s p job roster t1 db1 ≡ (ok t', db'))
  next_photo roster (ok t1, db1) t' db' e = (t1, db1, refl, e)
  next_photo roster (err f, db1) t' db' e = absurd (cc)

  -- An invariant that every photo of the roster keeps holds when the loop has ended well.
  pub event_loop_inv :
      (P : List BackendMedia → Tally → Db → Type 0)
      → ((m : BackendMedia) (roster : List BackendMedia) (t t' : Tally) (db db' : Db)
          → P (m ∷ roster) t db
          → photo_step s p job m t db ≡ (ok t', db')
          → P roster t' db')
      → (roster : List BackendMedia) (t t' : Tally) (db db' : Db) → P roster t db
      → event_loop s p job roster t db ≡ (ok t', db')
      → P [] t' db'
  unfolding event_loop
  event_loop_inv P step [] t t' db db' h e =
      subst (λ (x : Result Tally × Db). elim x.0 [ ok k ↦ P [] k x.1 | err f ↦ P [] t db ]) e h
  event_loop_inv P step (m ∷ roster) t t' db db' h e =
      let (t1, db1, here, later) = next_photo roster (photo_step s p job m t db) t' db' e in
      event_loop_inv P step roster t1 t' db1 db' (step m roster t t1 db db1 h here) later

  photo_step-covers :
      (m : BackendMedia) (roster : List BackendMedia) (t t' : Tally) (db db' : Db)
      → All (IsCovered job (m ∷ roster)) db.media
      → photo_step s p job m t db ≡ (ok t', db')
      → All (IsCovered job roster) db'.media
  unfolding photo_step
  photo_step-covers m roster t t' db db' h e =
      elim (Bool-cases (is_completed m.processing_status)) [
        | inl done ↦
            subst (λ (x : Result Tally × Db). All (IsCovered job roster) x.1.media) (rw done at e)
              (skipped-covers job m roster db.media done h)
        | inr todo ↦
            let (r, db1) = process s p (to_photo_job job m) db in
            settle-covers job m roster t t' r db1 db'
              (rw ((process-rows s p (to_photo_job job m) db).0) h) (rw todo at e)
      ]

  finished_inv :
      (n : ℕ) (x : Result Tally × Db) (o : EventOutcome) (db' : Db)
      → finish_event s p job n x ≡ (ok o, db')
      → (t : Tally) × (db1 : Db) × (x ≡ (ok t, db1))
        × (o ≡ event_outcome s n t)
        × (db' ≡ record db1 { events = mark_event_completed job.school_id job.event_id db1.events })
  finished_inv n (ok t, db1) o db' e = (t, db1, refl, ground (arith, e), ground (arith, e))
  finished_inv n (err f, db1) o db' e = absurd (cc)

  -- A run that succeeds is a loop that succeeds, followed by the mark on the event.
  pub process_event_inv :
      (db db' : Db) (o : EventOutcome)
      → process_event s p job db ≡ (ok o, db')
      → (t : Tally) × (db1 : Db) × (event_loop s p job
            (roster_of s p job db)
            zero_tally
            (started s p job db)
          ≡ (ok t, db1))
        × (o ≡ event_outcome s (length (roster_of s p job db)) t)
        × (db' ≡ record db1 { events = mark_event_completed job.school_id job.event_id db1.events })
  unfolding process_event
  process_event_inv db db' o e = finished_inv _ _ o db' e

  -- Where `process_event` succeeds, every photo of the roster was processed, skipped or failed, and
  -- counted once.
  pub process_event-total :
      (db db' : Db) (o : EventOutcome)
      → process_event s p job db ≡ (ok o, db')
      → (o.photos_total ≡ length (roster_of s p job db))
        × (o.photos_processed + o.photos_skipped + o.photos_failed ≡ o.photos_total)
  process_event-total db db' o e =
      let (t, db1, run, out, _) = process_event_inv db db' o e in
      let n = length (roster_of s p job db) in
      let counted : total t + 0 ≡ n =
        event_loop_inv (λ roster t1 _. total t1 + length roster ≡ n)
          (λ m roster t1 t2 db1 db2 h step.
            omega
              (arith, h, photo_step-total m t1 t2 db1 (ap (λ (y : Result Tally × Db). y.0) step)))
          (roster_of s p job db) zero_tally t (started s p job db) db1 (omega arith) run in
      ground (arith, out, counted)

  -- Where `process_event` succeeds, no photo of the event of a known kind is left `pending`.
  pub process_event-settles :
      (db db' : Db) (o : EventOutcome)
      → process_event s p job db ≡ (ok o, db')
      → All (λ row. (not (in_event job row) || is_settled row.status) ≡ true) db'.media
  process_event-settles db db' o e =
      let (t, db1, run, _, after) = process_event_inv db db' o e in
      let covered : All (IsCovered job []) db1.media =
        event_loop_inv (λ roster _ d. All (IsCovered job roster) d.media) photo_step-covers
          (roster_of s p job db) zero_tally t (started s p job db) db1
          (All-of_In (IsCovered job (roster_of s p job db)) db.media
            (λ row m. roster-covers job row db.media m))
          run in
      rw after (none_owed job db1.media covered)
