-- ===== src/Inference/Photo.antt =====
-- Processing one photo: what it writes and what it leaves alone.
use ml_service.Prelude.{
  ℕ, ◌≡◌, refl, sym, ap, subst, map, none, if◌then◌else◌, ◌≤ℤ◌, Bool, not, some, List, [], ◌∷◌,
  ◌++◌, arith, ◌==◌, filter, Bool-cases, inl, inr, length,
}
use ml_service.Failure.{Result, ok, err}
use ml_service.Identify.{IdentifyResult}
use ml_service.Decision.{Thresholds}
use ml_service.Media.{InferenceJob, JobOutcome, MatchRecord, MediaDetectionRecord}
use ml_service.Matches.{find_match}
use ml_service.Matches.Confidence.{save_batch-keeps, save_batch-save_batch}
use ml_service.Inference.{
  Db, Settings, Ports, match_records, ambiguous, build_detection_record, save_detections, persist,
  identify_media, process, finish,
}

other_media : ℕ → MediaDetectionRecord → Bool
other_media media row = not (row.media_id == media)

-- An audit without the time that it took.
abbrev pub timeless : MediaDetectionRecord → MediaDetectionRecord
timeless d = record d { processing_ms = none }

-- What a photo leaves in the database, but for the time it took.
abbrev pub SameButTime : Db → Db → Type 0
SameButTime a b =
    (a.matches ≡ b.matches)
    × (map timeless a.detections ≡ map timeless b.detections)
    × (a.events ≡ b.events)
    × (a.media ≡ b.media)

filter-save :
    (d : MediaDetectionRecord) (rows : List MediaDetectionRecord)
    → filter (other_media d.media_id) (filter (other_media d.media_id) rows ++ d ∷ [])
      ≡ filter (other_media d.media_id) rows
unfolding other_media
filter-save d [] = ground arith
filter-save d (x ∷ rows) = ground (arith, filter-save d rows)

timeless-append :
    (rows : List MediaDetectionRecord) (d d' : MediaDetectionRecord)
    → timeless d ≡ timeless d'
    → map timeless (rows ++ d ∷ []) ≡ map timeless (rows ++ d' ∷ [])
timeless-append [] d d' same = ap (λ x. x ∷ []) same
timeless-append (x ∷ rows) d d' same = ap (λ xs. timeless x ∷ xs) (timeless-append rows d d' same)

-- A second audit of a media takes the place of the first.
save_detections-timeless :
    (d d' : MediaDetectionRecord) (rows : List MediaDetectionRecord)
    → timeless d' ≡ timeless d
    → map timeless (save_detections d' (save_detections d rows))
      ≡ map timeless (save_detections d rows)
unfolding save_detections other_media
save_detections-timeless d d' rows same =
    let id : d'.media_id ≡ d.media_id = ap (λ (x : MediaDetectionRecord). x.media_id) same in
    subst
      (λ (media : ℕ).
        map timeless
          (filter (other_media media) (filter (other_media d.media_id) rows ++ d ∷ []) ++ d' ∷ [])
        ≡ map timeless (filter (other_media d.media_id) rows ++ d ∷ []))
      (sym id)
      (rw (filter-save d rows) (timeless-append (filter (other_media d.media_id) rows) d' d same))

persist-persist :
    (s : Settings) (job : InferenceJob) (t : Thresholds) (first again : ℕ) (r : IdentifyResult)
    (db : Db)
    → SameButTime
        (persist s job t again r (persist s job t first r db))
        (persist s job t first r db)
unfolding persist build_detection_record
persist-persist s job t first again r db =
    (save_batch-save_batch (match_records s job t r) db.matches, audits, refl, refl)
  where
    audit : ℕ → MediaDetectionRecord
    audit ms =
        build_detection_record s job r t (length (match_records s job t r))
          (ambiguous (match_records s job t r)) (some ms)

    audits :
        map timeless (
          if s.persist_detections
          then save_detections (audit again) (
              if s.persist_detections
              then save_detections (audit first) db.detections
              else db.detections)
          else (if s.persist_detections
              then save_detections (audit first) db.detections
              else db.detections))
        ≡ map timeless (
            if s.persist_detections
            then save_detections (audit first) db.detections
            else db.detections)
    audits = elim (Bool-cases s.persist_detections) [
      | inl on ↦ rw on (save_detections-timeless (audit first) (audit again) db.detections refl)
      | inr off ↦ rw off refl
    ]

-- A second run against the first: the same answer, and the same database but for the time.
abbrev pub Repeats : Result JobOutcome × Db → Result JobOutcome × Db → Type 0
Repeats again first = (again.0 ≡ first.0) × SameButTime again.1 first.1

module _ {Image Embedding : Type 0} (s : Settings) (p : Ports Image Embedding)
    (job : InferenceJob) where
  finish-finish :
      (m : Result IdentifyResult) (db : Db)
      → Repeats (finish s p job m (finish s p job m db).1) (finish s p job m db)
  finish-finish (err e) db = (refl, (refl, refl, refl, refl))
  finish-finish (ok r) db = (
    refl,
    persist-persist s job (p.get_thresholds job.school_id) (p.elapsed_ms job db)
        (p.elapsed_ms job (finish s p job (ok r) db).1) r db,
  )

  -- A redelivered photo: processing it again, where storage, decoder, models, index and thresholds
  -- answer as they did, gives the same outcome and leaves the matches and the statuses as the first
  -- time left them, and of the audit all but the time that the processing took.
  pub process-process :
      (db : Db) → Repeats (process s p job (process s p job db).1) (process s p job db)
  unfolding process
  process-process db = finish-finish (identify_media s p job) db

  finish-keeps :
      (m : Result IdentifyResult) (media student : ℕ) (old : MatchRecord) (db : Db)
      → find_match media student db.matches ≡ some old
      → (new : MatchRecord) × (find_match media student (finish s p job m db).1.matches ≡ some new)
        × (old.confidence_score ≤ℤ new.confidence_score)
  unfolding persist
  finish-keeps (err e) media student old db found = (old, found, omega arith)
  finish-keeps (ok r) media student old db found =
      save_batch-keeps media student old (match_records s job (p.get_thresholds job.school_id) r)
        db.matches found

  -- Whatever processing a photo does, a stored match stays and its confidence does not fall.
  pub process-keeps :
      (media student : ℕ) (old : MatchRecord) (db : Db)
      → find_match media student db.matches ≡ some old
      → (new : MatchRecord) × (find_match media student (process s p job db).1.matches ≡ some new)
        × (old.confidence_score ≤ℤ new.confidence_score)
  unfolding process
  process-keeps = finish-keeps (identify_media s p job)

  finish-rows :
      (m : Result IdentifyResult) (db : Db)
      → ((finish s p job m db).1.media ≡ db.media) × ((finish s p job m db).1.events ≡ db.events)
  unfolding persist
  finish-rows (err e) db = (refl, refl)
  finish-rows (ok r) db = (refl, refl)

  -- Processing a photo writes no status column.
  pub process-rows :
      (db : Db)
      → ((process s p job db).1.media ≡ db.media) × ((process s p job db).1.events ≡ db.events)
  unfolding process
  process-rows = finish-rows (identify_media s p job)
