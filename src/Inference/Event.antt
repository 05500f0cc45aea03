-- ===== src/Inference/Event.antt =====
-- `process_event` of the inference service: the roster of an event, photo by photo
-- (services/ml_service/src/ml_service/orchestration/inference.py).
pub mod Roster
pub mod Status
pub mod Redelivery
use ml_service.Prelude.{ℕ, ◌+◌, Bool, true, false, List, [], ◌∷◌, length, if◌then◌else◌}
use ml_service.Failure.{
  Failure, media_fetch, media_decode, version_mismatch, unexpected, Result, ok, err,
}
use ml_service.Media.{
  InferenceJob, EventJob, MediaStatus, pending, media_completed, media_failed, BackendMedia,
  JobOutcome, EventOutcome,
}
use ml_service.EventStore.{
  list_event_media, mark_media_completed, mark_media_failed, mark_event_processing,
  mark_event_completed,
}
use ml_service.EventStore as Store
use ml_service.Inference.{Db, Settings, Ports, process}

abbrev pub is_completed : MediaStatus → Bool
is_completed media_completed = true
is_completed pending = false
is_completed media_failed = false

abbrev pub to_photo_job : EventJob → BackendMedia → InferenceJob
to_photo_job job m = record {
  media_id = m.media_id;
  media_uri = m.media_uri;
  school_id = job.school_id;
  event_id = job.event_id;
  media_type = m.media_type;
}

-- The counters of the loop.
pub record Tally : Type 0 where
  pub processed : ℕ
  pub skipped : ℕ
  pub failed : ℕ
  pub faces : ℕ
  pub candidates : ℕ
  pub matches : ℕ
  pub ambiguous : ℕ
  pub unknown : ℕ
  pub frames : ℕ

abbrev pub zero_tally : Tally
zero_tally = record {
  processed = 0;
  skipped = 0;
  failed = 0;
  faces = 0;
  candidates = 0;
  matches = 0;
  ambiguous = 0;
  unknown = 0;
  frames = 0;
}

abbrev pub add_outcome : Tally → JobOutcome → Tally
add_outcome t o = record {
  processed = t.processed + 1;
  skipped = t.skipped;
  failed = t.failed;
  faces = t.faces + o.faces_detected;
  candidates = t.candidates + o.candidates_above_threshold;
  matches = t.matches + o.matches_emitted;
  ambiguous = t.ambiguous + o.ambiguous_matches;
  unknown = t.unknown + o.unknown_faces;
  frames = t.frames + o.frames_processed;
}

abbrev fail_photo : EventJob → BackendMedia → Tally → Db → Result Tally × Db
fail_photo job m t db = (
  ok (record t { failed = t.failed + 1 }),
  record db { media = mark_media_failed job.school_id m.media_id db.media },
)

-- The `except` clauses of one photo, and what follows a success. A version mismatch is raised again.
unfoldable pub settle : EventJob → BackendMedia → Tally → Result JobOutcome → Db → Result Tally × Db
settle job m t (err version_mismatch) db = (err version_mismatch, db)
settle job m t (err media_fetch) db = fail_photo job m t db
settle job m t (err media_decode) db = fail_photo job m t db
settle job m t (err unexpected) db = fail_photo job m t db
settle job m t (ok outcome) db = (
  ok (add_outcome t outcome),
  record db { media = mark_media_completed job.school_id m.media_id db.media },
)

abbrev pub event_outcome : Settings → ℕ → Tally → EventOutcome
event_outcome s total t = record {
  photos_total = total;
  photos_processed = t.processed;
  photos_skipped = t.skipped;
  photos_failed = t.failed;
  faces_detected = t.faces;
  candidates_above_threshold = t.candidates;
  matches_emitted = t.matches;
  ambiguous_matches = t.ambiguous;
  unknown_faces = t.unknown;
  frames_processed = t.frames;
  detector_version = s.detector_version;
  embedding_model_version = s.embedding_version;
}

-- A photo whose failure is raised again ends the loop.
abbrev pub continue_with : (Tally → Db → Result Tally × Db) → Result Tally × Db → Result Tally × Db
continue_with rest (ok t, db) = rest t db
continue_with rest (err e, db) = (err e, db)

module _ {Image Embedding : Type 0} (s : Settings) (p : Ports Image Embedding)
    (job : EventJob) where
  unfoldable pub photo_step : BackendMedia → Tally → Db → Result Tally × Db
  unfolding settle
  photo_step m t db =
      if is_completed m.processing_status
      then (ok (record t { skipped = t.skipped + 1 }), db)
      else let (r, db') = process s p (to_photo_job job m) db in settle job m t r db'

  -- `for media in roster`
  unfoldable pub event_loop : List BackendMedia → Tally → Db → Result Tally × Db
  event_loop [] t db = (ok t, db)
  event_loop (m ∷ roster) t db =
      continue_with (λ t' db'. event_loop roster t' db') (photo_step m t db)

  abbrev pub finish_event : ℕ → Result Tally × Db → Result EventOutcome × Db
  finish_event total (ok t, db) = (
    ok (event_outcome s total t),
    record db { events = mark_event_completed job.school_id job.event_id db.events },
  )
  finish_event total (err e, db) = (err e, db)

  abbrev pub started : Db → Db
  started db = record db { events = mark_event_processing job.school_id job.event_id db.events }

  abbrev pub roster_of : Db → List BackendMedia
  roster_of db = list_event_media job.school_id job.event_id db.media

  unfoldable pub process_event : Db → Result EventOutcome × Db
  unfolding event_loop
  process_event db =
      finish_event (length (roster_of db)) (event_loop (roster_of db) zero_tally (started db))
