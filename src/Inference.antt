-- ===== src/Inference.antt =====
-- The inference service: one media item (`process`) and one event (`process_event`)
-- (services/ml_service/src/ml_service/orchestration/inference.py, and the replace-by-media write of
-- adapters/repository/postgres_detections.py).
-- The state is the database that the two services share. Ports that are not this repository's code
-- (storage, video decoding, models, the clock) are a parameter. A database statement itself is
-- taken to succeed, so the only failures are those of the ports, before the first write of a photo.
pub mod Audit
pub mod Photo
pub mod Event
pub mod Healthy
use ml_service.Prelude.{
  ℕ, ◌+◌, Bool, true, false, not, ◌≡◌, Option, none, some, List, [], ◌∷◌, ◌++◌, map, ltb, ◌==◌,
  filter, any, count, elem, length, Dict, if◌then◌else◌,
}
use ml_service.Failure.{
  Failure, media_fetch, media_decode, version_mismatch, unexpected, Result, ok, err, ◌>>=◌,
}
use ml_service.Decision.{Candidate, Thresholds, clears}
use ml_service.Identify.{
  Frame, Vision, PersonHit, FaceResult, FrameResult, IdentifyResult, identify_in_frames,
}
use ml_service.Media.{
  MediaType, image, video, InferenceJob, EventJob, MediaStatus, pending, media_completed,
  media_failed, BackendMedia, MatchRecord, DetectionOutcome, unknown_face, match_found,
  ambiguous_match, DetectionCandidate, FaceDetectionRecord, FrameDetectionRecord,
  MediaDetectionRecord, JobOutcome, EventOutcome,
}
use ml_service.Matches.{save_batch}
use ml_service.EventStore.{
  EventRow, MediaRow, list_event_media, mark_media_completed, mark_media_failed,
  mark_event_processing, mark_event_completed,
}
use ml_service.EventStore as Store

pub record Db : Type 0 where
  pub matches : List MatchRecord
  pub detections : List MediaDetectionRecord
  pub events : List EventRow
  pub media : List MediaRow

-- `__init__` and the model versions.
pub record Settings : Type 0 where
  pub top_k : ℕ
  pub video_fps : ℕ
  pub persist_detections : Bool
  pub detector_version : ℕ
  pub embedding_version : ℕ

-- The ports. A video yields frames, and may end in the failure that its decoder raises. The time
-- that a run takes is measured, so it is told the database, and two runs of one job differ in it.
pub record Ports (Image Embedding : Type 0) : Type 0 where
  pub vision : Vision Image Embedding
  pub fetch : ℕ → Result Image
  pub extract : Image → ℕ → List (Frame Image) × Option Failure
  pub get_thresholds : ℕ → Thresholds
  pub elapsed_ms : InferenceJob → Db → ℕ

-- `len(frames_by_student.get(student_id, ()))`: the frames in which the student was emitted.
unfoldable pub frames_matched : ℕ → List FrameResult → ℕ
frames_matched student_id frames =
    count
      (λ frame.
        any (λ face. any (λ (p : PersonHit). p.student_id == student_id) face.people) frame.faces)
      frames

unfoldable pub match_record :
    Settings → InferenceJob → Thresholds → List FrameResult → ℕ × PersonHit → MatchRecord
unfolding frames_matched
match_record s job t frames (student_id, hit) = record {
  school_id = job.school_id;
  event_id = job.event_id;
  student_id = student_id;
  media_id = job.media_id;
  media_type = job.media_type;
  confidence_score = hit.score;
  needs_review = hit.needs_review;
  embedding_model_version = s.embedding_version;
  detector_model_version = s.detector_version;
  threshold_used = t.match_confidence;
  gap_threshold_used = t.gap;
  bbox = some hit.bbox;
  frame_timestamp_ms = hit.frame_timestamp_ms;
  frames_matched = frames_matched student_id frames;
}

unfoldable pub match_records :
    Settings → InferenceJob → Thresholds → IdentifyResult → List MatchRecord
unfolding match_record
match_records s job t r = map (match_record s job t r.frames) r.people

unfoldable pub ambiguous : List MatchRecord → ℕ
ambiguous records = count (λ r. r.needs_review) records

-- The audit of one candidate, with its 1-based rank.
abbrev pub detection_candidate : Thresholds → List PersonHit → ℕ → Candidate → DetectionCandidate
detection_candidate t people rank c = record {
  student_id = c.student_id;
  score = c.score;
  rank = rank;
  cleared_threshold = clears t c.score;
  emitted = any (λ p. p.student_id == c.student_id) people;
  needs_review = any (λ p. p.student_id == c.student_id) (filter (λ p. p.needs_review) people);
}

unfoldable pub detection_candidates :
    Thresholds → List PersonHit → ℕ → List Candidate → List DetectionCandidate
detection_candidates t people rank [] = []
detection_candidates t people rank (c ∷ cs) =
    detection_candidate t people rank c ∷ detection_candidates t people (rank + 1) cs

abbrev pub outcome_of : List PersonHit → DetectionOutcome
outcome_of [] = unknown_face
outcome_of (p ∷ []) = match_found
outcome_of (p ∷ q ∷ _) = ambiguous_match

unfoldable pub face_records : Thresholds → ℕ → List FaceResult → List FaceDetectionRecord
unfolding detection_candidates
face_records t index [] = []
face_records t index (face ∷ faces) =
    record {
      face_index = index;
      box = face.bbox;
      outcome = outcome_of face.people;
      candidates = detection_candidates t face.people 1 face.candidates;
    }
    ∷ face_records t (index + 1) faces

unfoldable pub frame_records : Thresholds → ℕ → List FrameResult → List FrameDetectionRecord
unfolding face_records
frame_records t index [] = []
frame_records t index (frame ∷ frames) =
    record {
      frame_index = index;
      frame_timestamp_ms = frame.frame_timestamp_ms;
      faces = face_records t 0 frame.faces;
    }
    ∷ frame_records t (index + 1) frames

abbrev pub fps_of : MediaType → ℕ → Option ℕ
fps_of video fps = some fps
fps_of image fps = none

unfoldable pub build_detection_record :
    Settings → InferenceJob → IdentifyResult → Thresholds → ℕ → ℕ → Option ℕ → MediaDetectionRecord
unfolding frame_records
build_detection_record s job r t matches_emitted ambiguous_matches processing_ms = record {
  school_id = job.school_id;
  event_id = job.event_id;
  media_id = job.media_id;
  media_type = job.media_type;
  media_uri = job.media_uri;
  video_fps = fps_of job.media_type s.video_fps;
  frames_sampled = r.frames_processed;
  faces_detected = r.faces_detected;
  candidates_above_threshold = r.candidates_above_threshold;
  unknown_faces = r.unknown_faces;
  matches_emitted = matches_emitted;
  ambiguous_matches = ambiguous_matches;
  top_k = s.top_k;
  match_confidence_threshold = t.match_confidence;
  gap_threshold = t.gap;
  embedding_model_version = s.embedding_version;
  detector_model_version = s.detector_version;
  processing_ms = processing_ms;
  frames = frame_records t 0 r.frames;
}

-- `save_detections`: the media's audit is replaced.
unfoldable pub save_detections :
    MediaDetectionRecord → List MediaDetectionRecord → List MediaDetectionRecord
save_detections d rows = filter (λ row. not (row.media_id == d.media_id)) rows ++ d ∷ []

-- `save_batch` is called only for records; without any it would do nothing too.
unfoldable pub persist : Settings → InferenceJob → Thresholds → ℕ → IdentifyResult → Db → Db
unfolding match_records ambiguous build_detection_record save_detections
persist s job t elapsed r db =
    let records = match_records s job t r in
    record db {
      matches = save_batch records db.matches;
      detections =
          if s.persist_detections
          then save_detections
              (build_detection_record s job r t (length records) (ambiguous records) (some elapsed))
              db.detections
          else db.detections;
    }

unfoldable pub job_outcome : Settings → InferenceJob → Thresholds → IdentifyResult → JobOutcome
unfolding match_records ambiguous
job_outcome s job t r =
    let records = match_records s job t r in
    record {
      faces_detected = r.faces_detected;
      candidates_above_threshold = r.candidates_above_threshold;
      matches_emitted = length records;
      ambiguous_matches = ambiguous records;
      unknown_faces = r.unknown_faces;
      frames_processed = r.frames_processed;
      detector_version = s.detector_version;
      embedding_model_version = s.embedding_version;
    }

abbrev pub ended_by {ℓ} : {A : Type ℓ} → Option Failure → A → Result A
ended_by none a = ok a
ended_by (some e) a = err e

module _ {Image Embedding : Type 0} (s : Settings) (p : Ports Image Embedding) where
  abbrev pub frames_of : MediaType → Image → List (Frame Image) × Option Failure
  frames_of video bytes = p.extract bytes s.video_fps
  frames_of image bytes = (record { image_bytes = bytes; timestamp_ms = none } ∷ [], none)

  -- The pass over the frames, and the decoder's failure where the frames end in one.
  unfoldable pub identify_media : InferenceJob → Result IdentifyResult
  identify_media job = do
    media_bytes ← p.fetch job.media_uri
    let (frames, failure) = frames_of job.media_type media_bytes
    r ← identify_in_frames p.vision job.school_id (p.get_thresholds job.school_id) s.top_k frames
    ended_by failure r

  abbrev pub finish : InferenceJob → Result IdentifyResult → Db → Result JobOutcome × Db
  finish job (err e) db = (err e, db)
  finish job (ok r) db =
      let t = p.get_thresholds job.school_id in
      (ok (job_outcome s job t r), persist s job t (p.elapsed_ms job db) r db)

  unfoldable pub process : InferenceJob → Db → Result JobOutcome × Db
  unfolding identify_media persist job_outcome
  process job db = finish job (identify_media job) db
