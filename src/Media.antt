-- ===== src/Media.antt =====
-- The value objects of an inference job and of what it persists
-- (services/ml_service/src/ml_service/domain/models.py). Ids, storage paths and model versions are
-- only compared there, so they are numbers here.
use ml_service.Prelude.{ℕ, Bool, Option, List}
use ml_service.Decision.{Score}
use ml_service.Identify.{FaceBox}

pub data MediaType : Type 0 where
  image video : MediaType

pub record InferenceJob : Type 0 where
  pub media_id : ℕ
  pub media_uri : ℕ
  pub school_id : ℕ
  pub event_id : ℕ
  pub media_type : MediaType

pub record EventJob : Type 0 where
  pub school_id : ℕ
  pub event_id : ℕ

pub data MediaStatus : Type 0 where
  pending media_completed media_failed : MediaStatus

pub record BackendMedia : Type 0 where
  pub media_id : ℕ
  pub media_uri : ℕ
  pub media_type : MediaType
  pub processing_status : MediaStatus

pub record MatchRecord : Type 0 where
  pub school_id : ℕ
  pub event_id : ℕ
  pub student_id : ℕ
  pub media_id : ℕ
  pub media_type : MediaType
  pub confidence_score : Score
  pub needs_review : Bool
  pub embedding_model_version : ℕ
  pub detector_model_version : ℕ
  pub threshold_used : Score
  pub gap_threshold_used : Score
  pub bbox : Option FaceBox
  pub frame_timestamp_ms : Option ℕ
  pub frames_matched : ℕ

pub data DetectionOutcome : Type 0 where
  unknown_face match_found ambiguous_match : DetectionOutcome

pub record DetectionCandidate : Type 0 where
  pub student_id : ℕ
  pub score : Score
  pub rank : ℕ
  pub cleared_threshold : Bool
  pub emitted : Bool
  pub needs_review : Bool

pub record FaceDetectionRecord : Type 0 where
  pub face_index : ℕ
  pub box : FaceBox
  pub outcome : DetectionOutcome
  pub candidates : List DetectionCandidate

pub record FrameDetectionRecord : Type 0 where
  pub frame_index : ℕ
  pub frame_timestamp_ms : Option ℕ
  pub faces : List FaceDetectionRecord

pub record MediaDetectionRecord : Type 0 where
  pub school_id : ℕ
  pub event_id : ℕ
  pub media_id : ℕ
  pub media_type : MediaType
  pub media_uri : ℕ
  pub video_fps : Option ℕ
  pub frames_sampled : ℕ
  pub faces_detected : ℕ
  pub candidates_above_threshold : ℕ
  pub unknown_faces : ℕ
  pub matches_emitted : ℕ
  pub ambiguous_matches : ℕ
  pub top_k : ℕ
  pub match_confidence_threshold : Score
  pub gap_threshold : Score
  pub embedding_model_version : ℕ
  pub detector_model_version : ℕ
  pub processing_ms : Option ℕ
  pub frames : List FrameDetectionRecord

pub record JobOutcome : Type 0 where
  pub faces_detected : ℕ
  pub candidates_above_threshold : ℕ
  pub matches_emitted : ℕ
  pub ambiguous_matches : ℕ
  pub unknown_faces : ℕ
  pub frames_processed : ℕ
  pub detector_version : ℕ
  pub embedding_model_version : ℕ

pub record EventOutcome : Type 0 where
  pub photos_total : ℕ
  pub photos_processed : ℕ
  pub photos_skipped : ℕ
  pub photos_failed : ℕ
  pub faces_detected : ℕ
  pub candidates_above_threshold : ℕ
  pub matches_emitted : ℕ
  pub ambiguous_matches : ℕ
  pub unknown_faces : ℕ
  pub frames_processed : ℕ
  pub detector_version : ℕ
  pub embedding_model_version : ℕ
