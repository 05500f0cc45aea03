-- ===== src/Tests/Service.antt =====
-- An event of three photos, one of them broken, run through the ML service's theorems.
use ml_service.Prelude.{
  length, ◌-ℤ◌, ℕ, ◌≡◌, refl, true, false, none, some, List, [], ◌∷◌, ◌+◌, ◌==◌, not, ◌||◌, All, ℤ,
  pos, ◌≤ℤ◌, if◌then◌else◌,
}
use ml_service.Failure.{Result, ok, err, media_decode}
use ml_service.Decision.{
  Candidate, Thresholds, apply_threshold_and_gap, best_per_student, decide_ranked, ranked,
}
use ml_service.Decision.Spec.{Decides, apply_threshold_and_gap-Decides}
use ml_service.Identify.{
  FaceBox, Frame, Vision, PersonHit, IdentifyResult, keep_hits, cleared_students, add_face,
  identify_faces, identify_frame, identify_from, identify_in_frames,
}
use ml_service.Identify.Views.{Agrees, identify_in_frames-Agrees}
use ml_service.Media.{
  InferenceJob, EventJob, image, pending, media_completed, MatchRecord, EventOutcome,
}
use ml_service.Matches.{find_match, save_batch}
use ml_service.Matches.Confidence.{save_batch-keeps}
use ml_service.EventStore.{
  EventRow, queued, list_event_media, mark_event_completed, mark_event_failed,
  mark_event_processing,
}
use ml_service.Inference.{
  Db, Settings, Ports, process, identify_media, job_outcome, match_records, match_record, ambiguous,
  build_detection_record,
}
use ml_service.Inference.Audit.{IsConsistent, build_detection_record-IsConsistent}
use ml_service.Inference.Photo.{Repeats, process-process}
use ml_service.Inference.Event.{process_event, event_loop, photo_step, settle}
use ml_service.Inference.Event.Roster.{in_event, is_settled, process_event-settles}
use ml_service.Inference.Event.Redelivery.{Keeps, process_event-Keeps}
use ml_service.EventStore.Status.{is_event, is_failed, mark_event_failed_guard}
use ml_service.Worker.{JobQueue, consume_once}
use ml_service.Worker.Delivery.{Settles, consume_once-Settles}

abbrev box : FaceBox
box = record { x1 = pos 1; y1 = pos 2; x2 = pos 30; y2 = pos 40; score = pos 99 }

abbrev limits : Thresholds
limits = record { match_confidence = pos 50; gap = pos 10 }

abbrev hits_of : ℕ → List Candidate
hits_of e =
    record { student_id = e; score = pos 90 }
    ∷ record { student_id = e + 1; score = pos 85 }
    ∷ record { student_id = e; score = pos 40 }
    ∷ []

abbrev vision : Vision ℕ ℕ
vision = record {
  detect = λ bytes. if bytes == 0 then err media_decode else ok (box ∷ box ∷ []);
  embed = λ bytes face. ok bytes;
  search = λ school e k. ok (hits_of e);
}

abbrev frames : List (Frame ℕ)
frames =
    record { image_bytes = 7; timestamp_ms = some 0 }
    ∷ record { image_bytes = 8; timestamp_ms = some 500 }
    ∷ []

abbrev no_result : IdentifyResult
no_result = record {
  frames = [];
  people = [];
  faces_detected = 0;
  candidates_above_threshold = 0;
  unknown_faces = 0;
  frames_processed = 0;
}

abbrev result_of : Result IdentifyResult → IdentifyResult
result_of (ok r) = r
result_of (err e) = no_result

abbrev pass : Result IdentifyResult
pass = identify_in_frames vision 1 limits 3 frames

apply_threshold_and_gap-Decides_example :
    Decides (hits_of 7) limits (apply_threshold_and_gap (hits_of 7) limits)
apply_threshold_and_gap-Decides_example = apply_threshold_and_gap-Decides (hits_of 7) limits

identify_in_frames-Agrees_example : Agrees limits 2 (result_of pass)
unfolding identify_in_frames identify_from identify_frame identify_faces add_face keep_hits
    cleared_students
identify_in_frames-Agrees_example =
    identify_in_frames-Agrees vision 1 limits 3 frames (result_of pass) refl

abbrev first_hit : PersonHit
first_hit = record {
  student_id = 7;
  score = pos 90;
  needs_review = true;
  bbox = box;
  frame_timestamp_ms = some 0;
}

abbrev settings : Settings
settings = record {
  top_k = 3;
  video_fps = 2;
  persist_detections = true;
  detector_version = 4;
  embedding_version = 5;
}

abbrev ports : Ports ℕ ℕ
ports = record {
  vision = vision;
  fetch = λ uri. ok uri;
  extract = λ bytes fps. (frames, none);
  get_thresholds = λ school. limits;
  elapsed_ms = λ job db. 12 + length db.detections;
}

abbrev photo_job : InferenceJob
photo_job = record { media_id = 10; media_uri = 7; school_id = 1; event_id = 2; media_type = image }

build_detection_record-IsConsistent_example :
    IsConsistent (build_detection_record settings photo_job (result_of pass) limits 2 2 none)
unfolding identify_in_frames identify_from identify_frame identify_faces add_face keep_hits
    cleared_students
build_detection_record-IsConsistent_example =
    build_detection_record-IsConsistent vision settings photo_job limits frames (result_of pass) 2 2
      none refl

abbrev stored : ℕ → ℕ → ℤ → MatchRecord
stored media student score = record {
  school_id = 1;
  event_id = 2;
  student_id = student;
  media_id = media;
  media_type = image;
  confidence_score = score;
  needs_review = false;
  embedding_model_version = 5;
  detector_model_version = 4;
  threshold_used = pos 50;
  gap_threshold_used = pos 10;
  bbox = some box;
  frame_timestamp_ms = none;
  frames_matched = 1;
}

save_batch-keeps_example :
    (new : MatchRecord) × (find_match 10 7
        (save_batch (stored 10 7 (pos 70) ∷ []) (stored 10 7 (pos 80) ∷ []))
      ≡ some new)
    × (pos 80 ≤ℤ new.confidence_score)
save_batch-keeps_example =
    save_batch-keeps 10 7 (stored 10 7 (pos 80)) (stored 10 7 (pos 70) ∷ [])
      (stored 10 7 (pos 80) ∷ []) refl

abbrev event_row : EventRow
event_row = record {
  id = 2;
  school_id = 1;
  status = queued;
  completed_at = false;
  archived = false;
  enqueued_at = some 100;
}

abbrev db : Db
db = record {
  matches = stored 10 7 (pos 60) ∷ [];
  detections = [];
  events = event_row ∷ [];
  media =
      record {
        id = 10;
        school_id = 1;
        event_id = 2;
        storage_path = 7;
        media_type = some image;
        status = pending;
        completed_at = false;
      }
      ∷ record {
        id = 11;
        school_id = 1;
        event_id = 2;
        storage_path = 0;
        media_type = some image;
        status = pending;
        completed_at = false;
      }
      ∷ record {
        id = 12;
        school_id = 1;
        event_id = 2;
        storage_path = 8;
        media_type = some image;
        status = media_completed;
        completed_at = true;
      }
      ∷ [];
}

abbrev job : EventJob
job = record { school_id = 1; event_id = 2 }

mark_event_failed_guard_example :
    (mark_event_failed 1 2 (mark_event_completed 1 2 (event_row ∷ []))
      ≡ mark_event_completed 1 2 (event_row ∷ []))
    × All
        (λ row. (not (is_event 1 2 row) || is_failed row.status) ≡ true)
        (mark_event_failed 1 2 (mark_event_processing 1 2 (event_row ∷ [])))
    × (mark_event_failed 1 2 (mark_event_failed 1 2 (event_row ∷ []))
        ≡ mark_event_failed 1 2 (event_row ∷ []))
mark_event_failed_guard_example = mark_event_failed_guard 1 2 (event_row ∷ [])

process-process_example :
    Repeats
      (process settings ports photo_job (process settings ports photo_job db).1)
      (process settings ports photo_job db)
process-process_example = process-process settings ports photo_job db

abbrev outcome : EventOutcome
outcome = record {
  photos_total = 3;
  photos_processed = 1;
  photos_skipped = 1;
  photos_failed = 1;
  faces_detected = 2;
  candidates_above_threshold = 4;
  matches_emitted = 2;
  ambiguous_matches = 2;
  unknown_faces = 0;
  frames_processed = 1;
  detector_version = 4;
  embedding_model_version = 5;
}

process_event-settles_example :
    All
      (λ row. (not (in_event job row) || is_settled row.status) ≡ true)
      (process_event settings ports job db).1.media
unfolding process_event event_loop photo_step settle process identify_media job_outcome
    match_records match_record ambiguous identify_in_frames identify_from identify_frame
    identify_faces add_face keep_hits cleared_students apply_threshold_and_gap ranked decide_ranked
    best_per_student ◌-ℤ◌ list_event_media
process_event-settles_example =
    process_event-settles settings ports job db (process_event settings ports job db).1 outcome refl

process_event-Keeps_example :
    Keeps 10 7 (stored 10 7 (pos 60)) (process_event settings ports job db).1
process_event-Keeps_example =
    process_event-Keeps settings ports job 10 7 (stored 10 7 (pos 60)) db refl

abbrev queue : JobQueue
queue = record { waiting = job ∷ job ∷ []; unfinished = 2; counter = 0 }

consume_once-Settles_example :
    Settles job
      (job ∷ [])
      (record { db = db; queue = queue })
      (consume_once settings ports (record { db = db; queue = queue }))
      (process_event settings ports job db).0
consume_once-Settles_example = consume_once-Settles settings ports db queue job (job ∷ [])
