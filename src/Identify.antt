-- ===== src/Identify.antt =====
-- The identify kernel: detect, embed, search and decide for every face of every frame
-- (services/ml_service/src/ml_service/orchestration/identify.py).
-- The detector, the embedder and the vector index are ports: arguments of the model. An await that
-- raises ends the pass, as the exception leaves `identify_in_frames`.
pub mod Views
use ml_service.Prelude.{
  ℕ, suc, ◌+◌, Bool, Option, none, some, List, [], ◌∷◌, ◌++◌, map, ℤ, ltb_ℤ, Dict, collapse, lookup,
  insert, filter, length, dedup, if◌then◌else◌,
}
use ml_service.Failure.{Result, ok, err, ◌>>=◌}
use ml_service.Decision.{Score, Candidate, Thresholds, clears, Emission, apply_threshold_and_gap}

-- The corner coordinates and the detector's score; landmarks only pass through to the embedder.
pub record FaceBox : Type 0 where
  pub x1 : ℤ
  pub y1 : ℤ
  pub x2 : ℤ
  pub y2 : ℤ
  pub score : Score

pub record Frame (Image : Type 0) : Type 0 where
  pub image_bytes : Image
  pub timestamp_ms : Option ℕ

-- The ports, over the types of images and of embeddings.
pub record Vision (Image Embedding : Type 0) : Type 0 where
  pub detect : Image → Result (List FaceBox)
  pub embed : Image → FaceBox → Result Embedding
  pub search : ℕ → Embedding → ℕ → Result (List Candidate)

pub record PersonHit : Type 0 where
  pub student_id : ℕ
  pub score : Score
  pub needs_review : Bool
  pub bbox : FaceBox
  pub frame_timestamp_ms : Option ℕ

pub record FaceResult : Type 0 where
  pub bbox : FaceBox
  pub people : List PersonHit
  pub candidates : List Candidate

pub record FrameResult : Type 0 where
  pub frame_timestamp_ms : Option ℕ
  pub faces : List FaceResult

pub record IdentifyResult : Type 0 where
  pub frames : List FrameResult
  pub people : Dict PersonHit
  pub faces_detected : ℕ
  pub candidates_above_threshold : ℕ
  pub unknown_faces : ℕ
  pub frames_processed : ℕ

abbrev pub empty_result : IdentifyResult
empty_result = record {
  frames = [];
  people = [];
  faces_detected = 0;
  candidates_above_threshold = 0;
  unknown_faces = 0;
  frames_processed = 0;
}

abbrev pub person_hit : FaceBox → Option ℕ → Emission → PersonHit
person_hit box time e = record {
  student_id = e.candidate.student_id;
  score = e.candidate.score;
  needs_review = e.needs_review;
  bbox = box;
  frame_timestamp_ms = time;
}

-- `best` after some hits: dedupe to the best hit per student (highest score).
unfoldable pub keep_hits : Dict PersonHit → List PersonHit → Dict PersonHit
unfolding collapse
keep_hits best hits = collapse (λ h. h.student_id) (λ h. h.score) best hits

-- `len({c.student_id for c in candidates if thresholds.clears(c.score)})`
unfoldable pub cleared_students : List Candidate → Thresholds → ℕ
cleared_students candidates t =
    length (dedup (map (λ c. c.student_id) (filter (λ c. clears t c.score) candidates)))

-- What a face adds to the pass: its result, and the counters and hits that follow from it.
unfoldable pub add_face :
    Thresholds
    → FaceBox
    → Option ℕ
    → List Candidate
    → IdentifyResult × List FaceResult
    → IdentifyResult × List FaceResult
unfolding keep_hits cleared_students
add_face t box time candidates (r, faces) =
    let hits = map (person_hit box time) (apply_threshold_and_gap candidates t) in
    let face : FaceResult = record { bbox = box; people = hits; candidates = candidates } in
    (
      record r {
        people = keep_hits r.people hits;
        candidates_above_threshold = r.candidates_above_threshold + cleared_students candidates t;
        unknown_faces = r.unknown_faces + elim hits [ [] ↦ 1 | ◌∷◌ x y ↦ 0 ];
      },
      faces ++ face ∷ [],
    )

module _ {Image Embedding : Type 0} (v : Vision Image Embedding) (school_id : ℕ) (t : Thresholds)
    (top_k : ℕ) where
  -- `for box in boxes`
  unfoldable pub identify_faces :
      Frame Image
      → List FaceBox
      → IdentifyResult × List FaceResult
      → Result (IdentifyResult × List FaceResult)
  identify_faces frame [] acc = ok acc
  identify_faces frame (box ∷ boxes) acc = do
    embedding ← v.embed frame.image_bytes box
    candidates ← v.search school_id embedding top_k
    identify_faces frame boxes (add_face t box frame.timestamp_ms candidates acc)

  -- The body of `for frame in frames`.
  unfoldable pub identify_frame : Frame Image → IdentifyResult → Result IdentifyResult
  unfolding identify_faces add_face
  identify_frame frame r = do
    boxes ← v.detect frame.image_bytes
    (r', faces) ← identify_faces frame boxes (
      record r {
        frames_processed = r.frames_processed + 1;
        faces_detected = r.faces_detected + length boxes;
      },
      [],
    )
    ok (record r' {
      frames = r'.frames ++ record { frame_timestamp_ms = frame.timestamp_ms; faces = faces } ∷ [];
    })

  unfoldable pub identify_from : List (Frame Image) → IdentifyResult → Result IdentifyResult
  identify_from [] r = ok r
  identify_from (frame ∷ frames) r = do r' ← identify_frame frame r; identify_from frames r'

  unfoldable pub identify_in_frames : List (Frame Image) → Result IdentifyResult
  unfolding identify_from
  identify_in_frames frames = identify_from frames empty_result
