-- ===== src/Inference/Audit.antt =====
-- The audit tree of one media against its own counters.
use ml_service.Prelude.{
  ℕ, ◌+◌, ◌≡◌, refl, Bool, true, false, Option, List, [], ◌∷◌, arith, sum_of, length, count,
}
use ml_service.Failure.{ok}
use ml_service.Decision.{Thresholds}
use ml_service.Identify.{
  Frame, Vision, FaceResult, FrameResult, IdentifyResult, PersonHit, identify_in_frames,
}
use ml_service.Identify.Views.{unknown, identify_in_frames-Agrees}
use ml_service.Media.{
  InferenceJob, DetectionOutcome, unknown_face, match_found, ambiguous_match, FrameDetectionRecord,
  MediaDetectionRecord,
}
use ml_service.Inference.{Settings, outcome_of, face_records, frame_records, build_detection_record}

abbrev pub is_unknown : DetectionOutcome → Bool
is_unknown unknown_face = true
is_unknown match_found = false
is_unknown ambiguous_match = false

unknown_records : FrameDetectionRecord → ℕ
unknown_records f = count (λ face. is_unknown face.outcome) f.faces

unknown-outcome :
    (people : List PersonHit) (box : FaceResult)
    → box.people ≡ people
    → unknown box ≡ (count is_unknown (outcome_of people ∷ []))
unknown-outcome [] box e = rw e refl
unknown-outcome (x ∷ []) box e = rw e refl
unknown-outcome (x ∷ y ∷ r) box e = rw e refl

length-face_records :
    (t : Thresholds) (i : ℕ) (faces : List FaceResult)
    → length (face_records t i faces) ≡ length faces
unfolding face_records
length-face_records t i [] = refl
length-face_records t i (f ∷ faces) = omega (arith, length-face_records t (i + 1) faces)

count-face_records :
    (t : Thresholds) (i : ℕ) (faces : List FaceResult)
    → count (λ face. is_unknown face.outcome) (face_records t i faces) ≡ sum_of unknown faces
unfolding face_records
count-face_records t i [] = refl
count-face_records t i (f ∷ faces) =
    omega (arith, count-face_records t (i + 1) faces, unknown-outcome f.people f refl)

module _ (t : Thresholds) where
  length-frame_records :
      (i : ℕ) (frames : List FrameResult) → length (frame_records t i frames) ≡ length frames
  unfolding frame_records
  length-frame_records i [] = refl
  length-frame_records i (f ∷ frames) = omega (arith, length-frame_records (i + 1) frames)

  faces-frame_records :
      (i : ℕ) (frames : List FrameResult)
      → sum_of (λ f. length f.faces) (frame_records t i frames)
        ≡ sum_of (λ f. length f.faces) frames
  unfolding frame_records
  faces-frame_records i [] = refl
  faces-frame_records i (f ∷ frames) =
      omega (arith, faces-frame_records (i + 1) frames, length-face_records t 0 f.faces)

  unknown-frame_records :
      (i : ℕ) (frames : List FrameResult)
      → sum_of unknown_records (frame_records t i frames)
        ≡ sum_of (λ f. sum_of unknown f.faces) frames
  unfolding frame_records unknown_records
  unknown-frame_records i [] = refl
  unknown-frame_records i (f ∷ frames) =
      omega (arith, unknown-frame_records (i + 1) frames, count-face_records t 0 f.faces)

-- The counters of an audit record are those of its tree.
pub record IsConsistent (d : MediaDetectionRecord) : Type 0 where
  pub frames_eq : d.frames_sampled ≡ length d.frames
  pub faces_eq : d.faces_detected ≡ sum_of (λ f. length f.faces) d.frames
  pub unknown_eq :
      d.unknown_faces ≡ sum_of (λ f. count (λ face. is_unknown face.outcome) f.faces) d.frames

-- The audit built from a successful pass has as many frames, faces and unknown faces in its tree as
-- its counters say.
pub build_detection_record-IsConsistent :
    {Image Embedding : Type 0} (v : Vision Image Embedding) (s : Settings) (job : InferenceJob)
    (t : Thresholds) (frames : List (Frame Image)) (r : IdentifyResult) (emitted review : ℕ)
    (elapsed : Option ℕ)
    → identify_in_frames v job.school_id t s.top_k frames ≡ ok r
    → IsConsistent (build_detection_record s job r t emitted review elapsed)
unfolding build_detection_record unknown_records
build_detection_record-IsConsistent v s job t frames r emitted review elapsed e =
    let a = identify_in_frames-Agrees v job.school_id t s.top_k frames r e in
    record {
      frames_eq = omega (arith, a.frames_eq, a.timeline_eq, length-frame_records t 0 r.frames);
      faces_eq = omega (arith, a.faces_eq, faces-frame_records t 0 r.frames);
      unknown_eq = omega (arith, a.unknown_eq, unknown-frame_records t 0 r.frames);
    }
