-- ===== src/Enrollment.antt =====
-- Enrollment (services/ml_service/src/ml_service/orchestration/enrollment.py) over the reference
-- photos, the vector index, the matches and the detection audit, with the purge of
-- adapters/repository/postgres_detections.py and adapters/repository/postgres_reference_photos.py.
-- The steps are in the code's order; a failure leaves what the steps before it wrote.
pub mod Erasure
pub mod Report
use ml_service.Prelude.{
  ℕ, ◌+◌, Bool, true, false, not, ◌&&◌, Option, none, some, List, [], ◌∷◌, ◌++◌, map, length,
  filter, dedup, pos, ◌==◌, ℤ, ◌-ℤ◌, ◌*ℤ◌, ltb_ℤ, if◌then◌else◌,
}
use ml_service.Failure.{Failure, unexpected, Result, ok, err, ◌>>=◌}
use ml_service.Identify.{FaceBox, Vision}
use ml_service.Media.{
  MatchRecord, DetectionCandidate, FaceDetectionRecord, FrameDetectionRecord, MediaDetectionRecord,
}
use ml_service.Matches.{delete_by_student}
use ml_service.VectorIndex.{Faiss, Shelf, upsert}
use ml_service.VectorIndex as Index

-- A row of `student_reference_photos`, in the order of the positions.
pub record ReferencePhoto : Type 0 where
  pub school_id : ℕ
  pub student_id : ℕ
  pub photo_uri : ℕ

pub record Enrolled (I : Type 0) : Type 0 where
  pub photos : List ReferencePhoto
  pub shelf : Shelf I
  pub matches : List MatchRecord
  pub detections : List MediaDetectionRecord

abbrev pub is_of : ℕ → ℕ → ReferencePhoto → Bool
is_of school_id student_id p = p.school_id == school_id && p.student_id == student_id

unfoldable pub get_photos : ℕ → ℕ → List ReferencePhoto → List ℕ
get_photos school_id student_id rows =
    map (λ p. p.photo_uri) (filter (is_of school_id student_id) rows)

unfoldable pub delete_photos : ℕ → ℕ → List ReferencePhoto → List ReferencePhoto
delete_photos school_id student_id rows = filter (λ p. not (is_of school_id student_id p)) rows

unfoldable pub replace_photos : ℕ → ℕ → List ℕ → List ReferencePhoto → List ReferencePhoto
unfolding delete_photos
replace_photos school_id student_id uris rows =
    delete_photos school_id student_id rows
    ++ map (λ uri. record { school_id = school_id; student_id = student_id; photo_uri = uri }) uris

-- `delete_candidates_by_student`: the rows of the student go, the faces and frames stay.
abbrev pub purge_face : ℕ → FaceDetectionRecord → FaceDetectionRecord
purge_face student_id face = record face {
  candidates = filter (λ c. not (c.student_id == student_id)) face.candidates;
}

abbrev pub purge_frame : ℕ → FrameDetectionRecord → FrameDetectionRecord
purge_frame student_id frame = record frame { faces = map (purge_face student_id) frame.faces }

abbrev pub purge_media : ℕ → MediaDetectionRecord → MediaDetectionRecord
purge_media student_id d = record d { frames = map (purge_frame student_id) d.frames }

unfoldable pub delete_candidates_by_student :
    ℕ → ℕ → List MediaDetectionRecord → List MediaDetectionRecord
delete_candidates_by_student school_id student_id rows = map (purge_media student_id) rows

-- The status of one reference photo.
pub data PhotoStatus : Type 0 where
  enrolled no_face multiple_faces error : PhotoStatus

pub record PhotoResult : Type 0 where
  pub photo_index : ℕ
  pub status : PhotoStatus

abbrev pub at_least_zero : ℤ → ℤ
at_least_zero z = if ltb_ℤ z (pos 0) then pos 0 else z

abbrev pub area : FaceBox → ℤ
area b = at_least_zero (b.x2 -ℤ b.x1) *ℤ at_least_zero (b.y2 -ℤ b.y1)

-- `max(boxes, key=area)`: the first of the largest.
abbrev pub largest : FaceBox → List FaceBox → FaceBox
largest best [] = best
largest best (b ∷ boxes) = largest (if ltb_ℤ (area best) (area b) then b else best) boxes

abbrev pub status_of : List FaceBox → PhotoStatus
status_of [] = enrolled
status_of (b ∷ boxes) = multiple_faces

module _ {Image Embedding : Type 0} (v : Vision Image Embedding) (fetch : ℕ → Result Image) where
  abbrev pub embed_boxes : ℕ → Image → List FaceBox → Result (PhotoResult × Option Embedding)
  embed_boxes i bytes [] = ok (record { photo_index = i; status = no_face }, none)
  embed_boxes i bytes (b ∷ boxes) = do
    embedding ← v.embed bytes (largest b boxes)
    ok (record { photo_index = i; status = status_of boxes }, some embedding)

  -- `except Exception`: any failure is the photo's own.
  abbrev pub isolated : ℕ → Result (PhotoResult × Option Embedding) → PhotoResult × Option Embedding
  isolated i (ok r) = r
  isolated i (err e) = (record { photo_index = i; status = error }, none)

  unfoldable pub embed_one : ℕ → ℕ → PhotoResult × Option Embedding
  embed_one i uri =
      isolated i (do bytes ← fetch uri; boxes ← v.detect bytes; embed_boxes i bytes boxes)

  abbrev pub with_embedding : Option Embedding → List Embedding → List Embedding
  with_embedding none es = es
  with_embedding (some e) es = e ∷ es

  -- `for i, uri in enumerate(uris)`
  unfoldable pub embed_all : ℕ → List ℕ → List PhotoResult × List Embedding
  unfolding embed_one
  embed_all i [] = ([], [])
  embed_all i (uri ∷ uris) =
      let (result, embedding) = embed_one i uri in
      let (results, embeddings) = embed_all (i + 1) uris in
      (result ∷ results, with_embedding embedding embeddings)

pub record EnrollmentResult : Type 0 where
  pub school_id : ℕ
  pub student_id : ℕ
  pub embeddings_stored : ℕ
  pub photo_results : List PhotoResult

module _ {Image I Embedding : Type 0} (v : Vision Image Embedding) (fetch : ℕ → Result Image)
    (f : Faiss I Embedding) (embedder_version : ℕ) where
  abbrev pub enrolled_by :
      ℕ
      → ℕ
      → Enrolled I
      → List PhotoResult × List Embedding
      → Result (Shelf I)
      → Result EnrollmentResult × Enrolled I
  enrolled_by school_id student_id st results (err e) = (err e, st)
  enrolled_by school_id student_id st (results, embeddings) (ok shelf) = (
    ok (record {
      school_id = school_id;
      student_id = student_id;
      embeddings_stored = length embeddings;
      photo_results = results;
    }),
    record st { shelf = shelf },
  )

  -- The part of `enroll` after the reference photos were replaced, or kept. The index's `upsert` of
  -- no embeddings changes nothing, as the guard `if embeddings` does.
  unfoldable pub refresh : ℕ → ℕ → Enrolled I → Result EnrollmentResult × Enrolled I
  unfolding get_photos embed_all
  refresh school_id student_id st =
      let embedded = embed_all v fetch 0 (dedup (get_photos school_id student_id st.photos)) in
      enrolled_by school_id student_id st embedded
        (upsert f embedder_version school_id student_id embedded.1 st.shelf)

  unfoldable pub enroll :
      ℕ → ℕ → Option (List ℕ) → Enrolled I → Result EnrollmentResult × Enrolled I
  unfolding refresh replace_photos
  enroll school_id student_id none st = refresh school_id student_id st
  enroll school_id student_id (some []) st = (err unexpected, st)
  enroll school_id student_id (some (u ∷ us)) st =
      refresh school_id student_id
        (record st { photos = replace_photos school_id student_id (u ∷ us) st.photos })

  abbrev pub erase_rest : ℕ → ℕ → Enrolled I → Result (Shelf I) → Result (Unit {0}) × Enrolled I
  erase_rest school_id student_id st (err e) = (err e, st)
  erase_rest school_id student_id st (ok shelf) = (
    ok tt,
    record {
      photos = delete_photos school_id student_id st.photos;
      shelf = shelf;
      matches = delete_by_student school_id student_id st.matches;
      detections = delete_candidates_by_student school_id student_id st.detections;
    },
  )

  unfoldable pub delete : ℕ → ℕ → Enrolled I → Result (Unit {0}) × Enrolled I
  delete school_id student_id st =
      erase_rest school_id student_id st
        (Index.delete f embedder_version school_id student_id st.shelf)
