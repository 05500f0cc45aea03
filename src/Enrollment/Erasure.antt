-- ===== src/Enrollment/Erasure.antt =====
-- The erasure of a student from the ML service.
use ml_service.Prelude.{
  ℕ, ◌≡◌, refl, Bool, false, not, ◌&&◌, List, [], ◌∷◌, map, arith, ◌==◌, filter, any, elem, lookup,
}
use ml_service.Failure.{Result, ok, err}
use ml_service.Identify.{Vision}
use ml_service.Media.{
  MatchRecord, DetectionCandidate, FaceDetectionRecord, FrameDetectionRecord, MediaDetectionRecord,
}
use ml_service.Matches.{delete_by_student}
use ml_service.VectorIndex.{Faiss, Shelf}
use ml_service.VectorIndex as Index
use ml_service.VectorIndex.Fresh.{IsCurrent}
use ml_service.VectorIndex.Erase.{labels, delete-labels}
use ml_service.Enrollment.{
  ReferencePhoto, Enrolled, get_photos, delete_photos, purge_face, purge_frame, purge_media,
  delete_candidates_by_student, erase_rest, delete,
}

-- A candidate row of the audit names the student.
abbrev pub names_face : ℕ → FaceDetectionRecord → Bool
names_face s face = any (λ c. c.student_id == s) face.candidates

abbrev pub names_frame : ℕ → FrameDetectionRecord → Bool
names_frame s frame = any (names_face s) frame.faces

abbrev pub names : ℕ → List MediaDetectionRecord → Bool
names s rows = any (λ d. any (names_frame s) d.frames) rows

-- What is left of a student after `delete`, by how it ended.
abbrev pub Erases : {I : Type 0} → ℕ → ℕ → Enrolled I → Result (Unit {0}) × Enrolled I → Type 0
Erases school s st (err e, st') = st' ≡ st
Erases school s st (ok _, st') =
    (elem s (labels (lookup school st'.shelf.store)) ≡ false)
    × (get_photos school s st'.photos ≡ [])
    × (any (λ r. r.school_id == school && r.student_id == s) st'.matches ≡ false)
    × (names s st'.detections ≡ false)

photos-erased :
    (school s : ℕ) (rows : List ReferencePhoto)
    → get_photos school s (delete_photos school s rows) ≡ []
unfolding get_photos delete_photos
photos-erased school s [] = refl
photos-erased school s (p ∷ rows) = ground (arith, photos-erased school s rows)

matches-erased :
    (school s : ℕ) (rows : List MatchRecord)
    → any (λ r. r.school_id == school && r.student_id == s) (delete_by_student school s rows)
      ≡ false
unfolding delete_by_student
matches-erased school s [] = refl
matches-erased school s (r ∷ rows) = ground (arith, matches-erased school s rows)

candidates-erased :
    (s : ℕ) (cs : List DetectionCandidate)
    → any (λ c. c.student_id == s) (filter (λ c. not (c.student_id == s)) cs) ≡ false
candidates-erased s [] = refl
candidates-erased s (c ∷ cs) = ground (arith, candidates-erased s cs)

any-map-false :
    {A : Type 0} (p : A → Bool) (g : A → A) (xs : List A)
    → ((x : A) → p (g x) ≡ false)
    → any p (map g xs) ≡ false
any-map-false p g [] h = refl
any-map-false p g (x ∷ xs) h = ground (arith, h x, any-map-false p g xs h)

detections-erased :
    (school s : ℕ) (rows : List MediaDetectionRecord)
    → names s (delete_candidates_by_student school s rows) ≡ false
unfolding delete_candidates_by_student
detections-erased school s rows =
    any-map-false (λ (d : MediaDetectionRecord). any (names_frame s) d.frames) (purge_media s) rows
      (λ d. any-map-false (names_frame s) (purge_frame s) d.frames (λ frame.
        any-map-false (names_face s) (purge_face s) frame.faces
          (λ face. candidates-erased s face.candidates)))

module _ {I Embedding Image : Type 0} (v : Vision Image Embedding) (fetch : ℕ → Result Image)
    (f : Faiss I Embedding) (ev : ℕ) where
  erase_rest-Erases :
      (school s : ℕ) (st : Enrolled I) (r : Result (Shelf I))
      → IsCurrent school st.shelf
      → Index.delete f ev school s st.shelf ≡ r
      → Erases school s st (erase_rest v fetch f ev school s st r)
  erase_rest-Erases school s st (err e) c h = refl
  erase_rest-Erases school s st (ok shelf) c h = (
    delete-labels f ev school s st.shelf shelf c h,
    photos-erased school s st.photos,
    matches-erased school s st.matches,
    detections-erased school s st.detections,
  )

  -- Erasing a student leaves, where it succeeds, no vector under the student's label in the school's
  -- index, no reference photo, no match of the school and no candidate row of the audit that names
  -- the student; where the index refuses, nothing has changed. The cache is not ahead of the store.
  pub delete-Erases :
      (school s : ℕ) (st : Enrolled I)
      → IsCurrent school st.shelf
      → Erases school s st (delete v fetch f ev school s st)
  unfolding delete
  delete-Erases school s st c =
      erase_rest-Erases school s st (Index.delete f ev school s st.shelf) c refl
