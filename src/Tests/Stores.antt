-- ===== src/Tests/Stores.antt =====
-- The index of a school, its cache and the rate limiter at concrete inputs. An index is the list of
-- its vectors, a vector a number, and a query is answered by the rows in order.
use ml_service.Prelude.{
  ℕ, ◌+◌, ◌≤◌, ◌≡◌, ◌⊎◌, refl, inl, Option, none, some, List, [], ◌∷◌, length, arith, pos, min, ◌-◌,
  ◌==◌, Dict, lookup, UniqueKeys, count, take, if◌then◌else◌,
}
use ml_service.Failure.{Result, ok, err}
use ml_service.Decision.{Score}
use ml_service.IndexCache.{get, put}
use ml_service.IndexCache.Eviction.{put-get}
use ml_service.VectorIndex.{Faiss, Blob, Shelf, reconstruct, prev_version, upsert, delete, search}
use ml_service.VectorIndex.Fresh.{IsCurrent}
use ml_service.VectorIndex.Replace.{of_student, upsert-of_student}
use ml_service.Identify.{Vision}
use ml_service.Enrollment.{Enrolled, enroll}
use ml_service.Enrollment as Enrollment
use ml_service.Enrollment.Erasure.{Erases, delete-Erases}
use ml_service.Enrollment.Report.{Reports, enroll-Reports}
use ml_service.RateLimit.{count_in}
use ml_service.RateLimit.Window.{granted, granted-min}

abbrev numbered : ℕ → List ℕ → List (Score × Option ℕ)
numbered i [] = []
numbered i (v ∷ vs) = (pos v, some i) ∷ numbered (i + 1) vs

abbrev faiss : Faiss (List ℕ) ℕ
faiss = record {
  build = λ vs. vs;
  vectors = λ index. index;
  nearest = λ index query k. take k (numbered 0 index);
}

abbrev blob : Blob (List ℕ)
blob = record {
  index = 70 ∷ 80 ∷ 71 ∷ [];
  id_map = 7 ∷ 8 ∷ 7 ∷ [];
  info = record { embedding_model_version = 5; version = 3; count = 3 };
}

abbrev shelf : Shelf (List ℕ)
shelf = record { store = (1, blob) ∷ []; cache = (1, blob) ∷ [] }

abbrev current : IsCurrent 1 shelf
current = record { unique = (refl, tt); behind = inl refl }

abbrev shelf_of : Result (Shelf (List ℕ)) → Shelf (List ℕ)
shelf_of (ok st) = st
shelf_of (err e) = shelf

abbrev entries : Dict ℕ
entries = (1, 10) ∷ (2, 20) ∷ []

abbrev after_put : Dict ℕ
after_put = put 2 3 30 entries

put-get_example :
    (length after_put ≤ 2)
    × UniqueKeys after_put
    × ((get 3 after_put).0 ≡ some 30)
    × (((get 2 after_put).0 ≡ none) ⊎ ((get 2 after_put).0 ≡ some 20))
put-get_example = put-get 2 2 3 30 entries (omega arith) (refl, (refl, tt))

upsert-of_student_example :
    (before : List (ℕ × ℕ)) × (after : List (ℕ × ℕ)) × (reconstruct faiss 5 (some blob) ≡ ok before)
    × (reconstruct faiss 5 (lookup 1 (shelf_of (upsert faiss 5 1 7 (72 ∷ []) shelf)).store)
        ≡ ok after)
    × (of_student 8 after ≡ of_student 8 before)
    × (prev_version (lookup 1 (shelf_of (upsert faiss 5 1 7 (72 ∷ []) shelf)).store) ≡ 4)
    × (lookup 2 (shelf_of (upsert faiss 5 1 7 (72 ∷ []) shelf)).store ≡ none)
unfolding upsert reconstruct
upsert-of_student_example =
    upsert-of_student faiss 5 1 7 8 2 72 [] shelf (shelf_of (upsert faiss 5 1 7 (72 ∷ []) shelf))
      (λ vs. refl) refl

granted-min_example :
    granted 1 2 60 4 ((4, 61) ∷ (9, 62) ∷ (4, 70) ∷ (4, 80) ∷ []) []
    ≡ min
        (count (λ (r : ℕ × ℕ). r.0 == 4) ((4, 61) ∷ (9, 62) ∷ (4, 70) ∷ (4, 80) ∷ []))
        (2 - count_in 1 (lookup 4 []))
granted-min_example =
    granted-min 1 2 60 1 4 ((4, 61) ∷ (9, 62) ∷ (4, 70) ∷ (4, 80) ∷ []) []
      (refl, (refl, (refl, (refl, tt))))

abbrev vision : Vision ℕ ℕ
vision = record {
  detect = λ bytes.
      if bytes == 0
      then ok []
      else ok (record { x1 = pos 0; y1 = pos 0; x2 = pos 4; y2 = pos 4; score = pos 9 } ∷ []);
  embed = λ bytes face. ok bytes;
  search = λ school e k. ok [];
}

abbrev student : Enrolled (List ℕ)
student = record {
  photos = record { school_id = 1; student_id = 7; photo_uri = 70 } ∷ [];
  shelf = shelf;
  matches = [];
  detections = [];
}

delete-Erases_example :
    Erases 1 7 student (Enrollment.delete vision (λ uri. ok uri) faiss 5 1 7 student)
delete-Erases_example = delete-Erases vision (λ uri. ok uri) faiss 5 1 7 student current

enroll-Reports_example :
    Reports vision
      (λ uri. ok uri)
      faiss
      5
      1
      7
      student
      (enroll vision (λ uri. ok uri) faiss 5 1 7 (some (71 ∷ 0 ∷ 71 ∷ [])) student)
enroll-Reports_example =
    enroll-Reports vision (λ uri. ok uri) faiss 5 (λ vs. refl) 1 7 (some (71 ∷ 0 ∷ 71 ∷ [])) student
