-- ===== src/Review.antt =====
-- The review service: the writes of the corrections overlay and the review lane
-- (services/backend/src/backend/services/review_service.py).
-- Every failure comes before the first write, so an operation is a reply with the new tables.
pub mod Verdicts
pub mod Lane
pub mod Batch
use ml_service.Prelude.{
  ℕ, ◌+◌, Bool, true, false, not, ◌&&◌, Option, none, some, List, [], ◌∷◌, ◌++◌, map, ◌==◌, filter,
  any, elem, find, if◌then◌else◌, Dict, lookup, insert,
}
use ml_service.Decision.{Score}
use ml_service.Backend.{
  not_found, Reply, ok, err, ◌>>=◌, ◌>>◌, Student, Media, Appearance, MatchVerdict, confirmed,
  rejected, added, MatchCorrection, Tables, require_student, require_event, require_media,
}
use ml_service.Corrections.{
  is_pair, upsert, delete, list_for_event, list_event_appearances, list_media_appearances,
}
use ml_service.Gallery.{media_student_ids, media_by_ids}

-- `_ml_appearance`: the first appearance of the student on the media.
unfoldable pub ml_appearance : ℕ → ℕ → ℕ → Tables → Option Appearance
unfolding list_media_appearances
ml_appearance school_id media_id student_id db =
    find (λ a. a.student_id == student_id) (list_media_appearances school_id media_id db.matches)

-- `appearance is not None and appearance.needs_review`
abbrev pub was_ambiguous : Option Appearance → Bool
was_ambiguous none = false
was_ambiguous (some a) = a.needs_review

unfoldable pub write : MatchCorrection → Tables → Tables
unfolding upsert
write c db = record db { corrections = upsert c db.corrections }

unfoldable pub set_verdict : ℕ → ℕ → ℕ → MatchVerdict → Option ℕ → Tables → Reply Tables
unfolding require_media require_student ml_appearance write
set_verdict school_id media_id student_id verdict corrected_by db = do
  media ← require_media school_id media_id db
  require_student school_id student_id db
  let appearance = ml_appearance school_id media_id student_id db
  ok (
      write
        (record {
          school_id = school_id;
          media_id = media_id;
          student_id = student_id;
          event_id = media.event_id;
          verdict = verdict;
          corrected_by = corrected_by;
          reported_not_me = false;
          resolves_review = was_ambiguous appearance;
        })
        db)

abbrev pub missed_verdict : Option Appearance → MatchVerdict
missed_verdict none = added
missed_verdict (some a) = confirmed

unfoldable pub add_missed : ℕ → ℕ → ℕ → Option ℕ → Tables → Reply Tables
unfolding require_media require_student ml_appearance write
add_missed school_id media_id student_id corrected_by db = do
  media ← require_media school_id media_id db
  require_student school_id student_id db
  let appearance = ml_appearance school_id media_id student_id db
  ok (
      write
        (record {
          school_id = school_id;
          media_id = media_id;
          student_id = student_id;
          event_id = media.event_id;
          verdict = missed_verdict appearance;
          corrected_by = corrected_by;
          reported_not_me = false;
          resolves_review = was_ambiguous appearance;
        })
        db)

unfoldable pub delete_correction : ℕ → ℕ → ℕ → Tables → Reply Tables
unfolding require_media delete
delete_correction school_id media_id student_id db = do
  require_media school_id media_id db
  ok (record db { corrections = delete school_id media_id student_id db.corrections })

pub record BatchVerdict : Type 0 where
  pub media_id : ℕ
  pub student_id : ℕ
  pub verdict : MatchVerdict

-- The last appearance of a pair: what the dictionary `by_pair` holds.
abbrev pub by_pair : ℕ → ℕ → Option Appearance → List Appearance → Option Appearance
by_pair media_id student_id acc [] = acc
by_pair media_id student_id acc (a ∷ apps) =
    by_pair media_id student_id
      (if a.media_id == media_id && a.student_id == student_id then some a else acc) apps

abbrev pub batch_row : ℕ → ℕ → Option ℕ → BatchVerdict → Appearance → MatchCorrection
batch_row school_id event_id corrected_by d appearance = record {
  school_id = school_id;
  media_id = d.media_id;
  student_id = d.student_id;
  event_id = event_id;
  verdict = d.verdict;
  corrected_by = corrected_by;
  reported_not_me = false;
  resolves_review = appearance.needs_review;
}

-- One turn of the loop on a decision whose appearance was looked up: a pair without one is skipped.
abbrev pub apply_decision :
    ℕ → ℕ → Option ℕ → BatchVerdict → Option Appearance → ℕ × Tables → ℕ × Tables
apply_decision school_id event_id corrected_by d none (applied, db) = (applied, db)
apply_decision school_id event_id corrected_by d (some a) (applied, db) =
    (applied + 1, write (batch_row school_id event_id corrected_by d a) db)

unfoldable pub apply_decisions :
    ℕ → ℕ → Option ℕ → List Appearance → List BatchVerdict → ℕ × Tables → ℕ × Tables
unfolding write
apply_decisions school_id event_id corrected_by apps [] state = state
apply_decisions school_id event_id corrected_by apps (d ∷ ds) state =
    apply_decisions school_id event_id corrected_by apps ds (
      apply_decision school_id event_id corrected_by d (by_pair d.media_id d.student_id none apps)
        state)

unfoldable pub set_verdicts_batch :
    ℕ → ℕ → List BatchVerdict → Option ℕ → Tables → Reply (ℕ × Tables)
unfolding require_event apply_decisions list_event_appearances
set_verdicts_batch school_id event_id decisions corrected_by db = do
  require_event school_id event_id db
  let apps = list_event_appearances school_id event_id db.matches
  ok (apply_decisions school_id event_id corrected_by apps decisions (0, db))

unfoldable pub self_reject : ℕ → ℕ → ℕ → Option ℕ → Tables → Reply Tables
unfolding require_media ml_appearance media_student_ids write
self_reject school_id media_id student_id corrected_by db = do
  media ← require_media school_id media_id db
  let appearance = ml_appearance school_id media_id student_id db
  let row : MatchCorrection = record {
    school_id = school_id;
    media_id = media_id;
    student_id = student_id;
    event_id = media.event_id;
    verdict = rejected;
    corrected_by = corrected_by;
    reported_not_me = true;
    resolves_review = was_ambiguous appearance;
  }
  if elem student_id (media_student_ids school_id media_id db)
      then ok (write row db)
      else err not_found

pub record ReviewCandidate : Type 0 where
  pub student : Student
  pub confidence : Score

pub record MediaReview : Type 0 where
  pub media : Media
  pub candidates : List ReviewCandidate

abbrev pub or_empty : Option (List ReviewCandidate) → List ReviewCandidate
or_empty none = []
or_empty (some xs) = xs

-- `grouped.setdefault(a.media_id, []).append(...)`, or the `continue`. Ids are primary keys, so a
-- look up by id is a search.
abbrev pub add_candidate :
    Option Media
    → Option Student
    → Appearance
    → Dict (List ReviewCandidate)
    → Dict (List ReviewCandidate)
add_candidate none student a grouped = grouped
add_candidate (some m) none a grouped = grouped
add_candidate (some m) (some student) a grouped =
    let candidate : ReviewCandidate = record { student = student; confidence = a.confidence } in
    insert a.media_id (or_empty (lookup a.media_id grouped) ++ candidate ∷ []) grouped

unfoldable pub group :
    List Media
    → List Student
    → List Appearance
    → Dict (List ReviewCandidate)
    → Dict (List ReviewCandidate)
group medias roster [] grouped = grouped
group medias roster (a ∷ pending) grouped = group medias roster pending (
    add_candidate (find (λ m. m.id == a.media_id) medias) (find (λ s. s.id == a.student_id) roster)
      a grouped)

-- `media_by_id[media_id]`: a group's media is always there.
abbrev pub review_of : Option Media → List ReviewCandidate → List MediaReview
review_of none candidates = []
review_of (some m) candidates = record { media = m; candidates = candidates } ∷ []

unfoldable pub reviews : List Media → Dict (List ReviewCandidate) → List MediaReview
reviews medias [] = []
reviews medias ((media_id, candidates) ∷ grouped) =
    review_of (find (λ m. m.id == media_id) medias) candidates ++ reviews medias grouped

abbrev pub is_pending : List MatchCorrection → Appearance → Bool
is_pending corrected a = a.needs_review && not (any (is_pair a.media_id a.student_id) corrected)

unfoldable pub event_review : ℕ → ℕ → Tables → Reply (List MediaReview)
unfolding require_event list_event_appearances list_for_event group reviews
event_review school_id event_id db = do
  require_event school_id event_id db
  let corrected = list_for_event school_id event_id db.corrections
  let pending = filter (is_pending corrected) (list_event_appearances school_id event_id db.matches)
  let medias = media_by_ids school_id (map (λ a. a.media_id) pending) db
  let roster = filter (λ s. s.school_id == school_id) db.students
  ok (reviews medias (group medias roster pending []))
