-- ===== src/Corrections.antt =====
-- The overlay of corrections and the reader of the ML matches
-- (services/backend/src/backend/adapters/repositories/postgres_match_corrections.py, ml_results.py).
-- A table is the list of its rows; the order of a SELECT is the table's. A malformed id names no row.
pub mod Keys
use ml_service.Prelude.{
  ℕ, Bool, true, false, not, ◌&&◌, Option, none, some, List, [], ◌∷◌, map, ◌==◌, filter, find,
  count, if◌then◌else◌,
}
use ml_service.Media.{MatchRecord}
use ml_service.Backend.{Appearance, MatchVerdict, MatchCorrection}

abbrev pub is_pair : ℕ → ℕ → MatchCorrection → Bool
is_pair media_id student_id c = c.media_id == media_id && c.student_id == student_id

-- `upsert`: the latest verdict wins on `uq_match_corrections_pair`; the school and event of a row
-- that is there stay.
unfoldable pub upsert : MatchCorrection → List MatchCorrection → List MatchCorrection
upsert c [] = c ∷ []
upsert c (old ∷ rows) =
    if is_pair c.media_id c.student_id old
    then record old {
      verdict = c.verdict;
      corrected_by = c.corrected_by;
      reported_not_me = c.reported_not_me;
      resolves_review = c.resolves_review;
    }
      ∷ rows
    else old ∷ upsert c rows

-- The verdict on a pair, of whatever school; for statements only.
abbrev pub get_correction : ℕ → ℕ → List MatchCorrection → Option MatchCorrection
get_correction media_id student_id rows = find (is_pair media_id student_id) rows

unfoldable pub delete : ℕ → ℕ → ℕ → List MatchCorrection → List MatchCorrection
delete school_id media_id student_id rows =
    filter (λ c. not (c.school_id == school_id && is_pair media_id student_id c)) rows

unfoldable pub list_for_media : ℕ → ℕ → List MatchCorrection → List MatchCorrection
list_for_media school_id media_id rows =
    filter (λ c. c.school_id == school_id && c.media_id == media_id) rows

unfoldable pub list_for_event : ℕ → ℕ → List MatchCorrection → List MatchCorrection
list_for_event school_id event_id rows =
    filter (λ c. c.school_id == school_id && c.event_id == event_id) rows

unfoldable pub list_for_student : ℕ → ℕ → List MatchCorrection → List MatchCorrection
list_for_student school_id student_id rows =
    filter (λ c. c.school_id == school_id && c.student_id == student_id) rows

unfoldable pub count_resolved : ℕ → List MatchCorrection → ℕ
count_resolved school_id rows = count (λ c. c.school_id == school_id && c.resolves_review) rows

-- ml_results.py
abbrev pub to_appearance : MatchRecord → Appearance
to_appearance r = record {
  student_id = r.student_id;
  media_id = r.media_id;
  event_id = r.event_id;
  confidence = r.confidence_score;
  needs_review = r.needs_review;
}

unfoldable pub list_event_appearances : ℕ → ℕ → List MatchRecord → List Appearance
list_event_appearances school_id event_id rows =
    map to_appearance (filter (λ r. r.school_id == school_id && r.event_id == event_id) rows)

unfoldable pub list_student_appearances : ℕ → ℕ → List MatchRecord → List Appearance
list_student_appearances school_id student_id rows =
    map to_appearance (filter (λ r. r.school_id == school_id && r.student_id == student_id) rows)

unfoldable pub list_media_appearances : ℕ → ℕ → List MatchRecord → List Appearance
list_media_appearances school_id media_id rows =
    map to_appearance (filter (λ r. r.school_id == school_id && r.media_id == media_id) rows)

unfoldable pub count_needs_review : ℕ → List MatchRecord → ℕ
count_needs_review school_id rows = count (λ r. r.school_id == school_id && r.needs_review) rows
