-- ===== src/Matches.antt =====
-- The `matches` table and its one write path, `INSERT ... ON CONFLICT (media_id, student_id) DO
-- UPDATE ... WHERE excluded.confidence_score > matches.confidence_score`
-- (services/ml_service/src/ml_service/adapters/repository/postgres_matches.py).
-- The table is the list of its rows; the rows of one statement are taken in turn. Postgres refuses a
-- statement that names a key twice; the batches of the inference service, one row for each student
-- of one media, name none twice.
pub mod Confidence
use ml_service.Prelude.{
  ℕ, Bool, true, false, not, ◌&&◌, Option, none, some, List, [], ◌∷◌, ltb_ℤ, ◌==◌, filter, any,
  find, if◌then◌else◌,
}
use ml_service.Media.{MatchRecord}

abbrev pub has_key : ℕ → ℕ → MatchRecord → Bool
has_key media_id student_id r = r.media_id == media_id && r.student_id == student_id

-- `set_=`: every column but the key, the school and the row's own id.
abbrev pub overwrite : MatchRecord → MatchRecord → MatchRecord
overwrite old r = record old {
  event_id = r.event_id;
  media_type = r.media_type;
  confidence_score = r.confidence_score;
  bbox = r.bbox;
  frame_timestamp_ms = r.frame_timestamp_ms;
  needs_review = r.needs_review;
  embedding_model_version = r.embedding_model_version;
  detector_model_version = r.detector_model_version;
  threshold_used = r.threshold_used;
  gap_threshold_used = r.gap_threshold_used;
  frames_matched = r.frames_matched;
}

unfoldable pub save_row : MatchRecord → List MatchRecord → List MatchRecord
save_row r [] = r ∷ []
save_row r (old ∷ rows) =
    if has_key r.media_id r.student_id old
    then (if ltb_ℤ old.confidence_score r.confidence_score then overwrite old r else old) ∷ rows
    else old ∷ save_row r rows

unfoldable pub save_batch : List MatchRecord → List MatchRecord → List MatchRecord
unfolding save_row
save_batch [] rows = rows
save_batch (r ∷ records) rows = save_batch records (save_row r rows)

abbrev pub find_match : ℕ → ℕ → List MatchRecord → Option MatchRecord
find_match media_id student_id rows = find (has_key media_id student_id) rows

unfoldable pub exists : ℕ → ℕ → List MatchRecord → Bool
exists media_id student_id rows = any (has_key media_id student_id) rows

unfoldable pub delete_by_student : ℕ → ℕ → List MatchRecord → List MatchRecord
delete_by_student school_id student_id rows =
    filter (λ r. not (r.school_id == school_id && r.student_id == student_id)) rows
