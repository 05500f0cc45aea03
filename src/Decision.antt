-- ===== src/Decision.antt =====
-- The match decision for one face (services/ml_service/src/ml_service/domain/decision.py) and the
-- value objects that it reads (domain/models.py of the same package).
-- A score is a float there. Here it is the integer number of units of a fixed scale, fine enough
-- for every float that occurs, so comparisons are the program's; a difference is taken exactly.
pub mod Spec
use ml_service.Prelude.{
  ℕ, Bool, true, false, none, some, List, [], ◌∷◌, ℤ, ◌-ℤ◌, ltb_ℤ, leb_ℤ, Dict, collapse, lookup,
  insert, values, filter, sorted_desc, if◌then◌else◌,
}

abbrev pub Score : Type 0
Score = ℤ

pub record Candidate : Type 0 where
  pub student_id : ℕ
  pub score : Score

pub record Thresholds : Type 0 where
  pub match_confidence : Score
  pub gap : Score

abbrev pub clears : Thresholds → Score → Bool
clears t score = leb_ℤ t.match_confidence score

pub record Emission : Type 0 where
  pub candidate : Candidate
  pub needs_review : Bool

-- `best_per_student`, the dict of each student's best hit in first-seen order.
unfoldable pub best_per_student : List Candidate → Dict Candidate
unfolding collapse
best_per_student candidates = collapse (λ c. c.student_id) (λ c. c.score) [] candidates

abbrev pub emit : Candidate → Bool → Emission
emit c review = record { candidate = c; needs_review = review }

-- The decision on the ranked list.
unfoldable pub decide_ranked : List Candidate → Thresholds → List Emission
decide_ranked [] t = []
decide_ranked (top1 ∷ []) t = emit top1 false ∷ []
decide_ranked (top1 ∷ top2 ∷ _) t =
    if ltb_ℤ t.gap (top1.score -ℤ top2.score)
    then emit top1 false ∷ []
    else emit top1 true ∷ emit top2 true ∷ []

unfoldable pub ranked : List Candidate → Thresholds → List Candidate
unfolding best_per_student
ranked candidates t =
    sorted_desc (λ c. c.score)
      (values (best_per_student (filter (λ c. clears t c.score) candidates)))

unfoldable pub apply_threshold_and_gap : List Candidate → Thresholds → List Emission
unfolding ranked decide_ranked
apply_threshold_and_gap candidates t = decide_ranked (ranked candidates t) t
