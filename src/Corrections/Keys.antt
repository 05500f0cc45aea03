-- ===== src/Corrections/Keys.antt =====
-- What the key of the corrections table gives: one verdict for a pair, and how a write changes it.
use ml_service.Prelude.{
  ℕ, ◌≡◌, refl, Bool, true, false, not, ◌&&◌, ◌||◌, Option, none, some, List, [], ◌∷◌, arith, ◌==◌,
  any, All, is_some, if◌then◌else◌,
}
use ml_service.Backend.{MatchVerdict, MatchCorrection}
use ml_service.Corrections.{
  is_pair, upsert, get_correction, delete, list_for_student, list_for_media,
}

-- `uq_match_corrections_pair`.
abbrev pub UniquePairs : List MatchCorrection → Type 0
UniquePairs [] = Unit
UniquePairs (c ∷ rows) =
    (is_some (get_correction c.media_id c.student_id rows) ≡ false) × UniquePairs rows

-- Every row about a media is in this school, the media's.
abbrev pub InSchool : ℕ → ℕ → List MatchCorrection → Type 0
InSchool school_id media_id rows =
    All (λ c. (not (c.media_id == media_id) || c.school_id == school_id) ≡ true) rows

pub record IsKeyed (school_id media_id : ℕ) (rows : List MatchCorrection) : Type 0 where
  pub unique : UniquePairs rows
  pub in_school : InSchool school_id media_id rows

abbrev pub verdict_of : ℕ → ℕ → List MatchCorrection → Option MatchVerdict
verdict_of media_id student_id rows = elim (get_correction media_id student_id rows) [
  | none ↦ none
  | some c ↦ some c.verdict
]

abbrev pub holds : (MatchVerdict → Bool) → Option MatchVerdict → Bool
holds p none = false
holds p (some v) = p v

get-upsert :
    (m s : ℕ) (c : MatchCorrection) (rows : List MatchCorrection)
    → is_some (get_correction m s (upsert c rows))
      ≡ (is_pair m s c || is_some (get_correction m s rows))
unfolding upsert
get-upsert m s c [] = ground arith
get-upsert m s c (r ∷ rows) = ground (arith, get-upsert m s c rows)

UniquePairs-upsert :
    (c : MatchCorrection) (rows : List MatchCorrection)
    → UniquePairs rows
    → UniquePairs (upsert c rows)
unfolding upsert
UniquePairs-upsert c [] u = (refl, tt)
UniquePairs-upsert c (r ∷ rows) u =
    ground (arith, UniquePairs-upsert c rows u.1, get-upsert r.media_id r.student_id c rows)

InSchool-upsert :
    (school m : ℕ) (c : MatchCorrection) (rows : List MatchCorrection)
    → (not (c.media_id == m) || c.school_id == school) ≡ true
    → InSchool school m rows
    → InSchool school m (upsert c rows)
unfolding upsert
InSchool-upsert school m c [] here h = (here, tt)
InSchool-upsert school m c (r ∷ rows) here h =
    ground (arith, InSchool-upsert school m c rows here h.1)

pub IsKeyed-upsert :
    (school m : ℕ) (c : MatchCorrection) (rows : List MatchCorrection)
    → (not (c.media_id == m) || c.school_id == school) ≡ true
    → IsKeyed school m rows
    → IsKeyed school m (upsert c rows)
IsKeyed-upsert school m c rows here k = record {
  unique = UniquePairs-upsert c rows k.unique;
  in_school = InSchool-upsert school m c rows here k.in_school;
}

-- The latest verdict of a pair wins, and no other pair's verdict changes.
pub verdict_of-upsert :
    (m s : ℕ) (c : MatchCorrection) (rows : List MatchCorrection)
    → verdict_of m s (upsert c rows)
      ≡ (if is_pair m s c then some c.verdict else verdict_of m s rows)
unfolding upsert
verdict_of-upsert m s c [] = ground arith
verdict_of-upsert m s c (r ∷ rows) = ground (arith, verdict_of-upsert m s c rows)

-- A table without the pair is without it after any deletion.
get-delete_none :
    (school m s m' s' : ℕ) (rows : List MatchCorrection)
    → is_some (get_correction m s rows) ≡ false
    → is_some (get_correction m s (delete school m' s' rows)) ≡ false
unfolding delete
get-delete_none school m s m' s' [] h = refl
get-delete_none school m s m' s' (r ∷ rows) h =
    ground (arith, h, get-delete_none school m s m' s' rows)

pub verdict_of-delete :
    (school m s : ℕ) (rows : List MatchCorrection)
    → IsKeyed school m rows
    → verdict_of m s (delete school m s rows) ≡ none
unfolding delete
verdict_of-delete school m s [] k = refl
verdict_of-delete school m s (r ∷ rows) k = ground (
  arith,
  k.unique.0,
  k.in_school.0,
  verdict_of-delete school m s rows (record { unique = k.unique.1; in_school = k.in_school.1 }),
)

pub verdict_of-delete_other :
    (school m s t : ℕ) (rows : List MatchCorrection)
    → (t == s) ≡ false
    → verdict_of m t (delete school m s rows) ≡ verdict_of m t rows
unfolding delete
verdict_of-delete_other school m s t [] ne = refl
verdict_of-delete_other school m s t (r ∷ rows) ne =
    ground (arith, ne, verdict_of-delete_other school m s t rows ne)

UniquePairs-delete :
    (school m s : ℕ) (rows : List MatchCorrection)
    → UniquePairs rows
    → UniquePairs (delete school m s rows)
unfolding delete
UniquePairs-delete school m s [] u = tt
UniquePairs-delete school m s (r ∷ rows) u = ground (
  arith,
  UniquePairs-delete school m s rows u.1,
  get-delete_none school r.media_id r.student_id m s rows u.0,
)

InSchool-delete :
    (school m s : ℕ) (rows : List MatchCorrection)
    → InSchool school m rows
    → InSchool school m (delete school m s rows)
unfolding delete
InSchool-delete school m s [] h = tt
InSchool-delete school m s (r ∷ rows) h = ground (arith, InSchool-delete school m s rows h.1)

pub IsKeyed-delete :
    (school m s : ℕ) (rows : List MatchCorrection)
    → IsKeyed school m rows
    → IsKeyed school m (delete school m s rows)
IsKeyed-delete school m s rows k = record {
  unique = UniquePairs-delete school m s rows k.unique;
  in_school = InSchool-delete school m s rows k.in_school;
}

-- What the corrections of a student say of one media is the pair's verdict.
pub any-list_for_student :
    (p : MatchVerdict → Bool) (school m s : ℕ) (rows : List MatchCorrection)
    → IsKeyed school m rows
    → any (λ c. p c.verdict && c.media_id == m) (list_for_student school s rows)
      ≡ holds p (verdict_of m s rows)
unfolding list_for_student
any-list_for_student p school m s [] k = refl
any-list_for_student p school m s (r ∷ rows) k = ground (
  arith,
  k.unique.0,
  k.in_school.0,
  any-list_for_student p school m s rows
      (record { unique = k.unique.1; in_school = k.in_school.1 }),
)

-- The last correction of a student in a list, or else what was there.
abbrev pub last_or : ℕ → Option MatchCorrection → List MatchCorrection → Option MatchCorrection
last_or s acc [] = acc
last_or s acc (c ∷ cs) = last_or s (if s == c.student_id then some c else acc) cs

abbrev pub or_else : Option MatchCorrection → Option MatchCorrection → Option MatchCorrection
or_else none acc = acc
or_else (some c) acc = some c

pub last_or-list_for_media :
    (school m s : ℕ) (acc : Option MatchCorrection) (rows : List MatchCorrection)
    → IsKeyed school m rows
    → last_or s acc (list_for_media school m rows) ≡ or_else (get_correction m s rows) acc
unfolding list_for_media
last_or-list_for_media school m s acc [] k = refl
last_or-list_for_media school m s acc (r ∷ rows) k =
    let k' : IsKeyed school m rows = record { unique = k.unique.1; in_school = k.in_school.1 } in
    ground (
      arith,
      k.unique.0,
      k.in_school.0,
      last_or-list_for_media school m s acc rows k',
      last_or-list_for_media school m s (some r) rows k',
    )
