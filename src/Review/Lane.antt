-- ===== src/Review/Lane.antt =====
-- The review lane: which pairs of a photo and a student the staff still have to decide.
use ml_service.Prelude.{
  ℕ, ◌≡◌, refl, sym, ◌∙◌, ap, Bool, true, not, ◌&&◌, ◌||◌, inl, inr, Bool-cases, Option, none, some,
  List, [], ◌∷◌, ◌++◌, map, arith, ◌==◌, ==_iff, filter, find, any, any-append, elem, is_some, Dict,
  lookup, insert,
}
use ml_service.Media.{MatchRecord}
use ml_service.Backend.{
  ok, >>=-eq-ok, ok-injective, Student, Media, Appearance, MatchCorrection, Tables, get_media,
  get_student, require_event,
}
use ml_service.Corrections.{is_pair, list_for_event, list_event_appearances}
use ml_service.Gallery.{media_by_ids}
use ml_service.Review.{
  ReviewCandidate, MediaReview, or_empty, add_candidate, group, review_of, reviews, is_pending,
  event_review,
}

-- The lane asks for a decision on the pair.
abbrev pub asks : ℕ → ℕ → List MediaReview → Bool
asks m s rs = any (λ r. r.media.id == m && any (λ c. c.student.id == s) r.candidates) rs

abbrev grouped_has : ℕ → ℕ → Dict (List ReviewCandidate) → Bool
grouped_has m s g = any (λ e. e.0 == m && any (λ c. c.student.id == s) e.1) g

any-snoc :
    (s : ℕ) (c : ReviewCandidate) (xs : List ReviewCandidate)
    → any (λ c. c.student.id == s) (xs ++ c ∷ [])
      ≡ (any (λ (c : ReviewCandidate). c.student.id == s) xs || c.student.id == s)
any-snoc s c [] = ground arith
any-snoc s c (x ∷ xs) = ground (arith, any-snoc s c xs)

grouped_has-insert :
    (m s k : ℕ) (c : ReviewCandidate) (g : Dict (List ReviewCandidate))
    → grouped_has m s (insert k (or_empty (lookup k g) ++ c ∷ []) g)
      ≡ (grouped_has m s g || (k == m && c.student.id == s))
grouped_has-insert m s k c [] = ground arith
grouped_has-insert m s k c ((j, w) ∷ g) = elim (Bool-cases (k == j)) [
  | inl same ↦
      let e : (j == m) ≡ (k == m) = ap (λ x. x == m) (sym ((==_iff k j).0 same)) in
      ground (arith, same, e, any-snoc s c w)
  | inr other ↦ ground (arith, other, grouped_has-insert m s k c g)
]

-- The row that a search by id finds stands for the id.
SameId : {A : Type 0} → (A → ℕ) → ℕ → Option A → Type 0
SameId id k none = Unit
SameId id k (some x) = (id x == k) ≡ true

find-SameId :
    {A : Type 0} (id : A → ℕ) (k : ℕ) (xs : List A) → SameId id k (find (λ x. id x == k) xs)
unfolding SameId
find-SameId id k [] = tt
find-SameId id k (x ∷ xs) = elim (Bool-cases (id x == k)) [
  | inl same ↦ rw same same
  | inr other ↦ rw other (find-SameId id k xs)
]

grouped_has-add_candidate :
    (m s : ℕ) (om : Option Media) (os : Option Student) (a : Appearance)
    (g : Dict (List ReviewCandidate))
    → SameId (λ (t : Student). t.id) a.student_id os
    → grouped_has m s (add_candidate om os a g) ≡ (
        grouped_has m s g || ((a.media_id == m && a.student_id == s) && (is_some om && is_some os)))
unfolding SameId
grouped_has-add_candidate m s none os a g h = ground arith
grouped_has-add_candidate m s (some x) none a g h = ground arith
grouped_has-add_candidate m s (some x) (some t) a g h =
    let e : (t.id == s) ≡ (a.student_id == s) = ap (λ k. k == s) ((==_iff t.id a.student_id).0 h) in
    grouped_has-insert m s a.media_id (record { student = t; confidence = a.confidence }) g
    ∙ ground (arith, e)

grouped_has-group :
    (m s : ℕ) (medias : List Media) (roster : List Student) (pending : List Appearance)
    (g : Dict (List ReviewCandidate))
    → grouped_has m s (group medias roster pending g) ≡ (
        grouped_has m s g
        || (any (λ a. a.media_id == m && a.student_id == s) pending
            && (is_some (find (λ (x : Media). x.id == m) medias)
                && is_some (find (λ (t : Student). t.id == s) roster))))
unfolding group
grouped_has-group m s medias roster [] g = ground arith
grouped_has-group m s medias roster (a ∷ pending) g =
    let om = find (λ (x : Media). x.id == a.media_id) medias in
    let os = find (λ (t : Student). t.id == a.student_id) roster in
    let step =
      grouped_has-add_candidate m s om os a g
        (find-SameId (λ (t : Student). t.id) a.student_id roster) in
    let rest = grouped_has-group m s medias roster pending (add_candidate om os a g) in
    elim (Bool-cases (a.media_id == m && a.student_id == s)) [
      | inl here ↦
          let em : is_some om ≡ is_some (find (λ (x : Media). x.id == m) medias) =
            ap (λ k. is_some (find (λ (x : Media). x.id == k) medias))
              ((==_iff a.media_id m).0 (ground (arith, here))) in
          let es : is_some os ≡ is_some (find (λ (t : Student). t.id == s) roster) =
            ap (λ k. is_some (find (λ (t : Student). t.id == k) roster))
              ((==_iff a.student_id s).0 (ground (arith, here))) in
          ground (arith, step, rest, here, em, es)
      | inr there ↦ ground (arith, step, rest, there)
    ]

asks-review_of :
    (m s k : ℕ) (o : Option Media) (cs : List ReviewCandidate)
    → SameId (λ (x : Media). x.id) k o
    → asks m s (review_of o cs) ≡ ((k == m && any (λ c. c.student.id == s) cs) && is_some o)
unfolding SameId
asks-review_of m s k none cs h = ground arith
asks-review_of m s k (some x) cs h =
    let e : (x.id == m) ≡ (k == m) = ap (λ j. j == m) ((==_iff x.id k).0 h) in ground (arith, e)

asks-reviews :
    (m s : ℕ) (medias : List Media) (g : Dict (List ReviewCandidate))
    → asks m s (reviews medias g)
      ≡ (grouped_has m s g && is_some (find (λ (x : Media). x.id == m) medias))
unfolding reviews
asks-reviews m s medias [] = refl
asks-reviews m s medias ((k, cs) ∷ g) =
    let o = find (λ (x : Media). x.id == k) medias in
    let first =
      any-append (λ (r : MediaReview). r.media.id == m && any (λ c. c.student.id == s) r.candidates)
        (review_of o cs) (reviews medias g) in
    let here = asks-review_of m s k o cs (find-SameId (λ (x : Media). x.id) k medias) in
    elim (Bool-cases (k == m)) [
      | inl same ↦
          let e : is_some o ≡ is_some (find (λ (x : Media). x.id == m) medias) =
            ap (λ j. is_some (find (λ (x : Media). x.id == j) medias)) ((==_iff k m).0 same) in
          ground (arith, first, here, same, e, asks-reviews m s medias g)
      | inr other ↦ ground (arith, first, here, other, asks-reviews m s medias g)
    ]

find-media_by_ids :
    (school m : ℕ) (ids : List ℕ) (rows : List Media)
    → is_some (
        find (λ (x : Media). x.id == m) (filter (λ x. x.school_id == school && elem x.id ids) rows))
      ≡ (elem m ids && is_some (find (λ (x : Media). x.id == m && x.school_id == school) rows))
find-media_by_ids school m ids [] = ground arith
find-media_by_ids school m ids (x ∷ rows) = elim (Bool-cases (x.id == m)) [
  | inl same ↦
      let e : elem x.id ids ≡ elem m ids = ap (λ k. elem k ids) ((==_iff x.id m).0 same) in
      ground (arith, same, e, find-media_by_ids school m ids rows)
  | inr other ↦ ground (arith, other, find-media_by_ids school m ids rows)
]

find-roster :
    (school s : ℕ) (rows : List Student)
    → is_some (find (λ (t : Student). t.id == s) (filter (λ t. t.school_id == school) rows))
      ≡ is_some (find (λ (t : Student). t.id == s && t.school_id == school) rows)
find-roster school s [] = refl
find-roster school s (t ∷ rows) = ground (arith, find-roster school s rows)

-- An ambiguous ML match of the pair in this event.
abbrev pub ambiguous_in : ℕ → ℕ → ℕ → ℕ → List MatchRecord → Bool
ambiguous_in school event m s rows =
    any
      (λ r.
        (r.school_id == school && r.event_id == event)
        && (r.needs_review && (r.media_id == m && r.student_id == s)))
      rows

-- A correction of the pair in this event.
abbrev pub corrected_in : ℕ → ℕ → ℕ → ℕ → List MatchCorrection → Bool
corrected_in school event m s rows =
    any (λ c. (c.school_id == school && c.event_id == event) && is_pair m s c) rows

any-list_for_event :
    (school event m s : ℕ) (rows : List MatchCorrection)
    → any (is_pair m s) (list_for_event school event rows) ≡ corrected_in school event m s rows
unfolding list_for_event
any-list_for_event school event m s [] = refl
any-list_for_event school event m s (c ∷ rows) =
    ground (arith, any-list_for_event school event m s rows)

any-pending :
    (school event m s : ℕ) (corrected : List MatchCorrection) (rows : List MatchRecord)
    → any
        (λ a. a.media_id == m && a.student_id == s)
        (filter (is_pending corrected) (list_event_appearances school event rows))
      ≡ (ambiguous_in school event m s rows && not (any (is_pair m s) corrected))
unfolding list_event_appearances
any-pending school event m s corrected [] = refl
any-pending school event m s corrected (r ∷ rows) =
    elim (Bool-cases (r.media_id == m && r.student_id == s)) [
      | inl here ↦
          let e : any (is_pair r.media_id r.student_id) corrected ≡ any (is_pair m s) corrected =
            ap (λ k. any (is_pair k r.student_id) corrected)
              ((==_iff r.media_id m).0 (ground (arith, here)))
            ∙ ap (λ k. any (is_pair m k) corrected)
                ((==_iff r.student_id s).0 (ground (arith, here))) in
          ground (arith, here, e, any-pending school event m s corrected rows)
      | inr there ↦ ground (arith, there, any-pending school event m s corrected rows)
    ]

any-elem_media :
    (m s : ℕ) (apps : List Appearance)
    → any (λ a. a.media_id == m && a.student_id == s) apps ≡ true
    → elem m (map (λ a. a.media_id) apps) ≡ true
any-elem_media m s [] h = h
any-elem_media m s (a ∷ apps) h = elim (Bool-cases (a.media_id == m)) [
  | inl same ↦ ground (arith, same)
  | inr other ↦ ground (arith, other, h, any-elem_media m s apps)
]

-- The review lane of an event asks for a decision on a pair exactly when the ML matched it there
-- ambiguously, no correction of it stands in the event, and both the photo and the student are
-- the school's.
pub event_review-asks :
    (school event m s : ℕ) (db : Tables) (rs : List MediaReview)
    → event_review school event db ≡ ok rs
    → asks m s rs ≡ (
        (ambiguous_in school event m s db.matches
          && not (corrected_in school event m s db.corrections))
        && (is_some (get_media school m db) && is_some (get_student school s db)))
unfolding event_review
event_review-asks school event m s db rs e =
    let (_, _, e') = >>=-eq-ok (require_event school event db) _ e in
    let corrected = list_for_event school event db.corrections in
    let pending = filter (is_pending corrected) (list_event_appearances school event db.matches) in
    let ids = map (λ (a : Appearance). a.media_id) pending in
    let medias = media_by_ids school ids db in
    let roster = filter (λ (t : Student). t.school_id == school) db.students in
    let here =
      any-pending school event m s corrected db.matches
      ∙ ap (λ b. ambiguous_in school event m s db.matches && not b)
          (any-list_for_event school event m s db.corrections) in
    ap (asks m s) (sym (ok-injective e'))
    ∙ asks-reviews m s medias (group medias roster pending [])
    ∙ ground (
      arith,
      here,
      any-elem_media m s pending,
      grouped_has-group m s medias roster pending [],
      find-media_by_ids school m ids db.media,
      find-roster school s db.students,
    )
