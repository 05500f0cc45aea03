-- ===== src/Gallery/EventOverlay.antt =====
-- The overlay of an event's galleries: the same rule as a student's own gallery.
use ml_service.Prelude.{
  ℕ, ◌≡◌, refl, ◌∙◌, ap, Bool, true, not, ◌&&◌, ◌||◌, inl, inr, Bool-cases, List, [], ◌∷◌, map,
  arith, ◌==◌, ==_iff, filter, any, All, any-append, any-map, any-filter,
}
use ml_service.Media.{MatchRecord}
use ml_service.Backend.{Appearance, MatchVerdict, MatchCorrection, Tables}
use ml_service.Corrections.{list_for_event, list_event_appearances}
use ml_service.Corrections.Keys.{IsKeyed, verdict_of, holds}
use ml_service.Gallery.{is_rejected, is_added, same_pair, effective_event_pairs, event_pairs}
use ml_service.Gallery.Overlay.{raw_match, shown, shown_lem}

-- Every row about the media, a match of the school or a correction, is in the media's event.
pub record InEvent (school_id event_id media_id : ℕ) (db : Tables) : Type 0 where
  pub matches :
      All
        (λ r.
          (not (r.school_id == school_id && r.media_id == media_id) || r.event_id == event_id)
          ≡ true)
        db.matches
  pub corrections :
      All (λ c. (not (c.media_id == media_id) || c.event_id == event_id) ≡ true) db.corrections

kept_event_pairs :
    (s m : ℕ) (apps : List Appearance) (gone : List MatchCorrection)
    → any
        (λ a.
          not (any (λ c. c.media_id == a.media_id && c.student_id == a.student_id) gone)
          && (a.student_id == s && a.media_id == m))
        apps
      ≡ (not (any (λ c. c.media_id == m && c.student_id == s) gone)
          && any (λ a. a.student_id == s && a.media_id == m) apps)
kept_event_pairs s m [] gone = ground arith
kept_event_pairs s m (a ∷ apps) gone = elim (Bool-cases (a.student_id == s && a.media_id == m)) [
  | inl here ↦
      let e : any
            (λ (c : MatchCorrection). c.media_id == a.media_id && c.student_id == a.student_id) gone
          ≡ any (λ (c : MatchCorrection). c.media_id == m && c.student_id == s) gone =
        ap
          (λ k. any (λ (c : MatchCorrection). c.media_id == k && c.student_id == a.student_id) gone)
          ((==_iff a.media_id m).0 (ground (arith, here)))
        ∙ ap (λ k. any (λ (c : MatchCorrection). c.media_id == m && c.student_id == k) gone)
            ((==_iff a.student_id s).0 (ground (arith, here))) in
      ground (arith, here, e, kept_event_pairs s m apps gone)
  | inr there ↦ ground (arith, there, kept_event_pairs s m apps gone)
]

added_event_pairs :
    (s m : ℕ) (pairs : List (ℕ × ℕ)) (cs : List MatchCorrection)
    → (any (same_pair s m) pairs
        || any
            (λ c.
              (is_added c.verdict && not (any (same_pair c.student_id c.media_id) pairs))
              && (c.student_id == s && c.media_id == m))
            cs)
      ≡ (any (same_pair s m) pairs
          || any (λ c. is_added c.verdict && (c.media_id == m && c.student_id == s)) cs)
added_event_pairs s m pairs [] = refl
added_event_pairs s m pairs (c ∷ cs) = elim (Bool-cases (c.student_id == s && c.media_id == m)) [
  | inl here ↦
      let e : any (same_pair c.student_id c.media_id) pairs ≡ any (same_pair s m) pairs =
        ap (λ k. any (same_pair k c.media_id) pairs)
          ((==_iff c.student_id s).0 (ground (arith, here)))
        ∙ ap (λ k. any (same_pair s k) pairs) ((==_iff c.media_id m).0 (ground (arith, here))) in
      ground (arith, here, e, added_event_pairs s m pairs cs)
  | inr there ↦ ground (arith, there, added_event_pairs s m pairs cs)
]

effective_event_pairs_lem :
    (s m : ℕ) (apps : List Appearance) (cs : List MatchCorrection)
    → any (same_pair s m) (effective_event_pairs apps cs) ≡ (
        (not (any (λ c. is_rejected c.verdict && (c.media_id == m && c.student_id == s)) cs)
          && any (λ a. a.student_id == s && a.media_id == m) apps)
        || any (λ c. is_added c.verdict && (c.media_id == m && c.student_id == s)) cs)
unfolding effective_event_pairs
effective_event_pairs_lem s m apps cs =
    let gone = filter (λ (c : MatchCorrection). is_rejected c.verdict) cs in
    let left =
      filter
        (λ (a : Appearance).
          not (any (λ c. c.media_id == a.media_id && c.student_id == a.student_id) gone))
        apps in
    let pairs : List (ℕ × ℕ) = map (λ (a : Appearance). (a.student_id, a.media_id)) left in
    let first : any (same_pair s m) pairs ≡ (
        not (
          any
            (λ (c : MatchCorrection).
              is_rejected c.verdict && (c.media_id == m && c.student_id == s))
            cs)
        && any (λ a. a.student_id == s && a.media_id == m) apps) =
      any-map (same_pair s m) (λ (a : Appearance). (a.student_id, a.media_id)) left
      ∙ any-filter (λ (a : Appearance). a.student_id == s && a.media_id == m) _ apps
      ∙ kept_event_pairs s m apps gone
      ∙ ap (λ b. not b && any (λ (a : Appearance). a.student_id == s && a.media_id == m) apps)
          (any-filter (λ (c : MatchCorrection). c.media_id == m && c.student_id == s)
            (λ c. is_rejected c.verdict) cs) in
    any-append (same_pair s m) pairs _
    ∙ ap (λ b. any (same_pair s m) pairs || b)
        (any-map (same_pair s m) (λ (c : MatchCorrection). (c.student_id, c.media_id)) _
          ∙ any-filter (λ (c : MatchCorrection). c.student_id == s && c.media_id == m) _ cs)
    ∙ added_event_pairs s m pairs cs
    ∙ ap
        (λ b.
          b
          || any
              (λ (c : MatchCorrection).
                is_added c.verdict && (c.media_id == m && c.student_id == s))
              cs)
        first

any-list_event_appearances :
    (school event s m : ℕ) (rows : List MatchRecord)
    → All (λ r. (not (r.school_id == school && r.media_id == m) || r.event_id == event) ≡ true) rows
    → any (λ a. a.student_id == s && a.media_id == m) (list_event_appearances school event rows)
      ≡ raw_match school s m rows
unfolding list_event_appearances
any-list_event_appearances school event s m [] h = refl
any-list_event_appearances school event s m (r ∷ rows) h =
    ground (arith, h.0, any-list_event_appearances school event s m rows h.1)

any-list_for_event :
    (p : MatchVerdict → Bool) (school event s m : ℕ) (rows : List MatchCorrection)
    → IsKeyed school m rows
    → All (λ c. (not (c.media_id == m) || c.event_id == event) ≡ true) rows
    → any
        (λ c. p c.verdict && (c.media_id == m && c.student_id == s))
        (list_for_event school event rows)
      ≡ holds p (verdict_of m s rows)
unfolding list_for_event
any-list_for_event p school event s m [] k h = refl
any-list_for_event p school event s m (r ∷ rows) k h = ground (
  arith,
  h.0,
  k.unique.0,
  k.in_school.0,
  any-list_for_event p school event s m rows
      (record { unique = k.unique.1; in_school = k.in_school.1 }) h.1,
)

-- The galleries of an event hold a student's photo exactly by the rule `shown` on the raw match and
-- the pair's verdict, the rule of the student's own gallery. The corrections have one row for a
-- pair, and every row about the photo is in the photo's school and event.
pub event_pairs-shown :
    (school event s m : ℕ) (db : Tables)
    → IsKeyed school m db.corrections
    → InEvent school event m db
    → any (same_pair s m) (event_pairs school event db)
      ≡ shown (raw_match school s m db.matches) (verdict_of m s db.corrections)
unfolding event_pairs
event_pairs-shown school event s m db k here =
    effective_event_pairs_lem s m (list_event_appearances school event db.matches)
      (list_for_event school event db.corrections)
    ∙ rw
        (
          any-list_for_event is_rejected school event s m db.corrections k here.corrections,
          any-list_for_event is_added school event s m db.corrections k here.corrections,
          any-list_event_appearances school event s m db.matches here.matches,
        )
        (shown_lem (raw_match school s m db.matches) (verdict_of m s db.corrections))
