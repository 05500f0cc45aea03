-- ===== src/Review/Batch.antt =====
-- The batch of verdicts of the review service: what it counts, and which pairs it can touch.
use ml_service.Prelude.{
  ℕ, ◌+◌, ◌≡◌, refl, sym, ◌∙◌, ap, Bool, ◌&&◌, ◌||◌, inl, inr, Bool-cases, Option, none, some, List,
  [], ◌∷◌, arith, ◌==◌, ==_iff, any, count, is_some, if◌then◌else◌,
}
use ml_service.Media.{MatchRecord}
use ml_service.Backend.{
  ok, >>=-eq-ok, ok-injective, Appearance, MatchVerdict, Tables, require_event,
}
use ml_service.Corrections.{list_event_appearances}
use ml_service.Corrections.Keys.{verdict_of, verdict_of-upsert}
use ml_service.Review.{
  BatchVerdict, by_pair, batch_row, apply_decision, apply_decisions, write, set_verdicts_batch,
}

-- An ML match of the pair in this event.
abbrev pub matched_in : ℕ → ℕ → ℕ → ℕ → List MatchRecord → Bool
matched_in school_id event_id media_id student_id rows =
    any
      (λ r.
        (r.school_id == school_id && r.event_id == event_id)
        && (r.media_id == media_id && r.student_id == student_id))
      rows

-- The verdict that the last decision on a pair gives, if the pair is matched.
abbrev pub decided : Bool → ℕ → ℕ → Option MatchVerdict → List BatchVerdict → Option MatchVerdict
decided matched m s v [] = v
decided matched m s v (d ∷ ds) =
    decided matched m s
      (if matched && (d.media_id == m && d.student_id == s) then some d.verdict else v) ds

is_some-by_pair :
    (m s : ℕ) (acc : Option Appearance) (apps : List Appearance)
    → is_some (by_pair m s acc apps)
      ≡ (is_some acc || any (λ a. a.media_id == m && a.student_id == s) apps)
is_some-by_pair m s acc [] = ground arith
is_some-by_pair m s acc (a ∷ apps) =
    ground (arith, is_some-by_pair m s acc apps, is_some-by_pair m s (some a) apps)

any-list_event_appearances :
    (school event m s : ℕ) (rows : List MatchRecord)
    → any (λ a. a.media_id == m && a.student_id == s) (list_event_appearances school event rows)
      ≡ matched_in school event m s rows
unfolding list_event_appearances
any-list_event_appearances school event m s [] = refl
any-list_event_appearances school event m s (r ∷ rows) =
    ground (arith, any-list_event_appearances school event m s rows)

verdict_of-apply_decision :
    (school event m s : ℕ) (by : Option ℕ) (d : BatchVerdict) (o : Option Appearance)
    (state : ℕ × Tables)
    → verdict_of m s (apply_decision school event by d o state).1.corrections ≡ (
        if is_some o && (d.media_id == m && d.student_id == s)
        then some d.verdict
        else verdict_of m s state.1.corrections)
unfolding write
verdict_of-apply_decision school event m s by d none (applied, db) = refl
verdict_of-apply_decision school event m s by d (some a) (applied, db) =
    verdict_of-upsert m s (batch_row school event by d a) db.corrections

verdict_of-apply_decisions :
    (school event m s : ℕ) (by : Option ℕ) (apps : List Appearance) (ds : List BatchVerdict)
    (state : ℕ × Tables)
    → verdict_of m s (apply_decisions school event by apps ds state).1.corrections
      ≡ decided
          (any (λ a. a.media_id == m && a.student_id == s) apps)
          m
          s
          (verdict_of m s state.1.corrections)
          ds
unfolding apply_decisions
verdict_of-apply_decisions school event m s by apps [] state = refl
verdict_of-apply_decisions school event m s by apps (d ∷ ds) state =
    let o = by_pair d.media_id d.student_id none apps in
    verdict_of-apply_decisions school event m s by apps ds
      (apply_decision school event by d o state)
    ∙ ap
        (λ v.
          decided (any (λ (a : Appearance). a.media_id == m && a.student_id == s) apps) m s v ds)
        (verdict_of-apply_decision school event m s by d o state ∙ head)
  where
    head :
        (if is_some (by_pair d.media_id d.student_id none apps)
            && (d.media_id == m && d.student_id == s)
          then some d.verdict
          else verdict_of m s state.1.corrections)
        ≡ (if any (λ (a : Appearance). a.media_id == m && a.student_id == s) apps
              && (d.media_id == m && d.student_id == s)
            then some d.verdict
            else verdict_of m s state.1.corrections)
    head = elim (Bool-cases (d.media_id == m && d.student_id == s)) [
      | inl here ↦
          let em : d.media_id ≡ m = (==_iff d.media_id m).0 (ground (arith, here)) in
          let es : d.student_id ≡ s = (==_iff d.student_id s).0 (ground (arith, here)) in
          let same : is_some (by_pair d.media_id d.student_id none apps)
              ≡ any (λ (a : Appearance). a.media_id == m && a.student_id == s) apps =
            is_some-by_pair d.media_id d.student_id none apps
            ∙ ap
                (λ k.
                  any (λ (a : Appearance). a.media_id == k && a.student_id == d.student_id) apps)
                em
            ∙ ap (λ k. any (λ (a : Appearance). a.media_id == m && a.student_id == k) apps) es in
          rw same refl
      | inr there ↦ ground (arith, there)
    ]

apply_decision_count :
    (school event : ℕ) (by : Option ℕ) (d : BatchVerdict) (o : Option Appearance)
    (state : ℕ × Tables)
    → (apply_decision school event by d o state).0 ≡ state.0 + (if is_some o then 1 else 0)
apply_decision_count school event by d none (applied, db) = ground arith
apply_decision_count school event by d (some a) (applied, db) = refl

apply_decisions-count :
    (school event : ℕ) (by : Option ℕ) (rows : List MatchRecord) (ds : List BatchVerdict)
    (state : ℕ × Tables)
    → (apply_decisions school event by (list_event_appearances school event rows) ds state).0
      ≡ state.0 + count (λ d. matched_in school event d.media_id d.student_id rows) ds
unfolding apply_decisions
apply_decisions-count school event by rows [] state = ground arith
apply_decisions-count school event by rows (d ∷ ds) state =
    let apps = list_event_appearances school event rows in
    let o = by_pair d.media_id d.student_id none apps in
    ground (
      arith,
      apply_decisions-count school event by rows ds (apply_decision school event by d o state),
      apply_decision_count school event by d o state,
      is_some-by_pair d.media_id d.student_id none apps
          ∙ any-list_event_appearances school event d.media_id d.student_id rows,
    )

-- A batch that is accepted counts the decisions whose pair the ML matched in this event and school
-- and leaves every pair with the verdict of the last decision on
-- it, if the ML matched it there, and otherwise with the verdict it had.
pub set_verdicts_batch-decided :
    (school event m s : ℕ) (ds : List BatchVerdict) (by : Option ℕ) (db db' : Tables) (n : ℕ)
    → set_verdicts_batch school event ds by db ≡ ok (n, db')
    → (n ≡ count (λ d. matched_in school event d.media_id d.student_id db.matches) ds)
      × (verdict_of m s db'.corrections
          ≡ decided (matched_in school event m s db.matches) m s (verdict_of m s db.corrections) ds)
unfolding set_verdicts_batch
set_verdicts_batch-decided school event m s ds by db db' n e =
    let (_, _, e') = >>=-eq-ok (require_event school event db) _ e in
    let apps = list_event_appearances school event db.matches in
    let same : apply_decisions school event by apps ds (0, db) ≡ (n, db') = ok-injective e' in
    (
      ground (
        arith,
        ap (λ (p : ℕ × Tables). p.0) same,
        apply_decisions-count school event by db.matches ds (0, db),
      ),
      sym (ap (λ (p : ℕ × Tables). verdict_of m s p.1.corrections) same)
          ∙ verdict_of-apply_decisions school event m s by apps ds (0, db)
          ∙ ap (λ b. decided b m s (verdict_of m s db.corrections) ds)
              (any-list_event_appearances school event m s db.matches),
    )
