-- ===== src/Decision/Spec.antt =====
-- What the decision promises, stated on the raw candidates alone: no dict, no sort.
use ml_service.Prelude.{
  collapsed, In-of_collapsed, collapsed-ge, collapsed-distinct, ◌≡◌, ◌≢◌, refl, sym, true, false,
  List, [], ◌∷◌, arith, ◌≤ℤ◌, ◌<ℤ◌, ◌-ℤ◌, ltb_ℤ, In, In-filter, In-sorted, In-of_sorted, In-of_All,
  Descending, Descending-sorted, Pairwise, Pairwise-sorted, filter, int_laws, Bool-cases, inl, inr,
}
use ml_service.Decision.{
  Candidate, Thresholds, best_per_student, Emission, clears, emit, decide_ranked, ranked,
  apply_threshold_and_gap,
}

-- A candidate that clears the threshold, and no candidate scores higher.
pub record IsBest (cs : List Candidate) (t : Thresholds) (c : Candidate) : Type 0 where
  pub member : In c cs
  pub cleared : clears t c.score ≡ true
  pub highest : (d : Candidate) → In d cs → d.score ≤ℤ c.score

-- The same among the candidates of other students than that of `c`.
pub record IsRunnerUp (cs : List Candidate) (t : Thresholds) (c d : Candidate) : Type 0 where
  pub member : In d cs
  pub cleared : clears t d.score ≡ true
  pub other : d.student_id ≢ c.student_id
  pub highest : (e : Candidate) → In e cs → e.student_id ≢ c.student_id → e.score ≤ℤ d.score

pub data Decides (cs : List Candidate) (t : Thresholds) : List Emission → Type 0 where
  unknown : ((c : Candidate) → In c cs → clears t c.score ≡ false) → Decides cs t []
  confident :
      (c : Candidate)
      → IsBest cs t c
      → ((d : Candidate)
          → In d cs
          → clears t d.score ≡ true
          → d.student_id ≢ c.student_id
          → t.gap <ℤ c.score -ℤ d.score)
      → Decides cs t (emit c false ∷ [])
  ambiguous :
      (c d : Candidate)
      → IsBest cs t c
      → IsRunnerUp cs t c d
      → c.score -ℤ d.score ≤ℤ t.gap
      → Decides cs t (emit c true ∷ emit d true ∷ [])

-- What the ranked list has to do with the candidates.
record IsRanking (cs : List Candidate) (t : Thresholds) (r : List Candidate) : Type 0 where
  sound : (e : Candidate) → In e r → In e cs × (clears t e.score ≡ true)
  covers :
      (c : Candidate)
      → In c cs
      → clears t c.score ≡ true
      → (e : Candidate) × In e r × (e.student_id ≡ c.student_id) × (c.score ≤ℤ e.score)
  descending : Descending (λ c. c.score) r
  distinct : Pairwise (λ a b. a.student_id ≢ b.student_id) r

ranked-IsRanking : (cs : List Candidate) (t : Thresholds) → IsRanking cs t (ranked cs t)
unfolding ranked best_per_student
ranked-IsRanking cs t =
    let passing = filter (λ (c : Candidate). clears t c.score) cs in
    record {
      sound = λ e m. (In-filter _ e cs).0 (
          In-of_collapsed (λ c. c.student_id) (λ c. c.score) passing e
            (In-of_sorted _ e (collapsed (λ c. c.student_id) (λ c. c.score) passing) m));
      covers = λ c m ok.
          let (e, in_e, same, le) =
            collapsed-ge (λ c. c.student_id) (λ c. c.score) passing c
              ((In-filter _ c cs).1 (m, ok)) in
          (e, In-sorted _ e (collapsed (λ c. c.student_id) (λ c. c.score) passing) in_e, same, le);
      descending =
          Descending-sorted (λ c. c.score) (collapsed (λ c. c.student_id) (λ c. c.score) passing);
      distinct =
          Pairwise-sorted _ _ (λ a b ne e. ne (sym e))
            (collapsed (λ c. c.student_id) (λ c. c.score) passing)
            (collapsed-distinct (λ c. c.student_id) (λ c. c.score) passing);
    }

module _ (cs : List Candidate) (t : Thresholds) where
  empty_clears_none : IsRanking cs t [] → (c : Candidate) → In c cs → clears t c.score ≡ false
  empty_clears_none k c m = elim (Bool-cases (clears t c.score)) [
    | inl passes ↦ absurd ((k.covers c m passes).1)
    | inr fails ↦ fails
  ]

  top-ge_cleared :
      (c : Candidate) (r : List Candidate)
      → IsRanking cs t (c ∷ r)
      → (d : Candidate) → In d cs
      → clears t d.score ≡ true
      → d.score ≤ℤ c.score
  top-ge_cleared c r k d m passes =
      let (e, in_e, same, le) = k.covers d m passes in
      elim in_e [
        | inl top ↦ ground (arith, top, le)
        | inr later ↦ omega (arith, le, In-of_All _ e r k.descending.0 later)
      ]

  top-IsBest : (c : Candidate) (r : List Candidate) → IsRanking cs t (c ∷ r) → IsBest cs t c
  top-IsBest c r k =
      let passes = (k.sound c (inl refl)).1 in
      record {
        member = (k.sound c (inl refl)).0;
        cleared = passes;
        highest = λ d m. elim (Bool-cases (clears t d.score)) [
          | inl ok ↦ top-ge_cleared c r k d m ok
          | inr below ↦ ground (arith, below, passes)
        ];
      }

  -- Every cleared candidate of another student stands behind the second of the ranking.
  second-ge_cleared :
      (c d : Candidate) (r : List Candidate)
      → IsRanking cs t (c ∷ d ∷ r)
      → (e : Candidate) → In e cs
      → clears t e.score ≡ true
      → e.student_id ≢ c.student_id
      → e.score ≤ℤ d.score
  second-ge_cleared c d r k e m passes ne =
      let (f, in_f, same, le) = k.covers e m passes in
      elim in_f [
        | inl top ↦ absurd (ground (arith, top, same, ne))
        | inr (inl second) ↦ ground (arith, second, le)
        | inr (inr later) ↦ omega (arith, le, In-of_All _ f r k.descending.1.0 later)
      ]

  second-IsRunnerUp :
      (c d : Candidate) (r : List Candidate) → IsRanking cs t (c ∷ d ∷ r) → IsRunnerUp cs t c d
  second-IsRunnerUp c d r k =
      let passes = (k.sound d (inr (inl refl))).1 in
      record {
        member = (k.sound d (inr (inl refl))).0;
        cleared = passes;
        other = λ e. k.distinct.0.0 (sym e);
        highest = λ e m ne. elim (Bool-cases (clears t e.score)) [
          | inl ok ↦ second-ge_cleared c d r k e m ok ne
          | inr below ↦ ground (arith, below, passes)
        ];
      }

  gap_open :
      (a b : Candidate) → ltb_ℤ t.gap (a.score -ℤ b.score) ≡ true → t.gap <ℤ a.score -ℤ b.score
  gap_open a b h = ground arith

  decide_ranked-Decides : (r : List Candidate) → IsRanking cs t r → Decides cs t (decide_ranked r t)
  unfolding decide_ranked
  decide_ranked-Decides [] k = unknown (empty_clears_none k)
  decide_ranked-Decides (c ∷ []) k = confident c (top-IsBest c [] k) (λ d m passes ne.
      let (e, in_e, same, le) = k.covers d m passes in absurd (ground (arith, in_e, same, ne)))
  decide_ranked-Decides (c ∷ d ∷ r) k = elim (Bool-cases (ltb_ℤ t.gap (c.score -ℤ d.score))) [
    | inl wide ↦ rw wide (
        confident c (top-IsBest c (d ∷ r) k) (λ e m passes ne.
          omega (int_laws, second-ge_cleared c d r k e m passes ne, gap_open c d wide)))
    | inr narrow ↦ rw narrow (
        ambiguous c d (top-IsBest c (d ∷ r) k) (second-IsRunnerUp c d r k) (ground (arith, narrow)))
  ]

-- Whatever the candidates and the thresholds, the decision is the specified one: nothing where no
-- candidate clears the threshold; one candidate, unflagged, where it is best and ahead of every
-- cleared candidate of another student by more than the gap; and otherwise the best and the best
-- of another student, both flagged for review.
pub apply_threshold_and_gap-Decides :
    (cs : List Candidate) (t : Thresholds) → Decides cs t (apply_threshold_and_gap cs t)
unfolding apply_threshold_and_gap
apply_threshold_and_gap-Decides cs t =
    decide_ranked-Decides cs t (ranked cs t) (ranked-IsRanking cs t)
