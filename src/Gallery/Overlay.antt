-- ===== src/Gallery/Overlay.antt =====
-- Who effectively appears: the three overlay helpers against one rule on a pair's raw match and verdict.
use ml_service.Prelude.{
  ℕ, ◌≡◌, refl, ◌∙◌, ap, Bool, true, false, not, ◌&&◌, ◌||◌, inl, inr, Bool-cases, Option, none,
  some, List, [], ◌∷◌, ◌++◌, map, arith, ◌==◌, ==_iff, filter, any, elem, any-append, any-map,
  any-filter, Dict, lookup, insert, keys, UniqueKeys, UniqueKeys-insert, lookup-insert,
}
use ml_service.Media.{MatchRecord}
use ml_service.Backend.{
  Appearance, MatchVerdict, confirmed, rejected, added, MatchCorrection, Tables,
}
use ml_service.Corrections.{
  get_correction, list_for_media, list_for_student, list_student_appearances,
  list_media_appearances,
}
use ml_service.Corrections.Keys.{
  IsKeyed, verdict_of, holds, any-list_for_student, last_or, or_else, last_or-list_for_media,
}
use ml_service.Gallery.{
  is_rejected, is_added, is_vouched, by_student, stands, effective_media_student_ids,
  effective_student_pairs, student_pairs, media_student_ids,
}

-- An ML match of the student on the media.
abbrev pub raw_match : ℕ → ℕ → ℕ → List MatchRecord → Bool
raw_match school_id student_id media_id rows =
    any (λ r. r.school_id == school_id && (r.student_id == student_id && r.media_id == media_id))
      rows

-- The rule of the galleries: an uncorrected or confirmed match stands as the ML wrote it.
abbrev pub shown : Bool → Option MatchVerdict → Bool
shown raw none = raw
shown raw (some confirmed) = raw
shown raw (some rejected) = false
shown raw (some added) = true

-- The rule of the download gate: a confirmation stands even without a match.
abbrev pub entitled : Bool → Option MatchVerdict → Bool
entitled raw none = raw
entitled raw (some confirmed) = true
entitled raw (some rejected) = false
entitled raw (some added) = true

-- The pure helper for one student's pairs.
kept_pairs : ℕ → List Appearance → List MatchCorrection → Bool
kept_pairs m apps gone =
    any (λ a. not (any (λ c. c.media_id == a.media_id) gone) && a.media_id == m) apps

kept_pairs_lem :
    (m : ℕ) (apps : List Appearance) (gone : List MatchCorrection)
    → kept_pairs m apps gone
      ≡ (not (any (λ c. c.media_id == m) gone) && any (λ a. a.media_id == m) apps)
unfolding kept_pairs
kept_pairs_lem m [] gone = ground arith
kept_pairs_lem m (a ∷ apps) gone = elim (Bool-cases (a.media_id == m)) [
  | inl same ↦
      let e : any (λ c. c.media_id == a.media_id) gone ≡ any (λ c. c.media_id == m) gone =
        ap (λ k. any (λ (c : MatchCorrection). c.media_id == k) gone)
          ((==_iff a.media_id m).0 same) in
      ground (arith, same, e, kept_pairs_lem m apps gone)
  | inr other ↦ ground (arith, other, kept_pairs_lem m apps gone)
]

-- A media that is there already is not missed by the test for it.
added_pairs_lem :
    (m : ℕ) (pairs : List (ℕ × ℕ)) (cs : List MatchCorrection)
    → (any (λ p. p.1 == m) pairs
        || any
            (λ c.
              (is_added c.verdict && not (any (λ p. p.1 == c.media_id) pairs)) && c.media_id == m)
            cs)
      ≡ (any (λ p. p.1 == m) pairs || any (λ c. is_added c.verdict && c.media_id == m) cs)
added_pairs_lem m pairs [] = refl
added_pairs_lem m pairs (c ∷ cs) = elim (Bool-cases (c.media_id == m)) [
  | inl same ↦
      let e : any (λ p. p.1 == c.media_id) pairs ≡ any (λ p. p.1 == m) pairs =
        ap (λ k. any (λ (p : ℕ × ℕ). p.1 == k) pairs) ((==_iff c.media_id m).0 same) in
      ground (arith, same, e, added_pairs_lem m pairs cs)
  | inr other ↦ ground (arith, other, added_pairs_lem m pairs cs)
]

effective_student_pairs_lem :
    (m : ℕ) (apps : List Appearance) (cs : List MatchCorrection)
    → any (λ p. p.1 == m) (effective_student_pairs apps cs) ≡ (
        (not (any (λ c. is_rejected c.verdict && c.media_id == m) cs)
          && any (λ a. a.media_id == m) apps)
        || any (λ c. is_added c.verdict && c.media_id == m) cs)
unfolding effective_student_pairs
effective_student_pairs_lem m apps cs =
    let gone = filter (λ (c : MatchCorrection). is_rejected c.verdict) cs in
    let pairs : List (ℕ × ℕ) =
      map (λ (a : Appearance). (a.event_id, a.media_id))
        (filter (λ a. not (any (λ c. c.media_id == a.media_id) gone)) apps) in
    let first : any (λ p. p.1 == m) pairs ≡ (
        not (any (λ c. is_rejected c.verdict && c.media_id == m) cs)
        && any (λ a. a.media_id == m) apps) =
      any-map (λ p. p.1 == m) (λ (a : Appearance). (a.event_id, a.media_id)) _
      ∙ any-filter (λ a. a.media_id == m) _ apps
      ∙ unfold kept_pairs in
        kept_pairs_lem m apps gone
        ∙ ap (λ b. not b && any (λ (a : Appearance). a.media_id == m) apps)
            (any-filter (λ (c : MatchCorrection). c.media_id == m) (λ c. is_rejected c.verdict)
              cs) in
    any-append (λ p. p.1 == m) pairs _
    ∙ ap (λ b. any (λ (p : ℕ × ℕ). p.1 == m) pairs || b)
        (any-map (λ p. p.1 == m) (λ (c : MatchCorrection). (c.event_id, c.media_id)) _
          ∙ any-filter (λ c. c.media_id == m) _ cs)
    ∙ added_pairs_lem m pairs cs
    ∙ ap (λ b. b || any (λ (c : MatchCorrection). is_added c.verdict && c.media_id == m) cs) first

any-list_student_appearances :
    (school s m : ℕ) (rows : List MatchRecord)
    → any (λ a. a.media_id == m) (list_student_appearances school s rows)
      ≡ raw_match school s m rows
unfolding list_student_appearances
any-list_student_appearances school s m [] = refl
any-list_student_appearances school s m (r ∷ rows) =
    ground (arith, any-list_student_appearances school s m rows)

pub shown_lem :
    (raw : Bool) (v : Option MatchVerdict)
    → ((not (holds is_rejected v) && raw) || holds is_added v) ≡ shown raw v
shown_lem raw none = ground arith
shown_lem raw (some confirmed) = ground arith
shown_lem raw (some rejected) = refl
shown_lem raw (some added) = ground arith

-- A student's gallery holds a media exactly by the rule `shown` on the raw match and the pair's verdict.
pub student_pairs-shown :
    (school s m : ℕ) (db : Tables)
    → IsKeyed school m db.corrections
    → any (λ p. p.1 == m) (student_pairs school s db)
      ≡ shown (raw_match school s m db.matches) (verdict_of m s db.corrections)
unfolding student_pairs
student_pairs-shown school s m db k =
    effective_student_pairs_lem m (list_student_appearances school s db.matches)
      (list_for_student school s db.corrections)
    ∙ rw
        (
          any-list_for_student is_rejected school m s db.corrections k,
          any-list_for_student is_added school m s db.corrections k,
          any-list_student_appearances school s m db.matches,
        )
        (shown_lem (raw_match school s m db.matches) (verdict_of m s db.corrections))

-- The pure helper for one media's students.
lookup-by_student :
    (s : ℕ) (d : Dict MatchCorrection) (cs : List MatchCorrection)
    → lookup s (by_student d cs) ≡ last_or s (lookup s d) cs
unfolding by_student
lookup-by_student s d [] = refl
lookup-by_student s d (c ∷ cs) =
    lookup-by_student s (insert c.student_id c d) cs
    ∙ ap (λ acc. last_or s acc cs) (lookup-insert c.student_id s c d)

UniqueKeys-by_student :
    (d : Dict MatchCorrection) (cs : List MatchCorrection)
    → UniqueKeys d
    → UniqueKeys (by_student d cs)
unfolding by_student
UniqueKeys-by_student d [] u = u
UniqueKeys-by_student d (c ∷ cs) u =
    UniqueKeys-by_student (insert c.student_id c d) cs (UniqueKeys-insert c.student_id c d u)

vouched_in : Option MatchCorrection → Bool
vouched_in none = false
vouched_in (some c) = is_vouched c.verdict

elem-vouched :
    (s : ℕ) (d : Dict MatchCorrection)
    → UniqueKeys d
    → elem s (keys (filter (λ e. is_vouched e.1.verdict) d)) ≡ vouched_in (lookup s d)
unfolding vouched_in
elem-vouched s [] u = refl
elem-vouched s ((k, c) ∷ d) u = ground (arith, u.0, elem-vouched s d u.1)

elem-standing :
    (s : ℕ) (d : Dict MatchCorrection) (apps : List Appearance)
    → elem s (map (λ a. a.student_id) (filter (λ a. stands (lookup a.student_id d)) apps))
      ≡ (stands (lookup s d) && any (λ a. a.student_id == s) apps)
elem-standing s d [] = ground arith
elem-standing s d (a ∷ apps) = elim (Bool-cases (a.student_id == s)) [
  | inl same ↦
      let e : lookup a.student_id d ≡ lookup s d =
        ap (λ k. lookup k d) ((==_iff a.student_id s).0 same) in
      ground (arith, same, ap stands e, elem-standing s d apps)
  | inr other ↦ ground (arith, other, elem-standing s d apps)
]

any-list_media_appearances :
    (school s m : ℕ) (rows : List MatchRecord)
    → any (λ a. a.student_id == s) (list_media_appearances school m rows)
      ≡ raw_match school s m rows
unfolding list_media_appearances
any-list_media_appearances school s m [] = refl
any-list_media_appearances school s m (r ∷ rows) =
    ground (arith, any-list_media_appearances school s m rows)

elem-append : (a : ℕ) (xs ys : List ℕ) → elem a (xs ++ ys) ≡ (elem a xs || elem a ys)
elem-append a [] ys = refl
elem-append a (x ∷ xs) ys = ground (arith, elem-append a xs ys)

entitled_lem :
    (raw : Bool) (c : Option MatchCorrection)
    → ((stands c && raw) || vouched_in c)
      ≡ entitled raw (elim c [ none ↦ none | some x ↦ some x.verdict ])
unfolding stands vouched_in
entitled_lem raw none = ground arith
entitled_lem raw (some c) = ground arith

or_else-none : (o : Option MatchCorrection) → or_else o none ≡ o
or_else-none none = refl
or_else-none (some c) = refl

-- The students who may download a media are those of the rule `entitled`.
pub media_student_ids-entitled :
    (school s m : ℕ) (db : Tables)
    → IsKeyed school m db.corrections
    → elem s (media_student_ids school m db)
      ≡ entitled (raw_match school s m db.matches) (verdict_of m s db.corrections)
unfolding media_student_ids effective_media_student_ids
media_student_ids-entitled school s m db k =
    let cs = list_for_media school m db.corrections in
    let d = by_student [] cs in
    let here : lookup s d ≡ get_correction m s db.corrections =
      lookup-by_student s [] cs
      ∙ last_or-list_for_media school m s none db.corrections k
      ∙ or_else-none _ in
    elem-append s
      (map (λ (a : Appearance). a.student_id)
        (filter (λ a. stands (lookup a.student_id d)) (list_media_appearances school m db.matches)))
      (keys (filter (λ (e : ℕ × MatchCorrection). is_vouched e.1.verdict) d))
    ∙ rw
        (
          elem-standing s d (list_media_appearances school m db.matches),
          elem-vouched s d (UniqueKeys-by_student [] cs tt),
          here,
          any-list_media_appearances school s m db.matches,
        )
        (entitled_lem (raw_match school s m db.matches) (get_correction m s db.corrections))
