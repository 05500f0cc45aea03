-- ===== src/Matches/Confidence.antt =====
-- What a batch does to the stored confidence, and why writing a batch again changes nothing.
use ml_service.Prelude.{
  ℕ, ◌≡◌, refl, ◌∙◌, ap, true, ◌≤ℤ◌, inl, inr, Bool-cases, Option, none, some, List, [], ◌∷◌, arith,
  ltb_ℤ, if◌then◌else◌, In,
}
use ml_service.Media.{MatchRecord}
use ml_service.Matches.{has_key, overwrite, save_row, save_batch, find_match}

-- The row that a key holds afterwards.
abbrev merged : Option MatchRecord → MatchRecord → MatchRecord
merged none r = r
merged (some old) r = if ltb_ℤ old.confidence_score r.confidence_score then overwrite old r else old

find-save_row :
    (m s : ℕ) (r : MatchRecord) (rows : List MatchRecord)
    → find_match m s (save_row r rows)
      ≡ (if has_key m s r then some (merged (find_match m s rows) r) else find_match m s rows)
unfolding save_row
find-save_row m s r [] = ground arith
find-save_row m s r (old ∷ rows) = ground (arith, find-save_row m s r rows)

-- A key's row stays, and its confidence does not fall.
save_row-keeps :
    (m s : ℕ) (r old : MatchRecord) (rows : List MatchRecord)
    → find_match m s rows ≡ some old
    → (new : MatchRecord) × (find_match m s (save_row r rows) ≡ some new)
      × (old.confidence_score ≤ℤ new.confidence_score)
save_row-keeps m s r old rows found = elim (Bool-cases (has_key m s r)) [
  | inl here ↦ (merged (some old) r, find-save_row m s r rows ∙ rw (here, found) refl, ground arith)
  | inr there ↦ (old, find-save_row m s r rows ∙ rw there found, ground arith)
]

-- Whatever the batch, a stored match stays stored and its confidence never falls.
pub save_batch-keeps :
    (m s : ℕ) (old : MatchRecord) (records rows : List MatchRecord)
    → find_match m s rows ≡ some old
    → (new : MatchRecord) × (find_match m s (save_batch records rows) ≡ some new)
      × (old.confidence_score ≤ℤ new.confidence_score)
unfolding save_batch
save_batch-keeps m s old [] rows found = (old, found, ground arith)
save_batch-keeps m s old (r ∷ records) rows found =
    let (mid, found', le) = save_row-keeps m s r old rows found in
    let (new, found'', le') = save_batch-keeps m s mid records (save_row r rows) found' in
    (new, found'', omega (arith, le, le'))

save_row-covers :
    (r : MatchRecord) (rows : List MatchRecord)
    → (new : MatchRecord) × (find_match r.media_id r.student_id (save_row r rows) ≡ some new)
      × (r.confidence_score ≤ℤ new.confidence_score)
save_row-covers r rows =
    let here : has_key r.media_id r.student_id r ≡ true = ground arith in
    let e = find-save_row r.media_id r.student_id r rows in
    (merged (find_match r.media_id r.student_id rows) r, e ∙ rw here refl, ground arith)

-- After a batch every record of it has a row at its key with at least its confidence.
pub save_batch-covers :
    (r : MatchRecord) (records rows : List MatchRecord)
    → In r records
    → (new : MatchRecord) × (find_match r.media_id r.student_id (save_batch records rows)
        ≡ some new)
      × (r.confidence_score ≤ℤ new.confidence_score)
unfolding save_batch
save_batch-covers r [] rows m = absurd m
save_batch-covers r (x ∷ records) rows (inl same) =
    let (mid, found, le) = save_row-covers r rows in
    let (new, found', le') =
      save_batch-keeps r.media_id r.student_id mid records (save_row r rows) found in
    (new, rw (← same) found', omega (arith, le, le'))
save_batch-covers r (x ∷ records) rows (inr m) = save_batch-covers r records (save_row x rows) m

-- A record that its key's row already matches or beats is not written.
save_row-noop :
    (r old : MatchRecord) (rows : List MatchRecord)
    → find_match r.media_id r.student_id rows ≡ some old
    → r.confidence_score ≤ℤ old.confidence_score
    → save_row r rows ≡ rows
unfolding save_row
save_row-noop r old [] found le = absurd (cc)
save_row-noop r old (x ∷ rows) found le = ground (arith, save_row-noop r old rows)

save_batch-noop :
    (records rows : List MatchRecord)
    → ((r : MatchRecord)
        → In r records
        → (old : MatchRecord) × (find_match r.media_id r.student_id rows ≡ some old)
          × (r.confidence_score ≤ℤ old.confidence_score))
    → save_batch records rows ≡ rows
unfolding save_batch
save_batch-noop [] rows covered = refl
save_batch-noop (r ∷ records) rows covered =
    let (old, found, le) = covered r (inl refl) in
    let same = save_row-noop r old rows found le in
    ap (save_batch records) same ∙ save_batch-noop records rows (λ x m. covered x (inr m))

-- Writing the same batch twice leaves the table as writing it once, whatever the table.
pub save_batch-save_batch :
    (records rows : List MatchRecord)
    → save_batch records (save_batch records rows) ≡ save_batch records rows
save_batch-save_batch records rows =
    save_batch-noop records (save_batch records rows) (λ r m. save_batch-covers r records rows m)
