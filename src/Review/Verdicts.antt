-- ===== src/Review/Verdicts.antt =====
-- What each write of the review service does to every student's gallery and download gate.
use ml_service.Prelude.{
  ℕ, ◌≡◌, refl, sym, ◌∙◌, ap, subst, Bool, true, false, ◌&&◌, inl, inr, Bool-cases, Option, none,
  some, List, [], ◌∷◌, arith, ◌==◌, ==_iff, ==_refl, any, elem, find, is_some, if◌then◌else◌,
}
use ml_service.Media.{MatchRecord}
use ml_service.Backend.{
  not_found, Reply, ok, err, ◌>>=◌, >>=-eq-ok, ok-injective, Media, Appearance, MatchVerdict,
  confirmed, rejected, added, MatchCorrection, Tables, get_media, or_not_found, require_media,
  require_student,
}
use ml_service.Corrections.{upsert, delete, list_media_appearances}
use ml_service.Corrections.Keys.{
  IsKeyed, IsKeyed-upsert, IsKeyed-delete, verdict_of, verdict_of-upsert, verdict_of-delete,
  verdict_of-delete_other,
}
use ml_service.Gallery.{student_pairs, media_student_ids}
use ml_service.Gallery.Overlay.{
  raw_match, shown, entitled, student_pairs-shown, media_student_ids-entitled,
}
use ml_service.Review.{
  ml_appearance, write, set_verdict, missed_verdict, add_missed, delete_correction, self_reject,
}

-- The tables `db'` are `db` with the pair of the media and the student decided by `v`: the student's
-- gallery and gate follow the rules on `v`, any other student's are as they were.
pub record Overlaid (school_id m s : ℕ) (v : Option MatchVerdict) (db db' : Tables) : Type 0 where
  pub keyed : IsKeyed school_id m db'.corrections
  pub matches : db'.matches ≡ db.matches
  pub gallery :
      (t : ℕ)
      → any (λ p. p.1 == m) (student_pairs school_id t db') ≡ (
          if t == s
          then shown (raw_match school_id s m db.matches) v
          else any (λ p. p.1 == m) (student_pairs school_id t db))
  pub gate :
      (t : ℕ)
      → elem t (media_student_ids school_id m db') ≡ (
          if t == s
          then entitled (raw_match school_id s m db.matches) v
          else elem t (media_student_ids school_id m db))

-- A new table of corrections in which the verdict of the pair, and of no other, became `v`.
corrections-Overlaid :
    (school m s : ℕ) (v : Option MatchVerdict) (db : Tables) (cs : List MatchCorrection)
    → IsKeyed school m db.corrections
    → IsKeyed school m cs
    → ((t : ℕ) → verdict_of m t cs ≡ (if t == s then v else verdict_of m t db.corrections))
    → Overlaid school m s v db (record db { corrections = cs })
corrections-Overlaid school m s v db cs old new e = record {
  keyed = new;
  matches = refl;
  gallery = λ t.
      by_student t shown (student_pairs-shown school t m (record db { corrections = cs }) new)
        (student_pairs-shown school t m db old);
  gate = λ t.
      by_student t entitled
        (media_student_ids-entitled school t m (record db { corrections = cs }) new)
        (media_student_ids-entitled school t m db old);
}
  where
    by_student :
        (t : ℕ) (rule : Bool → Option MatchVerdict → Bool) {after before : Bool}
        → after ≡ rule (raw_match school t m db.matches) (verdict_of m t cs)
        → before ≡ rule (raw_match school t m db.matches) (verdict_of m t db.corrections)
        → after ≡ (if t == s then rule (raw_match school s m db.matches) v else before)
    by_student t rule {after} {before} ea eb = elim (Bool-cases (t == s)) [
      | inl same ↦ rw same (
          ea
          ∙ ap (rule (raw_match school t m db.matches))
              (e t ∙ ap (λ b. if b then v else verdict_of m t db.corrections) same)
          ∙ ap (λ k. rule (raw_match school k m db.matches) v) ((==_iff t s).0 same))
      | inr other ↦ rw other (
          ea
          ∙ ap (rule (raw_match school t m db.matches))
              (e t ∙ ap (λ b. if b then v else verdict_of m t db.corrections) other)
          ∙ sym eb)
    ]

write-Overlaid :
    (c : MatchCorrection) (db : Tables)
    → IsKeyed c.school_id c.media_id db.corrections
    → Overlaid c.school_id c.media_id c.student_id (some c.verdict) db (write c db)
unfolding write
write-Overlaid c db k =
    corrections-Overlaid c.school_id c.media_id c.student_id (some c.verdict) db
      (upsert c db.corrections) k
      (IsKeyed-upsert c.school_id c.media_id c db.corrections (ground (arith, ==_refl c.school_id))
        k)
      (λ t. verdict_of-upsert c.media_id t c db.corrections ∙ swap t)
  where
    swap :
        (t : ℕ)
        → (if c.media_id == c.media_id && c.student_id == t
            then some c.verdict
            else verdict_of c.media_id t db.corrections)
          ≡ (if t == c.student_id then some c.verdict else verdict_of c.media_id t db.corrections)
    swap t = ground arith

-- A staff verdict that is accepted decides the pair and no other: a rejection takes the photo out of
-- the student's gallery and closes the gate, an `added` opens both, and a `confirmed` opens the gate
-- and leaves the gallery to the ML match; every other student's gallery and gate stay as they were.
-- The corrections have one row for a pair and the media's rows its school, and keep that.
pub set_verdict-Overlaid :
    (school m s : ℕ) (v : MatchVerdict) (by : Option ℕ) (db db' : Tables)
    → IsKeyed school m db.corrections
    → set_verdict school m s v by db ≡ ok db'
    → Overlaid school m s (some v) db db'
unfolding set_verdict
set_verdict-Overlaid school m s v by db db' k e =
    let (media, _, e') = >>=-eq-ok (require_media school m db) _ e in
    let (student, _, e'') = >>=-eq-ok (require_student school s db) _ e' in
    subst (Overlaid school m s (some v) db) (ok-injective e'') (write-Overlaid _ db k)

any-is_some-find :
    (school m s : ℕ) (rows : List MatchRecord)
    → is_some (find (λ (a : Appearance). a.student_id == s) (list_media_appearances school m rows))
      ≡ raw_match school s m rows
unfolding list_media_appearances
any-is_some-find school m s [] = refl
any-is_some-find school m s (r ∷ rows) = ground (arith, any-is_some-find school m s rows)

added_shown : (raw : Bool) → shown raw (some (if raw then confirmed else added)) ≡ true
added_shown true = refl
added_shown false = refl

added_entitled : (raw : Bool) → entitled raw (some (if raw then confirmed else added)) ≡ true
added_entitled true = refl
added_entitled false = refl

-- Where it is accepted, a missed student whom the staff add appears afterwards, whatever the verdict was: in the gallery
-- and at the gate, as `confirmed` where the ML has a match and as `added` where it has none; every
-- other student's gallery and gate stay as they were. The corrections have one row for a pair and
-- the media's rows its school, and keep that.
pub add_missed-Overlaid :
    (school m s : ℕ) (by : Option ℕ) (db db' : Tables)
    → IsKeyed school m db.corrections
    → add_missed school m s by db ≡ ok db'
    → Overlaid school m s
        (some (if raw_match school s m db.matches then confirmed else added))
        db
        db'
      × (any (λ p. p.1 == m) (student_pairs school s db') ≡ true)
      × (elem s (media_student_ids school m db') ≡ true)
unfolding add_missed ml_appearance
add_missed-Overlaid school m s by db db' k e =
    let (media, _, e') = >>=-eq-ok (require_media school m db) _ e in
    let (student, _, e'') = >>=-eq-ok (require_student school s db) _ e' in
    let verdict =
      missed (
        find (λ (a : Appearance). a.student_id == s)
          (list_media_appearances school m db.matches)) in
    let o : Overlaid school m s
        (some (if raw_match school s m db.matches then confirmed else added)) db db' =
      subst (λ v. Overlaid school m s (some v) db db')
        (verdict
          ∙ ap (λ b. if b then confirmed else added) (any-is_some-find school m s db.matches))
        (subst (Overlaid school m s (some (missed_verdict _)) db) (ok-injective e'')
          (write-Overlaid _ db k)) in
    (
      o,
      o.gallery s ∙ rw (==_refl s) (added_shown (raw_match school s m db.matches)),
      o.gate s ∙ rw (==_refl s) (added_entitled (raw_match school s m db.matches)),
    )
  where
    missed : (o : Option Appearance) → missed_verdict o ≡ (if is_some o then confirmed else added)
    missed none = refl
    missed (some a) = refl

-- Where it is accepted, undoing a correction gives the pair back to the ML: the student's gallery and gate follow the raw
-- match again, and every other student's stay as they were. The corrections have one row for a pair
-- and the media's rows its school, and keep that.
pub delete_correction-Overlaid :
    (school m s : ℕ) (db db' : Tables)
    → IsKeyed school m db.corrections
    → delete_correction school m s db ≡ ok db'
    → Overlaid school m s none db db'
unfolding delete_correction
delete_correction-Overlaid school m s db db' k e =
    let (media, _, e') = >>=-eq-ok (require_media school m db) _ e in
    subst (Overlaid school m s none db) (ok-injective e') (
      corrections-Overlaid school m s none db (delete school m s db.corrections) k
        (IsKeyed-delete school m s db.corrections k)
        (λ t. elim (Bool-cases (t == s)) [
          | inl same ↦ rw same (
              ap (λ x. verdict_of m x (delete school m s db.corrections)) ((==_iff t s).0 same)
              ∙ verdict_of-delete school m s db.corrections k)
          | inr other ↦ rw other (verdict_of-delete_other school m s t db.corrections other)
        ]))

-- What a student's "this isn't me" may answer and leave.
abbrev pub SelfRejects : ℕ → ℕ → ℕ → Tables → Reply Tables → Type 0
SelfRejects school m s db (err e) =
    (e ≡ not_found)
    × ((is_some (get_media school m db) && elem s (media_student_ids school m db)) ≡ false)
SelfRejects school m s db (ok db') =
    (elem s (media_student_ids school m db) ≡ true) × Overlaid school m s (some rejected) db db'

rejected-SelfRejects :
    (school m s : ℕ) (row : Media → MatchCorrection) (db : Tables) (o : Option Media)
    → get_media school m db ≡ o
    → ((media : Media) → Overlaid school m s (some rejected) db (write (row media) db))
    → SelfRejects school m s db (
        or_not_found o >>= λ media.
        if elem s (media_student_ids school m db) then ok (write (row media) db) else err not_found)
rejected-SelfRejects school m s row db none e done = (refl, rw e refl)
rejected-SelfRejects school m s row db (some media) e done =
    elim (Bool-cases (elem s (media_student_ids school m db))) [
      | inl gate ↦ rw gate (gate, done media)
      | inr shut ↦ rw shut (refl, ground (arith, shut))
    ]

-- A student's "this isn't me" is accepted exactly when the school has the media and the student is
-- at its gate, and is `not_found` otherwise. Accepted, it closes the student's gate and takes the
-- photo out of the gallery, even over a staff `added`, and leaves every other student's as they
-- were. The corrections have one row for a pair and the media's rows its school, and keep that.
pub self_reject-SelfRejects :
    (school m s : ℕ) (by : Option ℕ) (db : Tables)
    → IsKeyed school m db.corrections
    → SelfRejects school m s db (self_reject school m s by db)
unfolding self_reject require_media
self_reject-SelfRejects school m s by db k =
    rejected-SelfRejects school m s _ db (get_media school m db) refl
      (λ media. write-Overlaid _ db k)
