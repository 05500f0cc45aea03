-- ===== src/Gallery/Access.antt =====
-- The download gate and the download audit of the gallery service, and how they agree with the
-- student's gallery.
use ml_service.Prelude.{
  ℕ, ◌≡◌, refl, sym, ◌∙◌, ap, Bool, true, false, ◌&&◌, inl, inr, Bool-cases, Option, none, some,
  List, [], ◌∷◌, ◌++◌, map, arith, ◌==◌, ==_iff, filter, any, elem, find, is_some, if◌then◌else◌,
}
use ml_service.Backend.{
  not_found, Reply, ok, err, ◌>>=◌, Media, MatchVerdict, confirmed, rejected, added, Tables,
  get_media, or_not_found, require_media, require_student,
}
use ml_service.Corrections.Keys.{IsKeyed, verdict_of}
use ml_service.Gallery.{
  student_pairs, media_by_ids, student_media, require_event_if_given, in_given_event,
  require_downloadable, path_of, download_url, download_row, record_for, recorded, record_download,
}
use ml_service.Gallery.Overlay.{
  raw_match, shown, entitled, student_pairs-shown, media_student_ids-entitled,
}

shown-entitled : (raw : Bool) (v : Option MatchVerdict) → shown raw v ≡ true → entitled raw v ≡ true
shown-entitled raw none h = h
shown-entitled raw (some confirmed) h = refl
shown-entitled raw (some rejected) h = h
shown-entitled raw (some added) h = h

gate_lem :
    (school s m : ℕ) (db : Tables)
    → IsKeyed school m db.corrections
    → require_downloadable school m (some s) db ≡ (
        if entitled (raw_match school s m db.matches) (verdict_of m s db.corrections)
        then ok tt
        else err not_found)
unfolding require_downloadable
gate_lem school s m db k =
    ap (λ b. if b then ok tt else err not_found) (media_student_ids-entitled school s m db k)

shown-gate :
    (school s m : ℕ) (db : Tables)
    → IsKeyed school m db.corrections
    → any (λ p. p.1 == m) (student_pairs school s db) ≡ true
    → require_downloadable school m (some s) db ≡ ok tt
shown-gate school s m db k h =
    gate_lem school s m db k
    ∙ ap (λ b. if b then ok tt else err not_found)
        (shown-entitled (raw_match school s m db.matches) (verdict_of m s db.corrections)
          (sym (student_pairs-shown school s m db k) ∙ h))

after_two {ℓ κ ι} :
    {A : Type ℓ} {B : Type κ} {C : Type ι} (r : Reply A) (q : Reply B) (c x : C)
    → (r >>= λ _. q >>= λ _. ok c) ≡ ok x
    → c ≡ x
after_two (ok a) (ok b) c x e = cc
after_two (ok a) (err f) c x e = ground arith
after_two (err f) q c x e = ground arith

any-media_by_ids :
    (school m : ℕ) (ids : List ℕ) (rows : List Media)
    → any (λ x. x.id == m) (filter (λ x. x.school_id == school && elem x.id ids) rows)
      ≡ (elem m ids && is_some (find (λ (x : Media). x.id == m && x.school_id == school) rows))
any-media_by_ids school m ids [] = ground arith
any-media_by_ids school m ids (x ∷ rows) = elim (Bool-cases (x.id == m)) [
  | inl same ↦
      let e : elem x.id ids ≡ elem m ids = ap (λ k. elem k ids) ((==_iff x.id m).0 same) in
      ground (arith, same, e, any-media_by_ids school m ids rows)
  | inr other ↦ ground (arith, other, any-media_by_ids school m ids rows)
]

any-in_given_event :
    (m : ℕ) (event : Option ℕ) (pairs : List (ℕ × ℕ))
    → elem m (map (λ p. p.1) (filter (in_given_event event) pairs)) ≡ true
    → any (λ p. p.1 == m) pairs ≡ true
any-in_given_event m event [] h = h
any-in_given_event m none (p ∷ pairs) h = ground (arith, any-in_given_event m none pairs)
any-in_given_event m (some e) (p ∷ pairs) h = ground (arith, any-in_given_event m (some e) pairs)

student_media_inv :
    (school s m : ℕ) (event : Option ℕ) (db : Tables) (ms : List Media)
    → student_media school s event db ≡ ok ms
    → any (λ x. x.id == m) ms ≡ true
    → (any (λ p. p.1 == m) (student_pairs school s db) ≡ true)
      × (is_some (get_media school m db) ≡ true)
unfolding student_media
student_media_inv school s m event db ms e h =
    let pairs = filter (in_given_event event) (student_pairs school s db) in
    let ids = map (λ (p : ℕ × ℕ). p.1) pairs in
    let same : media_by_ids school ids db ≡ ms =
      after_two (require_student school s db) (require_event_if_given school event db)
        (media_by_ids school ids db) ms e in
    let both : (elem m ids && is_some (get_media school m db)) ≡ true =
      sym (any-media_by_ids school m ids db.media)
      ∙ ap (λ xs. any (λ (x : Media). x.id == m) xs) same
      ∙ h in
    let first : elem m ids ≡ true = ground (arith, both) in
    (any-in_given_event m event (student_pairs school s db) first, ground (arith, both))

-- Every media that a student's gallery lists, of one event or of all, can be downloaded by the
-- student: the read of the row succeeds, the gate lets it through and the reply is the signer's
-- for the row's path. The corrections have one row for a pair and the media's rows its school.
pub student_media-download_url :
    (sign : ℕ → Reply ℕ) (school s m : ℕ) (event : Option ℕ) (thumbnail : Bool) (db : Tables)
    (ms : List Media)
    → IsKeyed school m db.corrections
    → student_media school s event db ≡ ok ms
    → any (λ x. x.id == m) ms ≡ true
    → (media : Media) × (get_media school m db ≡ some media)
      × (download_url sign school m (some s) thumbnail db ≡ sign (path_of thumbnail media))
unfolding download_url require_media
student_media-download_url sign school s m event thumbnail db ms k e h =
    let (listed, there) = student_media_inv school s m event db ms e h in
    let (media, is) = found (get_media school m db) there in
    (media, is, rw (is, shown-gate school s m db k listed) refl)
  where
    found : (o : Option Media) → is_some o ≡ true → (media : Media) × (o ≡ some media)
    found none t = ground arith
    found (some media) t = (media, refl)

-- What the audit should answer and leave, from the media's row and whether the student may have it.
abbrev pub audited : ℕ → ℕ → ℕ → ℕ → ℕ → Tables → Bool → Option Media → Reply (Unit {0}) × Tables
audited school m s user role db allowed none = (err not_found, db)
audited school m s user role db false (some media) = (err not_found, db)
audited school m s user role db true (some media) = (
  ok tt,
  record db { downloads = db.downloads ++ download_row school m (some s) user role media ∷ [] },
)

record_for_lem :
    (school m s user role : ℕ) (db : Tables) (allowed : Bool) (o : Option Media)
    → require_downloadable school m (some s) db ≡ (if allowed then ok tt else err not_found)
    → record_for school m (some s) user role db (or_not_found o)
      ≡ audited school m s user role db allowed o
record_for_lem school m s user role db allowed none e = refl
record_for_lem school m s user role db false (some media) e =
    ap (recorded (download_row school m (some s) user role media) db) e
record_for_lem school m s user role db true (some media) e =
    ap (recorded (download_row school m (some s) user role media) db) e

-- The download audit, for a student: a media that is not the school's, or that the rule `entitled`
-- refuses, is answered `not_found` and records nothing; any other appends one row, with the media's
-- event and the student as its subject. The corrections have one row for a pair and the media's
-- rows its school.
pub record_download-audited :
    (school s m user role : ℕ) (db : Tables)
    → IsKeyed school m db.corrections
    → record_download school m (some s) user role db
      ≡ audited school m s user role db
          (entitled (raw_match school s m db.matches) (verdict_of m s db.corrections))
          (get_media school m db)
unfolding record_download require_media
record_download-audited school s m user role db k =
    record_for_lem school m s user role db
      (entitled (raw_match school s m db.matches) (verdict_of m s db.corrections))
      (get_media school m db) (gate_lem school s m db k)
