-- ===== src/Gallery.antt =====
-- The gallery service: who appears in what, with the corrections laid over the ML matches
-- (services/backend/src/backend/services/gallery_service.py).
-- A Python set of ids is the list of what was added to it, and is only asked for members. Reads of
-- the database are functions of the tables; the signing of a URL is a parameter.
pub mod Overlay
pub mod Access
pub mod EventOverlay
use ml_service.Prelude.{
  ℕ, ◌+◌, Bool, true, false, not, ◌&&◌, ◌||◌, Option, none, some, List, [], ◌∷◌, ◌++◌, map, ◌==◌,
  filter, any, elem, find, count, length, Dict, lookup, insert, keys, is_some, sorted, ltb,
  if◌then◌else◌,
}
use ml_service.Decision.{Score}
use ml_service.Backend.{
  not_found, upstream, BackendError, Reply, ok, err, ◌>>=◌, ◌>>◌, Student, Event, Media, Appearance,
  MatchVerdict, confirmed, rejected, added, MatchCorrection, DownloadRecord, Tables,
  require_student, require_event, require_media,
}
use ml_service.Corrections.{
  list_for_media, list_for_event, list_for_student, list_event_appearances,
  list_student_appearances, list_media_appearances,
}

abbrev pub is_rejected : MatchVerdict → Bool
is_rejected rejected = true
is_rejected confirmed = false
is_rejected added = false

abbrev pub is_added : MatchVerdict → Bool
is_added added = true
is_added confirmed = false
is_added rejected = false

-- `c.verdict in (ADDED, CONFIRMED)`
abbrev pub is_vouched : MatchVerdict → Bool
is_vouched added = true
is_vouched confirmed = true
is_vouched rejected = false

-- `{c.student_id: c for c in corrections}`
pub by_student : Dict MatchCorrection → List MatchCorrection → Dict MatchCorrection
by_student d [] = d
by_student d (c ∷ cs) = by_student (insert c.student_id c d) cs

pub stands : Option MatchCorrection → Bool
stands none = true
stands (some c) = not (is_rejected c.verdict)

-- The students with an un-rejected match, then those with an `added` or `confirmed` correction.
pub effective_media_student_ids : List Appearance → List MatchCorrection → List ℕ
unfolding by_student stands
effective_media_student_ids appearances corrections =
    let d = by_student [] corrections in
    map (λ a. a.student_id) (filter (λ a. stands (lookup a.student_id d)) appearances)
    ++ keys (filter (λ e. is_vouched e.1.verdict) d)

abbrev pub same_pair : ℕ → ℕ → ℕ × ℕ → Bool
same_pair a b p = p.0 == a && p.1 == b

-- (student_id, media_id) pairs. `seen` is not extended by the loop, as in the source.
pub effective_event_pairs : List Appearance → List MatchCorrection → List (ℕ × ℕ)
effective_event_pairs appearances corrections =
    let gone = filter (λ c. is_rejected c.verdict) corrections in
    let pairs =
      map (λ a. (a.student_id, a.media_id))
        (filter
          (λ a. not (any (λ c. c.media_id == a.media_id && c.student_id == a.student_id) gone))
          appearances) in
    pairs
    ++ map (λ c. (c.student_id, c.media_id))
        (filter (λ c. is_added c.verdict && not (any (same_pair c.student_id c.media_id) pairs))
          corrections)

-- (event_id, media_id) pairs of one student.
unfoldable pub effective_student_pairs : List Appearance → List MatchCorrection → List (ℕ × ℕ)
effective_student_pairs appearances corrections =
    let gone = filter (λ c. is_rejected c.verdict) corrections in
    let pairs =
      map (λ a. (a.event_id, a.media_id))
        (filter (λ a. not (any (λ c. c.media_id == a.media_id) gone)) appearances) in
    pairs
    ++ map (λ c. (c.event_id, c.media_id))
        (filter (λ c. is_added c.verdict && not (any (λ p. p.1 == c.media_id) pairs)) corrections)

-- `list_by_ids` of the repositories: the rows of the school with an id of the list.
abbrev pub students_by_ids : ℕ → List ℕ → Tables → List Student
students_by_ids school_id ids db =
    filter (λ s. s.school_id == school_id && elem s.id ids) db.students

abbrev pub media_by_ids : ℕ → List ℕ → Tables → List Media
media_by_ids school_id ids db = filter (λ m. m.school_id == school_id && elem m.id ids) db.media

abbrev pub events_by_ids : ℕ → List ℕ → Tables → List Event
events_by_ids school_id ids db = filter (λ e. e.school_id == school_id && elem e.id ids) db.events

unfoldable pub event_pairs : ℕ → ℕ → Tables → List (ℕ × ℕ)
unfolding effective_event_pairs
event_pairs school_id event_id db =
    effective_event_pairs (list_event_appearances school_id event_id db.matches)
      (list_for_event school_id event_id db.corrections)

unfoldable pub student_pairs : ℕ → ℕ → Tables → List (ℕ × ℕ)
unfolding effective_student_pairs
student_pairs school_id student_id db =
    effective_student_pairs (list_student_appearances school_id student_id db.matches)
      (list_for_student school_id student_id db.corrections)

unfoldable pub media_student_ids : ℕ → ℕ → Tables → List ℕ
unfolding effective_media_student_ids
media_student_ids school_id media_id db =
    effective_media_student_ids (list_media_appearances school_id media_id db.matches)
      (list_for_media school_id media_id db.corrections)

-- Event-centric views. A count is `Counter`'s: the number of pairs of the student.
unfoldable pub event_students : ℕ → ℕ → Tables → Reply (List (Student × ℕ))
unfolding event_pairs require_event
event_students school_id event_id db = do
  require_event school_id event_id db
  let pairs = event_pairs school_id event_id db
  ok (
      map (λ s. (s, count (λ p. p.0 == s.id) pairs))
        (students_by_ids school_id (map (λ p. p.0) pairs) db))

abbrev pub is_selected : Option (List ℕ) → ℕ → Bool
is_selected none media_id = true
is_selected (some ids) media_id = elem media_id ids

-- The media ids of one student among the pairs, in order.
abbrev pub media_of : ℕ → List (ℕ × ℕ) → List ℕ
media_of student_id pairs = map (λ p. p.1) (filter (λ p. p.0 == student_id) pairs)

-- `(-len(t[1]), t[0].id)`: more photos first, then the smaller id.
abbrev pub recipient_before : Student × List ℕ → Student × List ℕ → Bool
recipient_before a b =
    ltb (length b.1) (length a.1) || (length a.1 == length b.1 && ltb a.0.id b.0.id)

unfoldable pub event_photo_recipients :
    ℕ → ℕ → Option (List ℕ) → Tables → Reply (List (Student × List ℕ))
unfolding event_pairs require_event
event_photo_recipients school_id event_id media_ids db = do
  require_event school_id event_id db
  let pairs = filter (λ p. is_selected media_ids p.1) (event_pairs school_id event_id db)
  ok (
      sorted recipient_before
        (map (λ s. (s, media_of s.id pairs)) (students_by_ids school_id (map (λ p. p.0) pairs) db)))

unfoldable pub event_student_media : ℕ → ℕ → ℕ → Tables → Reply (List Media)
unfolding event_pairs require_event require_student
event_student_media school_id event_id student_id db = do
  require_event school_id event_id db
  require_student school_id student_id db
  ok (media_by_ids school_id (media_of student_id (event_pairs school_id event_id db)) db)

-- Student-centric views.
unfoldable pub student_events : ℕ → ℕ → Tables → Reply (List (Event × ℕ))
unfolding student_pairs require_student
student_events school_id student_id db = do
  require_student school_id student_id db
  let pairs = student_pairs school_id student_id db
  ok (
      map (λ e. (e, count (λ p. p.0 == e.id) pairs))
        (events_by_ids school_id (map (λ p. p.0) pairs) db))

abbrev pub require_event_if_given : ℕ → Option ℕ → Tables → Reply (Unit {0})
require_event_if_given school_id none db = ok tt
require_event_if_given school_id (some event_id) db =
    require_event school_id event_id db >>= λ _. ok tt

abbrev pub in_given_event : Option ℕ → ℕ × ℕ → Bool
in_given_event none p = true
in_given_event (some event_id) p = p.0 == event_id

unfoldable pub student_media : ℕ → ℕ → Option ℕ → Tables → Reply (List Media)
unfolding student_pairs require_event require_student
student_media school_id student_id event_id db = do
  require_student school_id student_id db
  require_event_if_given school_id event_id db
  let pairs = filter (in_given_event event_id) (student_pairs school_id student_id db)
  ok (media_by_ids school_id (map (λ p. p.1) pairs) db)

-- The entitlement gate: `none` is a member of staff.
unfoldable pub require_downloadable : ℕ → ℕ → Option ℕ → Tables → Reply (Unit {0})
unfolding media_student_ids
require_downloadable school_id media_id none db = ok tt
require_downloadable school_id media_id (some student_id) db =
    if elem student_id (media_student_ids school_id media_id db) then ok tt else err not_found

-- `media.thumbnail_path if thumbnail and media.thumbnail_path else media.storage_path`
abbrev pub path_of : Bool → Media → ℕ
path_of false m = m.storage_path
path_of true m = elim m.thumbnail_path [ none ↦ m.storage_path | some path ↦ path ]

-- `sign` mints a URL for a path, or fails.
unfoldable pub download_url : (ℕ → Reply ℕ) → ℕ → ℕ → Option ℕ → Bool → Tables → Reply ℕ
unfolding require_media require_downloadable
download_url sign school_id media_id restrict thumbnail db = do
  media ← require_media school_id media_id db
  require_downloadable school_id media_id restrict db
  sign (path_of thumbnail media)

abbrev pub recorded : DownloadRecord → Tables → Reply (Unit {0}) → Reply (Unit {0}) × Tables
recorded row db (err e) = (err e, db)
recorded row db (ok _) = (ok tt, record db { downloads = db.downloads ++ row ∷ [] })

abbrev download_row : ℕ → ℕ → Option ℕ → ℕ → ℕ → Media → DownloadRecord
download_row school_id media_id restrict user role media = record {
  school_id = school_id;
  media_id = media_id;
  event_id = media.event_id;
  actor_user_id = user;
  actor_role = role;
  subject_student_id = restrict;
}

abbrev record_for : ℕ → ℕ → Option ℕ → ℕ → ℕ → Tables → Reply Media → Reply (Unit {0}) × Tables
record_for school_id media_id restrict user role db (err e) = (err e, db)
record_for school_id media_id restrict user role db (ok media) =
    recorded (download_row school_id media_id restrict user role media) db
      (require_downloadable school_id media_id restrict db)

unfoldable pub record_download : ℕ → ℕ → Option ℕ → ℕ → ℕ → Tables → Reply (Unit {0}) × Tables
unfolding require_media require_downloadable
record_download school_id media_id restrict user role db =
    record_for school_id media_id restrict user role db (require_media school_id media_id db)
