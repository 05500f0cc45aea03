-- ===== src/Tests/Photos.antt =====
-- A school with one photo, one student matched ambiguously on it and one whom staff added, taken
-- through the backend's theorems.
use ml_service.Prelude.{
  ℕ, ◌≡◌, refl, true, false, not, ◌&&◌, none, some, List, [], ◌∷◌, any, elem, count, ◌==◌, is_some,
  pos,
}
use ml_service.Media.{image, MatchRecord}
use ml_service.Backend.{
  Reply, ok, err, Student, Media, confirmed, rejected, added, MatchCorrection, Tables, get_media,
  get_student, require_media, require_student, require_event,
}
use ml_service.Corrections.{
  list_for_student, list_for_event, list_event_appearances, list_student_appearances,
}
use ml_service.Corrections.Keys.{IsKeyed, verdict_of}
use ml_service.Gallery.{
  same_pair, event_pairs, student_pairs, media_student_ids, student_media, path_of, download_url,
  record_download, effective_student_pairs,
}
use ml_service.Gallery.Overlay.{
  raw_match, shown, entitled, student_pairs-shown, media_student_ids-entitled,
}
use ml_service.Gallery.EventOverlay.{event_pairs-shown}
use ml_service.Gallery.Access.{audited, student_media-download_url, record_download-audited}
use ml_service.Review.{
  BatchVerdict, set_verdict, add_missed, delete_correction, self_reject, set_verdicts_batch,
  apply_decisions, event_review, MediaReview, group, reviews,
}
use ml_service.Review.Verdicts.{
  Overlaid, set_verdict-Overlaid, add_missed-Overlaid, delete_correction-Overlaid, SelfRejects,
  self_reject-SelfRejects,
}
use ml_service.Review.Batch.{matched_in, decided, set_verdicts_batch-decided}
use ml_service.Review.Lane.{asks, ambiguous_in, corrected_in, event_review-asks}

abbrev match : MatchRecord
match = record {
  school_id = 1;
  event_id = 2;
  student_id = 7;
  media_id = 10;
  media_type = image;
  confidence_score = pos 60;
  needs_review = true;
  embedding_model_version = 5;
  detector_model_version = 4;
  threshold_used = pos 50;
  gap_threshold_used = pos 10;
  bbox = none;
  frame_timestamp_ms = none;
  frames_matched = 1;
}

abbrev missed : MatchCorrection
missed = record {
  school_id = 1;
  media_id = 10;
  student_id = 8;
  event_id = 2;
  verdict = added;
  corrected_by = some 99;
  reported_not_me = false;
  resolves_review = false;
}

abbrev child : ℕ → Student
child id = record {
  id = id;
  school_id = 1;
  name = id;
  mobile_number = none;
  whatsapp_opt_in = false;
}

abbrev photo : Media
photo = record { id = 10; school_id = 1; event_id = 2; storage_path = 33; thumbnail_path = some 34 }

abbrev db : Tables
db = record {
  matches = match ∷ [];
  corrections = missed ∷ [];
  students = child 7 ∷ child 8 ∷ [];
  events = record { id = 2; school_id = 1 } ∷ [];
  media = photo ∷ [];
  downloads = [];
}

abbrev keyed : IsKeyed 1 10 (missed ∷ [])
keyed = record { unique = (refl, tt); in_school = (refl, tt) }

abbrev sign : ℕ → Reply ℕ
sign path = ok path

student_pairs-shown_example :
    any (λ p. p.1 == 10) (student_pairs 1 8 db)
    ≡ shown (raw_match 1 8 10 (match ∷ [])) (verdict_of 10 8 (missed ∷ []))
student_pairs-shown_example = student_pairs-shown 1 8 10 db keyed

event_pairs-shown_example :
    any (same_pair 8 10) (event_pairs 1 2 db)
    ≡ shown (raw_match 1 8 10 (match ∷ [])) (verdict_of 10 8 (missed ∷ []))
event_pairs-shown_example =
    event_pairs-shown 1 2 8 10 db keyed (record { matches = (refl, tt); corrections = (refl, tt) })

media_student_ids-entitled_example :
    elem 8 (media_student_ids 1 10 db)
    ≡ entitled (raw_match 1 8 10 (match ∷ [])) (verdict_of 10 8 (missed ∷ []))
media_student_ids-entitled_example = media_student_ids-entitled 1 8 10 db keyed

student_media-download_url_example :
    (media : Media) × (get_media 1 10 db ≡ some media)
    × (download_url sign 1 10 (some 8) true db ≡ sign (path_of true media))
unfolding student_media student_pairs effective_student_pairs list_student_appearances
    list_for_student require_student
student_media-download_url_example =
    student_media-download_url sign 1 8 10 none true db (photo ∷ []) keyed refl refl

record_download-audited_example :
    record_download 1 10 (some 9) 99 3 db
    ≡ audited 1 10 9 99 3 db
        (entitled (raw_match 1 9 10 (match ∷ [])) (verdict_of 10 9 (missed ∷ [])))
        (some photo)
record_download-audited_example = record_download-audited 1 9 10 99 3 db keyed

abbrev tables_of : Reply Tables → Tables
tables_of (ok db') = db'
tables_of (err e) = db

set_verdict-Overlaid_example :
    Overlaid 1 10 7 (some rejected) db (tables_of (set_verdict 1 10 7 rejected (some 99) db))
unfolding set_verdict require_media require_student
set_verdict-Overlaid_example =
    set_verdict-Overlaid 1 10 7 rejected (some 99) db
      (tables_of (set_verdict 1 10 7 rejected (some 99) db)) keyed refl

add_missed-Overlaid_example :
    Overlaid 1 10 7 (some confirmed) db (tables_of (add_missed 1 10 7 none db))
    × (any (λ p. p.1 == 10) (student_pairs 1 7 (tables_of (add_missed 1 10 7 none db))) ≡ true)
    × (elem 7 (media_student_ids 1 10 (tables_of (add_missed 1 10 7 none db))) ≡ true)
unfolding add_missed require_media require_student
add_missed-Overlaid_example =
    add_missed-Overlaid 1 10 7 none db (tables_of (add_missed 1 10 7 none db)) keyed refl

delete_correction-Overlaid_example :
    Overlaid 1 10 8 none db (tables_of (delete_correction 1 10 8 db))
unfolding delete_correction require_media
delete_correction-Overlaid_example =
    delete_correction-Overlaid 1 10 8 db (tables_of (delete_correction 1 10 8 db)) keyed refl

self_reject-SelfRejects_example : SelfRejects 1 10 8 db (self_reject 1 10 8 (some 8) db)
self_reject-SelfRejects_example = self_reject-SelfRejects 1 10 8 (some 8) db keyed

abbrev decisions : List BatchVerdict
decisions =
    record { media_id = 10; student_id = 7; verdict = rejected }
    ∷ record { media_id = 10; student_id = 8; verdict = confirmed }
    ∷ []

abbrev batch_tables : Reply (ℕ × Tables) → Tables
batch_tables (ok p) = p.1
batch_tables (err e) = db

set_verdicts_batch-decided_example :
    (1 ≡ count (λ d. matched_in 1 2 d.media_id d.student_id (match ∷ [])) decisions)
    × (verdict_of 10 7 (batch_tables (set_verdicts_batch 1 2 decisions none db)).corrections
        ≡ decided (matched_in 1 2 10 7 (match ∷ [])) 10 7 (verdict_of 10 7 (missed ∷ [])) decisions)
unfolding set_verdicts_batch require_event apply_decisions list_event_appearances
set_verdicts_batch-decided_example =
    set_verdicts_batch-decided 1 2 10 7 decisions none db
      (batch_tables (set_verdicts_batch 1 2 decisions none db)) 1 refl

abbrev lane : List MediaReview
lane =
    record { media = photo; candidates = record { student = child 7; confidence = pos 60 } ∷ [] }
    ∷ []

event_review-asks_example : asks 10 7 lane ≡ (
    (ambiguous_in 1 2 10 7 (match ∷ []) && not (corrected_in 1 2 10 7 (missed ∷ [])))
    && (is_some (get_media 1 10 db) && is_some (get_student 1 7 db)))
unfolding event_review require_event list_event_appearances list_for_event group reviews
event_review-asks_example = event_review-asks 1 2 10 7 db lane refl
