-- ===== src/Tests/Sharing.antt =====
-- A photo of two students, one of whom wants messages, sent over WhatsApp.
use ml_service.Prelude.{ℕ, ◌+◌, ◌≤◌, ◌≡◌, refl, Bool, true, false, none, some, [], ◌∷◌, All, pos}
use ml_service.Media.{image, MatchRecord}
use ml_service.Backend.{◌>>=◌, Student, Tables, err, unexpected, require_student}
use ml_service.Corrections.{
  list_event_appearances, list_for_event, list_student_appearances, list_for_student,
}
use ml_service.Gallery.{event_photo_recipients, student_media}
use ml_service.Variant.{Encoder, VariantSettings, make_whatsapp_variant}
use ml_service.Variant.Attempts.{best_variant, attempts, Within, make_whatsapp_variant-first_fit}
use ml_service.SendLog.{Instant, count_sent_since}
use ml_service.Share.{
  PlatformConfig, ShareSettings, accepted, Sharing, Outside, SendRequest, send_student_photos,
  escaped, send_template, send_loop, attempt, prepare_image_url, record_send, gates,
  resolve_targets, targets_of, by_id, pick,
}
use ml_service.Share.Posts.{Posts}
use ml_service.Share.Consent.{Consents, send_student_photos-Posts}
use ml_service.Share.Accounts.{Reports, send_student_photos-Reports}
use ml_service.Fanout.{
  EventRequest, require_configured, send_event_photos, fanout_loop, fanout_one, barred,
}
use ml_service.Fanout.Isolation.{Isolates, send_event_photos-Isolates}

-- An image is the number of its bytes.
abbrev encoder : Encoder ℕ
encoder = record {
  download = λ path. some path;
  make_thumbnail = λ bytes edge quality. some (edge + quality);
  size = λ bytes. bytes;
}

abbrev variant : VariantSettings
variant = record { max_edge = 1600; quality = 85; max_bytes = some 1500; quality_floor = 40 }

make_whatsapp_variant-first_fit_example :
    (make_whatsapp_variant encoder variant 33 ≡ best_variant encoder variant 1500 (some 33))
    × ((bytes : ℕ) → make_whatsapp_variant encoder variant 33 ≡ some bytes → bytes ≤ 1500)
    × All (Within 1600 40) (attempts variant)
make_whatsapp_variant-first_fit_example =
    make_whatsapp_variant-first_fit encoder variant 1500 33 refl

abbrev outside : Outside ℕ
outside = record {
  encoder = encoder;
  upload = λ school media bytes. true;
  sign = λ school media. some (media + 1000);
  deliver = λ message sent. accepted 77;
  write = λ row log. true;
  new_id = λ log. 5;
}

abbrev settings : ShareSettings
settings = record { default_sender = none; interim_marker = 1; variant = variant; cap = 1 }

abbrev platform : PlatformConfig
platform = record { sender_number = some 50; template_name = some 51; interim_test_number = none }

abbrev now : Instant
now = record { year = 2025; month = 6; rest = 40 }

abbrev match : ℕ → MatchRecord
match student = record {
  school_id = 1;
  event_id = 2;
  student_id = student;
  media_id = 10;
  media_type = image;
  confidence_score = pos 60;
  needs_review = false;
  embedding_model_version = 5;
  detector_model_version = 4;
  threshold_used = pos 50;
  gap_threshold_used = pos 10;
  bbox = none;
  frame_timestamp_ms = none;
  frames_matched = 1;
}

abbrev child : ℕ → Bool → Student
child id opted = record {
  id = id;
  school_id = 1;
  name = id;
  mobile_number = some (id + 500);
  whatsapp_opt_in = opted;
}

abbrev db : Tables
db = record {
  matches = match 7 ∷ match 8 ∷ [];
  corrections = [];
  students = child 7 true ∷ child 8 false ∷ [];
  events = record { id = 2; school_id = 1 } ∷ [];
  media =
      record { id = 10; school_id = 1; event_id = 2; storage_path = 33; thumbnail_path = none }
      ∷ [];
  downloads = [];
}

-- A photo of the student, one of somebody else, and the first again.
abbrev request : SendRequest
request = record {
  school_id = 1;
  student_id = 7;
  media_ids = some (10 ∷ 99 ∷ 10 ∷ []);
  actor_user_id = 60;
  actor_role = 3;
}

abbrev empty : Sharing
empty = record { log = []; outbox = [] }

send_student_photos-Posts_example :
    Posts
      (Consents outside settings now request platform db)
      []
      (send_student_photos outside settings now request platform db empty).1.outbox
send_student_photos-Posts_example =
    send_student_photos-Posts outside settings now request platform db empty

send_student_photos-Reports_example :
    Reports outside settings now request db
      (send_student_photos outside settings now request platform db empty).0
send_student_photos-Reports_example =
    send_student_photos-Reports outside settings now request platform db empty

abbrev event_request : EventRequest
event_request = record {
  school_id = 1;
  event_id = 2;
  media_ids = none;
  actor_user_id = 60;
  actor_role = 3;
}

send_event_photos-Isolates_example :
    Isolates outside settings platform now event_request db
      (require_configured settings platform >>= (λ u. event_photo_recipients 1 2 none db))
      (send_event_photos outside settings platform now event_request db empty).0
send_event_photos-Isolates_example =
    send_event_photos-Isolates outside settings platform now event_request db empty

-- The adapter lets an exception out: the fan-out ends in it.
escaped_ends :
    (send_event_photos
      (record outside { deliver = λ message sent. escaped })
      settings
      platform
      now
      event_request
      db
      empty).0
    ≡ err unexpected
unfolding send_event_photos fanout_loop fanout_one send_student_photos send_template send_loop
    attempt prepare_image_url record_send require_configured event_photo_recipients barred gates
    resolve_targets require_student student_media targets_of by_id pick list_event_appearances
    list_for_event list_student_appearances list_for_student count_sent_since
escaped_ends = refl
