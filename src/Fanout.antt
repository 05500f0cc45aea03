-- ===== src/Fanout.antt =====
-- The fan-out of an event's photos to the students on them: `send_event_photos` of
-- services/backend/src/backend/services/whatsapp_share_service.py.
pub mod Escapes
pub mod Isolation
pub mod Meter
use ml_service.Prelude.{
  ℕ, ◌+◌, Bool, true, false, not, ◌&&◌, Option, none, some, List, [], ◌∷◌, ltb, count, length,
  sum_of, is_some, if◌then◌else◌,
}
use ml_service.Backend.{
  not_found, validation, upstream, conflict, limit_exceeded, configuration, authentication,
  authorization, unexpected, BackendError, Reply, ok, err, ◌>>=◌, Student, Tables,
}
use ml_service.Gallery.{event_photo_recipients}
use ml_service.Variant.{or_else}
use ml_service.SendLog.{Instant}
use ml_service.Share.{
  PlatformConfig, ShareSettings, Sharing, Outside, Summary, SendRequest, or_validation,
  send_student_photos,
}

pub record EventRequest : Type 0 where
  pub school_id : ℕ
  pub event_id : ℕ
  pub media_ids : Option (List ℕ)
  pub actor_user_id : ℕ
  pub actor_role : ℕ

pub data FanoutReason : Type 0 where
  not_opted_in no_mobile_number send_error : FanoutReason

pub record StudentResult : Type 0 where
  pub student_id : ℕ
  pub name : ℕ
  pub sent : ℕ
  pub failed : ℕ
  pub skipped : ℕ
  pub reason : Option FanoutReason

pub record FanoutSummary : Type 0 where
  pub results : List StudentResult
  pub students_sent : ℕ
  pub students_skipped : ℕ
  pub sent : ℕ
  pub failed : ℕ
  pub skipped : ℕ

abbrev pub fanout_summary : List StudentResult → FanoutSummary
fanout_summary results = record {
  results = results;
  students_sent = count (λ r. ltb 0 r.sent) results;
  students_skipped = count (λ r. is_some r.reason) results;
  sent = sum_of (λ r. r.sent) results;
  failed = sum_of (λ r. r.failed) results;
  skipped = sum_of (λ r. r.skipped) results;
}

-- `except (NotFoundError, ValidationError, UpstreamError)`
abbrev pub is_caught : BackendError → Bool
is_caught not_found = true
is_caught validation = true
is_caught upstream = true
is_caught conflict = false
is_caught limit_exceeded = false
is_caught configuration = false
is_caught authentication = false
is_caught authorization = false
is_caught unexpected = false

-- The check that comes before anything is read or sent.
unfoldable pub require_configured : ShareSettings → PlatformConfig → Reply (Unit {0})
require_configured s platform = elim platform.interim_test_number [
  | some number ↦ ok tt
  | none ↦
      or_validation (or_else platform.sender_number s.default_sender)
      >>= (λ sender. or_validation platform.template_name >>= (λ template. ok tt))
]

abbrev pub unsent : Student → List ℕ → FanoutReason → StudentResult
unsent student ids why = record {
  student_id = student.id;
  name = student.name;
  sent = 0;
  failed = 0;
  skipped = length ids;
  reason = some why;
}

abbrev pub done : Student → Summary → StudentResult
done student summary = record {
  student_id = student.id;
  name = student.name;
  sent = summary.sent;
  failed = summary.failed;
  skipped = summary.skipped;
  reason = none;
}

-- Why a student is skipped at once, if so.
unfoldable pub barred : PlatformConfig → Student → Option FanoutReason
barred platform student =
    if not (is_some platform.interim_test_number)
      && not (student.whatsapp_opt_in && is_some student.mobile_number)
    then if not student.whatsapp_opt_in then some not_opted_in else some no_mobile_number
    else none

module _ {Image : Type 0} (p : Outside Image) (s : ShareSettings) (platform : PlatformConfig)
    (now : Instant) (req : EventRequest) (db : Tables) where
  abbrev pub request_for : Student → List ℕ → SendRequest
  request_for student ids = record {
    school_id = req.school_id;
    student_id = student.id;
    media_ids = some ids;
    actor_user_id = req.actor_user_id;
    actor_role = req.actor_role;
  }

  -- What a send that may have raised leaves: the student's result, or the exception.
  abbrev pub caught : Student → List ℕ → Reply Summary × Sharing → Reply StudentResult × Sharing
  caught student ids (ok summary, w) = (ok (done student summary), w)
  caught student ids (err e, w) =
      (if is_caught e then ok (unsent student ids send_error) else err e, w)

  abbrev pub send_or_skip :
      Student → List ℕ → Option FanoutReason → Sharing → Reply StudentResult × Sharing
  send_or_skip student ids (some why) w = (ok (unsent student ids why), w)
  send_or_skip student ids none w =
      caught student ids (send_student_photos p s now (request_for student ids) platform db w)

  unfoldable pub fanout_one : Student × List ℕ → Sharing → Reply StudentResult × Sharing
  unfolding send_student_photos barred
  fanout_one (student, ids) w = send_or_skip student ids (barred platform student) w

  abbrev pub and_then :
      Reply StudentResult × Sharing
      → (Sharing → Reply (List StudentResult) × Sharing)
      → Reply (List StudentResult) × Sharing
  and_then (err e, w) next = (err e, w)
  and_then (ok r, w) next = let rest = next w in (rest.0 >>= (λ rs. ok (r ∷ rs)), rest.1)

  -- `for student, their_ids in recipients`
  unfoldable pub fanout_loop :
      List (Student × List ℕ) → Sharing → Reply (List StudentResult) × Sharing
  unfolding fanout_one
  fanout_loop [] w = (ok [], w)
  fanout_loop (recipient ∷ recipients) w =
      and_then (fanout_one recipient w) (λ w1. fanout_loop recipients w1)

  abbrev pub totalled : Reply (List StudentResult) × Sharing → Reply FanoutSummary × Sharing
  totalled (rs, w) = (rs >>= (λ results. ok (fanout_summary results)), w)

  abbrev pub fanout_to : Reply (List (Student × List ℕ)) → Sharing → Reply FanoutSummary × Sharing
  fanout_to (err e) w = (err e, w)
  fanout_to (ok recipients) w = totalled (fanout_loop recipients w)

  unfoldable pub send_event_photos : Sharing → Reply FanoutSummary × Sharing
  unfolding require_configured event_photo_recipients fanout_loop
  send_event_photos w =
      fanout_to
        (require_configured s platform
          >>= (λ _. event_photo_recipients req.school_id req.event_id req.media_ids db))
        w
