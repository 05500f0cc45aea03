-- ===== src/Share.antt =====
-- The WhatsApp sends (services/backend/src/backend/services/whatsapp_share_service.py): one
-- student's photos, and the fan-out of an event's photos to the students on them.
-- The state is the send log and what the provider accepted, in order. The object store and the
-- provider's adapter are parameters; `deliver` and `write` are told what was sent and logged before,
-- so that a call can fare differently each time. A call takes place at one instant. An empty text of the
-- settings is `none`. `remaining` stops at 0, where the source's may be negative: both mean that
-- nothing more is sent.
pub mod Targets
pub mod Growth
pub mod Budget
pub mod Posts
pub mod Consent
pub mod Accounts
use ml_service.Prelude.{
  ℕ, ◌+◌, ◌-◌, Bool, true, false, not, ◌&&◌, Option, none, some, List, [], ◌∷◌, ◌++◌, map, ◌==◌,
  ltb, elem, count, length, sum_of, Dict, lookup, insert, is_some, if◌then◌else◌,
}
use ml_service.Backend.{
  not_found, validation, upstream, conflict, limit_exceeded, configuration, authentication,
  authorization, unexpected, BackendError, Reply, ok, err, ◌>>=◌, ◌>>◌, Student, Media, Tables,
  require_student,
}
use ml_service.Gallery.{student_media, event_photo_recipients}
use ml_service.Variant.{Encoder, VariantSettings, make_whatsapp_variant, or_else}
use ml_service.SendLog.{
  Instant, month_start, SendStatus, sent, failed, skipped, is_sent, is_failed, is_skipped,
  SendReason, not_entitled, budget, image_unavailable, upload_failed, send_failed, SendRow,
  count_sent_since,
}

pub record PlatformConfig : Type 0 where
  pub sender_number : Option ℕ
  pub template_name : Option ℕ
  pub interim_test_number : Option ℕ

-- `interim_marker` is the text "interim".
pub record ShareSettings : Type 0 where
  pub default_sender : Option ℕ
  pub interim_marker : ℕ
  pub variant : VariantSettings
  pub cap : ℕ

-- What the provider is handed: a photo with the approved template, the intro line, which names the
-- number of photos, or a free-form photo.
pub data Message : Type 0 where
  image : (to url template sender : ℕ) → Message
  text : (to photos sender : ℕ) → Message
  image_link : (to url sender : ℕ) → Message

pub record Sharing : Type 0 where
  pub log : List SendRow
  pub outbox : List Message

-- How a call of the adapter ends: with a receipt, with one of the two errors that its port names
-- (`UpstreamError`, `ValidationError`), or with any other exception, which nothing here catches.
pub data Delivery : Type 0 where
  accepted : (receipt_id : ℕ) → Delivery
  declined escaped : Delivery

pub record Outside (Image : Type 0) : Type 0 where
  pub encoder : Encoder Image
  pub upload : ℕ → ℕ → Image → Bool
  pub sign : ℕ → ℕ → Option ℕ
  pub deliver : Message → List Message → Delivery
  pub write : SendRow → List SendRow → Bool
  pub new_id : List SendRow → ℕ

pub record ItemResult : Type 0 where
  pub media_id : ℕ
  pub status : SendStatus
  pub reason : Option SendReason

pub record Summary : Type 0 where
  pub results : List ItemResult
  pub sent : ℕ
  pub failed : ℕ
  pub skipped : ℕ

pub record SendRequest : Type 0 where
  pub school_id : ℕ
  pub student_id : ℕ
  pub media_ids : Option (List ℕ)
  pub actor_user_id : ℕ
  pub actor_role : ℕ

abbrev pub summary_of : List ItemResult → Summary
summary_of results = record {
  results = results;
  sent = count (λ r. is_sent r.status) results;
  failed = count (λ r. is_failed r.status) results;
  skipped = count (λ r. is_skipped r.status) results;
}

-- `{m.id: m for m in effective}`
unfoldable pub by_id : Dict Media → List Media → Dict Media
by_id d [] = d
by_id d (m ∷ ms) = by_id (insert m.id m d) ms

abbrev pub skip_of : ℕ → ItemResult
skip_of media_id = record { media_id = media_id; status = skipped; reason = some not_entitled }

-- One requested id: a photo to send, or a result at once.
abbrev pub sorted_out :
    ℕ → Option Media → List Media × List ItemResult → List Media × List ItemResult
sorted_out id none rest = (rest.0, skip_of id ∷ rest.1)
sorted_out id (some media) rest = (media ∷ rest.0, rest.1)

-- The loop over the requested ids, with those seen so far.
unfoldable pub pick : Dict Media → List ℕ → List ℕ → List Media × List ItemResult
pick effective seen [] = ([], [])
pick effective seen (id ∷ ids) =
    let again = pick effective seen ids in
    let rest = pick effective (id ∷ seen) ids in
    if elem id seen then again else sorted_out id (lookup id effective) rest

unfoldable pub targets_of : Option (List ℕ) → List Media → List Media × List ItemResult
unfolding by_id pick
targets_of none effective = (effective, [])
targets_of (some ids) effective = pick (by_id [] effective) [] ids

unfoldable pub resolve_targets : SendRequest → Tables → Reply (List Media × List ItemResult)
unfolding student_media targets_of
resolve_targets req db = do
  effective ← student_media req.school_id req.student_id none db
  ok (targets_of req.media_ids effective)

abbrev pub or_validation : {A : Type 0} → Option A → Reply A
or_validation none = err validation
or_validation (some a) = ok a

abbrev pub opted_in : Bool → Reply (Unit {0})
opted_in true = ok tt
opted_in false = err validation

pub record Route : Type 0 where
  pub recipient : ℕ
  pub sender : ℕ
  pub template : ℕ

-- Steps 2 and 3 of `send_student_photos`, in order.
unfoldable pub gates : ShareSettings → PlatformConfig → Student → Reply Route
gates s platform student = do
  sender ← or_validation (or_else platform.sender_number s.default_sender)
  template ← or_validation platform.template_name
  opted_in student.whatsapp_opt_in
  recipient ← or_validation student.mobile_number
  ok (record { recipient = recipient; sender = sender; template = template })

pub data Prepared : Type 0 where
  url : ℕ → Prepared
  unavailable : SendReason → Prepared

module _ {Image : Type 0} (p : Outside Image) (s : ShareSettings) (now : Instant)
    (req : SendRequest) where
  abbrev signed : Option ℕ → Prepared
  signed none = unavailable upload_failed
  signed (some u) = url u

  abbrev uploaded : Media → Option Image → Prepared
  uploaded media none = unavailable image_unavailable
  uploaded media (some variant) =
      if p.upload req.school_id media.id variant
      then signed (p.sign req.school_id media.id)
      else unavailable upload_failed

  -- `_prepare_image_url`; the key of the variant is the school's and the photo's ids.
  unfoldable pub prepare_image_url : Media → Prepared
  unfolding make_whatsapp_variant
  prepare_image_url media =
      uploaded media (make_whatsapp_variant p.encoder s.variant media.storage_path)

  -- `_record`: a row that cannot be written is dropped.
  unfoldable pub record_send : SendRow → Sharing → Sharing
  record_send row w = if p.write row w.log then record w { log = w.log ++ row ∷ [] } else w

  abbrev pub row_for :
      ℕ → Media → SendStatus → Option ℕ → Option SendReason → List SendRow → SendRow
  row_for sender media status receipt reason log = record {
    id = p.new_id log;
    school_id = req.school_id;
    student_id = some req.student_id;
    media_id = some media.id;
    actor_user_id = some req.actor_user_id;
    actor_role = req.actor_role;
    sender_number = sender;
    status = status;
    provider_message_id = receipt;
    error = reason;
    created_at = now;
  }

  -- The row and the result of one photo.
  abbrev pub noted :
      ℕ → Media → SendStatus → Option ℕ → Option SendReason → Sharing → Reply ItemResult × Sharing
  noted sender media status receipt reason w = (
    ok (record { media_id = media.id; status = status; reason = reason }),
    record_send (row_for sender media status receipt reason w.log) w,
  )

  abbrev pub handed : ℕ → Media → Message → Delivery → Sharing → Reply ItemResult × Sharing
  handed sender media message declined w = noted sender media failed none (some send_failed) w
  handed sender media message (accepted n) w =
      noted sender media sent (some n) none (record w { outbox = w.outbox ++ message ∷ [] })
  handed sender media message escaped w = (err unexpected, w)

  abbrev pub delivered : (ℕ → Message) → ℕ → Media → Prepared → Sharing → Reply ItemResult × Sharing
  delivered message sender media (unavailable reason) w =
      noted sender media failed none (some reason) w
  delivered message sender media (url u) w =
      handed sender media (message u) (p.deliver (message u) w.outbox) w

  -- The body that `_send_one` and `_send_interim_one` share; the last but one argument is
  -- `over_budget`.
  unfoldable pub attempt : (ℕ → Message) → ℕ → Media → Bool → Sharing → Reply ItemResult × Sharing
  unfolding record_send prepare_image_url
  attempt message sender media true w = noted sender media skipped none (some budget) w
  attempt message sender media false w = delivered message sender media (prepare_image_url media) w

  abbrev pub send_one : Route → Media → Bool → Sharing → Reply ItemResult × Sharing
  send_one route = attempt (λ u. image route.recipient u route.template route.sender) route.sender

  abbrev pub send_interim_one : ℕ → ℕ → Media → Bool → Sharing → Reply ItemResult × Sharing
  send_interim_one number sender = attempt (λ u. image_link number u sender) sender

  abbrev pub and_more :
      Reply ItemResult × Sharing
      → (ItemResult → Sharing → Reply (List ItemResult) × Sharing)
      → Reply (List ItemResult) × Sharing
  and_more (err e, w) next = (err e, w)
  and_more (ok r, w) next = let rest = next r w in (rest.0 >>= (λ rs. ok (r ∷ rs)), rest.1)

  -- `for media in targets`, with the budget that remains.
  unfoldable pub send_loop :
      (Media → Bool → Sharing → Reply ItemResult × Sharing)
      → List Media
      → ℕ
      → Sharing
      → Reply (List ItemResult) × Sharing
  send_loop send [] remaining w = (ok [], w)
  send_loop send (media ∷ targets) remaining w =
      and_more (send media (remaining == 0) w)
        (λ r w1. send_loop send targets (if is_sent r.status then remaining - 1 else remaining) w1)

  abbrev pub remaining : Sharing → ℕ
  remaining w = s.cap - count_sent_since req.school_id (month_start now) w.log

  abbrev pub summarised :
      List ItemResult → Reply (List ItemResult) × Sharing → Reply Summary × Sharing
  summarised skips (results, w) = (results >>= (λ rs. ok (summary_of (skips ++ rs))), w)

  -- What a `send_text` leaves; a failure that its port names is swallowed.
  abbrev pub introduced : Message → Delivery → Sharing → Reply (Unit {0}) × Sharing
  introduced message (accepted n) w = (ok tt, record w { outbox = w.outbox ++ message ∷ [] })
  introduced message declined w = (ok tt, w)
  introduced message escaped w = (err unexpected, w)

  unfoldable pub send_intro : ℕ → ℕ → ℕ → Sharing → Reply (Unit {0}) × Sharing
  send_intro number sender photos w =
      introduced (text number photos sender) (p.deliver (text number photos sender) w.outbox) w

  abbrev pub interim_sender : ℕ
  interim_sender = elim s.default_sender [ none ↦ s.interim_marker | some number ↦ number ]

  -- The loop after the intro.
  abbrev pub after_intro :
      ℕ → List Media → List ItemResult → ℕ → Reply (Unit {0}) × Sharing → Reply Summary × Sharing
  after_intro number targets skips left (err e, w) = (err e, w)
  after_intro number targets skips left (ok t, w) =
      summarised skips (send_loop (send_interim_one number interim_sender) targets left w)

  unfoldable pub send_interim :
      ℕ → Sharing → Reply (List Media × List ItemResult) → Reply Summary × Sharing
  unfolding send_loop send_intro attempt
  send_interim number w (err e) = (err e, w)
  send_interim number w (ok (targets, skips)) =
      after_intro number targets skips (remaining w)
        (send_intro number interim_sender (length targets) w)

  -- Steps 4 to 6.
  unfoldable pub send_template :
      Sharing → Reply Route → Reply (List Media × List ItemResult) → Reply Summary × Sharing
  unfolding send_loop attempt
  send_template w (err e) found = (err e, w)
  send_template w (ok route) (err e) = (err e, w)
  send_template w (ok route) (ok (targets, skips)) =
      summarised skips (send_loop (send_one route) targets (remaining w) w)

  abbrev pub send_to :
      PlatformConfig → Option ℕ → Tables → Sharing → Reply Student → Reply Summary × Sharing
  send_to platform number db w (err e) = (err e, w)
  send_to platform (some number) db w (ok student) = send_interim number w (resolve_targets req db)
  send_to platform none db w (ok student) =
      send_template w (gates s platform student) (resolve_targets req db)

  unfoldable pub send_student_photos : PlatformConfig → Tables → Sharing → Reply Summary × Sharing
  unfolding require_student send_interim send_template gates resolve_targets
  send_student_photos platform db w =
      send_to platform platform.interim_test_number db w
        (require_student req.school_id req.student_id db)
