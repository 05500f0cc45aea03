-- ===== src/Fanout/Isolation.antt =====
-- One student's failure does not end the fan-out, unless an exception escapes the provider's adapter.
use ml_service.Prelude.{ℕ, ◌≡◌, inl, inr, refl, ap₂, Option, none, some, List, [], ◌∷◌, map}
use ml_service.Backend.{unexpected, Reply, ok, err, ◌>>=◌, Student, Tables}
use ml_service.Gallery.{event_photo_recipients}
use ml_service.SendLog.{Instant}
use ml_service.Share.{PlatformConfig, ShareSettings, Sharing, Outside, Summary}
use ml_service.Fanout.{
  EventRequest, FanoutReason, StudentResult, FanoutSummary, fanout_summary, require_configured,
  barred, caught, send_or_skip, fanout_one, and_then, fanout_loop, totalled, fanout_to,
  send_event_photos, request_for,
}
use ml_service.Fanout.Escapes.{Escapes, IsFine, send_student_photos-IsFine}

-- One result for each recipient, in order.
abbrev pub Reports :
    {Image : Type 0} → Outside Image → List (Student × List ℕ) → Reply (List StudentResult) → Type 0
Reports p recipients (ok results) =
    map (λ r. r.student_id) results ≡ map (λ recipient. recipient.0.id) recipients
Reports p recipients (err e) = (e ≡ unexpected) × Escapes p

abbrev pub IsReport : {Image : Type 0} → Outside Image → Student → Reply StudentResult → Type 0
IsReport p student (ok r) = r.student_id ≡ student.id
IsReport p student (err e) = (e ≡ unexpected) × Escapes p

module _ {Image : Type 0} (p : Outside Image) (s : ShareSettings) (platform : PlatformConfig)
    (now : Instant) (req : EventRequest) (db : Tables) where
  fanout_one-IsReport :
      (student : Student) (ids : List ℕ) (w : Sharing)
      → IsReport p student (fanout_one p s platform now req db (student, ids) w).0
  unfolding fanout_one
  fanout_one-IsReport student ids w = at_reason (barred platform student)
    where
      at_reply :
          (x : Reply Summary × Sharing)
          → IsFine p x.0
          → IsReport p student (caught p s platform now req db student ids x).0
      at_reply (ok summary, w') h = refl
      at_reply (err e, w') (inl h) = rw h refl
      at_reply (err e, w') (inr h) = rw h.0 (refl, h.1)

      at_reason :
          (o : Option FanoutReason)
          → IsReport p student (send_or_skip p s platform now req db student ids o w).0
      at_reason (some why) = refl
      at_reason none = at_reply _ (
          send_student_photos-IsFine p s now (request_for p s platform now req db student ids)
            platform db w)

  pub fanout_loop-Reports :
      (recipients : List (Student × List ℕ)) (w : Sharing)
      → Reports p recipients (fanout_loop p s platform now req db recipients w).0
  unfolding fanout_loop
  fanout_loop-Reports [] w = refl
  fanout_loop-Reports ((student, ids) ∷ recipients) w =
      at_first (fanout_one p s platform now req db (student, ids) w)
        (fanout_one-IsReport student ids w) (λ w1. fanout_loop-Reports recipients w1)
    where
      at_rest :
          (r : StudentResult) (rs : Reply (List StudentResult))
          → r.student_id ≡ student.id
          → Reports p recipients rs
          → Reports p ((student, ids) ∷ recipients) (rs >>= (λ results. ok (r ∷ results)))
      at_rest r (ok results) h hs = ap₂ (λ x xs. x ∷ xs) h hs
      at_rest r (err e) h hs = hs

      at_first :
          (x : Reply StudentResult × Sharing)
          → IsReport p student x.0
          → ((w1 : Sharing)
              → Reports p recipients (fanout_loop p s platform now req db recipients w1).0)
          → Reports p
              ((student, ids) ∷ recipients)
              (and_then p s platform now req db x
                (λ w1. fanout_loop p s platform now req db recipients w1)).0
      at_first (err e, w1) h next = h
      at_first (ok r, w1) h next = at_rest r _ h (next w1)

  -- What the fan-out answers, from its check of the settings and the recipients.
  abbrev pub Isolates : Reply (List (Student × List ℕ)) → Reply FanoutSummary → Type 0
  Isolates (err e) answer = answer ≡ err e
  Isolates (ok recipients) (ok summary) =
      (map (λ r. r.student_id) summary.results ≡ map (λ recipient. recipient.0.id) recipients)
      × (summary ≡ fanout_summary summary.results)
  Isolates (ok recipients) (err e) = (e ≡ unexpected) × Escapes p

  -- The fan-out fails before the first send, where WhatsApp is not configured or the school has no
  -- such event, with that failure; or where a call of the provider's adapter lets an exception out
  -- that is none of the two that its port names, with that exception. Otherwise it answers with one
  -- result for each recipient, in their order, and the totals of these: no other failure of one
  -- student's send ends it.
  pub send_event_photos-Isolates :
      (w : Sharing)
      → Isolates
          (require_configured s platform
            >>= (λ _. event_photo_recipients req.school_id req.event_id req.media_ids db))
          (send_event_photos p s platform now req db w).0
  unfolding send_event_photos
  send_event_photos-Isolates w = at_recipients _
    where
      at_loop :
          (recipients : List (Student × List ℕ)) (x : Reply (List StudentResult) × Sharing)
          → Reports p recipients x.0
          → Isolates (ok recipients) (totalled p s platform now req db x).0
      at_loop recipients (ok results, w') h = (h, refl)
      at_loop recipients (err e, w') h = h

      at_recipients :
          (r : Reply (List (Student × List ℕ)))
          → Isolates r (fanout_to p s platform now req db r w).0
      at_recipients (err e) = refl
      at_recipients (ok recipients) =
          at_loop recipients (fanout_loop p s platform now req db recipients w)
            (fanout_loop-Reports recipients w)
