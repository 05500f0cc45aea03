-- ===== src/Share/Budget.antt =====
-- The monthly budget of a school: each photo handed to the provider is one `sent` row, and no more
-- are handed over than the cap leaves.
use ml_service.Prelude.{
  ℕ, ◌-◌, ◌≤◌, ◌≡◌, ◌⊎◌, ◌++◌, refl, ◌∙◌, subst, inl, inr, Bool-cases, Option, none, some, List, [],
  ◌∷◌, arith, count-append, elem, Dict, lookup, length,
}
use ml_service.Backend.{
  unexpected, Reply, ok, err, Student, Media, Tables, require_student, >>=-eq-ok, ok-injective,
}
use ml_service.Gallery.{student_media}
use ml_service.SendLog.{Instant, is_sent}
use ml_service.Share.{
  PlatformConfig, ShareSettings, text, Sharing, Outside, ItemResult, Summary, SendRequest, Route,
  by_id, pick, sorted_out, targets_of, send_one, send_interim_one, send_intro, interim_sender,
  remaining, summarised, Message, Delivery, accepted, declined, escaped, introduced, after_intro,
  send_loop, send_interim, send_template, send_to, gates, resolve_targets, send_student_photos,
}
use ml_service.Share.Growth.{
  is_photo, photos, spent, IsWritten, sent_in, Grew, AllGrew, attempt-OneGrew, send_loop-AllGrew,
}

pick-unsent : (effective : Dict Media) (seen ids : List ℕ) → sent_in (pick effective seen ids).1 ≡ 0
unfolding pick
pick-unsent effective seen [] = refl
pick-unsent effective seen (id ∷ ids) = elim (Bool-cases (elem id seen)) [
  | inl again ↦ rw again (pick-unsent effective seen ids)
  | inr fresh ↦ rw fresh (
      asked (lookup id effective) (pick effective (id ∷ seen) ids)
        (pick-unsent effective (id ∷ seen) ids))
]
  where
    asked :
        (o : Option Media) (rest : List Media × List ItemResult)
        → sent_in rest.1 ≡ 0
        → sent_in (sorted_out id o rest).1 ≡ 0
    asked none rest h = omega (arith, h)
    asked (some media) rest h = h

targets_of-unsent :
    (ids : Option (List ℕ)) (effective : List Media) → sent_in (targets_of ids effective).1 ≡ 0
unfolding targets_of
targets_of-unsent none effective = refl
targets_of-unsent (some ids) effective = pick-unsent (by_id [] effective) [] ids

resolve_targets-unsent :
    (req : SendRequest) (db : Tables) (found : List Media × List ItemResult)
    → resolve_targets req db ≡ ok found
    → sent_in found.1 ≡ 0
unfolding resolve_targets
resolve_targets-unsent req db found h =
    let (effective, read, same) =
      >>=-eq-ok (student_media req.school_id req.student_id none db) _ h in
    subst (λ (x : List Media × List ItemResult). sent_in x.1 ≡ 0) (ok-injective same)
      (targets_of-unsent req.media_ids effective)

module _ {Image : Type 0} (p : Outside Image) (written : IsWritten p) (s : ShareSettings)
    (now : Instant) (req : SendRequest) where
  -- What a call may have spent: what it says it sent, and no more than the cap left; nothing where it
  -- is refused; and where another exception ends it, what it had sent by then.
  abbrev pub Spends : Sharing → Reply Summary × Sharing → Type 0
  Spends w (err e, w') =
      (w' ≡ w)
      ⊎ ((e ≡ unexpected)
          × ((n : ℕ) × Grew now req.school_id n w w' × (n ≤ s.cap - spent now req.school_id w)))
  Spends w (ok summary, w') =
      Grew now req.school_id summary.sent w w' × (summary.sent ≤ s.cap - spent now req.school_id w)

  -- A loop that starts where no photo was sent and no row written since the call began.
  summarised-Spends :
      (skips : List ItemResult) (w w1 : Sharing) (x : Reply (List ItemResult) × Sharing)
      → sent_in skips ≡ 0
      → (photos w1 ≡ photos w) × (spent now req.school_id w1 ≡ spent now req.school_id w)
      → AllGrew p written s now req (s.cap - spent now req.school_id w) w1 x
      → Spends w (summarised p s now req skips x)
  summarised-Spends skips w w1 (ok rs, w2) none_sent start (grew, within) =
      let together = count-append (λ (r : ItemResult). is_sent r.status) skips rs in
      (
        (
          omega (arith, together, none_sent, start, grew),
          omega (arith, together, none_sent, start, grew),
        ),
        omega (arith, together, none_sent, within),
      )
  summarised-Spends skips w w1 (err e, w2) none_sent start (same, (n, grew, within)) =
      inr (same, (n, (omega (arith, start, grew), omega (arith, start, grew)), within))

  send_template-Spends :
      (w : Sharing) (route : Reply Route) (found : Reply (List Media × List ItemResult))
      → ((x : List Media × List ItemResult) → found ≡ ok x → sent_in x.1 ≡ 0)
      → Spends w (send_template p s now req w route found)
  unfolding send_template
  send_template-Spends w (err e) found skips = inl refl
  send_template-Spends w (ok route) (err e) skips = inl refl
  send_template-Spends w (ok route) (ok (targets, barred)) skips =
      summarised-Spends barred w w _ (skips _ refl) (refl, refl)
        (send_loop-AllGrew p written s now req (send_one p s now req route)
          (λ media over w1.
            attempt-OneGrew p written s now req _ route.sender media over w1 (λ u. refl))
          targets (remaining p s now req w) w)

  send_interim-Spends :
      (number : ℕ) (w : Sharing) (found : Reply (List Media × List ItemResult))
      → ((x : List Media × List ItemResult) → found ≡ ok x → sent_in x.1 ≡ 0)
      → Spends w (send_interim p s now req number w found)
  unfolding send_interim send_intro
  send_interim-Spends number w (err e) skips = inl refl
  send_interim-Spends number w (ok (targets, barred)) skips = at_intro (p.deliver intro w.outbox)
    where
      sender : ℕ
      sender = interim_sender p s now req

      intro : Message
      intro = text number (length targets) sender

      loop :
          (w1 : Sharing)
          → AllGrew p written s now req (remaining p s now req w) w1 (
              send_loop p s now req
                (send_interim_one p s now req number sender)
                targets
                (remaining p s now req w)
                w1)
      loop w1 =
          send_loop-AllGrew p written s now req (send_interim_one p s now req number sender)
            (λ media over w2.
              attempt-OneGrew p written s now req _ sender media over w2 (λ u. refl))
            targets (remaining p s now req w) w1

      at_intro :
          (o : Delivery)
          → Spends w (
              after_intro p s now req number targets barred
                (remaining p s now req w)
                (introduced p s now req intro o w))
      at_intro (accepted n) =
          summarised-Spends barred w (record w { outbox = w.outbox ++ intro ∷ [] }) _ (skips _ refl)
            (count-append is_photo w.outbox (intro ∷ []) ∙ omega arith, refl) (loop _)
      at_intro declined = summarised-Spends barred w w _ (skips _ refl) (refl, refl) (loop w)
      at_intro escaped = inl refl

  -- Where the log accepts every row, a call for one student sends as many photos as it reports, one
  -- `sent` row of the month for each, and no more than the cap leaves for the school; a call that is
  -- refused changes nothing, and one that another exception ends has sent no more than that either.
  pub send_student_photos-Spends :
      (platform : PlatformConfig) (db : Tables) (w : Sharing)
      → Spends w (send_student_photos p s now req platform db w)
  unfolding send_student_photos
  send_student_photos-Spends platform db w =
      at_student platform.interim_test_number (require_student req.school_id req.student_id db)
    where
      at_student :
          (number : Option ℕ) (r : Reply Student)
          → Spends w (send_to p s now req platform number db w r)
      at_student number (err e) = inl refl
      at_student (some number) (ok student) =
          send_interim-Spends number w (resolve_targets req db) (resolve_targets-unsent req db)
      at_student none (ok student) =
          send_template-Spends w (gates s platform student) (resolve_targets req db)
            (resolve_targets-unsent req db)
