-- ===== src/Share/Consent.antt =====
-- What is handed to the provider, and to whom.
use ml_service.Prelude.{
  ℕ, ◌≡◌, refl, ◌∙◌, ap, subst, Bool, true, false, Option, none, some, List, [], ◌∷◌, arith, In,
  All, length,
}
use ml_service.Backend.{
  Reply, ok, err, >>=-eq-ok, ok-injective, Student, Media, Tables, require_student,
}
use ml_service.Gallery.{student_media}
use ml_service.SendLog.{Instant}
use ml_service.Variant.{or_else}
use ml_service.Share.{
  PlatformConfig, ShareSettings, Message, image, text, image_link, Sharing, Outside, ItemResult,
  SendRequest, Route, or_validation, opted_in, attempt, send_one, send_interim_one, send_intro,
  interim_sender, remaining, send_interim, send_template, send_to, gates, resolve_targets,
  send_student_photos, Delivery, accepted, declined, escaped, introduced, after_intro,
}
use ml_service.Share.Targets.{targets_of-In}
use ml_service.Share.Posts.{Posts, Posts-nil, Posts-trans, attempt-Posts, send_loop-Posts}

gates-consent :
    (s : ShareSettings) (platform : PlatformConfig) (student : Student) (route : Route)
    → gates s platform student ≡ ok route
    → (student.whatsapp_opt_in ≡ true) × (student.mobile_number ≡ some route.recipient)
unfolding gates
gates-consent s platform student route h =
    let (sender, e1, h1) =
      >>=-eq-ok (or_validation (or_else platform.sender_number s.default_sender)) _ h in
    let (template, e2, h2) = >>=-eq-ok (or_validation platform.template_name) _ h1 in
    let (u, e3, h3) = >>=-eq-ok (opted_in student.whatsapp_opt_in) _ h2 in
    let (recipient, e4, h4) = >>=-eq-ok (or_validation student.mobile_number) _ h3 in
    (
      opted student.whatsapp_opt_in u e3,
      number student.mobile_number recipient e4
          ∙ ap (λ (r : Reply Route). elim r [ err e ↦ none | ok x ↦ some x.recipient ]) h4,
    )
  where
    opted : (b : Bool) (u : Unit {0}) → opted_in b ≡ ok u → b ≡ true
    opted true u e = refl
    opted false u e = ground (arith, e)

    number : (o : Option ℕ) (n : ℕ) → or_validation o ≡ ok n → o ≡ some n
    number none n e = ground (arith, e)
    number (some m) n e = ap some (ok-injective e)

module _ {Image : Type 0} (p : Outside Image) (s : ShareSettings) (now : Instant)
    (req : SendRequest) where
  -- The URL is of a photo of the list.
  abbrev pub Shows : List Media → ℕ → Type 0
  Shows effective u = (m : Media) × In m effective × (p.sign req.school_id m.id ≡ some u)

  -- A photo with the template goes to the student's own number, with the student's consent; in the
  -- interim mode everything goes to the test number.
  abbrev pub Allowed : Option ℕ → Student → List Media → Message → Type 0
  Allowed test student effective (image to u template sender) =
      (test ≡ none)
      × (student.whatsapp_opt_in ≡ true)
      × (student.mobile_number ≡ some to)
      × Shows effective u
  Allowed test student effective (text to n sender) = test ≡ some to
  Allowed test student effective (image_link to u sender) = (test ≡ some to) × Shows effective u

  abbrev pub Consents : PlatformConfig → Tables → Message → Type 0
  Consents platform db message =
      (student : Student) × (effective : List Media) × (require_student req.school_id req.student_id
          db
        ≡ ok student)
      × (student_media req.school_id req.student_id none db ≡ ok effective)
      × Allowed platform.interim_test_number student effective message

  shown :
      (db : Tables) (x : List Media × List ItemResult)
      → resolve_targets req db ≡ ok x
      → (effective : List Media) × (student_media req.school_id req.student_id none db
          ≡ ok effective)
        × All (λ m. In m effective) x.0
  unfolding resolve_targets
  shown db x h =
      let (effective, read, same) =
        >>=-eq-ok (student_media req.school_id req.student_id none db) _ h in
      (
        effective,
        read,
        subst (λ (y : List Media × List ItemResult). All (λ m. In m effective) y.0)
            (ok-injective same) (targets_of-In req.media_ids effective),
      )

  -- Every attempt posts what is allowed, if every target is one of the photos.
  targets-Posts :
      (Q : Message → Type 0) (effective : List Media) (message : ℕ → Message) (sender : ℕ)
      → ((u : ℕ) → Shows effective u → Q (message u))
      → (targets : List Media) → All (λ m. In m effective) targets
      → All
          (λ media.
            (over : Bool) (w : Sharing)
            → Posts Q w.outbox (attempt p s now req message sender media over w).1.outbox)
          targets
  targets-Posts Q effective message sender allowed [] members = tt
  targets-Posts Q effective message sender allowed (m ∷ targets) members = (
    λ over w.
        attempt-Posts p s now req Q message sender m over w (λ u e. allowed u (m, members.0, e)),
    targets-Posts Q effective message sender allowed targets members.1,
  )

  introduced-Posts :
      (Q : Message → Type 0) (message : Message) (o : Delivery) (w : Sharing)
      → Q message
      → Posts Q w.outbox (introduced p s now req message o w).1.outbox
  introduced-Posts Q message (accepted n) w q = (message ∷ [], refl, (q, tt))
  introduced-Posts Q message declined w q = Posts-nil Q w.outbox w.outbox refl
  introduced-Posts Q message escaped w q = Posts-nil Q w.outbox w.outbox refl

  -- Whatever the provider accepts from a call for a student, however that ends, is allowed: with an interim number
  -- set, it goes to that number; otherwise to the student's own number on file, and the student has
  -- opted in. Every photo is one on which the student appears in the gallery, of the same school.
  pub send_student_photos-Posts :
      (platform : PlatformConfig) (db : Tables) (w : Sharing)
      → Posts
          (Consents platform db)
          w.outbox
          (send_student_photos p s now req platform db w).1.outbox
  unfolding send_student_photos send_interim send_intro send_template
  send_student_photos-Posts platform db w =
      at_student platform.interim_test_number refl (require_student req.school_id req.student_id db)
        refl
    where
      at_template :
          (student : Student)
          → platform.interim_test_number ≡ none
          → require_student req.school_id req.student_id db ≡ ok student
          → (route : Reply Route) → gates s platform student ≡ route
          → (r : Reply (List Media × List ItemResult)) → resolve_targets req db ≡ r
          → Posts (Consents platform db) w.outbox (send_template p s now req w route r).1.outbox
      at_template student normal is_there (err e) g r h = Posts-nil _ w.outbox w.outbox refl
      at_template student normal is_there (ok route) g (err e) h =
          Posts-nil _ w.outbox w.outbox refl
      at_template student normal is_there (ok route) g (ok x) h =
          let (effective, read, members) = shown db x h in
          let consent = gates-consent s platform student route g in
          send_loop-Posts p s now req (Consents platform db) (send_one p s now req route) x.0
            (targets-Posts (Consents platform db) effective _ route.sender
              (λ u shows.
                (student, effective, is_there, read, (normal, consent.0, consent.1, shows)))
              x.0 members)
            (remaining p s now req w) w

      then_loop :
          (number : ℕ) (x : List Media × List ItemResult) (y : Reply (Unit {0}) × Sharing)
          → Posts (Consents platform db) w.outbox y.1.outbox
          → All
              (λ media.
                (over : Bool) (w1 : Sharing)
                → Posts
                    (Consents platform db)
                    w1.outbox
                    (send_interim_one p s now req number
                      (interim_sender p s now req)
                      media
                      over
                      w1).1.outbox)
              x.0
          → Posts
              (Consents platform db)
              w.outbox
              (after_intro p s now req number x.0 x.1 (remaining p s now req w) y).1.outbox
      then_loop number x (err e, w1) first one = first
      then_loop number x (ok t, w1) first one =
          Posts-trans (Consents platform db) w.outbox w1.outbox _ first (
            send_loop-Posts p s now req (Consents platform db)
              (send_interim_one p s now req number (interim_sender p s now req)) x.0 one
              (remaining p s now req w) w1)

      at_interim :
          (student : Student) (number : ℕ)
          → platform.interim_test_number ≡ some number
          → require_student req.school_id req.student_id db ≡ ok student
          → (r : Reply (List Media × List ItemResult)) → resolve_targets req db ≡ r
          → Posts (Consents platform db) w.outbox (send_interim p s now req number w r).1.outbox
      at_interim student number test is_there (err e) h = Posts-nil _ w.outbox w.outbox refl
      at_interim student number test is_there (ok x) h =
          let (effective, read, members) = shown db x h in
          let sender = interim_sender p s now req in
          let intro = text number (length x.0) sender in
          then_loop number x (introduced p s now req intro _ w)
            (introduced-Posts (Consents platform db) intro (p.deliver intro w.outbox) w
              (student, effective, is_there, read, test))
            (targets-Posts (Consents platform db) effective _ sender
              (λ u shows. (student, effective, is_there, read, (test, shows))) x.0 members)

      at_student :
          (number : Option ℕ)
          → platform.interim_test_number ≡ number
          → (r : Reply Student) → require_student req.school_id req.student_id db ≡ r
          → Posts
              (Consents platform db)
              w.outbox
              (send_to p s now req platform number db w r).1.outbox
      at_student number test (err e) is_there = Posts-nil _ w.outbox w.outbox refl
      at_student (some number) test (ok student) is_there =
          at_interim student number test is_there (resolve_targets req db) refl
      at_student none test (ok student) is_there =
          at_template student test is_there (gates s platform student) refl (resolve_targets req db)
            refl
