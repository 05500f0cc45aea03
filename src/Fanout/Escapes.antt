-- ===== src/Fanout/Escapes.antt =====
-- How a call for one student can fail: by an error that the fan-out catches, or by an exception that
-- escapes the provider's adapter.
use ml_service.Prelude.{
  ℕ, ◌≡◌, ◌⊎◌, inl, inr, ◌==◌, ◌-◌, if◌then◌else◌, refl, Bool, true, false, Option, none, some,
  List, [], ◌∷◌, ◌++◌,
}
use ml_service.Backend.{
  unexpected, Reply, ok, err, ◌>>=◌, or_not_found, Student, Media, Tables, require_student,
}
use ml_service.Gallery.{student_media}
use ml_service.Variant.{or_else}
use ml_service.SendLog.{Instant, is_sent}
use ml_service.Share.{
  PlatformConfig, ShareSettings, Sharing, Outside, ItemResult, SendRequest, Route, or_validation,
  opted_in, resolve_targets, gates, send_interim, send_intro, send_template, send_to,
  send_student_photos, send_one, send_interim_one, interim_sender, Message, Prepared, url,
  unavailable, Delivery, accepted, declined, escaped, prepare_image_url, handed, delivered, attempt,
  and_more, send_loop, summarised, introduced, after_intro, remaining,
}
use ml_service.Fanout.{is_caught}

-- A failure, if any, is one that the fan-out catches.
abbrev IsCaught : {A : Type 0} → Reply A → Type 0
IsCaught (ok a) = Unit
IsCaught (err e) = is_caught e ≡ true

bind-IsCaught :
    {A B : Type 0} (m : Reply A) (f : A → Reply B)
    → IsCaught m
    → ((a : A) → IsCaught (f a))
    → IsCaught (m >>= f)
bind-IsCaught (ok a) f hm hf = hf a
bind-IsCaught (err e) f hm hf = hm

or_not_found-IsCaught : {A : Type 0} (o : Option A) → IsCaught (or_not_found o)
or_not_found-IsCaught none = refl
or_not_found-IsCaught (some a) = tt

or_validation-IsCaught : {A : Type 0} (o : Option A) → IsCaught (or_validation o)
or_validation-IsCaught none = refl
or_validation-IsCaught (some a) = tt

opted_in-IsCaught : (b : Bool) → IsCaught (opted_in b)
opted_in-IsCaught true = tt
opted_in-IsCaught false = refl

gates-IsCaught :
    (s : ShareSettings) (platform : PlatformConfig) (student : Student)
    → IsCaught (gates s platform student)
unfolding gates
gates-IsCaught s platform student =
    bind-IsCaught (or_validation (or_else platform.sender_number s.default_sender)) _
      (or_validation-IsCaught _)
      (λ sender.
        bind-IsCaught (or_validation platform.template_name) _ (or_validation-IsCaught _)
          (λ template.
            bind-IsCaught (opted_in student.whatsapp_opt_in) _ (opted_in-IsCaught _) (λ u.
              bind-IsCaught (or_validation student.mobile_number) _ (or_validation-IsCaught _)
                (λ recipient. tt))))

resolve_targets-IsCaught : (req : SendRequest) (db : Tables) → IsCaught (resolve_targets req db)
unfolding resolve_targets student_media require_student
resolve_targets-IsCaught req db =
    bind-IsCaught (student_media req.school_id req.student_id none db) _
      (bind-IsCaught (require_student req.school_id req.student_id db) _ (or_not_found-IsCaught _)
        (λ x. tt))
      (λ effective. tt)

-- The adapter lets an exception out that is none of those its port names.
abbrev pub Escapes : {Image : Type 0} → Outside Image → Type 0
Escapes p = (message : Message) × (before : List Message) × (p.deliver message before ≡ escaped)

-- A failure, if any, is such an exception.
abbrev IsEscape : {Image A : Type 0} → Outside Image → Reply A → Type 0
IsEscape p (ok a) = Unit
IsEscape p (err e) = (e ≡ unexpected) × Escapes p

abbrev pub IsFine : {Image A : Type 0} → Outside Image → Reply A → Type 0
IsFine p (ok a) = Unit
IsFine p (err e) = (is_caught e ≡ true) ⊎ ((e ≡ unexpected) × Escapes p)

module _ {Image : Type 0} (p : Outside Image) (s : ShareSettings) (now : Instant)
    (req : SendRequest) where
  IsFine-of_IsCaught : {A : Type 0} (r : Reply A) → IsCaught r → IsFine p r
  IsFine-of_IsCaught (ok a) h = tt
  IsFine-of_IsCaught (err e) h = inl h

  attempt-IsEscape :
      (message : ℕ → Message) (sender : ℕ) (media : Media) (over : Bool) (w : Sharing)
      → IsEscape p (attempt p s now req message sender media over w).0
  unfolding attempt
  attempt-IsEscape message sender media true w = tt
  attempt-IsEscape message sender media false w = at_url (prepare_image_url p s now req media)
    where
      at_answer :
          (u : ℕ) (o : Delivery)
          → p.deliver (message u) w.outbox ≡ o
          → IsEscape p (handed p s now req sender media (message u) o w).0
      at_answer u declined h = tt
      at_answer u (accepted n) h = tt
      at_answer u escaped h = (refl, (message u, w.outbox, h))

      at_url :
          (prepared : Prepared)
          → IsEscape p (delivered p s now req message sender media prepared w).0
      at_url (unavailable reason) = tt
      at_url (url u) = at_answer u (p.deliver (message u) w.outbox) refl

  send_loop-IsEscape :
      (send : Media → Bool → Sharing → Reply ItemResult × Sharing)
      → ((media : Media) (over : Bool) (w : Sharing) → IsEscape p (send media over w).0)
      → (targets : List Media) (left : ℕ) (w : Sharing)
      → IsEscape p (send_loop p s now req send targets left w).0
  unfolding send_loop
  send_loop-IsEscape send one [] left w = tt
  send_loop-IsEscape send one (media ∷ targets) left w =
      at_first (send media (left == 0) w) (one media (left == 0) w) (λ r w1.
        send_loop-IsEscape send one targets (if is_sent r.status then left - 1 else left) w1)
    where
      at_rest :
          (r : ItemResult) (rs : Reply (List ItemResult))
          → IsEscape p rs
          → IsEscape p (rs >>= (λ results. ok (r ∷ results)))
      at_rest r (ok results) h = tt
      at_rest r (err e) h = h

      at_first :
          (x : Reply ItemResult × Sharing)
          → IsEscape p x.0
          → ((r : ItemResult) (w1 : Sharing)
              → IsEscape p
                  (send_loop p s now req send targets
                    (if is_sent r.status then left - 1 else left)
                    w1).0)
          → IsEscape p
              (and_more p s now req x (λ r w1.
                send_loop p s now req send targets
                  (if is_sent r.status then left - 1 else left)
                  w1)).0
      at_first (err e, w1) h next = h
      at_first (ok r, w1) h next = at_rest r _ (next r w1)

  summarised-IsFine :
      (skips : List ItemResult) (x : Reply (List ItemResult) × Sharing)
      → IsEscape p x.0
      → IsFine p (summarised p s now req skips x).0
  summarised-IsFine skips (ok rs, w) h = tt
  summarised-IsFine skips (err e, w) h = inr h

  loop-IsFine :
      (skips : List ItemResult) (send : Media → Bool → Sharing → Reply ItemResult × Sharing)
      → ((media : Media) (over : Bool) (w : Sharing) → IsEscape p (send media over w).0)
      → (targets : List Media) (left : ℕ) (w : Sharing)
      → IsFine p (summarised p s now req skips (send_loop p s now req send targets left w)).0
  loop-IsFine skips send one targets left w =
      summarised-IsFine skips (send_loop p s now req send targets left w)
        (send_loop-IsEscape send one targets left w)

  pub send_student_photos-IsFine :
      (platform : PlatformConfig) (db : Tables) (w : Sharing)
      → IsFine p (send_student_photos p s now req platform db w).0
  unfolding send_student_photos send_interim send_intro send_template require_student
  send_student_photos-IsFine platform db w =
      at_student platform.interim_test_number (require_student req.school_id req.student_id db)
        (or_not_found-IsCaught _)
    where
      interim :
          (number : ℕ) (found : List Media × List ItemResult) (w1 : Sharing)
          → IsFine p
              (after_intro p s now req number found.0 found.1
                (remaining p s now req w)
                (ok tt, w1)).0
      interim number found w1 =
          loop-IsFine found.1 (send_interim_one p s now req number (interim_sender p s now req))
            (attempt-IsEscape _ (interim_sender p s now req)) found.0 (remaining p s now req w) w1

      at_intro :
          (number : ℕ) (found : List Media × List ItemResult) (message : Message) (o : Delivery)
          → p.deliver message w.outbox ≡ o
          → IsFine p
              (after_intro p s now req number found.0 found.1
                (remaining p s now req w)
                (introduced p s now req message o w)).0
      at_intro number found message (accepted n) h =
          interim number found (record w { outbox = w.outbox ++ message ∷ [] })
      at_intro number found message declined h = interim number found w
      at_intro number found message escaped h = inr (refl, (message, w.outbox, h))

      at_targets :
          (number : ℕ) (r : Reply (List Media × List ItemResult))
          → IsCaught r
          → IsFine p (send_interim p s now req number w r).0
      at_targets number (err e) h = inl h
      at_targets number (ok found) h = at_intro number found _ _ refl

      at_gates :
          (route : Reply Route) (r : Reply (List Media × List ItemResult))
          → IsCaught route
          → IsCaught r
          → IsFine p (send_template p s now req w route r).0
      at_gates (err e) r hroute h = inl hroute
      at_gates (ok route) (err e) hroute h = inl h
      at_gates (ok route) (ok found) hroute h =
          loop-IsFine found.1 (send_one p s now req route) (attempt-IsEscape _ route.sender) found.0
            (remaining p s now req w) w

      at_student :
          (number : Option ℕ) (r : Reply Student)
          → IsCaught r
          → IsFine p (send_to p s now req platform number db w r).0
      at_student number (err e) h = inl h
      at_student (some number) (ok student) h =
          at_targets number (resolve_targets req db) (resolve_targets-IsCaught req db)
      at_student none (ok student) h =
          at_gates (gates s platform student) (resolve_targets req db)
            (gates-IsCaught s platform student) (resolve_targets-IsCaught req db)
