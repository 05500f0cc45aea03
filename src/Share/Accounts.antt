-- ===== src/Share/Accounts.antt =====
-- Every requested photo is reported exactly once.
use ml_service.Prelude.{
  ℕ, ◌+◌, ◌-◌, ◌≡◌, refl, ap₂, subst, Bool, true, false, not, ◌&&◌, inl, inr, Bool-cases, Option,
  none, some, List, [], ◌∷◌, ◌++◌, map, arith, ◌==◌, any, elem, count, count-append, length,
  if◌then◌else◌,
}
use ml_service.Backend.{
  Reply, ok, err, ◌>>=◌, >>=-eq-ok, ok-injective, Student, Media, Tables, require_student,
}
use ml_service.Gallery.{student_media}
use ml_service.SendLog.{Instant, SendStatus, sent, failed, skipped, is_sent, is_failed, is_skipped}
use ml_service.Variant.{make_whatsapp_variant}
use ml_service.Share.{
  PlatformConfig, ShareSettings, Message, Sharing, Outside, ItemResult, Summary, summary_of,
  SendRequest, Route, targets_of, signed, uploaded, prepare_image_url, handed, delivered, attempt,
  send_one, send_interim_one, send_loop, interim_sender, remaining, send_interim, send_template,
  send_to, gates, resolve_targets, send_student_photos, Delivery, accepted, declined, escaped,
  and_more, summarised, after_intro,
}
use ml_service.Share.Targets.{is_unentitled, targets_of-count, targets_of-unentitled}

abbrev reported : ℕ → List ItemResult → ℕ
reported k results = count (λ r. r.media_id == k) results

abbrev refused : ℕ → List ItemResult → ℕ
refused k results = count (λ r. r.media_id == k && is_unentitled r) results

-- The results of a request for `ids` by a student who appears on the photos `effective`: one for
-- each id that was asked for, and "not entitled" for those that are not the student's.
abbrev pub Covers : Option (List ℕ) → List Media → List ItemResult → Type 0
Covers none effective results = map (λ r. r.media_id) results ≡ map (λ m. m.id) effective
Covers (some asked) effective results =
    (k : ℕ)
    → (count (λ r. r.media_id == k) results ≡ (if elem k asked then 1 else 0))
      × (count (λ r. r.media_id == k && is_unentitled r) results
          ≡ (if elem k asked && not (any (λ m. m.id == k) effective) then 1 else 0))

abbrev pub Accounts : Option (List ℕ) → List Media → Summary → Type 0
Accounts ids effective summary =
    (summary.sent + summary.failed + summary.skipped ≡ length summary.results)
    × Covers ids effective summary.results

-- The result of one attempt is about its photo, and is no refusal.
abbrev Answers : Media → ItemResult → Type 0
Answers media r = (r.media_id ≡ media.id) × (is_unentitled r ≡ false)

abbrev IsAnswer : Media → Reply ItemResult → Type 0
IsAnswer media (ok r) = Answers media r
IsAnswer media (err e) = Unit

-- The results of a loop that ended are one for each of its photos, in their order.
abbrev Covered : List Media → Reply (List ItemResult) → Type 0
Covered targets (ok results) =
    (map (λ r. r.media_id) results ≡ map (λ m. m.id) targets)
    × ((k : ℕ) → (reported k results ≡ count (λ m. m.id == k) targets) × (refused k results ≡ 0))
Covered targets (err e) = Unit

one_way :
    (status : SendStatus)
    → (if is_sent status then 1 else 0)
        + (if is_failed status then 1 else 0)
        + (if is_skipped status then 1 else 0)
      ≡ 1
one_way sent = omega arith
one_way failed = omega arith
one_way skipped = omega arith

three_ways :
    (results : List ItemResult)
    → count (λ r. is_sent r.status) results
        + count (λ r. is_failed r.status) results
        + count (λ r. is_skipped r.status) results
      ≡ length results
three_ways [] = omega arith
three_ways (r ∷ results) = omega (arith, one_way r.status, three_ways results)

halves :
    (a b : Bool) → (if a && b then 1 else 0) + (if a && not b then 1 else 0) ≡ (if a then 1 else 0)
halves true true = omega arith
halves true false = omega arith
halves false b = omega arith

module _ {Image : Type 0} (p : Outside Image) (s : ShareSettings) (now : Instant)
    (req : SendRequest) where
  attempt-IsAnswer :
      (message : ℕ → Message) (sender : ℕ) (media : Media) (over : Bool) (w : Sharing)
      → IsAnswer media (attempt p s now req message sender media over w).0
  unfolding attempt prepare_image_url
  attempt-IsAnswer message sender media true w = (refl, refl)
  attempt-IsAnswer message sender media false w =
      at_image (make_whatsapp_variant p.encoder s.variant media.storage_path)
    where
      at_answer :
          (u : ℕ) (o : Delivery)
          → IsAnswer media (handed p s now req sender media (message u) o w).0
      at_answer u declined = (refl, refl)
      at_answer u (accepted n) = (refl, refl)
      at_answer u escaped = tt

      at_sign :
          (o : Option ℕ)
          → IsAnswer media (delivered p s now req message sender media (signed p s now req o) w).0
      at_sign none = (refl, refl)
      at_sign (some u) = at_answer u (p.deliver (message u) w.outbox)

      at_image :
          (o : Option Image)
          → IsAnswer media
              (delivered p s now req message sender media (uploaded p s now req media o) w).0
      at_image none = (refl, refl)
      at_image (some variant) = elim (Bool-cases (p.upload req.school_id media.id variant)) [
        | inl kept ↦ rw kept (at_sign (p.sign req.school_id media.id))
        | inr lost ↦ rw lost (refl, refl)
      ]

  send_loop-Covered :
      (send : Media → Bool → Sharing → Reply ItemResult × Sharing)
      → ((media : Media) (over : Bool) (w : Sharing) → IsAnswer media (send media over w).0)
      → (targets : List Media) (left : ℕ) (w : Sharing)
      → Covered targets (send_loop p s now req send targets left w).0
  unfolding send_loop
  send_loop-Covered send one [] left w = (refl, λ k. (refl, refl))
  send_loop-Covered send one (media ∷ targets) left w =
      at_first (send media (left == 0) w) (one media (left == 0) w) (λ r w1.
        send_loop-Covered send one targets (if is_sent r.status then left - 1 else left) w1)
    where
      at_rest :
          (r : ItemResult) (rs : Reply (List ItemResult))
          → Answers media r
          → Covered targets rs
          → Covered (media ∷ targets) (rs >>= (λ results. ok (r ∷ results)))
      at_rest r (ok results) first rest =
          (ap₂ (λ y ys. y ∷ ys) first.0 rest.0, λ k. ground (arith, first, rest.1 k))
      at_rest r (err e) first rest = tt

      at_first :
          (x : Reply ItemResult × Sharing)
          → IsAnswer media x.0
          → ((r : ItemResult) (w1 : Sharing)
              → Covered targets
                  (send_loop p s now req send targets
                    (if is_sent r.status then left - 1 else left)
                    w1).0)
          → Covered
              (media ∷ targets)
              (and_more p s now req x (λ r w1.
                send_loop p s now req send targets
                  (if is_sent r.status then left - 1 else left)
                  w1)).0
      at_first (err e, w1) first next = tt
      at_first (ok r, w1) first next = at_rest r _ first (next r w1)

  in_turn :
      (ids : Option (List ℕ)) (effective : List Media) (results : List ItemResult)
      → let x = targets_of ids effective in
        Covered x.0 (ok results) → Covers ids effective (x.1 ++ results)
  unfolding targets_of
  in_turn none effective results loop = loop.0
  in_turn (some asked) effective results loop = λ k.
      let x = targets_of (some asked) effective in
      let each = loop.1 k in
      let found = targets_of-count k asked effective in
      let gone = targets_of-unentitled k asked effective in
      let all = count-append (λ (r : ItemResult). r.media_id == k) x.1 results in
      let bad = count-append (λ (r : ItemResult). r.media_id == k && is_unentitled r) x.1 results in
      (
        omega (arith, all, each, found, halves (elem k asked) (any (λ m. m.id == k) effective)),
        omega (arith, bad, gone, each, found),
      )

  abbrev pub Reports : Tables → Reply Summary → Type 0
  Reports db (err e) = Unit
  Reports db (ok summary) =
      (effective : List Media) × (student_media req.school_id req.student_id none db ≡ ok effective)
      × Accounts req.media_ids effective summary

  resolved :
      (db : Tables) (x : List Media × List ItemResult)
      → resolve_targets req db ≡ ok x
      → (effective : List Media) × (student_media req.school_id req.student_id none db
          ≡ ok effective)
        × (targets_of req.media_ids effective ≡ x)
  unfolding resolve_targets
  resolved db x h =
      let (effective, read, same) =
        >>=-eq-ok (student_media req.school_id req.student_id none db) _ h in
      (effective, read, ok-injective same)

  summarised-Reports :
      (db : Tables) (x : List Media × List ItemResult)
      → resolve_targets req db ≡ ok x
      → (loop : Reply (List ItemResult) × Sharing) → Covered x.0 loop.0
      → Reports db (summarised p s now req x.1 loop).0
  summarised-Reports db x h (err e, w) covered = tt
  summarised-Reports db x h (ok results, w) covered =
      let (effective, read, same) = resolved db x h in
      (
        effective,
        read,
        subst
            (λ (y : List Media × List ItemResult).
              Covered y.0 (ok results)
              → Accounts req.media_ids effective (summary_of (y.1 ++ results)))
            same (λ c. (three_ways _, in_turn req.media_ids effective results c)) covered,
      )

  loop-Reports :
      (db : Tables) (x : List Media × List ItemResult)
      → resolve_targets req db ≡ ok x
      → (send : Media → Bool → Sharing → Reply ItemResult × Sharing)
      → ((media : Media) (over : Bool) (w : Sharing) → IsAnswer media (send media over w).0)
      → (left : ℕ) (w : Sharing)
      → Reports db (summarised p s now req x.1 (send_loop p s now req send x.0 left w)).0
  loop-Reports db x h send one left w =
      summarised-Reports db x h (send_loop p s now req send x.0 left w)
        (send_loop-Covered send one x.0 left w)

  -- A call that answers says of each requested photo exactly once what became of it: every id that
  -- was asked for has one result, and no other id has any; "not entitled" is said of the photos that
  -- the student does not appear on and of no other; and the counts of what was sent, failed and
  -- skipped add up to the results. Where no ids are given, the results are the student's photos in
  -- their order.
  pub send_student_photos-Reports :
      (platform : PlatformConfig) (db : Tables) (w : Sharing)
      → Reports db (send_student_photos p s now req platform db w).0
  unfolding send_student_photos send_interim send_template
  send_student_photos-Reports platform db w =
      at_student platform.interim_test_number (require_student req.school_id req.student_id db)
    where
      at_template :
          (route : Reply Route) (r : Reply (List Media × List ItemResult))
          → resolve_targets req db ≡ r
          → Reports db (send_template p s now req w route r).0
      at_template (err e) r h = tt
      at_template (ok route) (err e) h = tt
      at_template (ok route) (ok x) h =
          loop-Reports db x h (send_one p s now req route) (attempt-IsAnswer _ route.sender)
            (remaining p s now req w) w

      after :
          (number : ℕ) (x : List Media × List ItemResult) (y : Reply (Unit {0}) × Sharing)
          → resolve_targets req db ≡ ok x
          → Reports db (after_intro p s now req number x.0 x.1 (remaining p s now req w) y).0
      after number x (err e, w1) h = tt
      after number x (ok t, w1) h =
          loop-Reports db x h (send_interim_one p s now req number (interim_sender p s now req))
            (attempt-IsAnswer _ (interim_sender p s now req)) (remaining p s now req w) w1

      at_interim :
          (number : ℕ) (r : Reply (List Media × List ItemResult))
          → resolve_targets req db ≡ r
          → Reports db (send_interim p s now req number w r).0
      at_interim number (err e) h = tt
      at_interim number (ok x) h = after number x _ h

      at_student :
          (number : Option ℕ) (r : Reply Student)
          → Reports db (send_to p s now req platform number db w r).0
      at_student number (err e) = tt
      at_student (some number) (ok student) = at_interim number (resolve_targets req db) refl
      at_student none (ok student) =
          at_template (gates s platform student) (resolve_targets req db) refl
