-- ===== src/Share/Growth.antt =====
-- By how much the messages and the rows of the month grow in one call.
use ml_service.Prelude.{
  ℕ, ◌+◌, ◌-◌, ◌≤◌, ◌≡◌, refl, ap, Bool, true, false, ◌&&◌, Option, none, some, List, [], ◌∷◌, ◌++◌,
  arith, ◌==◌, count, count-append, if◌then◌else◌,
}
use ml_service.Backend.{unexpected, Reply, ok, err, ◌>>=◌, Media}
use ml_service.SendLog.{
  Instant, month_start, not_before, SendStatus, sent, failed, skipped, is_sent, SendReason, SendRow,
  count_sent_since,
}
use ml_service.Share.{
  ShareSettings, Message, image, text, image_link, Sharing, Outside, ItemResult, SendRequest,
  Prepared, url, unavailable, prepare_image_url, record_send, row_for, noted, handed, delivered,
  attempt, send_loop, Delivery, accepted, declined, escaped, and_more,
}

abbrev pub is_photo : Message → Bool
is_photo (image to u template sender) = true
is_photo (text to n sender) = false
is_photo (image_link to u sender) = true

abbrev pub photos : Sharing → ℕ
photos w = count is_photo w.outbox

-- The sends of the school that the log has for the month of `now`.
abbrev pub spent : Instant → ℕ → Sharing → ℕ
spent now school w = count_sent_since school (month_start now) w.log

-- The log accepts every row.
abbrev pub IsWritten : {Image : Type 0} → Outside Image → Type 0
IsWritten p = (row : SendRow) (log : List SendRow) → p.write row log ≡ true

abbrev bit : Bool → ℕ
bit b = if b then 1 else 0

abbrev pub sent_in : List ItemResult → ℕ
sent_in rs = count (λ r. is_sent r.status) rs

-- The photos and the month's rows both grew by `n`.
abbrev pub Grew : Instant → ℕ → ℕ → Sharing → Sharing → Type 0
Grew now school n w w' = (photos w' ≡ photos w + n) × (spent now school w' ≡ spent now school w + n)

month_start-now : (now : Instant) → not_before (month_start now) now ≡ true
month_start-now now = ground arith

module _ {Image : Type 0} (p : Outside Image) (written : IsWritten p) (s : ShareSettings)
    (now : Instant) (req : SendRequest) where
  record_send-written :
      (row : SendRow) (w : Sharing)
      → record_send p s now req row w ≡ record w { log = w.log ++ row ∷ [] }
  unfolding record_send
  record_send-written row w = rw (written row w.log) refl

  spent-row :
      (row : SendRow) (w : Sharing)
      → row.school_id ≡ req.school_id
      → row.created_at ≡ now
      → spent now req.school_id (record w { log = w.log ++ row ∷ [] })
        ≡ spent now req.school_id w + bit (is_sent row.status)
  unfolding count_sent_since
  spent-row row w school at =
      let here =
        count-append
          (λ (r : SendRow).
            (r.school_id == req.school_id && is_sent r.status)
            && not_before (month_start now) r.created_at)
          w.log (row ∷ []) in
      ground (arith, here, month_start-now now, school, at)

  -- One attempt: it says what it sent, or ends in an exception and leaves everything as it was.
  abbrev pub OneGrew : Bool → Sharing → Reply ItemResult × Sharing → Type 0
  OneGrew over w (ok r, w') =
      Grew now req.school_id (bit (is_sent r.status)) w w'
      × (over ≡ true → is_sent r.status ≡ false)
  OneGrew over w (err e, w') = (e ≡ unexpected) × (w' ≡ w)

  -- A loop of them within a budget: what it says it sent, or what it sent before an exception.
  abbrev pub AllGrew : ℕ → Sharing → Reply (List ItemResult) × Sharing → Type 0
  AllGrew left w (ok rs, w') = Grew now req.school_id (sent_in rs) w w' × (sent_in rs ≤ left)
  AllGrew left w (err e, w') =
      (e ≡ unexpected) × ((n : ℕ) × Grew now req.school_id n w w' × (n ≤ left))

  noted-Grew :
      (sender : ℕ) (media : Media) (status : SendStatus) (receipt : Option ℕ)
      (reason : Option SendReason) (w w' : Sharing)
      → w'.log ≡ w.log
      → photos w' ≡ photos w + bit (is_sent status)
      → Grew now req.school_id
          (bit (is_sent status))
          w
          (noted p s now req sender media status receipt reason w').1
  noted-Grew sender media status receipt reason w w' same more =
      let row : SendRow = row_for p s now req sender media status receipt reason w'.log in
      let here = spent-row row w' refl refl in
      let log_same : spent now req.school_id w' ≡ spent now req.school_id w =
        ap (λ (log : List SendRow). count_sent_since req.school_id (month_start now) log) same in
      rw (record_send-written row w') (more, omega (arith, here, log_same))

  -- One photo: at most one message, and none where the budget is used up.
  pub attempt-OneGrew :
      (message : ℕ → Message) (sender : ℕ) (media : Media) (over : Bool) (w : Sharing)
      → ((u : ℕ) → is_photo (message u) ≡ true)
      → OneGrew over w (attempt p s now req message sender media over w)
  unfolding attempt
  attempt-OneGrew message sender media true w photo =
      (noted-Grew sender media skipped none _ w w refl (omega arith), λ e. refl)
  attempt-OneGrew message sender media false w photo = at_url (prepare_image_url p s now req media)
    where
      at_answer :
          (u : ℕ) (o : Delivery) → OneGrew false w (handed p s now req sender media (message u) o w)
      at_answer u declined =
          (noted-Grew sender media failed none _ w w refl (omega arith), λ e. refl)
      at_answer u (accepted n) = (
        noted-Grew sender media sent (some n) none w
            (record w { outbox = w.outbox ++ message u ∷ [] }) refl
            (rw (count-append is_photo w.outbox (message u ∷ [])) (rw (photo u) (omega arith))),
        λ e. ground (arith, e),
      )
      at_answer u escaped = (refl, refl)

      at_url :
          (prepared : Prepared)
          → OneGrew false w (delivered p s now req message sender media prepared w)
      at_url (unavailable reason) =
          (noted-Grew sender media failed none _ w w refl (omega arith), λ e. refl)
      at_url (url u) = at_answer u (p.deliver (message u) w.outbox)

  pub send_loop-AllGrew :
      (send : Media → Bool → Sharing → Reply ItemResult × Sharing)
      → ((media : Media) (over : Bool) (w : Sharing) → OneGrew over w (send media over w))
      → (targets : List Media) (left : ℕ) (w : Sharing)
      → AllGrew left w (send_loop p s now req send targets left w)
  unfolding send_loop
  send_loop-AllGrew send one [] left w = ((omega arith, omega arith), omega arith)
  send_loop-AllGrew send one (media ∷ targets) left w =
      at_first (send media (left == 0) w) (one media (left == 0) w) (λ r w1.
        send_loop-AllGrew send one targets (if is_sent r.status then left - 1 else left) w1)
    where
      at_rest :
          (r : ItemResult) (w1 : Sharing) (x : Reply (List ItemResult) × Sharing)
          → OneGrew (left == 0) w (ok r, w1)
          → AllGrew (if is_sent r.status then left - 1 else left) w1 x
          → AllGrew left w (x.0 >>= (λ rs. ok (r ∷ rs)), x.1)
      at_rest r w1 (ok rs, w2) first rest = (
        (omega (arith, first, rest), omega (arith, first, rest)),
        ground (arith, first.1, rest.1),
      )
      at_rest r w1 (err e, w2) first (same, (n, rest, within)) = (
        same,
        (
          bit (is_sent r.status) + n,
          (omega (arith, first, rest), omega (arith, first, rest)),
          ground (arith, first.1, within),
        ),
      )

      at_first :
          (x : Reply ItemResult × Sharing)
          → OneGrew (left == 0) w x
          → ((r : ItemResult) (w1 : Sharing)
              → AllGrew (if is_sent r.status then left - 1 else left) w1 (
                  send_loop p s now req send targets
                    (if is_sent r.status then left - 1 else left)
                    w1))
          → AllGrew left w (
              and_more p s now req x (λ r w1.
                send_loop p s now req send targets
                  (if is_sent r.status then left - 1 else left)
                  w1))
      at_first (err e, w1) (same, kept) next =
          (same, (0, rw kept (omega arith, omega arith), omega arith))
      at_first (ok r, w1) first next = at_rest r w1 _ first (next r w1)
