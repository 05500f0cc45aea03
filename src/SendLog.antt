-- ===== src/SendLog.antt =====
-- The log of WhatsApp sends, which is the audit of each attempt and the meter of the monthly budget
-- (services/backend/src/backend/adapters/repositories/postgres_whatsapp_send_log.py, with
-- `_utc_month_start` of services/whatsapp_share_service.py).
-- The log is the list of its rows in the order of their insertion. An instant is a year, a month and
-- what is left of the time, in any unit.
use ml_service.Prelude.{
  ℕ, Bool, true, false, ◌&&◌, ◌||◌, Option, none, some, List, ◌==◌, ltb, leb, count, filter, take,
  sorted, if◌then◌else◌,
}

pub record Instant : Type 0 where
  pub year : ℕ
  pub month : ℕ
  pub rest : ℕ

-- The order of time: `since` is not after `at`.
abbrev pub not_before : Instant → Instant → Bool
not_before since at =
    ltb since.year at.year
    || (since.year == at.year
        && (ltb since.month at.month || (since.month == at.month && leb since.rest at.rest)))

-- `_utc_month_start`
abbrev pub month_start : Instant → Instant
month_start now = record { year = now.year; month = now.month; rest = 0 }

pub data SendStatus : Type 0 where
  sent failed skipped : SendStatus

abbrev pub is_sent : SendStatus → Bool
is_sent sent = true
is_sent failed = false
is_sent skipped = false

abbrev pub is_failed : SendStatus → Bool
is_failed failed = true
is_failed sent = false
is_failed skipped = false

abbrev pub is_skipped : SendStatus → Bool
is_skipped skipped = true
is_skipped sent = false
is_skipped failed = false

-- The texts that stand in `reason` and `error`.
pub data SendReason : Type 0 where
  not_entitled budget image_unavailable upload_failed send_failed : SendReason

-- The ids are `none` once the row they named was erased. There is no phone number.
pub record SendRow : Type 0 where
  pub id : ℕ
  pub school_id : ℕ
  pub student_id : Option ℕ
  pub media_id : Option ℕ
  pub actor_user_id : Option ℕ
  pub actor_role : ℕ
  pub sender_number : ℕ
  pub status : SendStatus
  pub provider_message_id : Option ℕ
  pub error : Option SendReason
  pub created_at : Instant

abbrev pub is_id : ℕ → Option ℕ → Bool
is_id a none = false
is_id a (some b) = b == a

unfoldable pub count_sent_since : ℕ → Instant → List SendRow → ℕ
count_sent_since school_id since rows =
    count
      (λ row. (row.school_id == school_id && is_sent row.status) && not_before since row.created_at)
      rows

unfoldable pub count_sent_by_media : ℕ → ℕ → List SendRow → ℕ
count_sent_by_media school_id media_id rows =
    count (λ row. (row.school_id == school_id && is_id media_id row.media_id) && is_sent row.status)
      rows

-- Newest first, and the larger id first among rows of one instant.
abbrev pub newer : SendRow → SendRow → Bool
newer a b =
    not_before b.created_at a.created_at
    && (if not_before a.created_at b.created_at then ltb b.id a.id else true)

unfoldable pub list_for_student : ℕ → ℕ → ℕ → List SendRow → List SendRow
list_for_student school_id student_id limit rows = take limit (
    sorted newer
      (filter (λ row. row.school_id == school_id && is_id student_id row.student_id) rows))
