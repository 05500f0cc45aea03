-- ===== src/EventService.antt =====
-- The "Process" button and the archive of events
-- (services/backend/src/backend/services/event_service.py, with the writes of
-- adapters/repositories/postgres_events.py and the counts of postgres_media.py).
-- The tables are those the worker shares. A time is a number of units of the clock, and `stale` the
-- configured threshold in the same units. The stream is a state `Q` with a producer `send`, which
-- fails where Redis does; `meanwhile` is what the worker and other requests do to the tables and to
-- the stream after the job was sent and before the status is written.
pub mod Press
use ml_service.Prelude.{
  ℕ, ◌+◌, Bool, true, false, not, ◌&&◌, ◌||◌, Option, none, some, List, [], ◌∷◌, map, ◌==◌, leb,
  find, count, elem, if◌then◌else◌,
}
use ml_service.Backend.{validation, not_found, upstream, Reply, ok, err, ◌>>=◌, ◌>>◌, or_not_found}
use ml_service.Media.{EventJob, MediaStatus, pending, media_completed, media_failed}
use ml_service.EventStore.{
  EventStatus, not_started, queued, processing, completed, failed, EventRow, MediaRow,
}
use ml_service.Inference.{Db}

-- `_require...` as a step of a `do` block: the failure unless the test holds.
abbrev pub require : Bool → Reply (Unit {0})
require true = ok tt
require false = err validation

abbrev pub is_event_of : ℕ → ℕ → EventRow → Bool
is_event_of school_id event_id row = row.id == event_id && row.school_id == school_id

unfoldable pub get_event : ℕ → ℕ → List EventRow → Reply EventRow
get_event school_id event_id rows = or_not_found (find (is_event_of school_id event_id) rows)

abbrev pub is_outstanding : MediaStatus → Bool
is_outstanding pending = true
is_outstanding media_failed = true
is_outstanding media_completed = false

-- `status_counts`, the pending and the failed photos of the event together.
unfoldable pub outstanding : ℕ → ℕ → List MediaRow → ℕ
outstanding school_id event_id rows =
    count
      (λ row. (row.school_id == school_id && row.event_id == event_id) && is_outstanding row.status)
      rows

abbrev pub in_flight : EventStatus → Bool
in_flight queued = true
in_flight processing = true
in_flight not_started = false
in_flight completed = false
in_flight failed = false

abbrev pub has_failed : EventStatus → Bool
has_failed failed = true
has_failed not_started = false
has_failed queued = false
has_failed processing = false
has_failed completed = false

-- `_is_stale_in_flight`
abbrev pub is_stale : ℕ → ℕ → Option ℕ → Bool
is_stale stale now none = true
is_stale stale now (some enqueued_at) = leb (enqueued_at + stale) now

-- The checks of `process_event`, in order.
unfoldable pub require_processable : ℕ → ℕ → ℕ → ℕ → Db → Reply EventRow
unfolding get_event outstanding
require_processable stale now school_id event_id db = do
  event ← get_event school_id event_id db.events
  require (not event.archived)
  require (not (in_flight event.status && not (is_stale stale now event.enqueued_at)))
  require (not (outstanding school_id event_id db.media == 0 && not (has_failed event.status)))
  ok event

-- `set_processing` with `queued`: a fresh `enqueued_at`, and `completed_at` is kept.
unfoldable pub set_queued : ℕ → ℕ → List EventRow → List EventRow
set_queued now event_id rows =
    map
      (λ row.
        if row.id == event_id then record row { status = queued; enqueued_at = some now } else row)
      rows

module _ {Q : Type 0} (send : EventJob → Q → Option Q) (meanwhile : Db × Q → Db × Q)
    (stale now school_id event_id : ℕ) where
  -- The status, over whatever the tables are by then, and the row as it is read back.
  abbrev pub marked : Db × Q → Reply EventRow × (Db × Q)
  marked (db, q) =
      let db' : Db = record db { events = set_queued now event_id db.events } in
      (get_event school_id event_id db'.events, (db', q))

  -- Enqueue first, then the status: a failed enqueue leaves the event as it was.
  abbrev pub sent : Db → Q → Option Q → Reply EventRow × (Db × Q)
  sent db q none = (err upstream, (db, q))
  sent db q (some q') = marked (meanwhile (db, q'))

  abbrev pub dispatch : Db → Q → Reply EventRow → Reply EventRow × (Db × Q)
  dispatch db q (err e) = (err e, (db, q))
  dispatch db q (ok event) =
      sent db q (send (record { school_id = school_id; event_id = event_id }) q)

  unfoldable pub process_event : Db → Q → Reply EventRow × (Db × Q)
  unfolding require_processable set_queued
  process_event db q = dispatch db q (require_processable stale now school_id event_id db)

-- `set_status_bulk`: a foreign id is skipped; the reply is the number of rows written.
abbrev pub is_selected : ℕ → List ℕ → EventRow → Bool
is_selected school_id event_ids row = row.school_id == school_id && elem row.id event_ids

unfoldable pub set_status_bulk : ℕ → List ℕ → Bool → List EventRow → ℕ × List EventRow
set_status_bulk school_id event_ids archived rows = (
  count (is_selected school_id event_ids) rows,
  map
      (λ row.
        if is_selected school_id event_ids row then record row { archived = archived } else row)
      rows,
)
