-- ===== src/EventService/Press.antt =====
-- When the "Process" button is accepted, and what it changes.
use ml_service.Prelude.{ℕ, Bool, not, ◌&&◌, Option, none, some, ◌==◌, find, if◌then◌else◌}
use ml_service.Backend.{validation, not_found, upstream, Reply, ok, err}
use ml_service.Media.{EventJob}
use ml_service.EventStore.{queued, EventRow}
use ml_service.Inference.{Db}
use ml_service.EventService.{is_event_of, outstanding, in_flight, has_failed, is_stale, set_queued}

-- An event of a given row may be processed: it is active, no recent job of it is in flight, and
-- there is a photo left to do or it has failed.
abbrev pub is_processable : ℕ → ℕ → ℕ → EventRow → Bool
is_processable stale now left row =
    not row.archived
    && (not (in_flight row.status && not (is_stale stale now row.enqueued_at))
        && not (left == 0 && not (has_failed row.status)))

-- The row after an accepted press.
abbrev pub queued_at : ℕ → EventRow → EventRow
queued_at now row = record row { status = queued; enqueued_at = some now }

abbrev queued_row : ℕ → Option EventRow → Option EventRow
queued_row now none = none
queued_row now (some row) = some (queued_at now row)

module _ {Q : Type 0} (send : EventJob → Q → Option Q) (meanwhile : Db × Q → Db × Q)
    (stale now school event : ℕ) where
  -- The end of an accepted press, from the tables and the stream as they are by then.
  abbrev pub ended : Db × Q → Reply EventRow × (Db × Q)
  ended (db, q) = (
    elim (find (is_event_of school event) db.events) [
      | none ↦ err not_found
      | some row ↦ ok (queued_at now row)
    ],
    (record db { events = set_queued now event db.events }, q),
  )

  -- What a press answers and leaves, from the event's row.
  abbrev pub pressed : Db → Q → Option EventRow → Reply EventRow × (Db × Q)
  pressed db q none = (err not_found, (db, q))
  pressed db q (some row) =
      if is_processable stale now (outstanding school event db.media) row
      then elim (send (record { school_id = school; event_id = event }) q) [
        | none ↦ (err upstream, (db, q))
        | some q' ↦ ended (meanwhile (db, q'))
      ]
      else (err validation, (db, q))
