-- ===== src/EventStore.antt =====
-- The status columns that the ML worker reads and writes on the backend's `events` and `media`
-- (services/ml_service/src/ml_service/adapters/repository/backend_store.py).
-- A table is the list of its rows, the media in the order of their ids. `completed_at` is kept as
-- whether it has been stamped. `archived` and `enqueued_at` are the backend's columns of the same
-- table, which the worker leaves alone. A malformed id names no row.
pub mod Status
use ml_service.Prelude.{
  ℕ, Bool, true, false, ◌&&◌, Option, none, some, List, [], ◌∷◌, map, ◌==◌, if◌then◌else◌,
}
use ml_service.Media.{MediaType, MediaStatus, media_completed, media_failed, BackendMedia}

pub data EventStatus : Type 0 where
  not_started queued processing completed failed : EventStatus

pub record EventRow : Type 0 where
  pub id : ℕ
  pub school_id : ℕ
  pub status : EventStatus
  pub completed_at : Bool
  pub archived : Bool
  pub enqueued_at : Option ℕ

-- `media_type` is `none` where the column holds a kind that the enum does not know.
pub record MediaRow : Type 0 where
  pub id : ℕ
  pub school_id : ℕ
  pub event_id : ℕ
  pub storage_path : ℕ
  pub media_type : Option MediaType
  pub status : MediaStatus
  pub completed_at : Bool

abbrev pub to_backend_media : MediaRow → MediaType → BackendMedia
to_backend_media row kind = record {
  media_id = row.id;
  media_uri = row.storage_path;
  media_type = kind;
  processing_status = row.status;
}

-- The roster of an event; a row of an unknown kind is skipped.
unfoldable pub list_event_media : ℕ → ℕ → List MediaRow → List BackendMedia
list_event_media school_id event_id [] = []
list_event_media school_id event_id (row ∷ rows) =
    let rest = list_event_media school_id event_id rows in
    if row.school_id == school_id && row.event_id == event_id
    then elim row.media_type [ none ↦ rest | some kind ↦ to_backend_media row kind ∷ rest ]
    else rest

abbrev pub is_row : ℕ → ℕ → MediaRow → Bool
is_row school_id media_id row = row.id == media_id && row.school_id == school_id

unfoldable pub mark_media_completed : ℕ → ℕ → List MediaRow → List MediaRow
mark_media_completed school_id media_id rows =
    map
      (λ row.
        if is_row school_id media_id row
        then record row { status = media_completed; completed_at = true }
        else row)
      rows

unfoldable pub mark_media_failed : ℕ → ℕ → List MediaRow → List MediaRow
mark_media_failed school_id media_id rows =
    map (λ row. if is_row school_id media_id row then record row { status = media_failed } else row)
      rows

-- `_FAILABLE_EVENT_STATES`
abbrev pub failable : EventStatus → Bool
failable queued = true
failable processing = true
failable failed = true
failable not_started = false
failable completed = false

abbrev pub any_state : EventStatus → Bool
any_state s = true

unfoldable pub set_event :
    ℕ → ℕ → EventStatus → Bool → (EventStatus → Bool) → List EventRow → List EventRow
set_event school_id event_id status stamp_completed only_from rows =
    map
      (λ row.
        if row.id == event_id && row.school_id == school_id && only_from row.status
        then record row {
          status = status;
          completed_at = if stamp_completed then true else row.completed_at;
        }
        else row)
      rows

unfoldable pub mark_event_processing : ℕ → ℕ → List EventRow → List EventRow
unfolding set_event
mark_event_processing school_id event_id = set_event school_id event_id processing false any_state

unfoldable pub mark_event_completed : ℕ → ℕ → List EventRow → List EventRow
unfolding set_event
mark_event_completed school_id event_id = set_event school_id event_id completed true any_state

unfoldable pub mark_event_failed : ℕ → ℕ → List EventRow → List EventRow
unfolding set_event
mark_event_failed school_id event_id = set_event school_id event_id failed false failable
