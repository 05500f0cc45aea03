-- ===== src/EventStore/Status.antt =====
-- The guard on `failed`: what a dead letter does to the row of an event.
use ml_service.Prelude.{
  ℕ, ◌≡◌, refl, ap₂, Bool, true, false, ◌&&◌, ◌||◌, not, List, [], ◌∷◌, map, arith, ◌==◌, All,
}
use ml_service.EventStore.{
  EventStatus, not_started, queued, processing, completed, failed, EventRow, mark_event_processing,
  mark_event_completed, mark_event_failed,
}

abbrev pub is_event : ℕ → ℕ → EventRow → Bool
is_event school_id event_id row = row.id == event_id && row.school_id == school_id

abbrev pub is_failed : EventStatus → Bool
is_failed failed = true
is_failed not_started = false
is_failed queued = false
is_failed processing = false
is_failed completed = false

-- Two ways to rewrite each row agree on a table if they agree on each row.
map-congr : {A : Type 0} (f g : A → A) (xs : List A) → ((x : A) → f x ≡ g x) → map f xs ≡ map g xs
map-congr f g [] h = refl
map-congr f g (x ∷ xs) h = ap₂ (λ y ys. y ∷ ys) (h x) (map-congr f g xs h)

module _ (school_id event_id : ℕ) where
  completed_stays :
      (rows : List EventRow)
      → mark_event_failed school_id event_id (mark_event_completed school_id event_id rows)
        ≡ mark_event_completed school_id event_id rows
  unfolding mark_event_failed mark_event_completed
  completed_stays [] = refl
  completed_stays (row ∷ rows) = ap₂ (λ y ys. y ∷ ys) (ground arith) (completed_stays rows)

  processing_fails :
      (rows : List EventRow)
      → All
          (λ row. (not (is_event school_id event_id row) || is_failed row.status) ≡ true)
          (mark_event_failed school_id event_id (mark_event_processing school_id event_id rows))
  unfolding mark_event_failed mark_event_processing
  processing_fails [] = tt
  processing_fails (row ∷ rows) = (ground arith, processing_fails rows)

  failed_again :
      (rows : List EventRow)
      → mark_event_failed school_id event_id (mark_event_failed school_id event_id rows)
        ≡ mark_event_failed school_id event_id rows
  unfolding mark_event_failed
  failed_again [] = refl
  failed_again (row ∷ rows) = ap₂ (λ y ys. y ∷ ys) (ground arith) (failed_again rows)

  -- A dead letter that is drained after its event completed changes nothing; one that is drained
  -- while the event is `processing` leaves the event `failed`; and marking it twice is marking it once.
  pub mark_event_failed_guard :
      (rows : List EventRow)
      → (mark_event_failed school_id event_id (mark_event_completed school_id event_id rows)
          ≡ mark_event_completed school_id event_id rows)
        × All
            (λ row. (not (is_event school_id event_id row) || is_failed row.status) ≡ true)
            (mark_event_failed school_id event_id (mark_event_processing school_id event_id rows))
        × (mark_event_failed school_id event_id (mark_event_failed school_id event_id rows)
            ≡ mark_event_failed school_id event_id rows)
  mark_event_failed_guard rows = (completed_stays rows, processing_fails rows, failed_again rows)
