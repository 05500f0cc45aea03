-- ===== src/Onboarding/Batch.antt =====
-- Many invitations at once: `bulk_create_staff` of
-- services/backend/src/backend/services/onboarding_service.py.
use ml_service.Prelude.{ℕ, Option, none, some, List, [], ◌∷◌}
use ml_service.Backend.{Reply, ok, err, ◌>>=◌}
use ml_service.Onboarding.{
  Office, is_running, Staff, Actor, Provisioned, check, get_school, created, invalid,
  BulkStaffResult, verdict_of, create_teacher,
}

module _ (o : Office) where
  abbrev pub judged : ℕ → Reply Provisioned × Staff → BulkStaffResult × Staff
  judged email (err e, w) =
      (record { email = email; status = verdict_of e; temp_password = none }, w)
  judged email (ok made, w) =
      (record { email = email; status = created; temp_password = some made.temp_password }, w)

  abbrev pub bulk_row : ℕ → Actor → ℕ → Option ℕ → Staff → BulkStaffResult × Staff
  bulk_row school_id actor email none w =
      (record { email = email; status = invalid; temp_password = none }, w)
  bulk_row school_id actor email (some clean) w =
      judged email (create_teacher o school_id clean actor w)

  -- `for email in emails`
  unfoldable pub bulk_loop : ℕ → Actor → List ℕ → Staff → List BulkStaffResult × Staff
  unfolding create_teacher
  bulk_loop school_id actor [] w = ([], w)
  bulk_loop school_id actor (email ∷ emails) w =
      let (r, w1) = bulk_row school_id actor email (o.validate_email email) w in
      let rest = bulk_loop school_id actor emails w1 in (r ∷ rest.0, rest.1)

  abbrev pub bulk_from :
      ℕ → Actor → List ℕ → Staff → Reply (Unit {0}) → Reply (List BulkStaffResult) × Staff
  bulk_from school_id actor emails w (err e) = (err e, w)
  bulk_from school_id actor emails w (ok _) =
      let done = bulk_loop school_id actor emails w in (ok done.0, done.1)

  unfoldable pub bulk_create_staff :
      ℕ → List ℕ → Actor → Staff → Reply (List BulkStaffResult) × Staff
  unfolding get_school bulk_loop
  bulk_create_staff school_id emails actor w =
      bulk_from school_id actor emails w
        (get_school school_id w >>= (λ s. check (is_running s.status)))
