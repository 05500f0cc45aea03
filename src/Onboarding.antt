-- ===== src/Onboarding.antt =====
-- Schools and staff (services/backend/src/backend/services/onboarding_service.py): invitations, the
-- cap on teachers, and the switch of an account.
-- The state is the accounts, the schools and the governance audit. Names and addresses are numbers;
-- `clean_name` strips a name and says whether it has 1 to 200 characters, `validate_email` checks an
-- address, `fresh` and `secret` are the database's new id and the generated password, and `audits`
-- says whether a row of the best-effort audit is written. Two requests do not interleave.
pub mod Batch
pub mod Schools
pub mod Admins
pub mod StaffRuns
pub mod Teachers
use ml_service.Prelude.{
  ℕ, ◌+◌, Bool, true, false, not, ◌&&◌, Option, none, some, List, [], ◌∷◌, ◌++◌, map, ◌==◌, ltb,
  leb, find, is_some, if◌then◌else◌,
}
use ml_service.Backend.{
  not_found, conflict, limit_exceeded, validation, configuration, authentication, authorization,
  unexpected, upstream, BackendError, Reply, ok, err, ◌>>=◌, ◌>>◌, or_not_found,
}
use ml_service.Users.{
  Role, platform_admin, school_admin, teacher, student, same_role, User, UserStatus, active,
  disabled, is_active, of_school, get, create, set_password, set_status, count_by_school_and_role,
  count_active_by_school_and_role,
}

-- `running` is the source's ACTIVE.
pub data SchoolStatus : Type 0 where
  running suspended : SchoolStatus

abbrev pub is_running : SchoolStatus → Bool
is_running running = true
is_running suspended = false

pub record School : Type 0 where
  pub id : ℕ
  pub name : ℕ
  pub max_teachers : ℕ
  pub status : SchoolStatus

pub data AdminAction : Type 0 where
  school_updated staff_created staff_disabled staff_enabled staff_invite_resent : AdminAction

pub record ActionRow : Type 0 where
  pub school_id : ℕ
  pub actor_user_id : Option ℕ
  pub actor_role : Role
  pub action : AdminAction
  pub target_id : ℕ
  pub target_label : ℕ

pub record Staff : Type 0 where
  pub users : List User
  pub schools : List School
  pub audit : List ActionRow

-- The actor as the route passes it on.
pub record Actor : Type 0 where
  pub user_id : Option ℕ
  pub role : Option Role

pub record Office : Type 0 where
  pub normalize_email : ℕ → ℕ
  pub validate_email : ℕ → Option ℕ
  pub clean_name : ℕ → Option ℕ
  pub fresh : List User → ℕ
  pub fresh_school : List School → ℕ
  pub secret : List User → ℕ
  pub hash : ℕ → ℕ
  pub audits : ActionRow → List ActionRow → Bool

pub record Provisioned : Type 0 where
  pub user : User
  pub temp_password : ℕ

abbrev pub check : Bool → Reply (Unit {0})
check true = ok tt
check false = err validation

unfoldable pub get_school : ℕ → Staff → Reply School
get_school school_id w = or_not_found (find (λ x. x.id == school_id) w.schools)

pub data BulkStatus : Type 0 where
  created duplicate invalid limit_reached row_error : BulkStatus

abbrev pub is_created : BulkStatus → Bool
is_created created = true
is_created duplicate = false
is_created invalid = false
is_created limit_reached = false
is_created row_error = false

pub record BulkStaffResult : Type 0 where
  pub email : ℕ
  pub status : BulkStatus
  pub temp_password : Option ℕ

-- The `except` clauses of one row.
abbrev pub verdict_of : BackendError → BulkStatus
verdict_of limit_exceeded = limit_reached
verdict_of conflict = duplicate
verdict_of validation = row_error
verdict_of not_found = row_error
verdict_of configuration = row_error
verdict_of authentication = row_error
verdict_of authorization = row_error
verdict_of unexpected = row_error
verdict_of upstream = row_error

-- A field that is not given is kept.
abbrev pub given {ℓ} : {A : Type ℓ} → A → Option A → A
given old none = old
given old (some new) = new

-- `user.status is status`
abbrev pub same_status : UserStatus → UserStatus → Bool
same_status active s = is_active s
same_status disabled s = not (is_active s)

abbrev pub is_managed : ℕ → Role → User → Bool
is_managed school_id role u = of_school school_id u.school_id && same_role u.role role

abbrev pub managed : ℕ → Role → User → Reply User
managed school_id role u = if is_managed school_id role u then ok u else err not_found

-- `_require_managed_user`
unfoldable pub require_managed_user : ℕ → ℕ → Role → List User → Reply User
require_managed_user school_id user_id role users =
    or_not_found (get user_id users) >>= managed school_id role

abbrev pub or_same : {A : Type 0} → Staff → Reply (A × Staff) → Reply A × Staff
or_same w (err e) = (err e, w)
or_same w (ok x) = (ok x.0, x.1)

abbrev pub action_of : UserStatus → AdminAction
action_of disabled = staff_disabled
action_of active = staff_enabled

-- The guard on the last administrator who can sign in.
unfoldable pub is_last_admin : ℕ → Role → UserStatus → User → List User → Bool
unfolding count_active_by_school_and_role
is_last_admin school_id role status u users =
    (same_role role school_admin && not (is_active status))
    && (is_active u.status && leb (count_active_by_school_and_role school_id school_admin users) 1)

module _ (o : Office) where
  abbrev pub row_of : ℕ → Option ℕ → Role → AdminAction → ℕ → ℕ → ActionRow
  row_of school_id actor role action target_id target_label = record {
    school_id = school_id;
    actor_user_id = actor;
    actor_role = role;
    action = action;
    target_id = target_id;
    target_label = target_label;
  }

  -- `_record_action`: nothing without a role, and a row that cannot be written is dropped.
  unfoldable pub record_action : ℕ → Actor → AdminAction → ℕ → ℕ → Staff → Staff
  record_action school_id actor action target_id target_label w = elim actor.role [
    | none ↦ w
    | some role ↦
        let row = row_of school_id actor.user_id role action target_id target_label in
        if o.audits row w.audit then record w { audit = w.audit ++ row ∷ [] } else w
  ]

  -- `_provision`
  unfoldable pub provision : ℕ → ℕ → Role → Staff → Reply (Provisioned × Staff)
  unfolding create
  provision school_id email role w = do
    made ←
        create o.normalize_email (o.fresh w.users) (some school_id) email
          (o.hash (o.secret w.users)) role true w.users
    ok (record { user = made.0; temp_password = o.secret w.users }, record w { users = made.1 })

  abbrev pub invited : ℕ → Actor → Provisioned × Staff → Reply (Provisioned × Staff)
  invited school_id actor x =
      ok (x.0, record_action school_id actor staff_created x.0.user.id x.0.user.email x.1)

  unfoldable pub create_school_admin : ℕ → ℕ → Actor → Staff → Reply Provisioned × Staff
  unfolding get_school provision record_action
  create_school_admin school_id email actor w = or_same w (
      get_school school_id w
      >>= (λ s. provision school_id email school_admin w >>= invited school_id actor))

  -- The checks of `create_teacher`: the school runs, and has fewer teachers than its cap.
  unfoldable pub room_for_teacher : ℕ → Staff → Reply (Unit {0})
  unfolding get_school count_by_school_and_role
  room_for_teacher school_id w = do
    school ← get_school school_id w
    check (is_running school.status)
    (if leb school.max_teachers (count_by_school_and_role school_id teacher w.users)
        then err limit_exceeded
        else ok tt)

  unfoldable pub create_teacher : ℕ → ℕ → Actor → Staff → Reply Provisioned × Staff
  unfolding room_for_teacher provision record_action
  create_teacher school_id email actor w = or_same w (
      room_for_teacher school_id w
      >>= (λ u. provision school_id email teacher w >>= invited school_id actor))

  abbrev pub or_else_user : User → Option User → User
  or_else_user u none = u
  or_else_user u (some x) = x

  abbrev pub switched : ℕ → Actor → UserStatus → User → Staff → List User → Reply (User × Staff)
  switched school_id actor status u w users =
      let w1 =
        record_action school_id actor (action_of status) u.id u.email
          (record w { users = users }) in
      ok (or_else_user u (get u.id w1.users), w1)

  abbrev pub switch : ℕ → Role → UserStatus → Actor → Staff → User → Reply (User × Staff)
  switch school_id role status actor w u =
      if same_status u.status status
      then ok (u, w)
      else if is_last_admin school_id role status u w.users
      then err validation
      else set_status u.id status w.users >>= switched school_id actor status u w

  unfoldable pub set_staff_status : ℕ → ℕ → Role → UserStatus → Actor → Staff → Reply User × Staff
  unfolding require_managed_user is_last_admin set_status record_action
  set_staff_status school_id user_id role status actor w =
      or_same w (
        require_managed_user school_id user_id role w.users
        >>= switch school_id role status actor w)

  abbrev pub resent : ℕ → Actor → User → ℕ → Staff → List User → Reply (Provisioned × Staff)
  resent school_id actor u secret w users =
      let w1 =
        record_action school_id actor staff_invite_resent u.id u.email
          (record w { users = users }) in
      ok (record { user = or_else_user u (get u.id w1.users); temp_password = secret }, w1)

  abbrev pub reset : ℕ → Actor → Staff → User → Reply (Provisioned × Staff)
  reset school_id actor w u =
      let secret = o.secret w.users in
      set_password u.id (o.hash secret) true true w.users >>= resent school_id actor u secret w

  unfoldable pub resend_invite : ℕ → ℕ → Role → Actor → Staff → Reply Provisioned × Staff
  unfolding require_managed_user set_password record_action
  resend_invite school_id user_id role actor w =
      or_same w (require_managed_user school_id user_id role w.users >>= reset school_id actor w)
