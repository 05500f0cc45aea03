-- ===== src/Onboarding/StaffRuns.antt =====
-- Through any operations on the staff, a school that has an administrator who can sign in keeps one.
use ml_service.Prelude.{
  ℕ, ◌≤◌, ◌≡◌, sym, ap, subst, true, false, inl, inr, Bool-cases, some, List, [], ◌∷◌, arith,
  count-append,
}
use ml_service.Backend.{ok, ◌>>=◌, >>=-eq-ok, ok-injective}
use ml_service.Users.{
  Role, school_admin, teacher, User, UserStatus, get, with_password, set_password, set_status,
  create, count_active_by_school_and_role,
}
use ml_service.Users.Rows.{create-ok}
use ml_service.Onboarding.{
  Staff, Actor, Office, Provisioned, AdminAction, is_managed, require_managed_user, or_same,
  record_action, get_school, create_school_admin, room_for_teacher, create_teacher, staff_created,
  staff_invite_resent, provision, invited, same_status, is_last_admin, action_of, switched, switch,
  set_staff_status, resent, reset, resend_invite,
}
use ml_service.Onboarding.Teachers.{record_action-keeps}
use ml_service.Onboarding.Admins.{
  admins, is_admin, spared, HasAdmin, bind-HasAdmin, written-HasAdmin, managed-row,
}

module _ (o : Office) (school : ℕ) where
  audited-HasAdmin :
      (at : ℕ) (actor : Actor) (action : AdminAction) (target label : ℕ) (w : Staff)
      → HasAdmin school w
      → HasAdmin school (record_action o at actor action target label w)
  audited-HasAdmin at actor action target label w has =
      subst (λ (us : List User). 1 ≤ admins school us)
        (sym (record_action-keeps o at actor action target label w).0) has

  status-HasAdmin :
      (at : ℕ) (role : Role) (status : UserStatus) (u : User) (users users' : List User)
      → (get u.id users ≡ some u) × (is_managed at role u ≡ true)
      → is_last_admin at role status u users ≡ false
      → 1 ≤ admins school users
      → set_status u.id status users ≡ ok users'
      → 1 ≤ admins school users'
  unfolding set_status
  status-HasAdmin at role status u users users' row passed has h =
      written-HasAdmin school u.id (λ x. record x { status = status }) u users users' row.0 h
        (spared at school role status u users row.1 passed has)

  password-HasAdmin :
      (hash : ℕ) (u : User) (users users' : List User)
      → get u.id users ≡ some u
      → 1 ≤ admins school users
      → set_password u.id hash true true users ≡ ok users'
      → 1 ≤ admins school users'
  unfolding set_password
  password-HasAdmin hash u users users' here has h =
      written-HasAdmin school u.id (with_password hash true true) u users users' here h
        (omega (arith, has))

  set_staff_status-HasAdmin :
      (at user_id : ℕ) (role : Role) (status : UserStatus) (actor : Actor) (w : Staff)
      → HasAdmin school w
      → HasAdmin school (set_staff_status o at user_id role status actor w).1
  unfolding set_staff_status
  set_staff_status-HasAdmin at user_id role status actor w has =
      bind-HasAdmin o school w (require_managed_user at user_id role w.users)
        (switch o at role status actor w) has
        (λ u found. at_user u (managed-row at user_id role u w.users found))
    where
      at_write :
          (u : User)
          → (get u.id w.users ≡ some u) × (is_managed at role u ≡ true)
          → is_last_admin at role status u w.users ≡ false
          → (users : List User) → set_status u.id status w.users ≡ ok users
          → 1 ≤ admins school users
      at_write u row passed users h =
          status-HasAdmin at role status u w.users users row passed has h

      at_user :
          (u : User)
          → (get u.id w.users ≡ some u) × (is_managed at role u ≡ true)
          → HasAdmin school (or_same w (switch o at role status actor w u)).1
      at_user u row = elim (Bool-cases (same_status u.status status)) [
        | inl same ↦ rw same has
        | inr other ↦ rw other (elim (Bool-cases (is_last_admin at role status u w.users)) [
          | inl last ↦ rw last has
          | inr passed ↦ rw passed (
              bind-HasAdmin o school w (set_status u.id status w.users)
                (switched o at actor status u w) has
                (λ users h.
                  audited-HasAdmin at actor (action_of status) u.id u.email
                    (record w { users = users }) (at_write u row passed users h)))
        ])
      ]

  resend_invite-HasAdmin :
      (at user_id : ℕ) (role : Role) (actor : Actor) (w : Staff)
      → HasAdmin school w
      → HasAdmin school (resend_invite o at user_id role actor w).1
  unfolding resend_invite
  resend_invite-HasAdmin at user_id role actor w has =
      bind-HasAdmin o school w (require_managed_user at user_id role w.users) (reset o at actor w)
        has
        (λ u found.
          let secret = o.secret w.users in
          bind-HasAdmin o school w (set_password u.id (o.hash secret) true true w.users)
            (resent o at actor u secret w) has
            (λ users h.
              audited-HasAdmin at actor staff_invite_resent u.id u.email
                (record w { users = users })
                (password-HasAdmin (o.hash secret) u w.users users
                  (managed-row at user_id role u w.users found).0 has h)))

  provision-HasAdmin :
      (at email : ℕ) (role : Role) (w : Staff) (x : Provisioned × Staff)
      → provision o at email role w ≡ ok x
      → HasAdmin school w
      → HasAdmin school x.1
  unfolding provision count_active_by_school_and_role
  provision-HasAdmin at email role w x h has =
      let (made, created, h1) =
        >>=-eq-ok
          (create o.normalize_email (o.fresh w.users) (some at) email (o.hash (o.secret w.users))
            role true w.users)
          _ h in
      let row =
        create-ok o.normalize_email (o.fresh w.users) (some at) email (o.hash (o.secret w.users))
          role true w.users made.1 made.0 created in
      let more = count-append (is_admin school) w.users (made.0 ∷ []) in
      let last = ap (λ (us : List User). admins school us) row.0 in
      subst (λ (y : Provisioned × Staff). HasAdmin school y.1) (ok-injective h1)
        (omega (arith, has, more, last))

  invited-HasAdmin :
      (at email : ℕ) (role : Role) (actor : Actor) (w : Staff)
      → HasAdmin school w
      → HasAdmin school (or_same w (provision o at email role w >>= invited o at actor)).1
  invited-HasAdmin at email role actor w has =
      bind-HasAdmin o school w (provision o at email role w) (invited o at actor) has (λ x h.
        audited-HasAdmin at actor staff_created x.0.user.id x.0.user.email x.1
          (provision-HasAdmin at email role w x h has))

  create_school_admin-HasAdmin :
      (at email : ℕ) (actor : Actor) (w : Staff)
      → HasAdmin school w
      → HasAdmin school (create_school_admin o at email actor w).1
  unfolding create_school_admin
  create_school_admin-HasAdmin at email actor w has =
      bind-HasAdmin o school w (get_school at w)
        (λ s. provision o at email school_admin w >>= invited o at actor) has
        (λ s e. invited-HasAdmin at email school_admin actor w has)

  create_teacher-HasAdmin :
      (at email : ℕ) (actor : Actor) (w : Staff)
      → HasAdmin school w
      → HasAdmin school (create_teacher o at email actor w).1
  unfolding create_teacher
  create_teacher-HasAdmin at email actor w has =
      bind-HasAdmin o school w (room_for_teacher o at w)
        (λ u. provision o at email teacher w >>= invited o at actor) has
        (λ u e. invited-HasAdmin at email teacher actor w has)

-- One operation on the staff, of any school.
pub data StaffStep (o : Office) : Staff → Staff → Type 0 where
  switches_staff :
      (at user_id : ℕ) (role : Role) (status : UserStatus) (actor : Actor) (w : Staff)
      → StaffStep o w (set_staff_status o at user_id role status actor w).1
  resends_invite :
      (at user_id : ℕ) (role : Role) (actor : Actor) (w : Staff)
      → StaffStep o w (resend_invite o at user_id role actor w).1
  invites_admin :
      (at email : ℕ) (actor : Actor) (w : Staff)
      → StaffStep o w (create_school_admin o at email actor w).1
  invites_teacher :
      (at email : ℕ) (actor : Actor) (w : Staff)
      → StaffStep o w (create_teacher o at email actor w).1

pub data StaffRun (o : Office) : Staff → Staff → Type 0 where
  rests : (w : Staff) → StaffRun o w w
  acts : (a b c : Staff) → StaffStep o a b → StaffRun o b c → StaffRun o a c

step-HasAdmin :
    (o : Office) (school : ℕ) (a b : Staff)
    → StaffStep o a b
    → HasAdmin school a
    → HasAdmin school b
step-HasAdmin o school a _ (switches_staff at user_id role status actor _) has =
    set_staff_status-HasAdmin o school at user_id role status actor a has
step-HasAdmin o school a _ (resends_invite at user_id role actor _) has =
    resend_invite-HasAdmin o school at user_id role actor a has
step-HasAdmin o school a _ (invites_admin at email actor _) has =
    create_school_admin-HasAdmin o school at email actor a has
step-HasAdmin o school a _ (invites_teacher at email actor _) has =
    create_teacher-HasAdmin o school at email actor a has

-- A school with an administrator who can sign in keeps one, through any sequence of operations on
-- the staff of any school: accounts switched on and off, invitations and their resending, whichever
-- of them fail.
pub run-HasAdmin :
    (o : Office) (school : ℕ) (a b : Staff) → StaffRun o a b → HasAdmin school a → HasAdmin school b
run-HasAdmin o school a _ (rests _) has = has
run-HasAdmin o school a c (acts _ b _ step run) has =
    run-HasAdmin o school b c run (step-HasAdmin o school a b step has)
