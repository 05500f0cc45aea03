-- ===== src/Onboarding/Admins.antt =====
-- What one write to an account does to the number of administrators who can sign in.
use ml_service.Prelude.{
  ℕ, ◌+◌, ◌≤◌, ◌≡◌, refl, sym, ◌∙◌, ap, subst, Bool, true, false, ◌&&◌, inl, inr, Bool-cases,
  Option, none, some, List, arith, if◌then◌else◌,
}
use ml_service.Backend.{Reply, ok, err, ◌>>=◌, or_not_found, >>=-eq-ok, ok-injective}
use ml_service.Users.{
  Role, platform_admin, school_admin, teacher, student, same_role, User, UserStatus, active,
  disabled, is_active, of_school, get, if_found, update_row, count_active_by_school_and_role,
}
use ml_service.Users.Rows.{get-id, count-update_row}
use ml_service.Onboarding.{
  Staff, Office, is_managed, managed, require_managed_user, or_same, is_last_admin,
}

-- The administrators of a school who can sign in.
abbrev pub admins : ℕ → List User → ℕ
admins school users = count_active_by_school_and_role school school_admin users

abbrev pub is_admin : ℕ → User → Bool
is_admin school u =
    (of_school school u.school_id && same_role u.role school_admin) && is_active u.status

abbrev bit : Bool → ℕ
bit b = if b then 1 else 0

-- One row changes, and the administrators with it.
admins-update_row :
    (school user_id : ℕ) (f : User → User) (u : User) (users : List User)
    → get user_id users ≡ some u
    → admins school (update_row user_id f users) + bit (is_admin school u)
      ≡ admins school users + bit (is_admin school (f u))
unfolding count_active_by_school_and_role
admins-update_row school user_id f u users h =
    count-update_row (is_admin school) user_id f u users h

one_school : (a b : ℕ) (o : Option ℕ) → of_school a o ≡ true → of_school b o ≡ true → a ≡ b
one_school a b none ha hb = ground (arith, ha)
one_school a b (some s) ha hb = ground (arith, ha, hb)

one_role :
    (r role : Role)
    → same_role r role ≡ true
    → same_role r school_admin ≡ true
    → same_role role school_admin ≡ true
one_role platform_admin role h k = ground (arith, k)
one_role school_admin platform_admin h k = ground (arith, h)
one_role school_admin school_admin h k = refl
one_role school_admin teacher h k = ground (arith, h)
one_role school_admin student h k = ground (arith, h)
one_role teacher role h k = ground (arith, k)
one_role student role h k = ground (arith, k)

-- An administrator of the school whom the guard lets go is not the last.
not_the_last :
    (at school : ℕ) (role : Role) (u : User) (users : List User)
    → is_managed at role u ≡ true
    → is_admin school u ≡ true
    → is_last_admin at role disabled u users ≡ false
    → 2 ≤ admins school users
unfolding is_last_admin
not_the_last at school role u users here admin passed =
    let same : at ≡ school =
      one_school at school u.school_id (ground (arith, here)) (ground (arith, admin)) in
    let is_role = one_role u.role role (ground (arith, here)) (ground (arith, admin)) in
    subst (λ (s : ℕ). 2 ≤ admins s users) same (ground (arith, passed, is_role, admin))

-- The guard of a change of the status, on either side.
pub spared :
    (at school : ℕ) (role : Role) (status : UserStatus) (u : User) (users : List User)
    → is_managed at role u ≡ true
    → is_last_admin at role status u users ≡ false
    → 1 ≤ admins school users
    → bit (is_admin school u) + 1
      ≤ bit (is_admin school (record u { status = status })) + admins school users
spared at school role active u users here passed some_admin = ground (arith, some_admin)
spared at school role disabled u users here passed some_admin =
    elim (Bool-cases (is_admin school u)) [
      | inl admin ↦
          let two = not_the_last at school role u users here admin passed in
          rw admin (omega (arith, two))
      | inr other ↦ rw other (omega (arith, some_admin))
    ]

abbrev pub HasAdmin : ℕ → Staff → Type 0
HasAdmin school w = 1 ≤ admins school w.users

-- An operation that fails leaves the state, so only its end has to be looked at.
pub bind-HasAdmin :
    {A B : Type 0} (o : Office) (school : ℕ) (w : Staff) (m : Reply B) (k : B → Reply (A × Staff))
    → HasAdmin school w
    → ((b : B) → m ≡ ok b → HasAdmin school (or_same w (k b)).1)
    → HasAdmin school (or_same w (m >>= k)).1
bind-HasAdmin o school w (err e) k has next = has
bind-HasAdmin o school w (ok b) k has next = next b refl

-- A write to the row of `u`, which leaves as many administrators as it took.
pub written-HasAdmin :
    (school user_id : ℕ) (f : User → User) (u : User) (users users' : List User)
    → get user_id users ≡ some u
    → if_found (update_row user_id f users) (get user_id users) ≡ ok users'
    → bit (is_admin school u) + 1 ≤ bit (is_admin school (f u)) + admins school users
    → 1 ≤ admins school users'
written-HasAdmin school user_id f u users users' here h enough =
    let same : update_row user_id f users ≡ users' = ok-injective (sym (rw here refl) ∙ h) in
    let change = admins-update_row school user_id f u users here in
    subst (λ (us : List User). 1 ≤ admins school us) same (omega (arith, change, enough))

pub managed-row :
    (at user_id : ℕ) (role : Role) (u : User) (users : List User)
    → require_managed_user at user_id role users ≡ ok u
    → (get u.id users ≡ some u) × (is_managed at role u ≡ true)
unfolding require_managed_user
managed-row at user_id role u users h =
    let (x, found, h1) = >>=-eq-ok (or_not_found (get user_id users)) (managed at role) h in
    let here = from (get user_id users) x found in
    let (yes_managed, same) = is_one x h1 in
    let there = here ∙ ap some same in
    (
      subst (λ (i : ℕ). get i users ≡ some u) (sym (get-id user_id u users there)) there,
      subst (λ (y : User). is_managed at role y ≡ true) same yes_managed,
    )
  where
    from : (o : Option User) (x : User) → or_not_found o ≡ ok x → o ≡ some x
    from none x e = ground (arith, e)
    from (some y) x e = ap some (ok-injective e)

    is_one : (x : User) → managed at role x ≡ ok u → (is_managed at role x ≡ true) × (x ≡ u)
    is_one x e = elim (Bool-cases (is_managed at role x)) [
      | inl it ↦ (it, ok-injective (sym (rw it refl) ∙ e))
      | inr other ↦ ground (arith, e, other)
    ]
