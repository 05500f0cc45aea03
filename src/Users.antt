-- ===== src/Users.antt =====
-- The accounts and their repository (services/backend/src/backend/domain/models.py and
-- adapters/repositories/postgres_users.py).
-- The table is the list of its rows. An e-mail address, a password and a hash are numbers, and the
-- normalization of an address, which works on text, is a parameter. A platform administrator has no
-- school. A write by id changes the one row that has it.
pub mod Rows
use ml_service.Prelude.{
  ℕ, ◌+◌, Bool, true, false, not, ◌&&◌, Option, none, some, List, [], ◌∷◌, ◌++◌, ◌==◌, find, filter,
  count, any, is_some, if◌then◌else◌,
}
use ml_service.Backend.{not_found, conflict, Reply, ok, err}

pub data Role : Type 0 where
  platform_admin school_admin teacher student : Role

abbrev pub same_role : Role → Role → Bool
same_role platform_admin r = elim r [
  | platform_admin ↦ true
  | school_admin ↦ false
  | teacher ↦ false
  | student ↦ false
]
same_role school_admin r = elim r [
  | platform_admin ↦ false
  | school_admin ↦ true
  | teacher ↦ false
  | student ↦ false
]
same_role teacher r = elim r [
  | platform_admin ↦ false
  | school_admin ↦ false
  | teacher ↦ true
  | student ↦ false
]
same_role student r = elim r [
  | platform_admin ↦ false
  | school_admin ↦ false
  | teacher ↦ false
  | student ↦ true
]

pub data UserStatus : Type 0 where
  active disabled : UserStatus

abbrev pub is_active : UserStatus → Bool
is_active active = true
is_active disabled = false

pub record User : Type 0 where
  pub id : ℕ
  pub school_id : Option ℕ
  pub email : ℕ
  pub password_hash : ℕ
  pub role : Role
  pub status : UserStatus
  pub must_change_password : Bool
  pub token_version : ℕ
  pub last_login_at : Option ℕ

abbrev pub of_school : ℕ → Option ℕ → Bool
of_school school_id none = false
of_school school_id (some s) = s == school_id

abbrev pub get : ℕ → List User → Option User
get user_id users = find (λ u. u.id == user_id) users

-- The row of the id, changed.
unfoldable pub update_row : ℕ → (User → User) → List User → List User
update_row user_id f [] = []
update_row user_id f (u ∷ users) =
    let rest = update_row user_id f users in if u.id == user_id then f u ∷ users else u ∷ rest

abbrev pub if_found : List User → Option User → Reply (List User)
if_found users none = err not_found
if_found users (some u) = ok users

-- A real change revokes the older sessions, a rehash does not.
abbrev pub with_password : ℕ → Bool → Bool → User → User
with_password password_hash must_change_password revoke_sessions u = record u {
  password_hash = password_hash;
  must_change_password = must_change_password;
  token_version = if revoke_sessions then u.token_version + 1 else u.token_version;
}

unfoldable pub set_password : ℕ → ℕ → Bool → Bool → List User → Reply (List User)
unfolding update_row
set_password user_id password_hash must_change_password revoke_sessions users =
    if_found
      (update_row user_id (with_password password_hash must_change_password revoke_sessions) users)
      (get user_id users)

unfoldable pub set_status : ℕ → UserStatus → List User → Reply (List User)
unfolding update_row
set_status user_id status users =
    if_found (update_row user_id (λ u. record u { status = status }) users) (get user_id users)

unfoldable pub touch_last_login : ℕ → ℕ → List User → List User
unfolding update_row
touch_last_login now user_id users =
    update_row user_id (λ u. record u { last_login_at = some now }) users

unfoldable pub delete : ℕ → List User → List User
delete user_id users = filter (λ u. not (u.id == user_id)) users

unfoldable pub count_by_school_and_role : ℕ → Role → List User → ℕ
count_by_school_and_role school_id role users =
    count (λ u. of_school school_id u.school_id && same_role u.role role) users

unfoldable pub count_active_by_school_and_role : ℕ → Role → List User → ℕ
count_active_by_school_and_role school_id role users =
    count (λ u. (of_school school_id u.school_id && same_role u.role role) && is_active u.status)
      users

module _ (normalize_email : ℕ → ℕ) where
  abbrev pub get_by_email : ℕ → List User → Option User
  get_by_email email users = find (λ u. u.email == normalize_email email) users

  -- `create`, whose unique constraint is on the address; the id is the database's.
  unfoldable pub create : ℕ → Option ℕ → ℕ → ℕ → Role → Bool → List User → Reply (User × List User)
  create id school_id email password_hash role must_change_password users =
      if is_some (get_by_email email users)
      then err conflict
      else let row : User = record {
        id = id;
        school_id = school_id;
        email = normalize_email email;
        password_hash = password_hash;
        role = role;
        status = active;
        must_change_password = must_change_password;
        token_version = 0;
        last_login_at = none;
      } in
        ok (row, users ++ row ∷ [])
