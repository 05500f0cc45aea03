-- ===== src/Auth/Runs.antt =====
-- What may happen to the accounts over time, and that no account goes back to an older version.
use ml_service.Prelude.{
  ℕ, ◌≤◌, ◌<◌, ◌≡◌, refl, sym, ◌∙◌, ap, subst, Bool, true, false, inl, inr, Bool-cases, Option,
  none, some, List, [], ◌∷◌, ◌++◌, ◌==◌, arith, if◌then◌else◌,
}
use ml_service.Backend.{Reply, ok, err, ◌>>=◌, ok-injective}
use ml_service.Users.{
  Role, User, UserStatus, get, update_row, if_found, with_password, set_password, set_status,
  touch_last_login, delete, create,
}
use ml_service.Users.Rows.{create-ok}
use ml_service.Auth.{
  Security, authentic, maybe_rehash, or_unchanged, touched, check_password, signed_in, open_session,
  login, with_new_pair, replace_password, require_active, change_password,
}

-- One operation on the accounts, of any user: a sign-in, a change of the password by its owner, a
-- reset by the staff, a change of the status, a deletion, or a new account, whose id is not `watched`.
pub data Step {Token : Type 0} (p : Security Token) (watched : ℕ)
    : List User → List User → Type 0 where
  signs_in :
      (now salt : ℕ) (touches : Bool) (email password : ℕ) (users : List User)
      → Step p watched users (login p now salt touches email password users).1
  changes :
      (now salt user_id current new : ℕ) (users : List User)
      → Step p watched users (change_password p now salt user_id current new users).1
  resets :
      (user_id hash : ℕ) (users users' : List User)
      → set_password user_id hash true true users ≡ ok users'
      → Step p watched users users'
  switches :
      (user_id : ℕ) (status : UserStatus) (users users' : List User)
      → set_status user_id status users ≡ ok users'
      → Step p watched users users'
  deletes : (user_id : ℕ) (users : List User) → Step p watched users (delete user_id users)
  creates :
      (id : ℕ) (school : Option ℕ) (email hash : ℕ) (role : Role) (must : Bool) (users : List User)
      (row : User) (users' : List User)
      → create p.normalize_email id school email hash role must users ≡ ok (row, users')
      → (id == watched) ≡ false
      → Step p watched users users'

pub data Run {Token : Type 0} (p : Security Token) (watched : ℕ)
    : List User → List User → Type 0 where
  stays : (users : List User) → Run p watched users users
  goes : (a b c : List User) → Step p watched a b → Run p watched b c → Run p watched a c

-- The account is gone, or its version is later than `version`.
abbrev pub IsLater : ℕ → Option User → Type 0
IsLater version none = Unit
IsLater version (some u) = version < u.token_version

abbrev pub IsOutdated : ℕ → ℕ → List User → Type 0
IsOutdated user_id version users = IsLater version (get user_id users)

-- A change of a row that keeps its id and does not lower its version.
abbrev Raises : (User → User) → Type 0
Raises f = (u : User) → ((f u).id ≡ u.id) × (u.token_version ≤ (f u).token_version)

module _ (watched version : ℕ) where
  update_row-IsOutdated :
      (user_id : ℕ) (f : User → User) (users : List User)
      → Raises f
      → IsOutdated watched version users
      → IsOutdated watched version (update_row user_id f users)
  unfolding update_row
  update_row-IsOutdated user_id f [] raises h = h
  update_row-IsOutdated user_id f (u ∷ users) raises h =
      let later = update_row-IsOutdated user_id f users raises in
      let same = raises u in
      elim (Bool-cases (u.id == user_id)) [
        | inl it ↦ rw it (ground (arith, same, h))
        | inr other ↦ rw other (ground (arith, later, h))
      ]

  with_password-Raises : (hash : ℕ) (must revoke : Bool) → Raises (with_password hash must revoke)
  with_password-Raises hash must revoke = λ u. (refl, ground arith)

  set_password-IsOutdated :
      (user_id hash : ℕ) (must revoke : Bool) (users users' : List User)
      → set_password user_id hash must revoke users ≡ ok users'
      → IsOutdated watched version users
      → IsOutdated watched version users'
  unfolding set_password
  set_password-IsOutdated user_id hash must revoke users users' h old =
      let changed = update_row user_id (with_password hash must revoke) users in
      subst (λ (us : List User). IsOutdated watched version us)
        (found changed users' (get user_id users) h)
        (update_row-IsOutdated user_id _ users (with_password-Raises hash must revoke) old)
    where
      found : (us us' : List User) (o : Option User) → if_found us o ≡ ok us' → us ≡ us'
      found us us' none e = ground (arith, e)
      found us us' (some u) e = ok-injective e

  set_status-IsOutdated :
      (user_id : ℕ) (status : UserStatus) (users users' : List User)
      → set_status user_id status users ≡ ok users'
      → IsOutdated watched version users
      → IsOutdated watched version users'
  unfolding set_status
  set_status-IsOutdated user_id status users users' h old =
      let changed = update_row user_id (λ u. record u { status = status }) users in
      subst (λ (us : List User). IsOutdated watched version us)
        (found changed users' (get user_id users) h)
        (update_row-IsOutdated user_id _ users (λ u. (refl, omega arith)) old)
    where
      found : (us us' : List User) (o : Option User) → if_found us o ≡ ok us' → us ≡ us'
      found us us' none e = ground (arith, e)
      found us us' (some u) e = ok-injective e

  get-delete :
      (k user_id : ℕ) (users : List User)
      → get k (delete user_id users) ≡ (if k == user_id then none else get k users)
  unfolding delete
  get-delete k user_id [] = ground arith
  get-delete k user_id (u ∷ users) = ground (arith, get-delete k user_id users)

  delete-IsOutdated :
      (user_id : ℕ) (users : List User)
      → IsOutdated watched version users
      → IsOutdated watched version (delete user_id users)
  delete-IsOutdated user_id users h =
      rw (get-delete watched user_id users)
        (elim (Bool-cases (watched == user_id)) [ inl it ↦ rw it tt | inr other ↦ rw other h ])

  get-append :
      (users : List User) (row : User)
      → (row.id == watched) ≡ false
      → get watched (users ++ row ∷ []) ≡ get watched users
  get-append [] row other = rw other refl
  get-append (u ∷ users) row other = ground (arith, get-append users row other)

  create-IsOutdated :
      (normalize : ℕ → ℕ) (id : ℕ) (school : Option ℕ) (email hash : ℕ) (role : Role) (must : Bool)
      (users users' : List User) (row : User)
      → create normalize id school email hash role must users ≡ ok (row, users')
      → (id == watched) ≡ false
      → IsOutdated watched version users
      → IsOutdated watched version users'
  create-IsOutdated normalize id school email hash role must users users' row h other old =
      let made = create-ok normalize id school email hash role must users users' row h in
      subst (λ (us : List User). IsOutdated watched version us) (sym made.0)
        (rw (get-append users row (ap (λ (i : ℕ). i == watched) made.1 ∙ other)) old)

  -- An operation that fails leaves the table, so only its end has to be looked at.
  bind-IsOutdated :
      {Token A B : Type 0} (p : Security Token) (users : List User) (m : Reply B)
      (k : B → Reply (A × List User))
      → IsOutdated watched version users
      → ((b : B) → m ≡ ok b → IsOutdated watched version (or_unchanged p users (k b)).1)
      → IsOutdated watched version (or_unchanged p users (m >>= k)).1
  bind-IsOutdated p users (err e) k old next = old
  bind-IsOutdated p users (ok b) k old next = next b refl

  maybe_rehash-IsOutdated :
      {Token : Type 0} (p : Security Token) (salt : ℕ) (user : User) (password : ℕ)
      (users users' : List User)
      → maybe_rehash p salt user password users ≡ ok users'
      → IsOutdated watched version users
      → IsOutdated watched version users'
  unfolding maybe_rehash
  maybe_rehash-IsOutdated p salt user password users users' h old =
      elim (Bool-cases (p.needs_rehash user.password_hash)) [
        | inl stale ↦
            set_password-IsOutdated user.id (p.hash salt password) user.must_change_password false
              users users' (sym (rw stale refl) ∙ h) old
        | inr fresh ↦
            subst (λ (us : List User). IsOutdated watched version us)
              (ok-injective (sym (rw fresh refl) ∙ h)) old
      ]

  touched-IsOutdated :
      {Token : Type 0} (p : Security Token) (touches : Bool) (now user_id : ℕ) (users : List User)
      → IsOutdated watched version users
      → IsOutdated watched version (touched p touches now user_id users)
  unfolding touch_last_login
  touched-IsOutdated p false now user_id users old = old
  touched-IsOutdated p true now user_id users old =
      update_row-IsOutdated user_id _ users (λ u. (refl, omega arith)) old

  login-IsOutdated :
      {Token : Type 0} (p : Security Token) (now salt : ℕ) (touches : Bool) (email password : ℕ)
      (users : List User)
      → IsOutdated watched version users
      → IsOutdated watched version (login p now salt touches email password users).1
  unfolding login
  login-IsOutdated p now salt touches email password users old =
      bind-IsOutdated p users (check_password p email password users)
        (open_session p now salt touches password users) old
        (λ user e1.
          bind-IsOutdated p users (maybe_rehash p salt user password users)
            (signed_in p now touches user) old
            (λ rehashed e2.
              touched-IsOutdated p touches now user.id rehashed
                (maybe_rehash-IsOutdated p salt user password users rehashed e2 old)))

  change_password-IsOutdated :
      {Token : Type 0} (p : Security Token) (now salt user_id current new : ℕ) (users : List User)
      → IsOutdated watched version users
      → IsOutdated watched version (change_password p now salt user_id current new users).1
  unfolding change_password
  change_password-IsOutdated p now salt user_id current new users old =
      bind-IsOutdated p users (require_active p user_id users)
        (replace_password p now salt current new users) old
        (λ user e1.
          bind-IsOutdated p users (authentic (p.verify current user.password_hash))
            (λ t.
              set_password user.id (p.hash salt new) false true users >>= with_new_pair p now user)
            old
            (λ t e2.
              bind-IsOutdated p users (set_password user.id (p.hash salt new) false true users)
                (with_new_pair p now user) old
                (λ changed e3.
                  set_password-IsOutdated user.id (p.hash salt new) false true users changed e3
                    old)))

  Step-IsOutdated :
      {Token : Type 0} (p : Security Token) (a b : List User)
      → Step p watched a b
      → IsOutdated watched version a
      → IsOutdated watched version b
  Step-IsOutdated p a _ (signs_in now salt touches email password _) old =
      login-IsOutdated p now salt touches email password a old
  Step-IsOutdated p a _ (changes now salt user_id current new _) old =
      change_password-IsOutdated p now salt user_id current new a old
  Step-IsOutdated p a b (resets user_id hash _ _ e) old =
      set_password-IsOutdated user_id hash true true a b e old
  Step-IsOutdated p a b (switches user_id status _ _ e) old =
      set_status-IsOutdated user_id status a b e old
  Step-IsOutdated p a _ (deletes user_id _) old = delete-IsOutdated user_id a old
  Step-IsOutdated p a b (creates id school email hash role must _ row _ e other) old =
      create-IsOutdated p.normalize_email id school email hash role must a b row e other old

  -- An account never goes back to an older version.
  pub Run-IsOutdated :
      {Token : Type 0} (p : Security Token) (a b : List User)
      → Run p watched a b
      → IsOutdated watched version a
      → IsOutdated watched version b
  Run-IsOutdated p a _ (stays _) old = old
  Run-IsOutdated p a c (goes _ b _ step run) old =
      Run-IsOutdated p b c run (Step-IsOutdated p a b step old)
