-- ===== src/Auth/Revocation.antt =====
-- A changed password ends the older sessions for good, and a new pair of tokens is good for what it
-- is meant for.
use ml_service.Prelude.{
  ℕ, ◌≤◌, ◌<◌, ◌≡◌, refl, sym, ◌∙◌, ap, subst, Bool, true, false, Option, none, some,
  some-injective, List, ◌==◌, arith,
}
use ml_service.Backend.{authentication, Reply, ok, err, ◌>>=◌, ◌>>◌, >>=-eq-ok, ok-injective}
use ml_service.Users.{Role, User, is_active, get, update_row, with_password, set_password}
use ml_service.Users.Rows.{get-id, get-update_row}
use ml_service.Auth.{
  TokenType, access, refresh_type, TokenClaims, Payload, type_value, has_value, role_in, version_in,
  claims_in, parsed, Security, LoginResult, authentic, or_authentication, issue_pair, decode,
  account_of, get_current_user, refresh, or_unchanged, require_active, with_new_pair,
  replace_password, change_password,
}
use ml_service.Auth.Runs.{Run, IsLater, IsOutdated, Run-IsOutdated}

module _ {Token : Type 0} (p : Security Token) where
  -- A token of an outdated version opens nothing.
  account_of-outdated :
      (claims : TokenClaims) (version : ℕ) (users : List User)
      → claims.token_version ≤ version
      → IsOutdated claims.subject version users
      → account_of p claims users ≡ err authentication
  unfolding account_of
  account_of-outdated claims version users before later = at_user (get claims.subject users) later
    where
      at_version :
          (u : User) (b : Bool)
          → version < u.token_version
          → (authentic b >> (authentic (claims.token_version == u.token_version) >> ok u))
            ≡ err authentication
      at_version u false h = refl
      at_version u true h =
          let differ : (claims.token_version == u.token_version) ≡ false =
            ground (arith, h, before) in
          rw differ refl

      at_user :
          (o : Option User)
          → IsLater version o
          → (or_authentication o >>= (λ u.
              authentic (is_active u.status)
              >> (authentic (claims.token_version == u.token_version) >> ok u)))
            ≡ err authentication
      at_user none h = refl
      at_user (some u) h = at_version u (is_active u.status) h

  -- Whatever reads the claims of a payload fails where it fails on all claims of its subject and
  -- version.
  parsed-then :
      {A : Type 0} (kind : TokenType) (payload : Payload) (k : TokenClaims → Reply A)
      → ((subject : ℕ) (role : Option Role)
          → payload.sub ≡ some subject
          → k (claims_in kind payload subject role) ≡ err authentication)
      → (parsed p kind payload >>= k) ≡ err authentication
  parsed-then kind payload k refused =
      go (has_value (type_value kind) payload.type) payload.sub (role_in payload.role) refused
    where
      go :
          (b : Bool) (sub : Option ℕ) (role : Option (Option Role))
          → ((subject : ℕ) (r : Option Role)
              → sub ≡ some subject
              → k (claims_in kind payload subject r) ≡ err authentication)
          → ((authentic b
                >> (or_authentication sub >>= (λ subject.
                    or_authentication role >>= (λ r. ok (claims_in kind payload subject r)))))
              >>= k)
            ≡ err authentication
      go false sub role h = refl
      go true none role h = refl
      go true (some subject) none h = refl
      go true (some subject) (some r) h = h subject r refl

  decode-then :
      {A : Type 0} (now : ℕ) (token : Token) (kind : TokenType) (payload : Payload)
      (k : TokenClaims → Reply A)
      → p.verify_token now token ≡ some payload
      → ((subject : ℕ) (role : Option Role)
          → payload.sub ≡ some subject
          → k (claims_in kind payload subject role) ≡ err authentication)
      → (decode p now token kind >>= k) ≡ err authentication
  unfolding decode
  decode-then now token kind payload k h refused = rw h (parsed-then kind payload k refused)

  unchanged-ok :
      {A : Type 0} (users users' : List User) (m : Reply (A × List User)) (a : A)
      → or_unchanged p users m ≡ (ok a, users')
      → m ≡ ok (a, users')
  unchanged-ok users users' (err e) a h = ground (arith, h)
  unchanged-ok users users' (ok x) a h = cc

  require_active-get :
      (user_id : ℕ) (users : List User) (u : User)
      → require_active p user_id users ≡ ok u
      → get user_id users ≡ some u
  unfolding require_active
  require_active-get user_id users u h =
      let (x, found, h1) = >>=-eq-ok (or_authentication (get user_id users)) _ h in
      let (t, is_on, h2) = >>=-eq-ok (authentic (is_active x.status)) _ h1 in
      from (get user_id users) x found ∙ ap some (ok-injective h2)
    where
      from : (o : Option User) (x : User) → or_authentication o ≡ ok x → o ≡ some x
      from none x e = ground (arith, e)
      from (some y) x e = ap some (ok-injective e)

  set_password-raises :
      (user_id hash : ℕ) (must : Bool) (users users' : List User) (old : User)
      → get user_id users ≡ some old
      → set_password user_id hash must true users ≡ ok users'
      → IsOutdated user_id old.token_version users'
  unfolding set_password
  set_password-raises user_id hash must users users' old here h =
      let new = with_password hash must true in
      let same : update_row user_id new users ≡ users' = ok-injective (sym (rw here refl) ∙ h) in
      subst (λ (us : List User). IsOutdated user_id old.token_version us) same
        (rw (get-update_row user_id new old users (λ x. refl) here) (omega arith))

  -- The version of an account is raised by a change of its password.
  change_password-raises :
      (now salt user_id current new : ℕ) (users users' : List User) (result : LoginResult Token)
      (old : User)
      → get user_id users ≡ some old
      → change_password p now salt user_id current new users ≡ (ok result, users')
      → IsOutdated user_id old.token_version users'
  unfolding change_password
  change_password-raises now salt user_id current new users users' result old here done =
      let (user, active_user, h1) =
        >>=-eq-ok (require_active p user_id users) (replace_password p now salt current new users)
          (unchanged-ok users users' _ result done) in
      let (t, right, h2) =
        >>=-eq-ok (authentic (p.verify current user.password_hash))
          (λ t.
            set_password user.id (p.hash salt new) false true users >>= with_new_pair p now user)
          h1 in
      let (changed, write, h3) =
        >>=-eq-ok (set_password user.id (p.hash salt new) false true users)
          (with_new_pair p now user) h2 in
      let there = require_active-get user_id users user active_user in
      let id : user.id ≡ user_id = get-id user_id user users there in
      let same : user ≡ old = some-injective (sym there ∙ here) in
      subst (λ (us : List User). IsOutdated user_id old.token_version us)
        (ap (λ (x : LoginResult Token × List User). x.1) (ok-injective h3))
        (set_password-raises user_id (p.hash salt new) false users changed old here (
          subst (λ (i : ℕ). set_password i (p.hash salt new) false true users ≡ ok changed) id
            write))

  -- Once a password was changed, no token of the account that was issued before opens anything any
  -- more, an access token no request and a refresh token no new session, whatever happens to the
  -- accounts in between: sign-ins, changes and resets of passwords, changes of the status, deletions,
  -- and new accounts under other ids. Issued before means that the token has at most the version that
  -- the account had, where a token without a version has version 0.
  pub change_password-revokes :
      (now salt user_id current new : ℕ) (users users' later : List User)
      (result : LoginResult Token) (old : User)
      → get user_id users ≡ some old
      → change_password p now salt user_id current new users ≡ (ok result, users')
      → Run p user_id users' later
      → (at : ℕ) (token : Token) (payload : Payload) → p.verify_token at token ≡ some payload
      → payload.sub ≡ some user_id
      → version_in payload.tv ≤ old.token_version
      → (get_current_user p at (some token) later ≡ err authentication)
        × (refresh p at token later ≡ err authentication)
  unfolding get_current_user refresh
  change_password-revokes now salt user_id current new users users' later result old here done run
        at token payload signed of_user before =
      (
        decode-then at token access payload (λ c. account_of p c later) signed (refused access),
        decode-then at token refresh_type payload
            (λ c.
              account_of p c later >>= (λ u. ok (record { tokens = issue_pair p at u; user = u })))
            signed (λ subject role sub. rw (refused refresh_type subject role sub) refl),
      )
    where
      refused :
          (kind : TokenType) (subject : ℕ) (role : Option Role)
          → payload.sub ≡ some subject
          → account_of p (claims_in kind payload subject role) later ≡ err authentication
      refused kind subject role sub =
          account_of-outdated (claims_in kind payload subject role) old.token_version later before (
            subst (λ (u : ℕ). IsOutdated u old.token_version later)
              (some-injective (sym of_user ∙ sub))
              (Run-IsOutdated user_id old.token_version p users' later run (
                change_password-raises now salt user_id current new users users' result old here
                  done)))
