-- ===== src/Auth.antt =====
-- Sign-in, refresh, password change and the check of each request
-- (services/backend/src/backend/services/auth_service.py, adapters/security/jwt_tokens.py and
-- `get_current_user` of api/deps.py).
-- The hash of a password and the signature of a token are libraries, given as parameters: `hash` also
-- takes its salt, and `verify_token` reads the payload of a token that is well signed, of this issuer
-- and valid at an instant, with the keys that are required. A time is a number of whole seconds, as the
-- payload has it; the text of an enum member is its number. The dummy verification of an unknown
-- account has no effect but time.
pub mod Revocation
pub mod Runs
pub mod Pair
use ml_service.Prelude.{
  ℕ, zero, suc, ◌+◌, Bool, true, false, not, ◌&&◌, Option, none, some, List, [], ◌∷◌, ◌==◌,
  if◌then◌else◌,
}
use ml_service.Backend.{authentication, BackendError, Reply, ok, err, ◌>>=◌, ◌>>◌}
use ml_service.Users.{
  platform_admin, school_admin, teacher, student, Role, User, UserStatus, is_active, get,
  get_by_email, set_password, touch_last_login,
}

pub data TokenType : Type 0 where
  access refresh_type : TokenType

pub record TokenClaims : Type 0 where
  pub subject : ℕ
  pub token_type : TokenType
  pub issued_at : ℕ
  pub expires_at : ℕ
  pub role : Option Role
  pub school_id : Option ℕ
  pub token_version : ℕ

-- `TokenType` and `Role` as the texts of a payload.
abbrev pub type_value : TokenType → ℕ
type_value access = 0
type_value refresh_type = 1

abbrev pub role_value : Role → ℕ
role_value platform_admin = 0
role_value school_admin = 1
role_value teacher = 2
role_value student = 3

abbrev pub role_of : ℕ → Option Role
role_of zero = some platform_admin
role_of (suc zero) = some school_admin
role_of (suc (suc zero)) = some teacher
role_of (suc (suc (suc zero))) = some student
role_of (suc (suc (suc (suc n)))) = none

-- The payload of a token; a key that is missing, or a subject that is no text, is `none`.
pub record Payload : Type 0 where
  pub sub : Option ℕ
  pub type : Option ℕ
  pub role : Option ℕ
  pub school_id : Option ℕ
  pub tv : Option ℕ
  pub iat : ℕ
  pub exp : ℕ

pub record TokenPair (Token : Type 0) : Type 0 where
  pub access_token : Token
  pub refresh_token : Token
  pub expires_in : ℕ

pub record Security (Token : Type 0) : Type 0 where
  pub normalize_email : ℕ → ℕ
  pub hash : ℕ → ℕ → ℕ
  pub verify : ℕ → ℕ → Bool
  pub needs_rehash : ℕ → Bool
  pub sign_token : Payload → Token
  pub verify_token : ℕ → Token → Option Payload
  pub access_ttl : ℕ
  pub refresh_ttl : ℕ

pub record LoginResult (Token : Type 0) : Type 0 where
  pub tokens : TokenPair Token
  pub user : User

-- A test whose failure is `AuthenticationError`.
abbrev pub authentic : Bool → Reply (Unit {0})
authentic true = ok tt
authentic false = err authentication

abbrev pub or_authentication : {A : Type 0} → Option A → Reply A
or_authentication none = err authentication
or_authentication (some a) = ok a

-- payload.get("type") == expected_type.value
abbrev pub has_value : ℕ → Option ℕ → Bool
has_value v none = false
has_value v (some x) = x == v

-- Role(role_raw) if role_raw is not None else None; `none` where no role has the text.
abbrev pub role_in : Option ℕ → Option (Option Role)
role_in none = some none
role_in (some raw) = elim (role_of raw) [ none ↦ none | some r ↦ some (some r) ]

-- int(payload.get("tv", 0))
abbrev pub version_in : Option ℕ → ℕ
version_in none = 0
version_in (some tv) = tv

abbrev pub claims_in : TokenType → Payload → ℕ → Option Role → TokenClaims
claims_in expected payload subject role = record {
  subject = subject;
  token_type = expected;
  issued_at = payload.iat;
  expires_at = payload.exp;
  role = role;
  school_id = payload.school_id;
  token_version = version_in payload.tv;
}

module _ {Token : Type 0} (p : Security Token) where
  abbrev pub access_claims : ℕ → User → Payload
  access_claims now u = record {
    sub = some u.id;
    type = some (type_value access);
    role = some (role_value u.role);
    school_id = u.school_id;
    tv = some u.token_version;
    iat = now;
    exp = now + p.access_ttl;
  }

  -- A refresh token has only the subject and its version.
  abbrev pub refresh_claims : ℕ → User → Payload
  refresh_claims now u = record {
    sub = some u.id;
    type = some (type_value refresh_type);
    role = none;
    school_id = none;
    tv = some u.token_version;
    iat = now;
    exp = now + p.refresh_ttl;
  }

  unfoldable pub issue_pair : ℕ → User → TokenPair Token
  issue_pair now u = record {
    access_token = p.sign_token (access_claims now u);
    refresh_token = p.sign_token (refresh_claims now u);
    expires_in = p.access_ttl;
  }

  -- The claims of a payload that the library accepted: its type, its subject, then its role.
  abbrev pub parsed : TokenType → Payload → Reply TokenClaims
  parsed expected payload = do
    authentic (has_value (type_value expected) payload.type)
    subject ← or_authentication payload.sub
    role ← or_authentication (role_in payload.role)
    ok (claims_in expected payload subject role)

  unfoldable pub decode : ℕ → Token → TokenType → Reply TokenClaims
  decode now token expected = or_authentication (p.verify_token now token) >>= parsed expected

  -- The account of a token: present, active, and of the version that the token was issued for.
  unfoldable pub account_of : TokenClaims → List User → Reply User
  account_of claims users = do
    user ← or_authentication (get claims.subject users)
    authentic (is_active user.status)
    authentic (claims.token_version == user.token_version)
    ok user

  unfoldable pub get_current_user : ℕ → Option Token → List User → Reply User
  unfolding decode account_of
  get_current_user now credentials users = do
    token ← or_authentication credentials
    claims ← decode now token access
    account_of claims users

  unfoldable pub refresh : ℕ → Token → List User → Reply (LoginResult Token)
  unfolding decode account_of issue_pair
  refresh now token users = do
    claims ← decode now token refresh_type
    user ← account_of claims users
    ok (record { tokens = issue_pair now user; user = user })

  -- `_maybe_rehash`
  unfoldable pub maybe_rehash : ℕ → User → ℕ → List User → Reply (List User)
  unfolding set_password
  maybe_rehash salt user password users =
      if p.needs_rehash user.password_hash
      then set_password user.id (p.hash salt password) user.must_change_password false users
      else ok users

  abbrev pub or_unchanged : {A : Type 0} → List User → Reply (A × List User) → Reply A × List User
  or_unchanged users (err e) = (err e, users)
  or_unchanged users (ok x) = (ok x.0, x.1)

  abbrev pub touched : Bool → ℕ → ℕ → List User → List User
  touched true now user_id users = touch_last_login now user_id users
  touched false now user_id users = users

  -- The account that an address and a password open.
  unfoldable pub check_password : ℕ → ℕ → List User → Reply User
  check_password email password users = do
    user ← or_authentication (get_by_email p.normalize_email email users)
    authentic (is_active user.status && p.verify password user.password_hash)
    ok user

  abbrev pub signed_in : ℕ → Bool → User → List User → Reply (LoginResult Token × List User)
  signed_in now touches user rehashed =
      ok
        (record { tokens = issue_pair now user; user = user }, touched touches now user.id rehashed)

  abbrev pub open_session :
      ℕ → ℕ → Bool → ℕ → List User → User → Reply (LoginResult Token × List User)
  open_session now salt touches password users user =
      maybe_rehash salt user password users >>= signed_in now touches user

  -- `touches` says whether the best-effort timestamp is written.
  unfoldable pub login : ℕ → ℕ → Bool → ℕ → ℕ → List User → Reply (LoginResult Token) × List User
  unfolding check_password maybe_rehash touch_last_login issue_pair
  login now salt touches email password users =
      or_unchanged users
        (check_password email password users >>= open_session now salt touches password users)

  unfoldable pub require_active : ℕ → List User → Reply User
  require_active user_id users = do
    user ← or_authentication (get user_id users)
    authentic (is_active user.status)
    ok user

  -- The account after the change, or the fallback on a read that misses.
  abbrev pub reloaded : User → Option User → User
  reloaded user (some u) = u
  reloaded user none = record user {
    must_change_password = false;
    token_version = user.token_version + 1;
  }

  abbrev pub with_new_pair : ℕ → User → List User → Reply (LoginResult Token × List User)
  with_new_pair now user changed =
      let current = reloaded user (get user.id changed) in
      ok (record { tokens = issue_pair now current; user = current }, changed)

  abbrev pub replace_password :
      ℕ → ℕ → ℕ → ℕ → List User → User → Reply (LoginResult Token × List User)
  replace_password now salt current_password new_password users user =
      authentic (p.verify current_password user.password_hash) >>= (λ t.
        set_password user.id (p.hash salt new_password) false true users >>= with_new_pair now user)

  unfoldable pub change_password :
      ℕ → ℕ → ℕ → ℕ → ℕ → List User → Reply (LoginResult Token) × List User
  unfolding require_active set_password issue_pair
  change_password now salt user_id current_password new_password users = or_unchanged users (
      require_active user_id users
      >>= replace_password now salt current_password new_password users)
