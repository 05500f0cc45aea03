-- ===== src/Tests/Staffing.antt =====
-- Accounts of one school: a changed password, a pair of tokens, the last administrator and the cap.
use ml_service.Prelude.{
  ℕ, ◌+◌, ◌≡◌, refl, true, false, none, some, List, [], ◌∷◌, ◌==◌, length, arith, if◌then◌else◌,
  ltb, leb, ◌&&◌,
}
use ml_service.Backend.{authentication, Reply, ok, err}
use ml_service.Users.{
  Role, school_admin, teacher, User, active, disabled, set_password, update_row,
  count_active_by_school_and_role,
}
use ml_service.Auth.{
  access, Payload, type_value, Security, LoginResult, issue_pair, get_current_user, refresh,
  require_active, change_password,
}
use ml_service.Auth.Runs.{stays}
use ml_service.Auth.Pair.{issue_pair-opens}
use ml_service.Auth.Revocation.{change_password-revokes}
use ml_service.Onboarding.{running, Staff, Actor, Office, get_school, set_staff_status}
use ml_service.Onboarding.Batch.{bulk_create_staff}
use ml_service.Onboarding.Admins.{HasAdmin}
use ml_service.Onboarding.StaffRuns.{rests, acts, switches_staff, run-HasAdmin}
use ml_service.Onboarding.Teachers.{IsBatch, bulk_create_staff-IsBatch}

abbrev account : ℕ → Role → User
account id role = record {
  id = id;
  school_id = some 1;
  email = id;
  password_hash = id;
  role = role;
  status = active;
  must_change_password = false;
  token_version = 4;
  last_login_at = none;
}

abbrev old_claims : Payload
old_claims = record {
  sub = some 9;
  type = some (type_value access);
  role = none;
  school_id = some 1;
  tv = some 4;
  iat = 5;
  exp = 500;
}

-- A password is its own hash, and every token is the old one.
abbrev security : Security ℕ
security = record {
  normalize_email = λ email. email;
  hash = λ salt password. password;
  verify = λ password hash. password == hash;
  needs_rehash = λ hash. false;
  sign_token = λ claims. 0;
  verify_token = λ at token. some old_claims;
  access_ttl = 10;
  refresh_ttl = 100;
}

abbrev users : List User
users = account 9 school_admin ∷ account 8 teacher ∷ []

abbrev changed : Reply (LoginResult ℕ) × List User
changed = change_password security 20 0 9 9 90 users

abbrev new_account : User
new_account = record (account 9 school_admin) { password_hash = 90; token_version = 5 }

change_password-revokes_example :
    (get_current_user security 30 (some 3) (new_account ∷ account 8 teacher ∷ [])
      ≡ err authentication)
    × (refresh security 30 3 (new_account ∷ account 8 teacher ∷ []) ≡ err authentication)
unfolding change_password require_active set_password update_row issue_pair
change_password-revokes_example =
    change_password-revokes security 20 0 9 9 90 users (new_account ∷ account 8 teacher ∷ [])
      (new_account ∷ account 8 teacher ∷ [])
      (record {
        tokens = record { access_token = 0; refresh_token = 0; expires_in = 10 };
        user = new_account;
      })
      (account 9 school_admin) refl refl (stays (new_account ∷ account 8 teacher ∷ [])) 30 3
      old_claims refl refl (omega arith)

-- A signer that hands out the payload itself.
abbrev open_signer : Security Payload
open_signer = record {
  normalize_email = λ email. email;
  hash = λ salt password. password;
  verify = λ password hash. password == hash;
  needs_rehash = λ hash. false;
  sign_token = λ payload. payload;
  verify_token =
      λ at payload. if leb payload.iat at && ltb at payload.exp then some payload else none;
  access_ttl = 10;
  refresh_ttl = 100;
}

-- At 40 the access token has expired, and the refresh token has not.
issue_pair-opens_example :
    (get_current_user open_signer 40
        (some (issue_pair open_signer 20 (account 9 school_admin)).access_token)
        users
      ≡ err authentication)
    × (refresh open_signer 40
          (issue_pair open_signer 20 (account 9 school_admin)).refresh_token
          users
        ≡ ok (record {
          tokens = issue_pair open_signer 40 (account 9 school_admin);
          user = account 9 school_admin;
        }))
    × (get_current_user open_signer 40
          (some (issue_pair open_signer 20 (account 9 school_admin)).refresh_token)
          users
        ≡ err authentication)
    × (refresh open_signer 40
          (issue_pair open_signer 20 (account 9 school_admin)).access_token
          users
        ≡ err authentication)
issue_pair-opens_example =
    issue_pair-opens open_signer (λ payload at subject has. refl) 20 40 (account 9 school_admin)
      users refl refl

abbrev office : Office
office = record {
  normalize_email = λ email. email;
  validate_email = λ email. if email == 0 then none else some email;
  clean_name = λ name. some name;
  fresh = λ us. 100 + length us;
  fresh_school = λ schools. 2;
  secret = λ us. 7;
  hash = λ password. password;
  audits = λ row log. true;
}

abbrev staff : Staff
staff = record {
  users = users;
  schools = record { id = 1; name = 70; max_teachers = 2; status = running } ∷ [];
  audit = [];
}

abbrev owner : Actor
owner = record { user_id = some 9; role = some school_admin }

-- The only administrator is to be switched off.
run-HasAdmin_example : HasAdmin 1 (set_staff_status office 1 9 school_admin disabled owner staff).1
unfolding count_active_by_school_and_role
run-HasAdmin_example =
    run-HasAdmin office 1 staff (set_staff_status office 1 9 school_admin disabled owner staff).1
      (acts staff (set_staff_status office 1 9 school_admin disabled owner staff).1
        (set_staff_status office 1 9 school_admin disabled owner staff).1
        (switches_staff 1 9 school_admin disabled owner staff)
        (rests (set_staff_status office 1 9 school_admin disabled owner staff).1))
      (omega arith)

-- One more teacher fits, then the cap is reached.
bulk_create_staff-IsBatch_example :
    IsBatch office 1
      (31 ∷ 0 ∷ 32 ∷ [])
      staff
      (get_school 1 staff)
      (bulk_create_staff office 1 (31 ∷ 0 ∷ 32 ∷ []) owner staff)
bulk_create_staff-IsBatch_example =
    bulk_create_staff-IsBatch office 1 (31 ∷ 0 ∷ 32 ∷ []) owner staff
