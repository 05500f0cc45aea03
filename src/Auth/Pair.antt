-- ===== src/Auth/Pair.antt =====
-- What a pair of tokens opens.
use ml_service.Prelude.{
  ℕ, ◌+◌, ◌≡◌, refl, ◌∙◌, Bool, true, false, inl, inr, Bool-cases, none, some, List, ==_refl, ltb,
  leb, ◌&&◌, if◌then◌else◌,
}
use ml_service.Backend.{authentication, Reply, ok, err, ◌>>=◌}
use ml_service.Users.{Role, platform_admin, school_admin, teacher, student, User, active, get}
use ml_service.Auth.{
  TokenType, access, refresh_type, TokenClaims, Payload, role_value, role_in, claims_in, parsed,
  Security, access_claims, refresh_claims, issue_pair, decode, account_of, get_current_user,
  refresh,
}

-- The library reads back a payload with a subject that it signed, from the second of its issue until
-- it expires.
abbrev pub IsSigning : {Token : Type 0} → Security Token → Type 0
IsSigning p =
    (payload : Payload) (at subject : ℕ)
    → payload.sub ≡ some subject
    → p.verify_token at (p.sign_token payload)
      ≡ (if leb payload.iat at && ltb at payload.exp then some payload else none)

role_of-role_value : (r : Role) → role_in (some (role_value r)) ≡ some (some r)
role_of-role_value platform_admin = refl
role_of-role_value school_admin = refl
role_of-role_value teacher = refl
role_of-role_value student = refl

module _ {Token : Type 0} (p : Security Token) (signing : IsSigning p) where
  -- What is read from a signed payload, at any instant.
  decode-signed :
      {A : Type 0} (at : ℕ) (payload : Payload) (kind : TokenType) (k : TokenClaims → Reply A)
      (subject : ℕ)
      → payload.sub ≡ some subject
      → (decode p at (p.sign_token payload) kind >>= k) ≡ (
          if leb payload.iat at && ltb at payload.exp
          then (parsed p kind payload >>= k)
          else err authentication)
  unfolding decode
  decode-signed at payload kind k subject has =
      rw (signing payload at subject has)
        (elim (Bool-cases (leb payload.iat at && ltb at payload.exp)) [
          | inl valid ↦ rw valid refl
          | inr out ↦ rw out refl
        ])

  access-parsed :
      (now : ℕ) (u : User)
      → parsed p access (access_claims p now u)
        ≡ ok (claims_in access (access_claims p now u) u.id (some u.role))
  access-parsed now u = rw (role_of-role_value u.role) refl

  account_of-current :
      (claims : TokenClaims) (u : User) (users : List User)
      → get claims.subject users ≡ some u
      → u.status ≡ active
      → claims.token_version ≡ u.token_version
      → account_of p claims users ≡ ok u
  unfolding account_of
  account_of-current claims u users here is_on same =
      rw here (rw is_on (rw same (rw (==_refl u.token_version) refl)))

  -- Where the library reads back, from the second of its issue until it expires, the payload that it
  -- signed, and nothing before and after, a pair that is issued to an active account opens this: from
  -- then until it expires, its access token opens a request as that account, and its refresh token
  -- gives a new pair to that account; before and after that neither opens anything; and at no time
  -- does either of the two pass for the other. The table is the same at both times.
  pub issue_pair-opens :
      (now at : ℕ) (u : User) (users : List User)
      → get u.id users ≡ some u
      → u.status ≡ active
      → let pair = issue_pair p now u in
        (get_current_user p at (some pair.access_token) users
          ≡ (if leb now at && ltb at (now + p.access_ttl) then ok u else err authentication))
        × (refresh p at pair.refresh_token users ≡ (
            if leb now at && ltb at (now + p.refresh_ttl)
            then ok (record { tokens = issue_pair p at u; user = u })
            else err authentication))
        × (get_current_user p at (some pair.refresh_token) users ≡ err authentication)
        × (refresh p at pair.access_token users ≡ err authentication)
  unfolding get_current_user refresh issue_pair
  issue_pair-opens now at u users here is_on =
      let a : Payload = access_claims p now u in
      let r : Payload = refresh_claims p now u in
      let enter = (λ (c : TokenClaims). account_of p c users) in
      let renew = (λ (c : TokenClaims).
        account_of p c users >>= (λ x. ok (record { tokens = issue_pair p at x; user = x }))) in
      let opens =
        account_of-current (claims_in access a u.id (some u.role)) u users here is_on refl in
      let renews =
        account_of-current (claims_in refresh_type r u.id none) u users here is_on refl in
      (
        decode-signed at a access enter u.id refl ∙ rw (access-parsed now u) (rw opens refl),
        decode-signed at r refresh_type renew u.id refl ∙ rw renews refl,
        decode-signed at r access enter u.id refl
            ∙ either (leb now at && ltb at (now + p.refresh_ttl)) (err authentication),
        decode-signed at a refresh_type renew u.id refl
            ∙ either (leb now at && ltb at (now + p.access_ttl)) (err authentication),
      )
    where
      either : {A : Type 0} (b : Bool) (x : Reply A) → (if b then x else x) ≡ x
      either true x = refl
      either false x = refl
