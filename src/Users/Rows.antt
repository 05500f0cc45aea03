-- ===== src/Users/Rows.antt =====
-- What the writes of the user repository do to the row of an id and to the counts.
use ml_service.Prelude.{
  ℕ, ◌+◌, ◌≡◌, refl, sym, ◌∙◌, ap, subst, Bool, true, inl, inr, Bool-cases, Option, none, some,
  some-injective, List, [], ◌∷◌, ◌++◌, ◌==◌, arith, count, is_some, if◌then◌else◌,
}
use ml_service.Backend.{ok, ok-injective}
use ml_service.Users.{Role, User, active, get, get_by_email, update_row, create}

pub get-id :
    (user_id : ℕ) (u : User) (users : List User) → get user_id users ≡ some u → u.id ≡ user_id
get-id user_id u [] h = ground (arith, h)
get-id user_id u (x ∷ users) h = elim (Bool-cases (x.id == user_id)) [
  | inl it ↦
      let found : x ≡ u = some-injective (sym (rw it refl) ∙ h) in
      subst (λ (y : User). y.id ≡ user_id) found (ground (arith, it))
  | inr other ↦ get-id user_id u users (sym (rw other refl) ∙ h)
]

pub get-update_row :
    (user_id : ℕ) (f : User → User) (u : User) (users : List User)
    → ((x : User) → (f x).id ≡ x.id)
    → get user_id users ≡ some u
    → get user_id (update_row user_id f users) ≡ some (f u)
unfolding update_row
get-update_row user_id f u [] same h = ground (arith, h)
get-update_row user_id f u (x ∷ users) same h = elim (Bool-cases (x.id == user_id)) [
  | inl it ↦
      let found : x ≡ u = some-injective (sym (rw it refl) ∙ h) in
      let there : ((f x).id == user_id) ≡ true = ap (λ (i : ℕ). i == user_id) (same x) ∙ it in
      rw it (rw there (ap (λ (y : User). some (f y)) found))
  | inr other ↦ rw (other, other) (get-update_row user_id f u users same (sym (rw other refl) ∙ h))
]

-- One row changes, so a count changes by that row.
pub count-update_row :
    (test : User → Bool) (user_id : ℕ) (f : User → User) (u : User) (users : List User)
    → get user_id users ≡ some u
    → count test (update_row user_id f users) + (if test u then 1 else 0)
      ≡ count test users + (if test (f u) then 1 else 0)
unfolding update_row
count-update_row test user_id f u [] h = ground (arith, h)
count-update_row test user_id f u (x ∷ users) h = elim (Bool-cases (x.id == user_id)) [
  | inl it ↦
      let found : x ≡ u = some-injective (sym (rw it refl) ∙ h) in
      rw it (
        subst
          (λ (y : User).
            (if test (f x) then 1 else 0) + count test users + (if test y then 1 else 0)
            ≡ (if test x then 1 else 0) + count test users + (if test (f y) then 1 else 0))
          found (omega arith))
  | inr other ↦
      let rest = count-update_row test user_id f u users (sym (rw other refl) ∙ h) in
      rw other (omega (arith, rest))
]

-- A new row goes last and is what was asked for.
pub create-ok :
    (normalize : ℕ → ℕ) (id : ℕ) (school : Option ℕ) (email hash : ℕ) (role : Role) (must : Bool)
    (users users' : List User) (row : User)
    → create normalize id school email hash role must users ≡ ok (row, users')
    → (users' ≡ users ++ row ∷ [])
      × (row.id ≡ id)
      × (row.school_id ≡ school)
      × (row.role ≡ role)
      × (row.status ≡ active)
unfolding create
create-ok normalize id school email hash role must users users' row h =
    elim (Bool-cases (is_some (get_by_email normalize email users))) [
      | inl taken ↦ ground (arith, h, taken)
      | inr free ↦
          let new : User = record {
            id = id;
            school_id = school;
            email = normalize email;
            password_hash = hash;
            role = role;
            status = active;
            must_change_password = must;
            token_version = 0;
            last_login_at = none;
          } in
          let made : (new, users ++ new ∷ []) ≡ (row, users') =
            ok-injective (sym (rw free refl) ∙ h) in
          let same : new ≡ row = ap (λ (x : User × List User). x.0) made in
          (
            sym (ap (λ (x : User × List User). x.1) made) ∙ ap (λ (x : User). users ++ x ∷ []) same,
            ap (λ (x : User). x.id) (sym same),
            ap (λ (x : User). x.school_id) (sym same),
            ap (λ (x : User). x.role) (sym same),
            ap (λ (x : User). x.status) (sym same),
          )
    ]
