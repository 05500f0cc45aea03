-- ===== src/Onboarding/Teachers.antt =====
-- The cap on the teachers of a school.
use ml_service.Prelude.{
  ℕ, ◌+◌, ◌≤◌, ◌<◌, max, ◌≡◌, refl, sym, ◌∙◌, ap, ap₂, subst, Bool, true, false, ◌&&◌, inl, inr,
  Bool-cases, Option, none, some, List, [], ◌∷◌, ◌++◌, map, ◌==◌, ==_refl, arith, leb, find, count,
  count-append, if◌then◌else◌,
}
use ml_service.Backend.{
  not_found, conflict, limit_exceeded, validation, configuration, authentication, authorization,
  unexpected, upstream, BackendError, Reply, ok, err, ◌>>=◌, or_not_found, >>=-eq-ok, ok-injective,
}
use ml_service.Users.{Role, teacher, same_role, User, of_school, create, count_by_school_and_role}
use ml_service.Users.Rows.{create-ok}
use ml_service.Onboarding.{
  School, Staff, Actor, Office, Provisioned, AdminAction, staff_created, ActionRow, row_of,
  BulkStaffResult, is_created, verdict_of, get_school, check, is_running, or_same, record_action,
  provision, invited, room_for_teacher, create_teacher,
}
use ml_service.Onboarding.Batch.{judged, bulk_row, bulk_loop, bulk_from, bulk_create_staff}

abbrev pub teachers : ℕ → Staff → ℕ
teachers school_id w = count_by_school_and_role school_id teacher w.users

-- So many teachers more, the schools as they were, and the cap of the school kept.
abbrev pub Hired : ℕ → ℕ → ℕ → Staff → Staff → Type 0
Hired school_id cap n w w' =
    (w'.schools ≡ w.schools)
    × (teachers school_id w' ≡ teachers school_id w + n)
    × (teachers school_id w' ≤ max cap (teachers school_id w))

one_teacher :
    (school : ℕ) (u : User)
    → u.school_id ≡ some school
    → u.role ≡ teacher
    → ◌≡◌ {A = ℕ} (if of_school school u.school_id && same_role u.role teacher then 1 else 0) 1
one_teacher school u there is_teacher = rw there (rw is_teacher (rw (==_refl school) refl))

unchanged : (school cap : ℕ) (w w' : Staff) → w' ≡ w → Hired school cap 0 w w'
unchanged school cap w w' h =
    subst (λ (y : Staff). Hired school cap 0 w y) (sym h) (refl, omega arith, omega arith)

Hired-trans :
    (school cap n m : ℕ) (w w1 w2 : Staff)
    → Hired school cap n w w1
    → Hired school cap m w1 w2
    → Hired school cap (n + m) w w2
Hired-trans school cap n m w w1 w2 h k = (k.0 ∙ h.0, omega (arith, h, k), omega (arith, h, k))

not_created : (e : BackendError) → ◌≡◌ {A = ℕ} (if is_created (verdict_of e) then 1 else 0) 0
not_created not_found = refl
not_created conflict = refl
not_created limit_exceeded = refl
not_created validation = refl
not_created configuration = refl
not_created authentication = refl
not_created authorization = refl
not_created unexpected = refl
not_created upstream = refl

module _ (o : Office) where
  -- The audit changes neither the accounts nor the schools.
  pub record_action-keeps :
      (school : ℕ) (actor : Actor) (action : AdminAction) (target label : ℕ) (w : Staff)
      → let w' = record_action o school actor action target label w in
        (w'.users ≡ w.users) × (w'.schools ≡ w.schools)
  unfolding record_action
  record_action-keeps school actor action target label w = at_role actor.role
    where
      at_write :
          (b : Bool) (row : ActionRow)
          → let w' : Staff = if b then record w { audit = w.audit ++ row ∷ [] } else w in
            (w'.users ≡ w.users) × (w'.schools ≡ w.schools)
      at_write true row = (refl, refl)
      at_write false row = (refl, refl)

      at_role :
          (r : Option Role)
          → let w' : Staff = elim r [
            | none ↦ w
            | some role ↦
                let row = row_of o school actor.user_id role action target label in
                if o.audits row w.audit then record w { audit = w.audit ++ row ∷ [] } else w
          ] in
            (w'.users ≡ w.users) × (w'.schools ≡ w.schools)
      at_role none = (refl, refl)
      at_role (some role) =
          let row = row_of o school actor.user_id role action target label in
          at_write (o.audits row w.audit) row

  abbrev pub Outcome : ℕ → ℕ → Staff → Reply Provisioned × Staff → Type 0
  Outcome school cap w (err e, w') = w' ≡ w
  Outcome school cap w (ok made, w') = Hired school cap 1 w w'

  bind-Outcome :
      {B : Type 0} (school cap : ℕ) (w : Staff) (m : Reply B) (k : B → Reply (Provisioned × Staff))
      → ((b : B) → m ≡ ok b → Outcome school cap w (or_same w (k b)))
      → Outcome school cap w (or_same w (m >>= k))
  bind-Outcome school cap w (err e) k next = refl
  bind-Outcome school cap w (ok b) k next = next b refl

  provision-row :
      (school email : ℕ) (w w' : Staff) (made : Provisioned)
      → provision o school email teacher w ≡ ok (made, w')
      → (w'.schools ≡ w.schools) × (teachers school w' ≡ teachers school w + 1)
  unfolding provision count_by_school_and_role
  provision-row school email w w' made h =
      let (x, created, h1) =
        >>=-eq-ok
          (create o.normalize_email (o.fresh w.users) (some school) email
            (o.hash (o.secret w.users)) teacher true w.users)
          _ h in
      let row =
        create-ok o.normalize_email (o.fresh w.users) (some school) email
          (o.hash (o.secret w.users)) teacher true w.users x.1 x.0 created in
      let same : record w { users = x.1 } ≡ w' =
        ap (λ (y : Provisioned × Staff). y.1) (ok-injective h1) in
      let more =
        count-append (λ (u : User). of_school school u.school_id && same_role u.role teacher)
          w.users (x.0 ∷ []) in
      (
        ap (λ (y : Staff). y.schools) (sym same),
        subst (λ (y : Staff). teachers school y ≡ teachers school w + 1) same
            (ap (λ (us : List User). count_by_school_and_role school teacher us) row.0
              ∙ (more ∙ omega (arith, one_teacher school x.0 row.2 row.3))),
      )

  room-below :
      (school : ℕ) (w : Staff) (s : School) (u : Unit {0})
      → get_school school w ≡ ok s
      → room_for_teacher o school w ≡ ok u
      → teachers school w < s.max_teachers
  unfolding room_for_teacher
  room-below school w s u here h =
      let (x, found, h1) = >>=-eq-ok (get_school school w) _ h in
      let (t, runs, h2) = >>=-eq-ok (check (is_running x.status)) _ h1 in
      let same : x ≡ s = ok-injective (sym found ∙ here) in
      subst (λ (y : School). teachers school w < y.max_teachers) same
        (elim (Bool-cases (leb x.max_teachers (teachers school w))) [
          | inl full ↦ ground (arith, full, h2)
          | inr room ↦ ground (arith, room)
        ])

  pub create_teacher-Outcome :
      (school email : ℕ) (actor : Actor) (w : Staff) (s : School)
      → get_school school w ≡ ok s
      → Outcome school s.max_teachers w (create_teacher o school email actor w)
  unfolding create_teacher
  create_teacher-Outcome school email actor w s here =
      bind-Outcome school s.max_teachers w (room_for_teacher o school w)
        (λ u. provision o school email teacher w >>= invited o school actor)
        (λ u room.
          bind-Outcome school s.max_teachers w (provision o school email teacher w)
            (invited o school actor)
            (λ x made.
              let audit =
                record_action-keeps school actor staff_created x.0.user.id x.0.user.email x.1 in
              let row = provision-row school email w x.1 x.0 made in
              let below = room-below school w s u here room in
              let same =
                ap (λ (us : List User). count_by_school_and_role school teacher us) audit.0 in
              (audit.1 ∙ row.0, same ∙ row.1, omega (arith, same, row.1, below))))

  judged-Hired :
      (school cap email : ℕ) (w : Staff) (x : Reply Provisioned × Staff)
      → Outcome school cap w x
      → let y = judged o email x in
        (y.0.email ≡ email) × Hired school cap (if is_created y.0.status then 1 else 0) w y.1
  judged-Hired school cap email w (err e, w') h =
      (refl, rw (not_created e) (unchanged school cap w w' h))
  judged-Hired school cap email w (ok made, w') h = (refl, h)

  bulk_row-Hired :
      (school email : ℕ) (actor : Actor) (w : Staff) (s : School) (clean : Option ℕ)
      → get_school school w ≡ ok s
      → let y = bulk_row o school actor email clean w in
        (y.0.email ≡ email)
        × Hired school s.max_teachers (if is_created y.0.status then 1 else 0) w y.1
  bulk_row-Hired school email actor w s none here = (refl, unchanged school s.max_teachers w w refl)
  bulk_row-Hired school email actor w s (some clean) here =
      judged-Hired school s.max_teachers email w (create_teacher o school clean actor w)
        (create_teacher-Outcome school clean actor w s here)

  same_school :
      (school : ℕ) (w w' : Staff)
      → w'.schools ≡ w.schools
      → get_school school w' ≡ get_school school w
  unfolding get_school
  same_school school w w' e =
      ap (λ (l : List School). or_not_found (find (λ x. x.id == school) l)) e

  bulk_loop-Hired :
      (school : ℕ) (actor : Actor) (emails : List ℕ) (w : Staff) (s : School)
      → get_school school w ≡ ok s
      → let x = bulk_loop o school actor emails w in
        (map (λ r. r.email) x.0 ≡ emails)
        × Hired school s.max_teachers (count (λ r. is_created r.status) x.0) w x.1
  unfolding bulk_loop
  bulk_loop-Hired school actor [] w s here = (refl, unchanged school s.max_teachers w w refl)
  bulk_loop-Hired school actor (email ∷ emails) w s here =
      let first = bulk_row-Hired school email actor w s (o.validate_email email) here in
      let w1 = (bulk_row o school actor email (o.validate_email email) w).1 in
      let rest =
        bulk_loop-Hired school actor emails w1 s (same_school school w w1 first.1.0 ∙ here) in
      (
        ap₂ (λ y ys. y ∷ ys) first.0 rest.0,
        Hired-trans school s.max_teachers _ _ w w1 (bulk_loop o school actor emails w1).1 first.1
            rest.1,
      )

  -- What a batch leaves: one result for each address, in order, a teacher more for each `created`,
  -- and the cap kept; or nothing at all.
  abbrev pub IsBatch :
      ℕ → List ℕ → Staff → Reply School → Reply (List BulkStaffResult) × Staff → Type 0
  IsBatch school emails w found (err e, w') = w' ≡ w
  IsBatch school emails w (err f) (ok results, w') = ⊥
  IsBatch school emails w (ok s) (ok results, w') =
      (map (λ r. r.email) results ≡ emails)
      × Hired school s.max_teachers (count (λ r. is_created r.status) results) w w'

  -- A batch of invitations: it answers with one result for each address, in order, and the school
  -- has one teacher more for each result that says `created`; the teachers are never more than the
  -- school's cap, unless they were more before, and then there are no more of them; and the schools
  -- stay. Where the batch is refused nothing changes.
  pub bulk_create_staff-IsBatch :
      (school : ℕ) (emails : List ℕ) (actor : Actor) (w : Staff)
      → IsBatch school emails w (get_school school w) (bulk_create_staff o school emails actor w)
  unfolding bulk_create_staff
  bulk_create_staff-IsBatch school emails actor w = at_school (get_school school w) refl
    where
      at_check :
          (s : School) (r : Reply (Unit {0}))
          → get_school school w ≡ ok s
          → IsBatch school emails w (ok s) (bulk_from o school actor emails w r)
      at_check s (err e) here = refl
      at_check s (ok t) here = bulk_loop-Hired school actor emails w s here

      at_school :
          (r : Reply School)
          → get_school school w ≡ r
          → IsBatch school emails w r
              (bulk_from o school actor emails w (r >>= (λ s. check (is_running s.status))))
      at_school (err e) here = refl
      at_school (ok s) here = at_check s (check (is_running s.status)) here
