-- ===== src/Onboarding/Schools.antt =====
-- The change of a school by the platform: `update_school` of
-- services/backend/src/backend/services/onboarding_service.py.
use ml_service.Prelude.{ℕ, Option, none, some, map, ◌==◌, leb, if◌then◌else◌}
use ml_service.Backend.{validation, Reply, ok, err, ◌>>=◌, ◌>>◌}
use ml_service.Onboarding.{
  Office, SchoolStatus, School, school_updated, Staff, Actor, check, get_school, given, or_same,
  record_action,
}

module _ (o : Office) where
  abbrev pub or_validation : {A : Type 0} → Option A → Reply A
  or_validation none = err validation
  or_validation (some a) = ok a

  -- `update` of the schools: the row of the id, with the fields that are given.
  abbrev pub with_fields : Option ℕ → Option ℕ → Option SchoolStatus → School → School
  with_fields name max_teachers status s = record s {
    name = given s.name name;
    max_teachers = given s.max_teachers max_teachers;
    status = given s.status status;
  }

  abbrev pub cleaned : Option ℕ → Reply (Option ℕ)
  cleaned none = ok none
  cleaned (some name) = or_validation (o.clean_name name) >>= (λ n. ok (some n))

  abbrev pub updated :
      ℕ
      → Actor
      → Option ℕ
      → Option ℕ
      → Option SchoolStatus
      → Staff
      → School
      → Reply (School × Staff)
  updated school_id actor name max_teachers status w s =
      let s1 = with_fields name max_teachers status s in
      ok (
        s1,
        record_action o school_id actor school_updated school_id s1.name
            (record w { schools = map (λ x. if x.id == school_id then s1 else x) w.schools }),
      )

  unfoldable pub update_school :
      ℕ → Option ℕ → Option ℕ → Option SchoolStatus → Actor → Staff → Reply School × Staff
  unfolding get_school record_action
  update_school school_id name max_teachers status actor w = or_same w (
      cleaned name >>= (λ n.
        check (leb 1 (given 1 max_teachers))
        >> (get_school school_id w >>= updated school_id actor n max_teachers status w)))
