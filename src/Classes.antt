-- ===== src/Classes.antt =====
-- Classes and their students (services/backend/src/backend/services/class_service.py, with
-- adapters/repositories/postgres_student_groups.py and the two group writes of
-- postgres_students.py).
-- Groups and students are dictionaries by their primary key; the links of teachers to classes are the
-- list of their rows, and the accounts are those of Users. A label is a number, and `clean` is the
-- strip of one, which gives none for a blank. The id of a new class is the database's. An answer is
-- given as the row itself.
pub mod Delegation
pub mod Tenancy
pub mod Groups
pub mod Links
pub mod Runs
use ml_service.Prelude.{
  ℕ, ◌+◌, Bool, true, false, not, ◌&&◌, Option, none, some, List, [], ◌∷◌, ◌++◌, ◌==◌, erase,
  filter, any, elem, count, dedup, length, Dict, lookup, insert, is_some, if◌then◌else◌,
}
use ml_service.Backend.{
  not_found, validation, BackendError, Reply, ok, err, ◌>>=◌, ◌>>◌, or_not_found,
}
use ml_service.Users.{teacher, same_role, User, of_school, get}

pub record StudentGroup : Type 0 where
  pub school_id : ℕ
  pub name : ℕ
  pub grade : Option ℕ
  pub section : Option ℕ

pub record Member : Type 0 where
  pub school_id : ℕ
  pub student_group_id : Option ℕ

pub record TeacherClass : Type 0 where
  pub school_id : ℕ
  pub teacher_user_id : ℕ
  pub student_group_id : ℕ

pub record Classes : Type 0 where
  pub groups : Dict StudentGroup
  pub members : Dict Member
  pub links : List TeacherClass
  pub users : List User

abbrev pub group_in : ℕ → Option StudentGroup → Bool
group_in school_id none = false
group_in school_id (some g) = g.school_id == school_id

abbrev pub owned : ℕ → Option StudentGroup → Reply StudentGroup
owned school_id none = err not_found
owned school_id (some g) = if g.school_id == school_id then ok g else err not_found

-- `get` of the groups, within one school, with the service's 404.
unfoldable pub get_class : ℕ → ℕ → Classes → Reply StudentGroup
get_class school_id group_id w = owned school_id (lookup group_id w.groups)

-- `_clean_name` and `_clean_optional`
abbrev pub clean_name : (ℕ → Option ℕ) → ℕ → Reply ℕ
clean_name clean name = elim (clean name) [ none ↦ err validation | some cleaned ↦ ok cleaned ]

abbrev pub clean_optional : (ℕ → Option ℕ) → Option ℕ → Option ℕ
clean_optional clean none = none
clean_optional clean (some value) = clean value

abbrev pub or_same : {A : Type 0} → Classes → Reply (A × Classes) → Reply A × Classes
or_same w (err e) = (err e, w)
or_same w (ok x) = (ok x.0, x.1)

module _ (clean : ℕ → Option ℕ) where
  unfoldable pub create_class :
      ℕ → ℕ → ℕ → Option ℕ → Option ℕ → Classes → Reply StudentGroup × Classes
  create_class new_id school_id name grade section w = or_same w (
      clean_name clean name >>= (λ cleaned.
        let g : StudentGroup = record {
          school_id = school_id;
          name = cleaned;
          grade = clean_optional clean grade;
          section = clean_optional clean section;
        } in
        ok (g, record w { groups = insert new_id g w.groups })))

  unfoldable pub update_class :
      ℕ → ℕ → ℕ → Option ℕ → Option ℕ → Classes → Reply StudentGroup × Classes
  unfolding get_class
  update_class school_id group_id name grade section w = or_same w (
      clean_name clean name >>= (λ cleaned. get_class school_id group_id w >>= (λ g.
        let g' : StudentGroup = record g {
          name = cleaned;
          grade = clean_optional clean grade;
          section = clean_optional clean section;
        } in
        ok (g', record w { groups = insert group_id g' w.groups }))))

-- The keys of the tables: a class that is deleted takes its links along, and its students' pointers
-- go back to none.
abbrev pub points_to : ℕ → Option ℕ → Bool
points_to group_id none = false
points_to group_id (some g) = g == group_id

abbrev pub unassigned : ℕ → Member → Member
unassigned group_id m =
    if points_to group_id m.student_group_id then record m { student_group_id = none } else m

abbrev pub set_null : ℕ → Dict Member → Dict Member
set_null group_id [] = []
set_null group_id (e ∷ d) = (e.0, unassigned group_id e.1) ∷ set_null group_id d

unfoldable pub delete_class : ℕ → ℕ → Classes → Reply (Unit {0}) × Classes
unfolding get_class
delete_class school_id group_id w = or_same w (
    get_class school_id group_id w >>= (λ g. ok (
      tt,
      record w {
        groups = erase group_id w.groups;
        members = set_null group_id w.members;
        links = filter (λ l. not (l.student_group_id == group_id)) w.links;
      },
    )))

-- A student's pointer to a class of the same school, or to none.
abbrev pub require_group_if_given : ℕ → Option ℕ → Classes → Reply (Unit {0})
require_group_if_given school_id none w = ok tt
require_group_if_given school_id (some g) w = get_class school_id g w >>= (λ x. ok tt)

abbrev pub member_of : ℕ → Option Member → Reply Member
member_of school_id none = err not_found
member_of school_id (some m) = if m.school_id == school_id then ok m else err not_found

unfoldable pub set_student_group : ℕ → ℕ → Option ℕ → Classes → Reply Member × Classes
unfolding get_class
set_student_group school_id student_id group_id w = or_same w (
    member_of school_id (lookup student_id w.members) >>= (λ m.
      require_group_if_given school_id group_id w >>= (λ u.
        let m' : Member = record m { student_group_id = group_id } in
        ok (m', record w { members = insert student_id m' w.members }))))

-- `remove_students_bulk`: for each id, whether it succeeded.
unfoldable pub remove_students_bulk : ℕ → List ℕ → Classes → List (ℕ × Bool) × Classes
unfolding set_student_group
remove_students_bulk school_id [] w = ([], w)
remove_students_bulk school_id (id ∷ ids) w =
    let (r, w1) = set_student_group school_id id none w in
    let rest = remove_students_bulk school_id ids w1 in
    ((id, elim r [ err e ↦ false | ok u ↦ true ]) ∷ rest.0, rest.1)

abbrev pub is_chosen : ℕ → List ℕ → ℕ × Member → Bool
is_chosen school_id student_ids e = e.1.school_id == school_id && elem e.0 student_ids

-- `set_group_bulk`: a student of another school is skipped.
unfoldable pub set_group_bulk : ℕ → ℕ → List ℕ → Dict Member → Dict Member
set_group_bulk school_id group_id student_ids [] = []
set_group_bulk school_id group_id student_ids (e ∷ d) =
    let rest = set_group_bulk school_id group_id student_ids d in
    if is_chosen school_id student_ids e
    then (e.0, record (e.1) { student_group_id = some group_id }) ∷ rest
    else e ∷ rest

unfoldable pub assign_students : ℕ → ℕ → List ℕ → Classes → Reply ℕ × Classes
unfolding get_class set_group_bulk
assign_students school_id group_id student_ids w = or_same w (
    get_class school_id group_id w >>= (λ g. ok (
      count (is_chosen school_id student_ids) w.members,
      record w { members = set_group_bulk school_id group_id student_ids w.members },
    )))
