-- ===== src/Classes/Delegation.antt =====
-- The teachers of the classes (services/backend/src/backend/services/delegation_service.py, with
-- adapters/repositories/postgres_teacher_classes.py). The classes of a teacher are given with their
-- ids, in the table's order.
use ml_service.Prelude.{
  ℕ, ◌+◌, Bool, false, not, ◌&&◌, Option, none, some, List, [], ◌∷◌, ◌++◌, ◌==◌, filter, any, dedup,
  lookup, if◌then◌else◌,
}
use ml_service.Backend.{not_found, Reply, ok, err, ◌>>=◌}
use ml_service.Users.{teacher, same_role, User, of_school, get}
use ml_service.Classes.{StudentGroup, TeacherClass, Classes, group_in, get_class, or_same}

abbrev pub is_teacher_of : ℕ → Option User → Bool
is_teacher_of school_id none = false
is_teacher_of school_id (some u) = of_school school_id u.school_id && same_role u.role teacher

-- `_is_school_teacher`
abbrev pub is_school_teacher : ℕ → ℕ → Classes → Bool
is_school_teacher school_id teacher_id w = is_teacher_of school_id (get teacher_id w.users)

abbrev pub require_teacher : ℕ → ℕ → Classes → Reply (Unit {0})
require_teacher school_id teacher_id w =
    if is_school_teacher school_id teacher_id w then ok tt else err not_found

abbrev pub is_link : ℕ → ℕ → TeacherClass → Bool
is_link teacher_id group_id l = l.teacher_user_id == teacher_id && l.student_group_id == group_id

-- `add`: a link that is there stays.
unfoldable pub add : ℕ → ℕ → ℕ → List TeacherClass → List TeacherClass
add school_id teacher_id group_id links =
    if any (is_link teacher_id group_id) links
    then links
    else links
      ++ record { school_id = school_id; teacher_user_id = teacher_id; student_group_id = group_id }
        ∷ []

-- The loop of `assign_teachers`; an id that is no teacher of the school is skipped.
unfoldable pub link_all : ℕ → ℕ → List ℕ → Classes → ℕ × Classes
unfolding add
link_all school_id group_id [] w = (0, w)
link_all school_id group_id (t ∷ ts) w =
    let skip = link_all school_id group_id ts w in
    let linked =
      link_all school_id group_id ts (record w { links = add school_id t group_id w.links }) in
    if is_school_teacher school_id t w then (linked.0 + 1, linked.1) else skip

unfoldable pub assign_teachers : ℕ → ℕ → List ℕ → Classes → Reply ℕ × Classes
unfolding get_class link_all
assign_teachers school_id group_id teacher_ids w =
    or_same w
      (get_class school_id group_id w >>= (λ g. ok (link_all school_id group_id teacher_ids w)))

abbrev pub is_row : ℕ → ℕ → ℕ → TeacherClass → Bool
is_row school_id teacher_id group_id l = l.school_id == school_id && is_link teacher_id group_id l

unfoldable pub remove_class_teacher : ℕ → ℕ → ℕ → Classes → Reply (Unit {0}) × Classes
unfolding get_class
remove_class_teacher school_id group_id teacher_id w = or_same w (
    get_class school_id group_id w >>= (λ g.
      if any (is_row school_id teacher_id group_id) w.links
      then ok (
        tt,
        record w { links = filter (λ l. not (is_row school_id teacher_id group_id l)) w.links },
      )
      else err not_found))

-- The rows of `replace_for_teacher`, in the order of the classes.
unfoldable pub add_all : ℕ → ℕ → List ℕ → List TeacherClass → List TeacherClass
unfolding add
add_all school_id teacher_id [] links = links
add_all school_id teacher_id (g ∷ gs) links =
    add_all school_id teacher_id gs (add school_id teacher_id g links)

-- `replace_for_teacher`: the old links of the teacher in the school go, the new set comes.
unfoldable pub replace_for_teacher : ℕ → ℕ → List ℕ → List TeacherClass → List TeacherClass
unfolding add_all
replace_for_teacher school_id teacher_id group_ids links =
    add_all school_id teacher_id (dedup group_ids)
      (filter (λ l. not (l.school_id == school_id && l.teacher_user_id == teacher_id)) links)

-- `_classes_for`
abbrev pub classes_for : ℕ → ℕ → Classes → List (ℕ × StudentGroup)
classes_for school_id teacher_id w =
    filter (λ e. e.1.school_id == school_id && any (is_row school_id teacher_id e.0) w.links)
      w.groups

unfoldable pub set_teacher_classes :
    ℕ → ℕ → List ℕ → Classes → Reply (List (ℕ × StudentGroup)) × Classes
unfolding replace_for_teacher
set_teacher_classes school_id teacher_id group_ids w = or_same w (
    require_teacher school_id teacher_id w >>= (λ t.
      let valid = filter (λ g. group_in school_id (lookup g w.groups)) group_ids in
      let w1 = record w { links = replace_for_teacher school_id teacher_id valid w.links } in
      ok (classes_for school_id teacher_id w1, w1)))
