-- ===== src/Classes/Runs.antt =====
-- Through any operations on the classes, no row crosses from one school to another.
use ml_service.Prelude.{
  ℕ, ◌≡◌, refl, sym, subst, true, Option, none, some, List, [], ◌∷◌, ◌==◌, lookup, arith,
}
use ml_service.Backend.{ok, >>=-eq-ok}
use ml_service.Classes.{
  Member, Classes, owned, get_class, create_class, update_class, delete_class, member_of,
  require_group_if_given, set_student_group, remove_students_bulk, assign_students,
}
use ml_service.Classes.Delegation.{assign_teachers, remove_class_teacher, set_teacher_classes}
use ml_service.Classes.Tenancy.{
  is_placed_at, IsPlaced, IsTenant, All-insert, set_group_bulk-IsPlaced,
}
use ml_service.Classes.Groups.{
  bind-IsTenant, if-ok, owned-row, create_class-IsTenant, update_class-IsTenant,
  delete_class-IsTenant,
}
use ml_service.Classes.Links.{
  assign_teachers-IsTenant, remove_class_teacher-IsTenant, set_teacher_classes-IsTenant,
}

assign_students-IsTenant :
    (school_id group_id : ℕ) (ids : List ℕ) (w : Classes)
    → IsTenant w
    → IsTenant (assign_students school_id group_id ids w).1
unfolding assign_students get_class
assign_students-IsTenant school_id group_id ids w tenant =
    bind-IsTenant w (owned school_id (lookup group_id w.groups)) _ tenant (λ g here. (
      tenant.0,
      set_group_bulk-IsPlaced w.groups school_id group_id ids w.members
          (owned-row school_id (lookup group_id w.groups) g here).1 tenant.1,
    ))

required-group :
    (school_id : ℕ) (g : Option ℕ) (w : Classes) (u : Unit {0})
    → require_group_if_given school_id g w ≡ ok u
    → is_placed_at w.groups school_id g ≡ true
unfolding get_class
required-group school_id none w u e = refl
required-group school_id (some g) w u e =
    let (x, here, _) = >>=-eq-ok (owned school_id (lookup g w.groups)) (λ x. ok tt) e in
    (owned-row school_id (lookup g w.groups) x here).1

member-row :
    (school_id : ℕ) (found : Option Member) (m : Member)
    → member_of school_id found ≡ ok m
    → m.school_id ≡ school_id
member-row school_id none m e = ground arith
member-row school_id (some x) m e =
    let (same, row) = if-ok (x.school_id == school_id) x m e in
    subst (λ (y : Member). y.school_id ≡ school_id) row (ground (arith, same))

set_student_group-IsTenant :
    (school_id student_id : ℕ) (g : Option ℕ) (w : Classes)
    → IsTenant w
    → IsTenant (set_student_group school_id student_id g w).1
unfolding set_student_group
set_student_group-IsTenant school_id student_id g w tenant =
    bind-IsTenant w (member_of school_id (lookup student_id w.members)) _ tenant (λ m found.
      bind-IsTenant w (require_group_if_given school_id g w) _ tenant (λ u here.
        let placed : is_placed_at w.groups m.school_id g ≡ true =
          subst (λ (s : ℕ). is_placed_at w.groups s g ≡ true)
            (sym (member-row school_id (lookup student_id w.members) m found))
            (required-group school_id g w u here) in
        (
          tenant.0,
          All-insert (IsPlaced w.groups) student_id (record m { student_group_id = g }) w.members
              (λ j. placed) tenant.1,
        )))

remove_students_bulk-IsTenant :
    (school_id : ℕ) (ids : List ℕ) (w : Classes)
    → IsTenant w
    → IsTenant (remove_students_bulk school_id ids w).1
unfolding remove_students_bulk
remove_students_bulk-IsTenant school_id [] w tenant = tenant
remove_students_bulk-IsTenant school_id (id ∷ ids) w tenant =
    remove_students_bulk-IsTenant school_id ids (set_student_group school_id id none w).1
      (set_student_group-IsTenant school_id id none w tenant)

-- One request, or one loop of requests, on the classes: every operation, by any school's caller. The
-- id of a new class is none that the table has.
pub data Managed (clean : ℕ → Option ℕ) : Classes → Classes → Type 0 where
  creates :
      (new_id school_id name : ℕ) (grade section : Option ℕ) (w : Classes)
      → lookup new_id w.groups ≡ none
      → Managed clean w (create_class clean new_id school_id name grade section w).1
  updates :
      (school_id group_id name : ℕ) (grade section : Option ℕ) (w : Classes)
      → Managed clean w (update_class clean school_id group_id name grade section w).1
  deletes :
      (school_id group_id : ℕ) (w : Classes) → Managed clean w (delete_class school_id group_id w).1
  assigns_students :
      (school_id group_id : ℕ) (ids : List ℕ) (w : Classes)
      → Managed clean w (assign_students school_id group_id ids w).1
  moves :
      (school_id student_id : ℕ) (group_id : Option ℕ) (w : Classes)
      → Managed clean w (set_student_group school_id student_id group_id w).1
  removes_students :
      (school_id : ℕ) (ids : List ℕ) (w : Classes)
      → Managed clean w (remove_students_bulk school_id ids w).1
  assigns_teachers :
      (school_id group_id : ℕ) (ids : List ℕ) (w : Classes)
      → Managed clean w (assign_teachers school_id group_id ids w).1
  removes_teacher :
      (school_id group_id teacher_id : ℕ) (w : Classes)
      → Managed clean w (remove_class_teacher school_id group_id teacher_id w).1
  sets_classes :
      (school_id teacher_id : ℕ) (ids : List ℕ) (w : Classes)
      → Managed clean w (set_teacher_classes school_id teacher_id ids w).1

pub data Run (clean : ℕ → Option ℕ) : Classes → Classes → Type 0 where
  rests : (w : Classes) → Run clean w w
  acts : (a b c : Classes) → Managed clean a b → Run clean b c → Run clean a c

step-IsTenant : (clean : ℕ → Option ℕ) (a b : Classes) → Managed clean a b → IsTenant a → IsTenant b
step-IsTenant clean a _ (creates i s n g c _ fresh) = create_class-IsTenant clean i s n g c a fresh
step-IsTenant clean a _ (updates s i n g c _) = update_class-IsTenant clean s i n g c a
step-IsTenant clean a _ (deletes s i _) = delete_class-IsTenant s i a
step-IsTenant clean a _ (assigns_students s i ids _) = assign_students-IsTenant s i ids a
step-IsTenant clean a _ (moves s i g _) = set_student_group-IsTenant s i g a
step-IsTenant clean a _ (removes_students s ids _) = remove_students_bulk-IsTenant s ids a
step-IsTenant clean a _ (assigns_teachers s i ids _) = assign_teachers-IsTenant s i ids a
step-IsTenant clean a _ (removes_teacher s i t _) = remove_class_teacher-IsTenant s i t a
step-IsTenant clean a _ (sets_classes s t ids _) = set_teacher_classes-IsTenant s t ids a

-- The accounts staying as they are, after any sequence of these operations, by callers of any
-- schools and with any ids, starting from rows that keep to their schools: every link joins a class
-- and a teacher of the link's own school, and the pointer of every student is none or leads to a
-- class that is there, of the student's own school.
pub Run-IsTenant : (clean : ℕ → Option ℕ) (a b : Classes) → Run clean a b → IsTenant a → IsTenant b
Run-IsTenant clean a _ (rests _) tenant = tenant
Run-IsTenant clean a c (acts _ b _ step run) tenant =
    Run-IsTenant clean b c run (step-IsTenant clean a b step tenant)
