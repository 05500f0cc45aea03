-- ===== src/Tests/Schooling.antt =====
-- Two schools with a class each: nothing crosses between them.
use ml_service.Prelude.{ℕ, ◌≡◌, refl, Option, none, some, false, [], ◌∷◌, length, lookup}
use ml_service.Users.{teacher, User, active}
use ml_service.Classes.{
  Classes, get_class, create_class, delete_class, set_student_group, set_group_bulk,
  assign_students,
}
use ml_service.Classes.Delegation.{
  add, add_all, link_all, assign_teachers, replace_for_teacher, set_teacher_classes,
}
use ml_service.Classes.Tenancy.{IsTenant}
use ml_service.Classes.Runs.{
  rests, acts, creates, deletes, assigns_students, moves, assigns_teachers, sets_classes,
  Run-IsTenant,
}

abbrev teacher_at : ℕ → ℕ → User
teacher_at school_id id = record {
  id = id;
  school_id = some school_id;
  email = id;
  password_hash = id;
  role = teacher;
  status = active;
  must_change_password = false;
  token_version = 0;
  last_login_at = none;
}

-- Class 5 is of the first school, class 6 of the second.
abbrev classes : Classes
classes = record {
  groups =
      (5, record { school_id = 1; name = 50; grade = none; section = none })
      ∷ (6, record { school_id = 2; name = 60; grade = none; section = none })
      ∷ [];
  members =
      (31, record { school_id = 1; student_group_id = none })
      ∷ (32, record { school_id = 2; student_group_id = some 6 })
      ∷ [];
  links = [];
  users = teacher_at 1 8 ∷ teacher_at 2 18 ∷ [];
}

abbrev clean : ℕ → Option ℕ
clean name = some name

abbrev created : Classes
created = (create_class clean 7 1 70 none none classes).1

abbrev staffed : Classes
staffed = (assign_teachers 1 5 (8 ∷ 18 ∷ []) created).1

abbrev filled : Classes
filled = (assign_students 1 5 (31 ∷ 32 ∷ []) staffed).1

abbrev moved : Classes
moved = (set_student_group 1 31 (some 6) filled).1

abbrev chosen : Classes
chosen = (set_teacher_classes 1 8 (7 ∷ 6 ∷ 5 ∷ 7 ∷ []) moved).1

-- One teacher is linked twice, to the classes of the own school, and one student is assigned.
links_chosen : length chosen.links ≡ 2
unfolding create_class assign_teachers assign_students get_class link_all add set_group_bulk
    set_student_group set_teacher_classes replace_for_teacher add_all
links_chosen = refl

students_chosen :
    lookup 31 chosen.members ≡ some (record { school_id = 1; student_group_id = some 5 })
unfolding create_class assign_teachers assign_students get_class link_all add set_group_bulk
    set_student_group set_teacher_classes replace_for_teacher add_all
students_chosen = refl

Run-IsTenant_example : IsTenant (delete_class 1 5 chosen).1
Run-IsTenant_example =
    Run-IsTenant clean classes (delete_class 1 5 chosen).1
      (acts classes created (delete_class 1 5 chosen).1 (creates 7 1 70 none none classes refl) (
        acts created staffed (delete_class 1 5 chosen).1
          (assigns_teachers 1 5 (8 ∷ 18 ∷ []) created)
          (acts staffed filled (delete_class 1 5 chosen).1
            (assigns_students 1 5 (31 ∷ 32 ∷ []) staffed)
            (acts filled moved (delete_class 1 5 chosen).1 (moves 1 31 (some 6) filled) (
              acts moved chosen (delete_class 1 5 chosen).1
                (sets_classes 1 8 (7 ∷ 6 ∷ 5 ∷ 7 ∷ []) moved)
                (acts chosen (delete_class 1 5 chosen).1 (delete_class 1 5 chosen).1
                  (deletes 1 5 chosen) (rests (delete_class 1 5 chosen).1)))))))
      (tt, (refl, (refl, tt)))
