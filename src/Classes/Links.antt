-- ===== src/Classes/Links.antt =====
-- Teachers are linked to classes, and unlinked, under the tenant rule.
use ml_service.Prelude.{
  ℕ, ◌≡◌, Bool, true, not, inl, inr, Bool-cases, List, [], ◌∷◌, All, In-filter, All-of_In, Dict,
  lookup, elem, any, dedup_from,
}
use ml_service.Backend.{ok}
use ml_service.Users.{User, get}
use ml_service.Classes.{StudentGroup, TeacherClass, Classes, group_in, owned, get_class}
use ml_service.Classes.Delegation.{
  is_teacher_of, is_school_teacher, require_teacher, add, add_all, link_all, assign_teachers,
  is_row, remove_class_teacher, replace_for_teacher, set_teacher_classes,
}
use ml_service.Classes.Tenancy.{IsLinked, IsTenant, All-filter, add-IsLinked}
use ml_service.Classes.Groups.{bind-IsTenant, if-ok, owned-row}

pub link_all-IsTenant :
    (school_id group_id : ℕ) (ts : List ℕ) (w : Classes)
    → group_in school_id (lookup group_id w.groups) ≡ true
    → IsTenant w
    → IsTenant (link_all school_id group_id ts w).1
unfolding link_all
link_all-IsTenant school_id group_id [] w in_class tenant = tenant
link_all-IsTenant school_id group_id (t ∷ ts) w in_class tenant =
    elim (Bool-cases (is_school_teacher school_id t w)) [
      | inl teaches ↦ rw teaches (
          link_all-IsTenant school_id group_id ts
            (record w { links = add school_id t group_id w.links }) in_class
            (
              add-IsLinked w.groups w.users school_id t group_id w.links in_class teaches tenant.0,
              tenant.1,
            ))
      | inr other ↦ rw other (link_all-IsTenant school_id group_id ts w in_class tenant)
    ]

pub assign_teachers-IsTenant :
    (school_id group_id : ℕ) (ts : List ℕ) (w : Classes)
    → IsTenant w
    → IsTenant (assign_teachers school_id group_id ts w).1
unfolding assign_teachers get_class
assign_teachers-IsTenant school_id group_id ts w tenant =
    bind-IsTenant w (owned school_id (lookup group_id w.groups)) _ tenant (λ g here.
      link_all-IsTenant school_id group_id ts w
        (owned-row school_id (lookup group_id w.groups) g here).1 tenant)

pub remove_class_teacher-IsTenant :
    (school_id group_id teacher_id : ℕ) (w : Classes)
    → IsTenant w
    → IsTenant (remove_class_teacher school_id group_id teacher_id w).1
unfolding remove_class_teacher
remove_class_teacher-IsTenant school_id group_id teacher_id w tenant =
    bind-IsTenant w (get_class school_id group_id w) _ tenant (λ g here.
      elim (Bool-cases (any (is_row school_id teacher_id group_id) w.links)) [
        | inl there ↦ rw there (
          All-filter (IsLinked w.groups w.users) (λ l. not (is_row school_id teacher_id group_id l))
              w.links tenant.0,
          tenant.1,
        )
        | inr gone ↦ rw gone tenant
      ])

pub All-dedup_from : (P : ℕ → Type 0) (seen xs : List ℕ) → All P xs → All P (dedup_from seen xs)
All-dedup_from P seen [] h = tt
All-dedup_from P seen (x ∷ xs) h = elim (Bool-cases (elem x seen)) [
  | inl old ↦ rw old (All-dedup_from P seen xs h.1)
  | inr new ↦ rw new (h.0, All-dedup_from P (x ∷ seen) xs h.1)
]

pub add_all-IsLinked :
    (groups : Dict StudentGroup) (users : List User) (school_id t : ℕ) (gs : List ℕ)
    → is_teacher_of school_id (get t users) ≡ true
    → All (λ g. group_in school_id (lookup g groups) ≡ true) gs
    → (links : List TeacherClass) → All (IsLinked groups users) links
    → All (IsLinked groups users) (add_all school_id t gs links)
unfolding add_all
add_all-IsLinked groups users school_id t [] teaches ours links h = h
add_all-IsLinked groups users school_id t (g ∷ gs) teaches ours links h =
    add_all-IsLinked groups users school_id t gs teaches ours.1 (add school_id t g links)
      (add-IsLinked groups users school_id t g links ours.0 teaches h)

pub required-teacher :
    (school_id t : ℕ) (w : Classes)
    → (u : Unit {0}) → require_teacher school_id t w ≡ ok u
    → is_school_teacher school_id t w ≡ true
required-teacher school_id t w u e = (if-ok (is_school_teacher school_id t w) tt u e).0

pub set_teacher_classes-IsTenant :
    (school_id teacher_id : ℕ) (ids : List ℕ) (w : Classes)
    → IsTenant w
    → IsTenant (set_teacher_classes school_id teacher_id ids w).1
unfolding set_teacher_classes replace_for_teacher
set_teacher_classes-IsTenant school_id teacher_id ids w tenant =
    bind-IsTenant w (require_teacher school_id teacher_id w) _ tenant (λ u found. (
      add_all-IsLinked w.groups w.users school_id teacher_id _
          (required-teacher school_id teacher_id w u found)
          (All-dedup_from ours [] _ (All-of_In ours _ (λ g m. ((In-filter is_ours g ids).0 m).1))) _
          (All-filter (IsLinked w.groups w.users) _ w.links tenant.0),
      tenant.1,
    ))
  where
    is_ours : ℕ → Bool
    is_ours g = group_in school_id (lookup g w.groups)

    ours : ℕ → Type 0
    ours g = group_in school_id (lookup g w.groups) ≡ true
