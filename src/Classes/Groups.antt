-- ===== src/Classes/Groups.antt =====
-- Classes are created, renamed and deleted under the tenant rule.
use ml_service.Prelude.{
  ℕ, ◌≡◌, refl, ap, Bool, true, false, Option, none, some, ◌==◌, lookup, if◌then◌else◌, arith,
}
use ml_service.Backend.{not_found, Reply, ok, err, ◌>>=◌, ok-injective}
use ml_service.Classes.{
  StudentGroup, Classes, group_in, owned, get_class, clean_name, create_class, update_class,
  delete_class, or_same,
}
use ml_service.Classes.Tenancy.{
  IsTenant, Keeps-fresh, Keeps-update, IsTenant-Keeps, IsLinked-erase, IsPlaced-erase,
}

-- A step that fails leaves the rows alone, so the rule is a matter of the steps that go through.
pub bind-IsTenant :
    {A B : Type 0} (w : Classes) (first : Reply A) (next : A → Reply (B × Classes))
    → IsTenant w
    → ((x : A) → first ≡ ok x → IsTenant (or_same w (next x)).1)
    → IsTenant (or_same w (first >>= next)).1
bind-IsTenant w (err e) next tenant step = tenant
bind-IsTenant w (ok x) next tenant step = step x refl

-- A guard that lets through has held.
pub if-ok :
    {A : Type 0} (b : Bool) (x y : A)
    → (if b then ok x else err not_found) ≡ ok y
    → (b ≡ true) × (x ≡ y)
if-ok true x y e = (refl, ok-injective e)
if-ok false x y e = ground (arith, e)

pub owned-row :
    (school_id : ℕ) (found : Option StudentGroup) (g : StudentGroup)
    → owned school_id found ≡ ok g
    → (found ≡ some g) × (group_in school_id found ≡ true)
owned-row school_id none g e = ground arith
owned-row school_id (some x) g e =
    let (same, row) = if-ok (x.school_id == school_id) x g e in (ap some row, same)

pub create_class-IsTenant :
    (clean : ℕ → Option ℕ) (new_id school_id name : ℕ) (grade section : Option ℕ) (w : Classes)
    → lookup new_id w.groups ≡ none
    → IsTenant w
    → IsTenant (create_class clean new_id school_id name grade section w).1
unfolding create_class
create_class-IsTenant clean new_id school_id name grade section w fresh tenant =
    bind-IsTenant w (clean_name clean name) _ tenant
      (λ cleaned found. IsTenant-Keeps w _ (Keeps-fresh new_id _ w.groups fresh) tenant)

pub update_class-IsTenant :
    (clean : ℕ → Option ℕ) (school_id group_id name : ℕ) (grade section : Option ℕ) (w : Classes)
    → IsTenant w
    → IsTenant (update_class clean school_id group_id name grade section w).1
unfolding update_class get_class
update_class-IsTenant clean school_id group_id name grade section w tenant =
    bind-IsTenant w (clean_name clean name) _ tenant (λ cleaned found.
      bind-IsTenant w (owned school_id (lookup group_id w.groups)) _ tenant (λ g here.
        let row = owned-row school_id (lookup group_id w.groups) g here in
        IsTenant-Keeps w _ (Keeps-update group_id g _ w.groups row.0 refl) tenant))

pub delete_class-IsTenant :
    (school_id group_id : ℕ) (w : Classes)
    → IsTenant w
    → IsTenant (delete_class school_id group_id w).1
unfolding delete_class
delete_class-IsTenant school_id group_id w tenant =
    bind-IsTenant w (get_class school_id group_id w) _ tenant (λ g here. (
      IsLinked-erase w.groups w.users group_id w.links tenant.0,
      IsPlaced-erase w.groups group_id w.members tenant.1,
    ))
