-- ===== src/Classes/Tenancy.antt =====
-- The rows of the classes under the tenant rule: what each write keeps of it.
use ml_service.Prelude.{
  ℕ, ◌≡◌, refl, sym, ap, subst, ◌∙◌, Bool, true, false, not, inl, inr, Bool-cases, Option, none,
  some, List, [], ◌∷◌, All, All-append, In-of_All, In-filter, All-of_In, filter, ◌==◌, Dict, lookup,
  insert, erase, lookup-insert, lookup-erase_ne, arith, any,
}
use ml_service.Users.{User, get}
use ml_service.Classes.Delegation.{is_teacher_of, is_link, add}
use ml_service.Classes.{
  StudentGroup, Member, TeacherClass, Classes, group_in, set_group_bulk, is_chosen, set_null,
  unassigned, points_to,
}

-- A link joins a class and a teacher of its own school.
abbrev pub IsLinked : Dict StudentGroup → List User → TeacherClass → Type 0
IsLinked groups users l =
    (group_in l.school_id (lookup l.student_group_id groups) ≡ true)
    × (is_teacher_of l.school_id (get l.teacher_user_id users) ≡ true)

-- The pointer of a student is none, or leads to a class of the student's school.
abbrev pub is_placed_at : Dict StudentGroup → ℕ → Option ℕ → Bool
is_placed_at groups school_id none = true
is_placed_at groups school_id (some g) = group_in school_id (lookup g groups)

abbrev pub IsPlaced : Dict StudentGroup → ℕ × Member → Type 0
IsPlaced groups e = is_placed_at groups e.1.school_id e.1.student_group_id ≡ true

abbrev pub IsTenant : Classes → Type 0
IsTenant w = All (IsLinked w.groups w.users) w.links × All (IsPlaced w.groups) w.members

pub All-filter :
    {A : Type 0} (P : A → Type 0) (p : A → Bool) (xs : List A) → All P xs → All P (filter p xs)
All-filter P p xs h =
    All-of_In P (filter p xs) (λ a m. In-of_All P a xs h ((In-filter p a xs).0 m).0)

pub All-map :
    {A : Type 0} (P Q : A → Type 0) (xs : List A) → ((a : A) → P a → Q a) → All P xs → All Q xs
All-map P Q [] f h = tt
All-map P Q (x ∷ xs) f h = (f x h.0, All-map P Q xs f h.1)

pub All-insert :
    {V : Type 0} (P : ℕ × V → Type 0) (k : ℕ) (v : V) (d : Dict V)
    → ((j : ℕ) → P (j, v))
    → All P d
    → All P (insert k v d)
All-insert P k v [] new h = (new k, tt)
All-insert P k v ((j, w) ∷ d) new h = elim (Bool-cases (k == j)) [
  | inl same ↦ rw same (new j, h.1)
  | inr other ↦ rw other (h.0, All-insert P k v d new h.1)
]

-- Classes that no table loses: each class keeps its school.
abbrev pub Keeps : Dict StudentGroup → Dict StudentGroup → Type 0
Keeps before after =
    (school_id g : ℕ)
    → group_in school_id (lookup g before) ≡ true
    → group_in school_id (lookup g after) ≡ true

pub Keeps-fresh :
    (id : ℕ) (v : StudentGroup) (groups : Dict StudentGroup)
    → lookup id groups ≡ none
    → Keeps groups (insert id v groups)
Keeps-fresh id v groups fresh school_id g h =
    rw (lookup-insert id g v groups) (elim (Bool-cases (g == id)) [
      | inl same ↦ ground (arith, same, fresh, h)
      | inr other ↦ rw other h
    ])

pub Keeps-update :
    (id : ℕ) (old v : StudentGroup) (groups : Dict StudentGroup)
    → lookup id groups ≡ some old
    → v.school_id ≡ old.school_id
    → Keeps groups (insert id v groups)
Keeps-update id old v groups here same_school school_id g h =
    rw (lookup-insert id g v groups) (elim (Bool-cases (g == id)) [
      | inl same ↦ ground (arith, same, here, h, same_school)
      | inr other ↦ rw other h
    ])

pub IsTenant-Keeps :
    (w : Classes) (groups : Dict StudentGroup)
    → Keeps w.groups groups
    → IsTenant w
    → IsTenant (record w { groups = groups })
IsTenant-Keeps w groups keeps tenant = (
  All-map (IsLinked w.groups w.users) (IsLinked groups w.users) w.links
      (λ l linked. (keeps l.school_id l.student_group_id linked.0, linked.1)) tenant.0,
  All-map (IsPlaced w.groups) (IsPlaced groups) w.members
      (λ e placed. placed_still e.1.school_id e.1.student_group_id placed) tenant.1,
)
  where
    placed_still :
        (school_id : ℕ) (g : Option ℕ)
        → is_placed_at w.groups school_id g ≡ true
        → is_placed_at groups school_id g ≡ true
    placed_still school_id none h = refl
    placed_still school_id (some g) h = keeps school_id g h

-- A class is deleted: the links to it are gone, and so are the pointers.
pub IsLinked-erase :
    (groups : Dict StudentGroup) (users : List User) (id : ℕ) (links : List TeacherClass)
    → All (IsLinked groups users) links
    → All (IsLinked (erase id groups) users) (filter (λ l. not (l.student_group_id == id)) links)
IsLinked-erase groups users id [] h = tt
IsLinked-erase groups users id (l ∷ links) h = elim (Bool-cases (l.student_group_id == id)) [
  | inl gone ↦ rw gone (IsLinked-erase groups users id links h.1)
  | inr other ↦ rw other (
    (
      ap (group_in l.school_id)
            (lookup-erase_ne l.student_group_id id groups (ground (arith, other)))
          ∙ h.0.0,
      h.0.1,
    ),
    IsLinked-erase groups users id links h.1,
  )
]

pub IsPlaced-erase :
    (groups : Dict StudentGroup) (id : ℕ) (members : Dict Member)
    → All (IsPlaced groups) members
    → All (IsPlaced (erase id groups)) (set_null id members)
IsPlaced-erase groups id [] h = tt
IsPlaced-erase groups id (e ∷ d) h = (at_row e.1 h.0, IsPlaced-erase groups id d h.1)
  where
    elsewhere :
        (school_id : ℕ) (g : Option ℕ)
        → points_to id g ≡ false
        → is_placed_at groups school_id g ≡ true
        → is_placed_at (erase id groups) school_id g ≡ true
    elsewhere school_id none other placed = refl
    elsewhere school_id (some g) other placed =
        ap (group_in school_id) (lookup-erase_ne g id groups (ground (arith, other))) ∙ placed

    at_row :
        (m : Member)
        → is_placed_at groups m.school_id m.student_group_id ≡ true
        → is_placed_at
            (erase id groups)
            (unassigned id m).school_id
            (unassigned id m).student_group_id
          ≡ true
    at_row m placed = elim (Bool-cases (points_to id m.student_group_id)) [
      | inl gone ↦ rw gone refl
      | inr other ↦ rw other (elsewhere m.school_id m.student_group_id other placed)
    ]

pub add-IsLinked :
    (groups : Dict StudentGroup) (users : List User) (school_id t g : ℕ) (links : List TeacherClass)
    → group_in school_id (lookup g groups) ≡ true
    → is_teacher_of school_id (get t users) ≡ true
    → All (IsLinked groups users) links
    → All (IsLinked groups users) (add school_id t g links)
unfolding add
add-IsLinked groups users school_id t g links in_class is_teacher h =
    elim (Bool-cases (any (is_link t g) links)) [
      | inl there ↦ rw there h
      | inr new ↦ rw new (All-append (IsLinked groups users) links _ h ((in_class, is_teacher), tt))
    ]

pub set_group_bulk-IsPlaced :
    (groups : Dict StudentGroup) (school_id g : ℕ) (ids : List ℕ) (members : Dict Member)
    → group_in school_id (lookup g groups) ≡ true
    → All (IsPlaced groups) members
    → All (IsPlaced groups) (set_group_bulk school_id g ids members)
unfolding set_group_bulk
set_group_bulk-IsPlaced groups school_id g ids [] in_class h = tt
set_group_bulk-IsPlaced groups school_id g ids (e ∷ d) in_class h =
    elim (Bool-cases (is_chosen school_id ids e)) [
      | inl chosen ↦ rw chosen (
        chosen_row chosen in_class,
        set_group_bulk-IsPlaced groups school_id g ids d in_class h.1,
      )
      | inr other ↦ rw other (h.0, set_group_bulk-IsPlaced groups school_id g ids d in_class h.1)
    ]
  where
    chosen_row :
        is_chosen school_id ids e ≡ true
        → group_in school_id (lookup g groups) ≡ true
        → group_in e.1.school_id (lookup g groups) ≡ true
    chosen_row chosen in_class =
        subst (λ (s : ℕ). group_in s (lookup g groups) ≡ true) (sym (same chosen)) in_class
      where
        same : is_chosen school_id ids e ≡ true → e.1.school_id ≡ school_id
        same chosen = ground (arith, chosen)
