-- ===== src/Share/Targets.antt =====
-- The photos that a request comes to: each requested id once, to send where the student appears on
-- the photo, else skipped.
use ml_service.Prelude.{
  ℕ, ◌≡◌, refl, sym, ◌∙◌, subst, Bool, true, false, not, ◌&&◌, ◌||◌, inl, inr, Bool-cases, Option,
  some-injective, none, some, List, [], ◌∷◌, arith, ◌==◌, ==_iff, ==_refl, any, elem, count, In,
  All, All-of_In, Dict, lookup, insert, lookup-insert, is_some, if◌then◌else◌,
}
use ml_service.Backend.{Media}
use ml_service.SendLog.{not_entitled, budget, image_unavailable, upload_failed, send_failed}
use ml_service.Share.{ItemResult, by_id, sorted_out, pick, targets_of}

-- What a dictionary of photos holds are photos of the list, under their ids.
Holds : List Media → Dict Media → Type 0
Holds effective d = (k : ℕ) (m : Media) → lookup k d ≡ some m → In m effective × (m.id ≡ k)

Holds-insert :
    (effective : List Media) (d : Dict Media) (x : Media)
    → In x effective
    → Holds effective d
    → Holds effective (insert x.id x d)
unfolding Holds
Holds-insert effective d x member h k m found =
    let here : (if k == x.id then some x else lookup k d) ≡ some m =
      sym (lookup-insert x.id k x d) ∙ found in
    elim (Bool-cases (k == x.id)) [
      | inl same ↦
          let equal : x ≡ m = some-injective (sym (rw same refl) ∙ here) in
          subst (λ (y : Media). In y effective × (y.id ≡ k)) equal (member, ground (arith, same))
      | inr other ↦ h k m (sym (rw other refl) ∙ here)
    ]

by_id-Holds :
    (effective : List Media) (ms : List Media) (d : Dict Media)
    → ((m : Media) → In m ms → In m effective)
    → Holds effective d
    → Holds effective (by_id d ms)
unfolding by_id
by_id-Holds effective [] d members h = h
by_id-Holds effective (m ∷ ms) d members h =
    by_id-Holds effective ms (insert m.id m d) (λ x i. members x (inr i))
      (Holds-insert effective d m (members m (inl refl)) h)

lookup-by_id :
    (k : ℕ) (ms : List Media) (d : Dict Media)
    → is_some (lookup k (by_id d ms)) ≡ is_some (lookup k d) || any (λ m. m.id == k) ms
unfolding by_id
lookup-by_id k [] d = ground arith
lookup-by_id k (m ∷ ms) d =
    ground (arith, lookup-by_id k ms (insert m.id m d), lookup-insert m.id k m d)

-- How often an id is among the photos to send, and among the skips.
abbrev pub Counts : Dict Media → ℕ → List ℕ → List ℕ → List Media × List ItemResult → Type 0
Counts d k seen ids x =
    (count (λ m. m.id == k) x.0
      ≡ (if (elem k ids && not (elem k seen)) && is_some (lookup k d) then 1 else 0))
    × (count (λ r. r.media_id == k) x.1
        ≡ (if (elem k ids && not (elem k seen)) && not (is_some (lookup k d)) then 1 else 0))

module _ (effective : List Media) (d : Dict Media) (holds : Holds effective d) where
  pick-In : (seen ids : List ℕ) → All (λ m. In m effective) (pick d seen ids).0
  unfolding pick Holds
  pick-In seen [] = tt
  pick-In seen (id ∷ ids) = elim (Bool-cases (elem id seen)) [
    | inl again ↦ rw again (pick-In seen ids)
    | inr fresh ↦
        rw fresh (asked (lookup id d) refl (pick d (id ∷ seen) ids) (pick-In (id ∷ seen) ids))
  ]
    where
      asked :
          (o : Option Media)
          → lookup id d ≡ o
          → (rest : List Media × List ItemResult) → All (λ m. In m effective) rest.0
          → All (λ m. In m effective) (sorted_out id o rest).0
      asked none e rest h = h
      asked (some media) e rest h = ((holds id media e).0, h)

  Counts-same :
      (seen ids : List ℕ) (id : ℕ) (o : Option Media) (rest : List Media × List ItemResult)
      → lookup id d ≡ o
      → elem id seen ≡ false
      → Counts d id (id ∷ seen) ids rest
      → Counts d id seen (id ∷ ids) (sorted_out id o rest)
  unfolding Holds
  Counts-same seen ids id none rest e fresh h = ground (arith, e, fresh, h, ==_refl id)
  Counts-same seen ids id (some m) rest e fresh h =
      ground (arith, e, fresh, h, ==_refl id, (holds id m e).1)

  Counts-other :
      (k : ℕ) (seen ids : List ℕ) (id : ℕ) (o : Option Media) (rest : List Media × List ItemResult)
      → (k == id) ≡ false
      → lookup id d ≡ o
      → Counts d k (id ∷ seen) ids rest
      → Counts d k seen (id ∷ ids) (sorted_out id o rest)
  unfolding Holds
  Counts-other k seen ids id none rest other e h = ground (arith, e, other, h)
  Counts-other k seen ids id (some m) rest other e h = ground (arith, e, other, h, (holds id m e).1)

  Counts-again :
      (k : ℕ) (seen ids : List ℕ) (id : ℕ) (x : List Media × List ItemResult)
      → elem id seen ≡ true
      → Counts d k seen ids x
      → Counts d k seen (id ∷ ids) x
  Counts-again k seen ids id x again h = elim (Bool-cases (k == id)) [
    | inl same ↦
        let equal : id ≡ k = sym ((==_iff k id).0 same) in
        subst (λ (j : ℕ). Counts d j seen ids x → Counts d j seen (id ∷ ids) x) equal
          (λ g. ground (arith, again, g)) h
    | inr other ↦ rw other h
  ]

  pick-Counts : (k : ℕ) (seen ids : List ℕ) → Counts d k seen ids (pick d seen ids)
  unfolding pick
  pick-Counts k seen [] = (refl, refl)
  pick-Counts k seen (id ∷ ids) = elim (Bool-cases (elem id seen)) [
    | inl again ↦ rw again (Counts-again k seen ids id _ again (pick-Counts k seen ids))
    | inr fresh ↦ rw fresh (elim (Bool-cases (k == id)) [
      | inl same ↦
          subst
            (λ (j : ℕ).
              Counts d j seen (id ∷ ids) (sorted_out id (lookup id d) (pick d (id ∷ seen) ids)))
            (sym ((==_iff k id).0 same))
            (Counts-same seen ids id (lookup id d) _ refl fresh (pick-Counts id (id ∷ seen) ids))
      | inr other ↦
          Counts-other k seen ids id (lookup id d) _ other refl (pick-Counts k (id ∷ seen) ids)
    ])
  ]

Holds-empty : (effective : List Media) → Holds effective (by_id [] effective)
unfolding Holds
Holds-empty effective =
    by_id-Holds effective effective [] (λ m i. i) (λ k m found. ground (arith, found))

-- Only photos that the student appears on are to be sent.
pub targets_of-In :
    (ids : Option (List ℕ)) (effective : List Media)
    → All (λ m. In m effective) (targets_of ids effective).0
unfolding targets_of
targets_of-In none effective = All-of_In (λ m. In m effective) effective (λ m i. i)
targets_of-In (some ids) effective =
    pick-In effective (by_id [] effective) (Holds-empty effective) [] ids

abbrev pub is_unentitled : ItemResult → Bool
is_unentitled r = elim r.reason [
  | none ↦ false
  | some why ↦ elim why [
    | not_entitled ↦ true
    | budget ↦ false
    | image_unavailable ↦ false
    | upload_failed ↦ false
    | send_failed ↦ false
  ]
]

-- A requested photo is to be sent where the student appears on it, and skipped otherwise.
pub targets_of-count :
    (k : ℕ) (ids : List ℕ) (effective : List Media)
    → let x = targets_of (some ids) effective in
      (count (λ m. m.id == k) x.0 ≡ (if elem k ids && any (λ m. m.id == k) effective then 1 else 0))
      × (count (λ r. r.media_id == k) x.1
          ≡ (if elem k ids && not (any (λ m. m.id == k) effective) then 1 else 0))
unfolding targets_of
targets_of-count k ids effective =
    let counts = pick-Counts effective (by_id [] effective) (Holds-empty effective) k [] ids in
    ground (arith, counts, lookup-by_id k effective [])

pick-unentitled :
    (k : ℕ) (d : Dict Media) (seen ids : List ℕ)
    → let skips = (pick d seen ids).1 in
      count (λ r. r.media_id == k && is_unentitled r) skips ≡ count (λ r. r.media_id == k) skips
unfolding pick
pick-unentitled k d seen [] = refl
pick-unentitled k d seen (id ∷ ids) = elim (Bool-cases (elem id seen)) [
  | inl again ↦ rw again (pick-unentitled k d seen ids)
  | inr fresh ↦
      rw fresh (asked (lookup id d) (pick d (id ∷ seen) ids) (pick-unentitled k d (id ∷ seen) ids))
]
  where
    asked :
        (o : Option Media) (rest : List Media × List ItemResult)
        → count (λ r. r.media_id == k && is_unentitled r) rest.1
          ≡ count (λ r. r.media_id == k) rest.1
        → count (λ r. r.media_id == k && is_unentitled r) (sorted_out id o rest).1
          ≡ count (λ r. r.media_id == k) (sorted_out id o rest).1
    asked none rest h = ground (arith, h)
    asked (some media) rest h = h

pub targets_of-unentitled :
    (k : ℕ) (ids : List ℕ) (effective : List Media)
    → let skips = (targets_of (some ids) effective).1 in
      count (λ r. r.media_id == k && is_unentitled r) skips ≡ count (λ r. r.media_id == k) skips
unfolding targets_of
targets_of-unentitled k ids effective = pick-unentitled k (by_id [] effective) [] ids
