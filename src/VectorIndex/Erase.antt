-- ===== src/VectorIndex/Erase.antt =====
-- A student deleted from the index of a school is not found there again.
use ml_service.Prelude.{
  ℕ, ◌≡◌, refl, sym, ◌∙◌, ap, subst, true, false, not, inl, inr, Bool-cases, Option, none, some,
  List, [], ◌∷◌, map, arith, ◌==◌, ==_iff, filter, length, elem, lookup, lookup-insert_self,
  if◌then◌else◌,
}
use ml_service.Failure.{ok, >>=-eq-ok, ok-injective}
use ml_service.VectorIndex.{
  Faiss, Blob, Shelf, zip, reconstruct, serialize, others, saved, delete, delete_loaded,
}
use ml_service.VectorIndex.Fresh.{IsCurrent, saved-IsCurrent}

module _ {A : Type 0} where
  labels-zip :
      (ids : List ℕ) (vs : List A)
      → (length vs == length ids) ≡ true
      → map (λ r. r.0) (zip ids vs) ≡ ids
  labels-zip [] vs e = refl
  labels-zip (x ∷ ids) [] e = ground (arith, e)
  labels-zip (x ∷ ids) (v ∷ vs) e = ap (λ rest. x ∷ rest) (labels-zip ids vs (ground (arith, e)))

  elem-others :
      (s : ℕ) (rows : List (ℕ × A))
      → elem s (map (λ r. r.0) (filter (λ r. not (r.0 == s)) rows)) ≡ false
  elem-others s [] = refl
  elem-others s (r ∷ rows) = ground (arith, elem-others s rows, ==_iff r.0 s, ==_iff s r.0)

abbrev pub labels : {Index : Type 0} → Option (Blob Index) → List ℕ
labels none = []
labels (some b) = b.id_map

module _ {Index Embedding : Type 0} (f : Faiss Index Embedding) (ev : ℕ) where
  reconstruct-labels :
      (b : Blob Index) (rows : List (ℕ × Embedding))
      → reconstruct f ev (some b) ≡ ok rows
      → map (λ r. r.0) rows ≡ b.id_map
  unfolding reconstruct
  reconstruct-labels b rows h = elim (Bool-cases (length (f.vectors b.index) == length b.id_map)) [
    | inl good ↦
        let same : zip b.id_map (f.vectors b.index) ≡ rows = ground (arith, good, h) in
        ap (map (λ (r : ℕ × Embedding). r.0)) (sym same)
        ∙ labels-zip b.id_map (f.vectors b.index) good
    | inr bad ↦ ground (arith, bad, h)
  ]

  abbrev Gone : ℕ → ℕ → Shelf Index → Type 0
  Gone school s st = (elem s (labels (lookup school st.store)) ≡ false) × IsCurrent school st

  delete_loaded-Gone :
      (school s : ℕ) (o : Option (Blob Index)) (st st' : Shelf Index)
      → lookup school st.store ≡ o
      → IsCurrent school st
      → delete_loaded f ev school s o st ≡ ok st'
      → Gone school s st'
  delete_loaded-Gone school s none st st' e c h =
      subst (Gone school s) (ok-injective h) (rw e refl, c)
  delete_loaded-Gone school s (some b) st st' e c h =
      let (rows, read, h') = >>=-eq-ok (reconstruct f ev (some b)) _ h in
      let same = reconstruct-labels b rows read in
      elim (Bool-cases (elem s (map (λ (r : ℕ × Embedding). r.0) rows))) [
        | inl there ↦
            let blob = serialize f ev (others f ev s rows) (some b) in
            subst (Gone school s)
              (ok-injective (
                subst (λ x. (if x then ok (saved f ev school blob st) else ok st) ≡ ok st') there
                  h'))
              (
                rw (lookup-insert_self school blob st.store) (elem-others s rows),
                saved-IsCurrent f ev school school blob st c,
              )
        | inr gone ↦
            let blob = serialize f ev (others f ev s rows) (some b) in
            subst (Gone school s)
              (ok-injective (
                subst (λ x. (if x then ok (saved f ev school blob st) else ok st) ≡ ok st') gone
                  h'))
              (rw e (subst (λ ids. elem s ids ≡ false) same gone), c)
      ]

  -- After a deletion the school's index has no vector of the student.
  pub delete-labels :
      (school s : ℕ) (st st' : Shelf Index)
      → IsCurrent school st
      → delete f ev school s st ≡ ok st'
      → elem s (labels (lookup school st'.store)) ≡ false
  unfolding delete
  delete-labels school s st st' c h =
      (delete_loaded-Gone school s (lookup school st.store) st st' refl c h).0
