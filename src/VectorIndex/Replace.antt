-- ===== src/VectorIndex/Replace.antt =====
-- Enrollment replaces a student's vectors in the index of the school, and no others.
use ml_service.Prelude.{
  ℕ, ◌+◌, ◌≡◌, refl, sym, ◌∙◌, ap, ap₂, append-nil, true, not, inl, inr, Bool-cases, Option, some,
  List, [], ◌∷◌, ◌++◌, map, arith, ◌==◌, ==_iff, filter, length, lookup, lookup-insert,
  lookup-insert_self, insert, if◌then◌else◌,
}
use ml_service.Failure.{ok, >>=-eq-ok, ok-injective}
use ml_service.VectorIndex.{
  Faiss, Blob, Shelf, zip, prev_version, reconstruct, serialize, others, saved, upsert,
}

-- The vectors of one student among labelled vectors.
abbrev pub of_student : {A : Type 0} → ℕ → List (ℕ × A) → List A
of_student s [] = []
of_student s ((label, v) ∷ rows) =
    let rest = of_student s rows in if label == s then v ∷ rest else rest

module _ {A : Type 0} where
  zip_parts : (rows : List (ℕ × A)) → zip (map (λ r. r.0) rows) (map (λ r. r.1) rows) ≡ rows
  zip_parts [] = refl
  zip_parts (r ∷ rows) = ap (λ rest. r ∷ rest) (zip_parts rows)

  length_parts :
      (rows : List (ℕ × A)) → (length (map (λ r. r.1) rows) == length (map (λ r. r.0) rows)) ≡ true
  length_parts [] = refl
  length_parts (r ∷ rows) = ground (arith, length_parts rows)

  of_student-append :
      (s : ℕ) (xs ys : List (ℕ × A)) → of_student s (xs ++ ys) ≡ of_student s xs ++ of_student s ys
  of_student-append s [] ys = refl
  of_student-append s ((label, v) ∷ xs) ys = ground (arith, of_student-append s xs ys)

  of_student-labelled :
      (s t : ℕ) (vs : List A) → of_student t (map (λ v. (s, v)) vs) ≡ (if t == s then vs else [])
  of_student-labelled s t [] = ground arith
  of_student-labelled s t (v ∷ vs) =
      ground (arith, of_student-labelled s t vs, ==_iff s t, ==_iff t s)

  of_student-others :
      (s t : ℕ) (rows : List (ℕ × A))
      → of_student t (filter (λ r. not (r.0 == s)) rows)
        ≡ (if t == s then [] else of_student t rows)
  of_student-others s t [] = ground arith
  of_student-others s t ((label, v) ∷ rows) =
      ground (arith, of_student-others s t rows, ==_iff label s, ==_iff label t, ==_iff t s)

  of_student-replaced :
      (s t : ℕ) (rows : List (ℕ × A)) (vs : List A)
      → of_student t (filter (λ r. not (r.0 == s)) rows ++ map (λ v. (s, v)) vs)
        ≡ (if t == s then vs else of_student t rows)
  of_student-replaced s t rows vs =
      of_student-append t (filter (λ (r : ℕ × A). not (r.0 == s)) rows) (map (λ (v : A). (s, v)) vs)
      ∙ ap₂ (λ (xs ys : List A). xs ++ ys) (of_student-others s t rows) (of_student-labelled s t vs)
      ∙ elim (Bool-cases (t == s)) [
        | inl same ↦ rw same refl
        | inr other ↦ rw other (append-nil (of_student t rows))
      ]

module _ {Index Embedding : Type 0} (f : Faiss Index Embedding) (ev : ℕ) where
  -- A serialized index gives its labelled vectors back.
  reconstruct-serialize :
      (rows : List (ℕ × Embedding)) (loaded : Option (Blob Index))
      → f.vectors (f.build (map (λ r. r.1) rows)) ≡ map (λ r. r.1) rows
      → reconstruct f ev (some (serialize f ev rows loaded)) ≡ ok rows
  unfolding reconstruct
  reconstruct-serialize rows loaded back =
      rw (back, length_parts rows) (ap (λ xs. ok xs) (zip_parts rows))

  -- An accepted enrollment replaces: afterwards the student's vectors in the school's index are the
  -- new ones, any other student's are the ones it had, every other school's index is untouched, and
  -- the version went up by one. The library's index gives back the vectors it was built from.
  pub upsert-of_student :
      (school s t k : ℕ) (e : Embedding) (es : List Embedding) (st st' : Shelf Index)
      → ((vs : List Embedding) → f.vectors (f.build vs) ≡ vs)
      → upsert f ev school s (e ∷ es) st ≡ ok st'
      → (before : List (ℕ × Embedding)) × (after : List (ℕ × Embedding)) × (reconstruct f ev
            (lookup school st.store)
          ≡ ok before)
        × (reconstruct f ev (lookup school st'.store) ≡ ok after)
        × (of_student t after ≡ (if t == s then e ∷ es else of_student t before))
        × (prev_version (lookup school st'.store) ≡ prev_version (lookup school st.store) + 1)
        × (lookup k st'.store
            ≡ (if k == school then lookup school st'.store else lookup k st.store))
  unfolding upsert
  upsert-of_student school s t k e es st st' back h =
      let loaded = lookup school st.store in
      let (rows, read, h') = >>=-eq-ok (reconstruct f ev loaded) _ h in
      let all_rows = others f ev s rows ++ map (λ (v : Embedding). (s, v)) (e ∷ es) in
      let blob = serialize f ev all_rows loaded in
      let done : saved f ev school blob st ≡ st' = ok-injective h' in
      let store : insert school blob st.store ≡ st'.store =
        ap (λ (x : Shelf Index). x.store) done in
      let here : lookup school st'.store ≡ some blob =
        ap (lookup school) (sym store) ∙ lookup-insert_self school blob st.store in
      (
        rows,
        all_rows,
        read,
        ap (reconstruct f ev) here ∙ reconstruct-serialize all_rows loaded (back _),
        of_student-replaced s t rows (e ∷ es),
        ap prev_version here,
        ap (lookup k) (sym store)
            ∙ lookup-insert school k blob st.store
            ∙ ap (λ x. if k == school then x else lookup k st.store) (sym here),
      )
