-- ===== src/Enrollment/Report.antt =====
-- What an enrollment reports and what it stores: one status for each reference photo, as many
-- embeddings as the statuses say, and these in the index.
use ml_service.Prelude.{
  ℕ, ◌+◌, ◌≡◌, refl, sym, ◌∙◌, ==_refl, lookup, Bool, true, false, Option, none, some, is_some,
  List, [], ◌∷◌, arith, length, count, dedup, if◌then◌else◌,
}
use ml_service.Failure.{Result, ok, err, ◌>>=◌, ok-injective}
use ml_service.Identify.{FaceBox, Vision}
use ml_service.VectorIndex.{Faiss, Shelf, reconstruct, upsert}
use ml_service.VectorIndex.Replace.{of_student, upsert-of_student}
use ml_service.Enrollment.{
  PhotoStatus, enrolled, no_face, multiple_faces, error, PhotoResult, EnrollmentResult, Enrolled,
  get_photos, replace_photos, status_of, largest, embed_boxes, isolated, embed_one, with_embedding,
  embed_all, enrolled_by, refresh, enroll,
}

abbrev pub is_stored : PhotoStatus → Bool
is_stored enrolled = true
is_stored multiple_faces = true
is_stored no_face = false
is_stored error = false

module _ {Image Embedding : Type 0} (v : Vision Image Embedding) (fetch : ℕ → Result Image) where
  HasEmbedding : PhotoResult × Option Embedding → Type 0
  HasEmbedding (result, embedding) = is_stored result.status ≡ is_some embedding

  status_of-is_stored : (boxes : List FaceBox) → is_stored (status_of boxes) ≡ true
  status_of-is_stored [] = refl
  status_of-is_stored (b ∷ boxes) = refl

  embedded-HasEmbedding :
      (i : ℕ) (boxes : List FaceBox) (r : Result Embedding)
      → HasEmbedding (
          isolated v fetch i
            (r >>= λ e. ok (record { photo_index = i; status = status_of boxes }, some e)))
  unfolding HasEmbedding
  embedded-HasEmbedding i boxes (ok e) = status_of-is_stored boxes
  embedded-HasEmbedding i boxes (err e) = refl

  boxes-HasEmbedding :
      (i : ℕ) (bytes : Image) (r : Result (List FaceBox))
      → HasEmbedding (isolated v fetch i (r >>= embed_boxes v fetch i bytes))
  boxes-HasEmbedding i bytes (err e) = unfold HasEmbedding in refl
  boxes-HasEmbedding i bytes (ok []) = unfold HasEmbedding in refl
  boxes-HasEmbedding i bytes (ok (b ∷ boxes)) =
      embedded-HasEmbedding i boxes (v.embed bytes (largest b boxes))

  fetched-HasEmbedding :
      (i : ℕ) (r : Result Image)
      → HasEmbedding
          (isolated v fetch i (r >>= λ bytes. v.detect bytes >>= embed_boxes v fetch i bytes))
  fetched-HasEmbedding i (err e) = unfold HasEmbedding in refl
  fetched-HasEmbedding i (ok bytes) = boxes-HasEmbedding i bytes (v.detect bytes)

  stored :
      (one : PhotoResult × Option Embedding) (results : List PhotoResult) (es : List Embedding)
      → HasEmbedding one
      → count (λ p. is_stored p.status) results ≡ length es
      → (if is_stored one.0.status then 1 else 0) + count (λ p. is_stored p.status) results
        ≡ length (with_embedding v fetch one.1 es)
  unfolding HasEmbedding
  stored (result, none) results es h e = rw h (ground (arith, e))
  stored (result, some x) results es h e = rw h (ground (arith, e))

  embed_all-count :
      (i : ℕ) (uris : List ℕ)
      → (count (λ p. is_stored p.status) (embed_all v fetch i uris).0
          ≡ length (embed_all v fetch i uris).1)
        × (length (embed_all v fetch i uris).0 ≡ length uris)
  unfolding embed_all embed_one HasEmbedding
  embed_all-count i [] = (refl, refl)
  embed_all-count i (uri ∷ uris) =
      let rest = embed_all-count (i + 1) uris in
      let here = fetched-HasEmbedding i (fetch uri) in
      (
        stored (embed_one v fetch i uri) (embed_all v fetch (i + 1) uris).0
            (embed_all v fetch (i + 1) uris).1 here rest.0,
        ground (arith, rest.1),
      )

module _ {I Embedding : Type 0} (f : Faiss I Embedding) (ev : ℕ) where
  -- The index of the school holds these vectors for the student, in this order; it is not touched
  -- where there are none.
  abbrev pub Stored : ℕ → ℕ → List Embedding → Shelf I → Shelf I → Type 0
  Stored school s [] before after = after ≡ before
  Stored school s (e ∷ es) before after =
      (rows : List (ℕ × Embedding)) × (reconstruct f ev (lookup school after.store) ≡ ok rows)
      × (of_student s rows ≡ e ∷ es)

  upsert-Stored :
      (school s : ℕ) (es : List Embedding) (st st' : Shelf I)
      → ((vs : List Embedding) → f.vectors (f.build vs) ≡ vs)
      → upsert f ev school s es st ≡ ok st'
      → Stored school s es st st'
  unfolding upsert
  upsert-Stored school s [] st st' back h = ok-injective (sym h)
  upsert-Stored school s (e ∷ es) st st' back h =
      let (before, after, r, read, held, v, other) =
        upsert-of_student f ev school s s school e es st st' back h in
      (after, read, held ∙ (rw (==_refl s) refl))

module _ {Image I Embedding : Type 0} (v : Vision Image Embedding) (fetch : ℕ → Result Image)
    (f : Faiss I Embedding) (ev : ℕ) where
  -- What an enrollment that succeeds reports, and the index that it leaves.
  abbrev pub Reports : ℕ → ℕ → Enrolled I → Result EnrollmentResult × Enrolled I → Type 0
  Reports school s st (err e, st') = Unit
  Reports school s st (ok r, st') =
      let uris = dedup (get_photos school s st'.photos) in
      let embeddings = (embed_all v fetch 0 uris).1 in
      (r.embeddings_stored ≡ count (λ p. is_stored p.status) r.photo_results)
      × (length r.photo_results ≡ length uris)
      × (length embeddings ≡ r.embeddings_stored)
      × Stored f ev school s embeddings st.shelf st'.shelf

  module _ (back : (vs : List Embedding) → f.vectors (f.build vs) ≡ vs) where
    enrolled_by-Reports :
        (school s : ℕ) (st : Enrolled I) (r : Result (Shelf I))
        → upsert f ev school s
            (embed_all v fetch 0 (dedup (get_photos school s st.photos))).1
            st.shelf
          ≡ r
        → Reports school s st (
            enrolled_by v fetch f ev school s st
              (embed_all v fetch 0 (dedup (get_photos school s st.photos)))
              r)
    enrolled_by-Reports school s st (err e) h = tt
    enrolled_by-Reports school s st (ok shelf) h =
        let uris = dedup (get_photos school s st.photos) in
        let counted = embed_all-count v fetch 0 uris in
        (
          sym counted.0,
          counted.1,
          refl,
          upsert-Stored f ev school s (embed_all v fetch 0 uris).1 st.shelf shelf back h,
        )

    refresh-Reports :
        (school s : ℕ) (st : Enrolled I) → Reports school s st (refresh v fetch f ev school s st)
    unfolding refresh
    refresh-Reports school s st = enrolled_by-Reports school s st _ refl

    -- Where the library gives back the vectors that an index was built from: whatever fails on the
    -- way, an enrollment that succeeds reports one status for each distinct reference photo of the
    -- student, and as many embeddings as there are photos with the status `enrolled` or
    -- `multiple_faces`; afterwards the school's index holds for the student exactly the embeddings
    -- of these photos, in their order, or is as it was where there are none.
    pub enroll-Reports :
        (school s : ℕ) (uris : Option (List ℕ)) (st : Enrolled I)
        → Reports school s st (enroll v fetch f ev school s uris st)
    unfolding enroll
    enroll-Reports school s none st = refresh-Reports school s st
    enroll-Reports school s (some []) st = tt
    enroll-Reports school s (some (u ∷ us)) st =
        refresh-Reports school s (record st { photos = replace_photos school s (u ∷ us) st.photos })
