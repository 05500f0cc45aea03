-- ===== src/VectorIndex/Fresh.antt =====
-- What the read path of the index answers from: the store's current blob, as long as the worker's
-- cache holds no other blob under the same version.
use ml_service.Prelude.{
  ℕ, ◌⊎◌, ◌<◌, ◌≡◌, refl, sym, ◌∙◌, ap, subst, true, false, inl, inr, Bool-cases, Option-cases,
  Option, none, some, arith, ◌==◌, ==_iff, ==_refl, Dict, lookup, lookup-insert, UniqueKeys,
  UniqueKeys-erase, if◌then◌else◌,
}
use ml_service.Failure.{Result, ok, err, version_mismatch}
use ml_service.IndexCache.{get, put}
use ml_service.IndexCache.Eviction.{
  lookup-erase, lookup-put, UniqueKeys-put, lookup-get, UniqueKeys-get,
}
use ml_service.VectorIndex.{Faiss, Blob, Shelf, saved, reload, from_cache, get_fresh}

-- A cached blob against the stored one: not newer, and the same if it has the same version.
abbrev pub Behind : {Index : Type 0} → Option (Blob Index) → Option (Blob Index) → Type 0
Behind none stored = Unit
Behind (some c) none = ⊥
Behind (some c) (some b) = (c ≡ b) ⊎ (c.info.version < b.info.version)

-- The worker's cache is never ahead of the store.
pub record IsCurrent {Index : Type 0} (school_id : ℕ) (st : Shelf Index) : Type 0 where
  pub unique : UniqueKeys st.cache
  pub behind : Behind (lookup school_id st.cache) (lookup school_id st.store)

module _ {Index Embedding : Type 0} (f : Faiss Index Embedding) (ev : ℕ) where
  pub saved-IsCurrent :
      (school k : ℕ) (b : Blob Index) (st : Shelf Index)
      → IsCurrent school st
      → IsCurrent school (saved f ev k b st)
  saved-IsCurrent school k b st c = record {
    unique = UniqueKeys-erase k st.cache c.unique;
    behind = elim (Bool-cases (school == k)) [
      | inl same ↦ rw (lookup-erase school k st.cache c.unique, same) tt
      | inr other ↦
          rw (lookup-erase school k st.cache c.unique, lookup-insert k school b st.store, other)
            c.behind
    ];
  }

  -- The answer that the store's blob alone decides.
  abbrev pub answer : Option (Blob Index) → Result (Option (Blob Index))
  answer none = ok none
  answer (some b) =
      if b.info.embedding_model_version == ev then ok (some b) else err version_mismatch

  -- What `get_fresh` is to do for a stored blob, in the state before.
  abbrev pub Answers :
      ℕ → Shelf Index → Option (Blob Index) → Result (Option (Blob Index)) × Shelf Index → Type 0
  Answers school st stored (r, st') =
      (r ≡ answer stored) × (st'.store ≡ st.store) × IsCurrent school st'

  get-IsCurrent :
      (school : ℕ) (st : Shelf Index)
      → IsCurrent school st
      → IsCurrent school (record st { cache = (get school st.cache).1 })
  get-IsCurrent school st c = record {
    unique = UniqueKeys-get school st.cache c.unique;
    behind = rw (lookup-get school school st.cache c.unique) c.behind;
  }

  put-IsCurrent :
      (n school : ℕ) (b : Blob Index) (st : Shelf Index)
      → lookup school st.store ≡ some b
      → UniqueKeys st.cache
      → IsCurrent school (record st { cache = put n school b st.cache })
  put-IsCurrent n school b st e u = record {
    unique = UniqueKeys-put n school b st.cache u;
    behind = elim (Option-cases (lookup school (put n school b st.cache))) [
      | inl gone ↦ rw gone tt
      | inr (w, found) ↦
          let same : b ≡ w =
            ground (arith, ==_refl school, lookup-put n school school b w st.cache u found) in
          rw (found, e) (inl (sym same))
    ];
  }

  reload-Answers :
      (n school : ℕ) (b : Blob Index) (st : Shelf Index)
      → lookup school st.store ≡ some b
      → IsCurrent school st
      → Answers school st (some b) (reload f ev n school st (some b))
  reload-Answers n school b st e c = elim (Bool-cases (b.info.embedding_model_version == ev)) [
    | inl good ↦ rw good (refl, refl, put-IsCurrent n school b st e c.unique)
    | inr bad ↦ rw bad (refl, refl, c)
  ]

  -- The part after the check of the model version, with what the cache gave.
  from_cache-Answers :
      (n school : ℕ) (b : Blob Index) (st : Shelf Index) (o : Option (Blob Index))
      (cache : Dict (Blob Index))
      → lookup school st.store ≡ some b
      → (b.info.embedding_model_version == ev) ≡ true
      → Behind o (some b)
      → IsCurrent school (record st { cache = cache })
      → Answers school st (some b) (from_cache f ev n school b.info.version st (o, cache))
  from_cache-Answers n school b st none cache e good old c =
      rw e (reload-Answers n school b (record st { cache = cache }) e c)
  from_cache-Answers n school b st (some x) cache e good (inl same) c =
      let hit : (x.info.version == b.info.version) ≡ true =
        (==_iff x.info.version b.info.version).1 (ap (λ (y : Blob Index). y.info.version) same) in
      rw (hit, good) (ap (λ y. ok (some y)) same, refl, c)
  from_cache-Answers n school b st (some x) cache e good (inr older) c =
      let miss : (x.info.version == b.info.version) ≡ false = ground (arith, older) in
      rw (miss, e) (reload-Answers n school b (record st { cache = cache }) e c)

  -- As long as the cache holds the stored blob, an older version or none, the index read is the
  -- store's current one: no index where the store has none, a version mismatch where its metadata
  -- name another embedder, and otherwise the stored blob. The store is not written, and the
  -- cache is still not ahead of it.
  pub get_fresh-Answers :
      (n school : ℕ) (st : Shelf Index)
      → IsCurrent school st
      → Answers school st (lookup school st.store) (get_fresh f ev n school st)
  unfolding get_fresh get
  get_fresh-Answers n school st c = elim (Option-cases (lookup school st.store)) [
    | inl empty ↦ rw empty (refl, refl, c)
    | inr (b, found) ↦ rw found (elim (Bool-cases (b.info.embedding_model_version == ev)) [
      | inl good ↦
          let read =
            from_cache-Answers n school b st (lookup school st.cache) (get school st.cache).1 found
              good (subst (λ o. Behind (lookup school st.cache) o) found c.behind)
              (get-IsCurrent school st c) in
          let given : answer (some b) ≡ ok (some b) = rw good refl in
          rw good (read.0 ∙ given, read.1, read.2)
      | inr bad ↦ rw bad (refl, refl, c)
    ])
  ]
