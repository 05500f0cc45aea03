-- ===== src/VectorIndex.antt =====
-- The vector index of a school (services/ml_service/src/ml_service/adapters/vector_index/faiss_per_school.py).
-- The FAISS library is a parameter: an index is built from vectors, gives them back, and answers a
-- query with scored row numbers (`none` for its -1). The store and the worker's cache hold one blob
-- for a school; a write is serialized by the school's lock, so a call is one step. A reader takes no
-- lock: its reading of the metadata and of the three files is taken as one step too, where a write in
-- between could mix two versions.
pub mod Fresh
pub mod Replace
pub mod Erase
use ml_service.Prelude.{
  ℕ, zero, suc, ◌+◌, ◌*◌, Bool, true, false, not, ◌&&◌, Option, none, some, List, [], ◌∷◌, ◌++◌,
  map, length, take, filter, elem, max, min, ◌==◌, Dict, lookup, insert, values, collapse,
  sorted_desc, if◌then◌else◌,
}
use ml_service.Failure.{Result, ok, err, ◌>>=◌, version_mismatch, unexpected}
use ml_service.Decision.{Score, Candidate}
use ml_service.IndexCache.{get, put, invalidate}

pub record Faiss (Index Embedding : Type 0) : Type 0 where
  pub build : List Embedding → Index
  pub vectors : Index → List Embedding
  pub nearest : Index → Embedding → ℕ → List (Score × Option ℕ)

pub record Meta : Type 0 where
  pub embedding_model_version : ℕ
  pub version : ℕ
  pub count : ℕ

pub record Blob (Index : Type 0) : Type 0 where
  pub index : Index
  pub id_map : List ℕ
  pub info : Meta

pub record Shelf (Index : Type 0) : Type 0 where
  pub store : Dict (Blob Index)
  pub cache : Dict (Blob Index)

-- `zip` of labels and vectors.
abbrev pub zip : {A : Type 0} → List ℕ → List A → List (ℕ × A)
zip [] ys = []
zip (x ∷ xs) [] = []
zip (x ∷ xs) (y ∷ ys) = (x, y) ∷ zip xs ys

abbrev pub prev_version : {Index : Type 0} → Option (Blob Index) → ℕ
prev_version none = 0
prev_version (some b) = b.info.version

-- `id_map[int(idx)]`, an IndexError out of range.
abbrev pub label_at : List ℕ → ℕ → Result ℕ
label_at [] i = err unexpected
label_at (x ∷ xs) zero = ok x
label_at (x ∷ xs) (suc i) = label_at xs i

-- The hits of a raw search as candidates; a row number of -1 is skipped.
unfoldable pub label_hits : List ℕ → List (Score × Option ℕ) → Result (List Candidate)
label_hits id_map [] = ok []
label_hits id_map ((score, none) ∷ hits) = label_hits id_map hits
label_hits id_map ((score, some i) ∷ hits) = do
  student ← label_at id_map i
  rest ← label_hits id_map hits
  ok (record { student_id = student; score = score } ∷ rest)

-- `best`, then the ranking of its items, at most `top_k`.
unfoldable pub best_hits : ℕ → List Candidate → List Candidate
unfolding collapse
best_hits top_k hits =
    take top_k
      (sorted_desc (λ c. c.score) (values (collapse (λ c. c.student_id) (λ c. c.score) [] hits)))

module _ {Index Embedding : Type 0} (f : Faiss Index Embedding) (embedder_version : ℕ) where
  -- `_reconstruct`: the labelled vectors, refused if their numbers differ.
  unfoldable pub reconstruct : Option (Blob Index) → Result (List (ℕ × Embedding))
  reconstruct none = ok []
  reconstruct (some b) =
      if length (f.vectors b.index) == length b.id_map
      then ok (zip b.id_map (f.vectors b.index))
      else err unexpected

  abbrev pub serialize : List (ℕ × Embedding) → Option (Blob Index) → Blob Index
  serialize rows loaded = record {
    index = f.build (map (λ r. r.1) rows);
    id_map = map (λ r. r.0) rows;
    info = record {
      embedding_model_version = embedder_version;
      version = prev_version loaded + 1;
      count = length rows;
    };
  }

  abbrev pub others : ℕ → List (ℕ × Embedding) → List (ℕ × Embedding)
  others student_id rows = filter (λ r. not (r.0 == student_id)) rows

  abbrev pub saved : ℕ → Blob Index → Shelf Index → Shelf Index
  saved school_id b st = record {
    store = insert school_id b st.store;
    cache = invalidate school_id st.cache;
  }

  unfoldable pub upsert : ℕ → ℕ → List Embedding → Shelf Index → Result (Shelf Index)
  unfolding reconstruct
  upsert school_id student_id [] st = ok st
  upsert school_id student_id (e ∷ es) st = do
    let loaded = lookup school_id st.store
    rows ← reconstruct loaded
    let all_rows = others student_id rows ++ map (λ v. (student_id, v)) (e ∷ es)
    ok (saved school_id (serialize all_rows loaded) st)

  abbrev pub delete_loaded : ℕ → ℕ → Option (Blob Index) → Shelf Index → Result (Shelf Index)
  delete_loaded school_id student_id none st = ok st
  delete_loaded school_id student_id (some b) st = reconstruct (some b) >>= λ rows.
      if elem student_id (map (λ r. r.0) rows)
      then ok (saved school_id (serialize (others student_id rows) (some b)) st)
      else ok st

  unfoldable pub delete : ℕ → ℕ → Shelf Index → Result (Shelf Index)
  unfolding reconstruct
  delete school_id student_id st = delete_loaded school_id student_id (lookup school_id st.store) st

  abbrev pub has_version : ℕ → Option (Blob Index) → Bool
  has_version v none = false
  has_version v (some b) = b.info.version == v

  -- A miss or a stale entry: the blob is loaded, its model version checked, and put in the cache.
  abbrev pub reload :
      ℕ → ℕ → Shelf Index → Option (Blob Index) → Result (Option (Blob Index)) × Shelf Index
  reload cache_size school_id st none = (ok none, st)
  reload cache_size school_id st (some b) =
      if b.info.embedding_model_version == embedder_version
      then (ok (some b), record st { cache = put cache_size school_id b st.cache })
      else (err version_mismatch, st)

  -- The cached entry, if it has the store's version.
  abbrev pub from_cache :
      ℕ
      → ℕ
      → ℕ
      → Shelf Index
      → Option (Blob Index) × Dict (Blob Index)
      → Result (Option (Blob Index)) × Shelf Index
  from_cache cache_size school_id remote_version st (cached, cache) =
      if has_version remote_version cached
      then (ok cached, record st { cache = cache })
      else reload cache_size school_id (record st { cache = cache }) (lookup school_id st.store)

  -- `_get_fresh`.
  abbrev pub checked :
      ℕ → ℕ → Shelf Index → Option (Blob Index) → Result (Option (Blob Index)) × Shelf Index
  checked cache_size school_id st none = (ok none, st)
  checked cache_size school_id st (some remote) =
      if remote.info.embedding_model_version == embedder_version
      then from_cache cache_size school_id remote.info.version st (get school_id st.cache)
      else (err version_mismatch, st)

  unfoldable pub get_fresh : ℕ → ℕ → Shelf Index → Result (Option (Blob Index)) × Shelf Index
  unfolding get put
  get_fresh cache_size school_id st = checked cache_size school_id st (lookup school_id st.store)

  unfoldable pub search_in : ℕ → Embedding → ℕ → Option (Blob Index) → Result (List Candidate)
  unfolding label_hits best_hits
  search_in overfetch embedding top_k none = ok []
  search_in overfetch embedding top_k (some b) =
      let ntotal = length (f.vectors b.index) in
      let hits =
        label_hits b.id_map
          (f.nearest b.index embedding (min ntotal (max (top_k * max 2 overfetch) top_k))) in
      if ntotal == 0 then ok [] else hits >>= λ cs. ok (best_hits top_k cs)

  unfoldable pub search :
      ℕ → ℕ → ℕ → Embedding → ℕ → Shelf Index → Result (List Candidate) × Shelf Index
  unfolding get_fresh search_in
  search cache_size overfetch school_id embedding top_k st =
      let (entry, st') = get_fresh cache_size school_id st in
      (entry >>= search_in overfetch embedding top_k, st')
