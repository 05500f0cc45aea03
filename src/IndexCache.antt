-- ===== src/IndexCache.antt =====
-- The cache of loaded indexes of a worker, the least recently used out first
-- (services/ml_service/src/ml_service/adapters/vector_index/_faiss_cache.py).
-- An OrderedDict is the association list, its oldest entry first.
pub mod Eviction
use ml_service.Prelude.{
  ℕ, Bool, Option, none, some, List, [], ◌∷◌, ◌++◌, length, ltb, Dict, lookup, erase, if◌then◌else◌,
}

-- `move_to_end` of a key with its value.
abbrev pub move_to_end : {V : Type 0} → ℕ → V → Dict V → Dict V
move_to_end k v d = erase k d ++ (k, v) ∷ []

-- `while len(self._entries) > self._max: popitem(last=False)`
unfoldable pub evict : {V : Type 0} → ℕ → Dict V → Dict V
evict max_size [] = []
evict max_size (e ∷ d) =
    let rest = evict max_size d in if ltb max_size (length (e ∷ d)) then rest else e ∷ d

abbrev pub touch : {V : Type 0} → ℕ → Option V → Dict V → Dict V
touch k none d = d
touch k (some v) d = move_to_end k v d

unfoldable pub get : {V : Type 0} → ℕ → Dict V → Option V × Dict V
get k d = (lookup k d, touch k (lookup k d) d)

unfoldable pub put : {V : Type 0} → ℕ → ℕ → V → Dict V → Dict V
unfolding evict
put max_size k v d = evict max_size (move_to_end k v d)

abbrev pub invalidate : {V : Type 0} → ℕ → Dict V → Dict V
invalidate k d = erase k d
