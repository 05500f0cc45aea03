-- ===== src/Prelude/Dicts.antt =====
-- A Python dict with identifiers as keys, in insertion order.
use Prim.Native.Nat.{ℕ}
use mathlib.Core.Path.{◌≡◌, refl}
use mathlib.Core.Logic.{◌≢◌, inl, inr}
use mathlib.Core.List.{List, [], ◌∷◌}
use mathlib.Core.Option.{Option, none, some}
use native.Mathlib.Omega.{arith}
use ml_service.Prelude.Tests.{if◌then◌else◌, ◌==◌}
use ml_service.Prelude.Lists.{In}

abbrev pub Dict {ℓ} : Type ℓ → Type ℓ
Dict V = List (ℕ × V)

module _ {ℓ} {V : Type ℓ} where
  -- d.get(k)
  abbrev pub lookup : ℕ → Dict V → Option V
  lookup key [] = none
  lookup key ((k, value) ∷ rest) = if key == k then some value else lookup key rest

  -- d[k] = v: an old key keeps its place, a new one goes last
  abbrev pub insert : ℕ → V → Dict V → Dict V
  insert k v [] = (k, v) ∷ []
  insert k v ((j, w) ∷ d) = if k == j then (j, v) ∷ d else (j, w) ∷ insert k v d

  -- d.pop(k, None)
  abbrev pub erase : ℕ → Dict V → Dict V
  erase k [] = []
  erase k ((j, w) ∷ d) = if k == j then d else (j, w) ∷ erase k d

  -- d.values()
  abbrev pub values : Dict V → List V
  values [] = []
  values ((j, w) ∷ d) = w ∷ values d

  abbrev pub keys : Dict V → List ℕ
  keys [] = []
  keys ((j, w) ∷ d) = j ∷ keys d

  pub lookup-insert :
      (k j : ℕ) (v : V) (d : Dict V)
      → lookup j (insert k v d) ≡ (if j == k then some v else lookup j d)
  lookup-insert k j v [] = refl
  lookup-insert k j v ((i, w) ∷ d) = ground (arith, lookup-insert k j v d)

  pub lookup-insert_self : (k : ℕ) (v : V) (d : Dict V) → lookup k (insert k v d) ≡ some v
  lookup-insert_self k v d = ground (arith, lookup-insert k k v d)

-- No key is listed twice.
abbrev pub UniqueKeys : {V : Type 0} → Dict V → Type 0
UniqueKeys [] = Unit
UniqueKeys ((k, v) ∷ d) = (lookup k d ≡ none) × UniqueKeys d

module _ {V : Type 0} where
  pub UniqueKeys-insert : (k : ℕ) (v : V) (d : Dict V) → UniqueKeys d → UniqueKeys (insert k v d)
  UniqueKeys-insert k v [] u = (refl, tt)
  UniqueKeys-insert k v ((j, w) ∷ d) u =
      ground (arith, UniqueKeys-insert k v d u.1, lookup-insert k j v d)

  pub lookup-erase_ne : (j k : ℕ) (d : Dict V) → j ≢ k → lookup j (erase k d) ≡ lookup j d
  lookup-erase_ne j k [] h = refl
  lookup-erase_ne j k ((i, w) ∷ d) h = ground (arith, lookup-erase_ne j k d h)

  pub UniqueKeys-erase : (k : ℕ) (d : Dict V) → UniqueKeys d → UniqueKeys (erase k d)
  UniqueKeys-erase k [] u = tt
  UniqueKeys-erase k ((i, w) ∷ d) u =
      ground (arith, UniqueKeys-erase k d u.1, lookup-erase_ne i k d)

  pub lookup-erase_self : (k : ℕ) (d : Dict V) → UniqueKeys d → lookup k (erase k d) ≡ none
  lookup-erase_self k [] u = refl
  lookup-erase_self k ((i, w) ∷ d) u = ground (arith, lookup-erase_self k d u.1)

  -- What is found under a key is an entry, and its value is among the values.
  pub In-of_lookup : (k : ℕ) (v : V) (d : Dict V) → lookup k d ≡ some v → In (k, v) d
  In-of_lookup k v [] e = absurd (cc)
  In-of_lookup k v ((j, w) ∷ d) e = ground (arith, In-of_lookup k v d)

  pub In-values_of_lookup : (k : ℕ) (v : V) (d : Dict V) → lookup k d ≡ some v → In v (values d)
  In-values_of_lookup k v [] e = absurd (cc)
  In-values_of_lookup k v ((j, w) ∷ d) e = ground (arith, In-values_of_lookup k v d)

  pub lookup-of_In-values :
      (v : V) (d : Dict V) → UniqueKeys d → In v (values d) → (k : ℕ) × (lookup k d ≡ some v)
  lookup-of_In-values v [] u h = absurd h
  lookup-of_In-values v ((j, w) ∷ d) u (inl e) = (j, ground arith)
  lookup-of_In-values v ((j, w) ∷ d) u (inr h) =
      let (k, found) = lookup-of_In-values v d u.1 h in (k, ground (arith, found, u.0))
