-- ===== src/RateLimit/Window.antt =====
-- How many requests of a key one window lets through.
use ml_service.Prelude.{
  ℕ, ◌+◌, ◌-◌, ◌*◌, ◌/◌, ◌≡◌, refl, ◌∙◌, ap, min, Bool, inl, inr, Bool-cases, List, [], ◌∷◌, arith,
  ltb, ◌==◌, ==_refl, not, ◌&&◌, ==_iff, All, count, Dict, lookup, lookup-insert, if◌then◌else◌,
}
use ml_service.RateLimit.{count_in, acquire}

-- Requests in order, each a key and a time, and how many of those of key `k` were allowed.
abbrev pub granted : ℕ → ℕ → ℕ → ℕ → List (ℕ × ℕ) → Dict (ℕ × ℕ) → ℕ
granted ticks limit window_s k [] buckets = 0
granted ticks limit window_s k ((key, now) ∷ requests) buckets =
    let rest =
      granted ticks limit window_s k requests (acquire ticks limit window_s now key buckets).1 in
    (if key == k && (acquire ticks limit window_s now key buckets).0.allowed then 1 else 0) + rest

module _ (ticks limit window_s w : ℕ) where
  acquire-count_in :
      (j k now : ℕ) (buckets : Dict (ℕ × ℕ))
      → now / (ticks * window_s) ≡ w
      → count_in w (lookup j (acquire ticks limit window_s now k buckets).1)
        ≡ (if j == k then count_in w (lookup k buckets) + 1 else count_in w (lookup j buckets))
  unfolding acquire
  acquire-count_in j k now buckets e =
      ap (count_in w) (lookup-insert k j _ buckets) ∙ elim (Bool-cases (j == k)) [
        | inl same ↦ rw (same, e, ==_refl w) refl
        | inr other ↦ rw other refl
      ]

  acquire-allowed :
      (k now : ℕ) (buckets : Dict (ℕ × ℕ))
      → now / (ticks * window_s) ≡ w
      → (acquire ticks limit window_s now k buckets).0.allowed
        ≡ not (ltb limit (count_in w (lookup k buckets) + 1))
  unfolding acquire
  acquire-allowed k now buckets e =
      rw e (elim (Bool-cases (ltb limit (count_in w (lookup k buckets) + 1))) [
        | inl over ↦ rw over refl
        | inr within ↦ rw within refl
      ])

step :
    (g n c c' limit : ℕ) (allowed : Bool)
    → allowed ≡ not (ltb limit (c + 1))
    → c' ≡ c + 1
    → g ≡ min n (limit - c')
    → (if allowed then 1 else 0) + g ≡ min (1 + n) (limit - c)
step g n c c' limit allowed a b h = elim (Bool-cases (ltb limit (c + 1))) [
  | inl over ↦ rw (a, over) (ground (arith, over, b, h))
  | inr within ↦ rw (a, within) (ground (arith, within, b, h))
]

-- Among requests that all fall in one window, in any order of keys, a key is allowed as often as it
-- asks, up to what the limit leaves it: the requests of other keys take nothing from it.
pub granted-min :
    (ticks limit window_s w k : ℕ) (requests : List (ℕ × ℕ)) (buckets : Dict (ℕ × ℕ))
    → All (λ r. r.1 / (ticks * window_s) ≡ w) requests
    → granted ticks limit window_s k requests buckets
      ≡ min (count (λ r. r.0 == k) requests) (limit - count_in w (lookup k buckets))
granted-min ticks limit window_s w k [] buckets h = ground arith
granted-min ticks limit window_s w k ((key, now) ∷ requests) buckets h =
    let next = (acquire ticks limit window_s now key buckets).1 in
    let rest = granted-min ticks limit window_s w k requests next h.1 in
    let counted = acquire-count_in ticks limit window_s w k key now buckets h.0 in
    let allowed = acquire-allowed ticks limit window_s w key now buckets h.0 in
    let n = count (λ (r : ℕ × ℕ). r.0 == k) requests in
    elim (Bool-cases (key == k)) [
      | inl same ↦
          let e : count_in w (lookup key buckets) ≡ count_in w (lookup k buckets) =
            ap (λ x. count_in w (lookup x buckets)) ((==_iff key k).0 same) in
          rw same (
            step (granted ticks limit window_s k requests next) n (count_in w (lookup k buckets))
              (count_in w (lookup k next)) limit
              (acquire ticks limit window_s now key buckets).0.allowed
              (allowed ∙ ap (λ c. not (ltb limit (c + 1))) e)
              (ground (arith, counted, e, same, ==_iff key k, ==_iff k key)) rest)
      | inr other ↦
          let kept : count_in w (lookup k next) ≡ count_in w (lookup k buckets) =
            ground (arith, counted, other, ==_iff key k, ==_iff k key) in
          let later = rest ∙ ap (λ c. min n (limit - c)) kept in rw other (ground (arith, later))
    ]
