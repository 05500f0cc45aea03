-- ===== src/Variant/Attempts.antt =====
-- Which re-encodings are tried, in which order, and that the loops try each of them.
use ml_service.Prelude.{
  ℕ, zero, suc, ◌+◌, ◌-◌, ◌/◌, ◌≤◌, ◌≡◌, refl, sym, ◌∙◌, ap, inl, inr, Bool-cases, Option,
  some-injective, none, some, List, [], ◌∷◌, ◌++◌, map, arith, ltb, leb, filter, All, All-append,
  subst, if◌then◌else◌,
}
use ml_service.Variant.{
  Encoder, VariantSettings, edge_steps, fits, lower_quality, lower_edge, or_else, shrink, encode,
  limited, from_bytes, make_whatsapp_variant,
}

-- `n` qualities, each a step below the one before.
abbrev pub descend : ℕ → ℕ → List ℕ
descend zero q = []
descend (suc n) q = (q - 10) ∷ descend n (q - 10)

-- The pairs of edge and quality after the first: the qualities down to the floor at the requested
-- edge, then the smaller edges at the floor.
abbrev pub attempts : VariantSettings → List (ℕ × ℕ)
attempts s =
    map (λ q. (s.max_edge, q)) (descend ((s.quality - s.quality_floor) / 10) s.quality)
    ++ map (λ edge. (edge, s.quality_floor)) (filter (λ edge. ltb edge s.max_edge) edge_steps)

module _ {Image : Type 0} (p : Encoder Image) where
  -- The first of the re-encodings that fits.
  abbrev pub first_fit : Image → ℕ → List (ℕ × ℕ) → Option Image
  first_fit bytes max_bytes [] = none
  first_fit bytes max_bytes (a ∷ rest) =
      let candidate = p.make_thumbnail bytes a.0 a.1 in
      let later = first_fit bytes max_bytes rest in
      if fits p max_bytes candidate then candidate else later

  lower_quality-descend :
      (fuel : ℕ) (bytes : Image) (max_edge max_bytes quality_floor q : ℕ)
      → (q - quality_floor) / 10 ≤ fuel
      → lower_quality p fuel bytes max_edge max_bytes quality_floor q
        ≡ first_fit bytes max_bytes
            (map (λ x. (max_edge, x)) (descend ((q - quality_floor) / 10) q))
  unfolding lower_quality
  lower_quality-descend zero bytes max_edge max_bytes quality_floor q h =
      let none_left : (q - quality_floor) / 10 ≡ 0 = omega (arith, h) in rw none_left refl
  lower_quality-descend (suc fuel) bytes max_edge max_bytes quality_floor q h =
      elim (Bool-cases (leb (quality_floor + 10) q)) [
        | inl lower ↦
            let one_more : (q - quality_floor) / 10 ≡ suc ((q - 10 - quality_floor) / 10) =
              ground (arith, lower) in
            let rest =
              lower_quality-descend fuel bytes max_edge max_bytes quality_floor (q - 10)
                (omega (arith, h, one_more)) in
            rw lower (rw one_more (rw rest refl))
        | inr at_floor ↦
            let none_left : (q - quality_floor) / 10 ≡ 0 = ground (arith, at_floor) in
            rw at_floor (rw none_left refl)
      ]

  lower_edge-filter :
      (bytes : Image) (max_edge max_bytes quality_floor : ℕ) (edges : List ℕ)
      → lower_edge p bytes max_edge max_bytes quality_floor edges
        ≡ first_fit bytes max_bytes
            (map (λ edge. (edge, quality_floor)) (filter (λ edge. ltb edge max_edge) edges))
  unfolding lower_edge
  lower_edge-filter bytes max_edge max_bytes quality_floor [] = refl
  lower_edge-filter bytes max_edge max_bytes quality_floor (edge ∷ edges) =
      ground (arith, lower_edge-filter bytes max_edge max_bytes quality_floor edges)

  first_fit-append :
      (bytes : Image) (max_bytes : ℕ) (xs ys : List (ℕ × ℕ))
      → first_fit bytes max_bytes (xs ++ ys)
        ≡ or_else (first_fit bytes max_bytes xs) (first_fit bytes max_bytes ys)
  first_fit-append bytes max_bytes [] ys = refl
  first_fit-append bytes max_bytes (x ∷ xs) ys =
      ground (arith, first_fit-append bytes max_bytes xs ys)

  shrink-attempts :
      (s : VariantSettings) (max_bytes : ℕ) (bytes : Image)
      → shrink p s max_bytes bytes ≡ first_fit bytes max_bytes (attempts s)
  unfolding shrink
  shrink-attempts s max_bytes bytes =
      rw
        (first_fit-append bytes max_bytes
          (map (λ q. (s.max_edge, q)) (descend ((s.quality - s.quality_floor) / 10) s.quality))
          (map (λ edge. (edge, s.quality_floor)) (filter (λ edge. ltb edge s.max_edge) edge_steps)))
        (rw
          (lower_quality-descend s.quality bytes s.max_edge max_bytes s.quality_floor s.quality
            (omega arith))
          (rw (lower_edge-filter bytes s.max_edge max_bytes s.quality_floor edge_steps) refl))

  chosen :
      (candidate later : Option Image) (image : Image) (max_bytes : ℕ)
      → (later ≡ some image → p.size image ≤ max_bytes)
      → (if fits p max_bytes candidate then candidate else later) ≡ some image
      → p.size image ≤ max_bytes
  chosen none later image max_bytes from_later h = from_later h
  chosen (some candidate) later image max_bytes from_later h =
      elim (Bool-cases (leb (p.size candidate) max_bytes)) [
        | inl small ↦
            let same : candidate ≡ image = some-injective (sym (rw small refl) ∙ h) in
            subst (λ (x : Image). p.size x ≤ max_bytes) same (ground (arith, small))
        | inr large ↦ from_later (sym (rw large refl) ∙ h)
      ]

  first_fit-fits :
      (bytes image : Image) (max_bytes : ℕ) (xs : List (ℕ × ℕ))
      → first_fit bytes max_bytes xs ≡ some image
      → p.size image ≤ max_bytes
  first_fit-fits bytes image max_bytes [] h = ground (arith, h)
  first_fit-fits bytes image max_bytes (x ∷ xs) h =
      chosen (p.make_thumbnail bytes x.0 x.1) (first_fit bytes max_bytes xs) image max_bytes
        (first_fit-fits bytes image max_bytes xs) h

  -- What is asked of the thumbnailer under a limit: the first re-encoding, then the attempts.
  abbrev pub best_variant : VariantSettings → ℕ → Option Image → Option Image
  best_variant s max_bytes none = none
  best_variant s max_bytes (some bytes) = elim (p.make_thumbnail bytes s.max_edge s.quality) [
    | none ↦ none
    | some first ↦ first_fit bytes max_bytes ((s.max_edge, s.quality) ∷ attempts s)
  ]

abbrev pub Within : ℕ → ℕ → ℕ × ℕ → Type 0
Within max_edge quality_floor a = (a.0 ≤ max_edge) × (quality_floor ≤ a.1)

descend-Within :
    (n max_edge quality_floor q : ℕ)
    → n ≤ (q - quality_floor) / 10
    → All (Within max_edge quality_floor) (map (λ x. (max_edge, x)) (descend n q))
descend-Within zero max_edge quality_floor q h = tt
descend-Within (suc n) max_edge quality_floor q h = (
  (omega arith, omega (arith, h)),
  descend-Within n max_edge quality_floor (q - 10) (omega (arith, h)),
)

edges-Within :
    (max_edge quality_floor : ℕ) (edges : List ℕ)
    → All
        (Within max_edge quality_floor)
        (map (λ edge. (edge, quality_floor)) (filter (λ edge. ltb edge max_edge) edges))
edges-Within max_edge quality_floor [] = tt
edges-Within max_edge quality_floor (edge ∷ edges) =
    ground (arith, edges-Within max_edge quality_floor edges)

attempts-Within : (s : VariantSettings) → All (Within s.max_edge s.quality_floor) (attempts s)
attempts-Within s =
    All-append (Within s.max_edge s.quality_floor) _ _
      (descend-Within _ s.max_edge s.quality_floor s.quality (omega arith))
      (edges-Within s.max_edge s.quality_floor edge_steps)

module _ {Image : Type 0} (p : Encoder Image) where
  limited-best :
      (s : VariantSettings) (max_bytes : ℕ) (bytes first : Image)
      → p.make_thumbnail bytes s.max_edge s.quality ≡ some first
      → limited p s (some max_bytes) bytes first
        ≡ first_fit p bytes max_bytes ((s.max_edge, s.quality) ∷ attempts s)
  limited-best s max_bytes bytes first made = rw made (
      ap (λ (o : Option Image). if leb (p.size first) max_bytes then some first else o)
        (shrink-attempts p s max_bytes bytes))

  encode-best :
      (s : VariantSettings) (max_bytes : ℕ) (bytes : Image) (o : Option Image)
      → s.max_bytes ≡ some max_bytes
      → p.make_thumbnail bytes s.max_edge s.quality ≡ o
      → encode p s bytes o ≡ elim o [
        | none ↦ none
        | some first ↦ first_fit p bytes max_bytes ((s.max_edge, s.quality) ∷ attempts s)
      ]
  encode-best s max_bytes bytes none limit made = refl
  encode-best s max_bytes bytes (some first) limit made =
      ap (λ (cap : Option ℕ). limited p s cap bytes first) limit
      ∙ limited-best s max_bytes bytes first made

  from_bytes-best :
      (s : VariantSettings) (max_bytes : ℕ) (o : Option Image)
      → s.max_bytes ≡ some max_bytes
      → from_bytes p s o ≡ best_variant p s max_bytes o
  from_bytes-best s max_bytes none limit = refl
  from_bytes-best s max_bytes (some bytes) limit =
      encode-best s max_bytes bytes (p.make_thumbnail bytes s.max_edge s.quality) limit refl

  variant-best :
      (s : VariantSettings) (max_bytes source_path : ℕ)
      → s.max_bytes ≡ some max_bytes
      → make_whatsapp_variant p s source_path ≡ best_variant p s max_bytes (p.download source_path)
  unfolding make_whatsapp_variant
  variant-best s max_bytes source_path limit =
      from_bytes-best s max_bytes (p.download source_path) limit

  made-small :
      (s : VariantSettings) (max_bytes : ℕ) (bytes image : Image) (o : Option Image)
      → elim o [
        | none ↦ none
        | some first ↦ first_fit p bytes max_bytes ((s.max_edge, s.quality) ∷ attempts s)
      ]
        ≡ some image
      → p.size image ≤ max_bytes
  made-small s max_bytes bytes image none h = ground (arith, h)
  made-small s max_bytes bytes image (some first) h =
      first_fit-fits p bytes image max_bytes ((s.max_edge, s.quality) ∷ attempts s) h

  best_variant-small :
      (s : VariantSettings) (max_bytes : ℕ) (image : Image) (o : Option Image)
      → best_variant p s max_bytes o ≡ some image
      → p.size image ≤ max_bytes
  best_variant-small s max_bytes image none h = ground (arith, h)
  best_variant-small s max_bytes image (some bytes) h =
      made-small s max_bytes bytes image (p.make_thumbnail bytes s.max_edge s.quality) h

  -- Under a byte limit, the image to send is the first that fits of a fixed list of re-encodings:
  -- the requested edge and quality, then the lower qualities of that edge by steps of ten, then the
  -- smaller edges at the lowest quality. If the first re-encoding fails there is none. So both loops
  -- end having tried all of the list, no image that is sent is over the limit, and no attempt has a
  -- larger edge than was asked for or a quality below the floor.
  pub make_whatsapp_variant-first_fit :
      (s : VariantSettings) (max_bytes source_path : ℕ)
      → s.max_bytes ≡ some max_bytes
      → (make_whatsapp_variant p s source_path
          ≡ best_variant p s max_bytes (p.download source_path))
        × ((image : Image)
            → make_whatsapp_variant p s source_path ≡ some image
            → p.size image ≤ max_bytes)
        × All (Within s.max_edge s.quality_floor) (attempts s)
  make_whatsapp_variant-first_fit s max_bytes source_path limit =
      let best = variant-best s max_bytes source_path limit in
      (
        best,
        λ image h. best_variant-small s max_bytes image (p.download source_path) (sym best ∙ h),
        attempts-Within s,
      )
