-- ===== src/Variant.antt =====
-- The image that is sent over WhatsApp: re-encoded until it fits under the provider's byte limit
-- (services/backend/src/backend/services/whatsapp_image.py).
-- The object store and the thumbnailer are parameters: `download` is `none` where the store raises
-- `UpstreamError`, and `make_thumbnail` where the image cannot be decoded or encoded. A size is in
-- bytes. The fuel of the quality loop is the first quality.
pub mod Attempts
use ml_service.Prelude.{
  ℕ, zero, suc, ◌+◌, ◌-◌, Bool, true, false, Option, none, some, List, [], ◌∷◌, ltb, leb,
  if◌then◌else◌,
}

pub record Encoder (Image : Type 0) : Type 0 where
  pub download : ℕ → Option Image
  pub make_thumbnail : Image → ℕ → ℕ → Option Image
  pub size : Image → ℕ

pub record VariantSettings : Type 0 where
  pub max_edge : ℕ
  pub quality : ℕ
  pub max_bytes : Option ℕ
  pub quality_floor : ℕ

-- `_EDGE_STEPS` and `_QUALITY_STEP`
abbrev pub edge_steps : List ℕ
edge_steps = 2000 ∷ 1600 ∷ 1200 ∷ 800 ∷ []

abbrev pub quality_step : ℕ
quality_step = 10

abbrev pub or_else : {A : Type 0} → Option A → Option A → Option A
or_else none o = o
or_else (some a) o = some a

module _ {Image : Type 0} (p : Encoder Image) where
  -- `candidate is not None and len(candidate) <= max_bytes`
  abbrev pub fits : ℕ → Option Image → Bool
  fits max_bytes none = false
  fits max_bytes (some candidate) = leb (p.size candidate) max_bytes

  -- The `while` loop, at a quality that was already tried. The test on the next quality is written so
  -- that it does not go below 0.
  unfoldable pub lower_quality : ℕ → Image → ℕ → ℕ → ℕ → ℕ → Option Image
  lower_quality zero bytes max_edge max_bytes quality_floor q = none
  lower_quality (suc fuel) bytes max_edge max_bytes quality_floor q =
      let candidate = p.make_thumbnail bytes max_edge (q - quality_step) in
      let rest = lower_quality fuel bytes max_edge max_bytes quality_floor (q - quality_step) in
      if leb (quality_floor + quality_step) q
      then if fits max_bytes candidate then candidate else rest
      else none

  -- The `for` loop; only an edge that is smaller than the requested one is tried.
  unfoldable pub lower_edge : Image → ℕ → ℕ → ℕ → List ℕ → Option Image
  lower_edge bytes max_edge max_bytes quality_floor [] = none
  lower_edge bytes max_edge max_bytes quality_floor (edge ∷ edges) =
      let candidate = p.make_thumbnail bytes edge quality_floor in
      let rest = lower_edge bytes max_edge max_bytes quality_floor edges in
      if leb max_edge edge then rest else if fits max_bytes candidate then candidate else rest

  -- The part over the byte limit.
  unfoldable pub shrink : VariantSettings → ℕ → Image → Option Image
  unfolding lower_quality lower_edge
  shrink s max_bytes bytes =
      or_else (lower_quality s.quality bytes s.max_edge max_bytes s.quality_floor s.quality)
        (lower_edge bytes s.max_edge max_bytes s.quality_floor edge_steps)

  abbrev pub limited : VariantSettings → Option ℕ → Image → Image → Option Image
  limited s none bytes first = some first
  limited s (some max_bytes) bytes first =
      if leb (p.size first) max_bytes then some first else shrink s max_bytes bytes

  abbrev pub encode : VariantSettings → Image → Option Image → Option Image
  encode s bytes none = none
  encode s bytes (some first) = limited s s.max_bytes bytes first

  abbrev pub from_bytes : VariantSettings → Option Image → Option Image
  from_bytes s none = none
  from_bytes s (some bytes) = encode s bytes (p.make_thumbnail bytes s.max_edge s.quality)

  unfoldable pub make_whatsapp_variant : VariantSettings → ℕ → Option Image
  unfolding shrink
  make_whatsapp_variant s source_path = from_bytes s (p.download source_path)
