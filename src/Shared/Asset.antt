-- ===== src/Shared/Asset.antt =====
-- shared/domain/asset.ts. The registry is the static `Map` of the
-- class, passed along as a value.
use wallet_conversion_engine.Prelude.{
  ℕ, ◌≡◌, Bool, true, not, none, some, List, String, str_eq, arith, ◌==◌, if◌then◌else◌,
  Option-cases,
}
use wallet_conversion_engine.Shared.Result.{
  >>=-eq-ok, Result, ok, err, ◌>>=◌, or_throw, empty_asset_code, unknown_asset, scale_conflict,
  bad_scale,
}
use wallet_conversion_engine.Shared.Text.{trim}
use wallet_conversion_engine.Shared.Table.{string_eq, find, has, put, find-put_self}

pub record Asset : Type 0 where
  pub code : String
  pub scale : ℕ

abbrev pub asset_code : Asset → String
asset_code a = a.code

abbrev pub Registry : Type 0
Registry = List Asset

-- A number that a caller passes: a whole number that is not negative, or any other.
pub data NumberArgument : Type 0 where
  whole : ℕ → NumberArgument
  not_whole : NumberArgument

-- `existing.scale !== scale`
abbrev differs : ℕ → NumberArgument → Bool
differs n (whole m) = not (n == m)
differs n not_whole = true

unfoldable pub equals : Asset → Asset → Bool
equals a b = str_eq a.code b.code

-- `String.prototype.toUpperCase` follows the Unicode tables, and is a parameter.
module _ (to_upper_case : String → String) where
  unfoldable pub normalize : String → Result String
  normalize code =
      let normalized = to_upper_case (trim code) in
      if str_eq normalized "" then err empty_asset_code else ok normalized

  new_asset : String → NumberArgument → Registry → Result (Asset × Registry)
  new_asset normalized not_whole registry = err bad_scale
  new_asset normalized (whole scale) registry =
      let asset : Asset = record { code = normalized; scale = scale } in
      ok (asset, put asset_code asset registry)

  register_normalized : String → NumberArgument → Registry → Result (Asset × Registry)
  unfolding new_asset
  register_normalized normalized scale registry = elim (find asset_code normalized registry) [
    | some existing ↦
        if differs existing.scale scale then err scale_conflict else ok (existing, registry)
    | none ↦ new_asset normalized scale registry
  ]

  -- `Asset.register`: the asset, and the registry afterwards.
  unfoldable pub register : String → NumberArgument → Registry → Result (Asset × Registry)
  unfolding register_normalized
  register code scale registry = do
    normalized ← normalize code
    register_normalized normalized scale registry

  -- `Asset.of`
  unfoldable pub of : String → Registry → Result Asset
  of code registry = do
    normalized ← normalize code
    or_throw (find asset_code normalized registry) unknown_asset

  unfoldable pub is_registered : String → Registry → Result Bool
  is_registered code registry = do
    normalized ← normalize code
    ok (has asset_code normalized registry)

module _ (to_upper_case : String → String) where
  find-register :
      (normalized : String) (registry : Registry) (scale : ℕ) {asset : Asset} {registry' : Registry}
      → register_normalized to_upper_case normalized (whole scale) registry ≡ ok (asset, registry')
      → (find asset_code normalized registry' ≡ some asset) × (asset.scale ≡ scale)
  unfolding register_normalized
  find-register normalized registry scale h = ground (
    arith,
    find-put_self asset_code (record { code = normalized; scale = scale }) registry,
    Option-cases (find asset_code normalized registry),
  )

  -- A code that was registered is found by `Asset.of`, with the scale that it was registered with.
  pub of-register :
      (code : String) (registry : Registry) (scale : ℕ) {asset : Asset} {registry' : Registry}
      → register to_upper_case code (whole scale) registry ≡ ok (asset, registry')
      → (of to_upper_case code registry' ≡ ok asset) × (asset.scale ≡ scale)
  unfolding register of
  of-register code registry scale {asset} {registry'} h =
      let (normalized, n, r) = >>=-eq-ok (normalize to_upper_case code) _ h in
      ground
        (arith, find-register normalized registry scale {asset = asset} {registry' = registry'} r)
