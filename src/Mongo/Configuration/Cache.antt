-- ===== src/Mongo/Configuration/Cache.antt =====
-- The size of the cache that a prepared configuration sets.
use Prim.Native.String.{String}
use yggdrasil_home.Base.{some_inj, ◌≡◌, refl, sym, ap, ◌∙◌, ℕ, suc, ◌≤◌, none, some, [], ◌∷◌, arith}
use yggdrasil_home.Base.Int.{pos}
use yggdrasil_home.Base.Fields.{get_field}
use yggdrasil_home.Base.Json.{Json, number, object, Fields, Number}
use yggdrasil_home.Mongo.Options.Merged.{merge-kept}
use yggdrasil_home.Mongo.Options.Paths.{at_path}
use yggdrasil_home.Mongo.Configuration.{
  base_configuration, cache_size, configuration_contents, megabytes, storage_of, user_options,
  with_storage,
}

cache_size_bounds : (n : ℕ) → (1048576 ≤ cache_size n) × (cache_size n ≤ 8192000)
unfolding cache_size
cache_size_bounds n = ground arith

module _ (deserialize : String → Json) (number_of : ℕ → Number) where
  -- With a positive amount of memory and no storage options of the user's own, the configuration
  -- sets a cache of no less than the least that the server takes and of no more than two gigabytes.
  pub configuration_contents_bounds :
      (config_contents : Json) (n : ℕ) (options out : Fields)
      → user_options deserialize number_of config_contents ≡ some options
      → get_field options "storage" ≡ none
      → configuration_contents deserialize number_of config_contents (megabytes (pos (suc n)))
        ≡ some out
      → (size : ℕ) × (1048576 ≤ size)
        × (size ≤ 8192000)
        × (at_path ("wiredTiger" ∷ "engineConfig" ∷ "cacheSizeGB" ∷ []) "storage" out
            ≡ some (number (number_of size)))
  unfolding configuration_contents base_configuration at_path get_field
  configuration_contents_bounds config_contents n options out e k h =
      let (low, high) = cache_size_bounds (suc n) in
      let size = cache_size (suc n) in
      let storage = storage_of deserialize number_of (some size) in
      let set = some_inj (rw e at h) in
      let found : get_field out "storage" ≡ some (object storage) =
        ap (λ fs. get_field fs "storage") (sym set)
        ∙ merge-kept options (with_storage deserialize number_of storage) "storage" k in
      (size, low, high, rw found refl)
