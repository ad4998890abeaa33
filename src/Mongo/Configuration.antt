-- ===== src/Mongo/Configuration.antt =====
-- The configuration that the service writes: `_configuration_contents`. A size of the cache is in
-- 4096000ths of a gigabyte; its text is the YAML library's. An exception of the interpreter is none.
pub mod Cache
use Prim.Native.String.{String}
use yggdrasil_home.Base.{
  ℕ, zero, suc, ◌*◌, Bool, true, false, Option, none, some, ltb, leb, if◌then◌else◌,
}
use yggdrasil_home.Base.Int.{ℤ, pos, negsuc}
use yggdrasil_home.Base.Json.{
  Json, null, flag, number, string, array, object, Fields, end, field, Number, truthy,
}
use yggdrasil_home.Mongo.Options.{merge, normalize}

-- `memory_mb`: None or another value that is false and no number, such as "", which the code compares
-- with 0 as it is; a number, or what `int` gives for a value that is true; or one that `int` refuses.
pub data Memory : Type 0 where
  not_given : Memory
  megabytes : ℤ → Memory
  unreadable : Memory

abbrev at_least : ℕ → ℕ → ℕ
at_least low n = if leb low n then n else low

abbrev at_most : ℕ → ℕ → ℕ
at_most high n = if leb n high then n else high

-- `min(max(memory_mb * 0.25 / 1024, 0.256), 2.0)`
unfoldable pub cache_size : ℕ → ℕ
cache_size memory_mb = at_most 8192000 (at_least 1048576 (memory_mb * 1000))

abbrev pub one_field : String → Json → Json
one_field key value = object (field key value end)

module _ (deserialize : String → Json) (number_of : ℕ → Number) where
  abbrev pub storage_of : Option ℕ → Fields
  storage_of none = field "dbPath" (string "/data/db") end
  storage_of (some size) = field "dbPath" (string "/data/db") (
      field "wiredTiger"
        (one_field "engineConfig" (one_field "cacheSizeGB" (number (number_of size)))) end)

  abbrev pub with_storage : Fields → Fields
  with_storage storage = field "storage" (object storage) end

  -- What is there before the options of the user.
  unfoldable pub base_configuration : Memory → Option Fields
  unfolding cache_size
  base_configuration not_given = none
  base_configuration unreadable = some (with_storage (storage_of none))
  base_configuration (megabytes (negsuc n)) = some (with_storage (storage_of none))
  base_configuration (megabytes (pos zero)) = some (with_storage (storage_of none))
  base_configuration (megabytes (pos (suc n))) =
      some (with_storage (storage_of (some (cache_size (suc n)))))

  abbrev mapping_of : Json → Option Fields
  mapping_of (object fs) = some fs
  mapping_of other = if truthy other then none else some end

  abbrev given : Json → Json
  given (string s) = deserialize s
  given other = other

  abbrev normalized_of : Option Fields → Option Fields
  normalized_of none = none
  normalized_of (some options) = normalize options

  -- The user's options as they are merged.
  unfoldable pub user_options : Json → Option Fields
  unfolding normalize truthy
  user_options config_contents = normalized_of (mapping_of (given config_contents))

  abbrev merged_options : Option Fields → Option Fields → Option Fields
  merged_options none options = none
  merged_options (some base) none = none
  merged_options (some base) (some options) = some (merge options base)

  unfoldable pub configuration_contents : Json → Memory → Option Fields
  unfolding user_options base_configuration merge
  configuration_contents config_contents memory_mb =
      merged_options (base_configuration memory_mb) (user_options config_contents)
