-- ===== src/Mongo/Options.antt =====
-- `MongoConfigurationManager`: `_merge`, `_normalize`, `_sanitize` and `normalize`. Options are the
-- mapping of a JSON object; an exception of the interpreter is none.
pub mod Dotless
pub mod Paths
pub mod Modern
pub mod Merged
use Prim.Native.String.{String}
use yggdrasil_home.Base.{
  Bool, true, false, not, ◌&&◌, Option, none, some, List, [], ◌∷◌, ◌==◌, Char, code, eqb,
  if◌then◌else◌, is_blank, same_char, keep,
}
use yggdrasil_home.Base.Fields.{get_field, set_field, pop_field}
use yggdrasil_home.Base.Json.{Json, null, flag, number, string, array, object, Fields, end, field}

unfoldable mutual
  unfolding get_field set_field

  -- `_merge`
  pub merge : Fields → Fields → Fields
  merge end target = target
  merge (field key value rest) target =
      merge rest (set_field key (merged value (get_field target key)) target)

  -- What a key has after it is merged, by what the target has there.
  pub merged : Json → Option Json → Json
  merged (object source) (some (object target)) = object (merge source target)
  merged value other = value

-- `"." in key`
unfoldable pub has_dot : String → Bool
has_dot String.[] = false
has_dot (String.◌∷◌ c s) = let rest = has_dot s in if same_char "." c then true else rest

abbrev pub onto_first : Char → List String → List String
onto_first c [] = String.◌∷◌ c "" ∷ []
onto_first c (word ∷ words) = String.◌∷◌ c word ∷ words

-- `key.split(".")`
unfoldable pub split_dots : String → List String
split_dots String.[] = "" ∷ []
split_dots (String.◌∷◌ c s) =
    let rest = split_dots s in if same_char "." c then "" ∷ rest else onto_first c rest

abbrev pub is_named : String → Bool
is_named part = not (is_blank part)

-- `[part for part in key.split(".") if part]`
unfoldable pub parts_of : String → List String
unfolding split_dots keep
parts_of key = keep is_named (split_dots key)

-- `isinstance(value, dict)`, with the mapping
abbrev pub as_mapping : Option Json → Option Fields
as_mapping (some (object fs)) = some fs
as_mapping other = none

abbrev pub or_end : Option Fields → Fields
or_end none = end
or_end (some fs) = fs

-- The mapping that a part leads to, an empty one if it leads to none.
abbrev pub mapping_at : Option Json → Fields
mapping_at value = or_end (as_mapping value)

-- The assignment at the end of a path, which makes the mappings that are missing on it.
unfoldable pub set_path : String → List String → Json → Fields → Fields
unfolding set_field get_field
set_path part [] value target = set_field part value target
set_path part (next ∷ parts) value target =
    set_field part (object (set_path next parts value (mapping_at (get_field target part)))) target

abbrev pub set_parts : List String → Json → Fields → Option Fields
set_parts [] value target = none
set_parts (part ∷ parts) value target = some (set_path part parts value target)

abbrev pub and_then : Option Fields → (Fields → Option Fields) → Option Fields
and_then none next = none
and_then (some fs) next = next fs

abbrev pub and_value : Option Json → (Json → Option Fields) → Option Fields
and_value none next = none
and_value (some value) next = next value

abbrev pub as_object : Option Fields → Option Json
as_object none = none
as_object (some fs) = some (object fs)

unfoldable mutual
  unfolding has_dot parts_of set_path set_field

  -- The loop of `_normalize`, into what it has made so far.
  pub normalize_into : Fields → Fields → Option Fields
  normalize_into end normalized = some normalized
  normalize_into (field key value rest) normalized =
      if has_dot key
      then and_then (set_parts (parts_of key) value normalized) (λ fs. normalize_into rest fs)
      else and_value (normalize_value value) (λ v. normalize_into rest (set_field key v normalized))

  pub normalize_value : Json → Option Json
  normalize_value (object fs) = as_object (normalize_into fs end)
  normalize_value other = some other

abbrev pub nest : Fields → Option Fields
nest options = normalize_into options end

-- A mapping that has become empty is taken out.
abbrev pub or_pop : String → Fields → Fields → Fields
or_pop key end target = pop_field key target
or_pop key (field k v fs) target = set_field key (object (field k v fs)) target

abbrev pub sanitize_journal : Option Fields → Fields → Fields
sanitize_journal (some journal) storage = or_pop "journal" (pop_field "enabled" journal) storage
sanitize_journal none storage = storage

-- The storage without the old engine's settings.
abbrev pub without_old_settings : Fields → Fields
without_old_settings storage =
    let modern = pop_field "mmapv1" storage in
    sanitize_journal (as_mapping (get_field modern "journal")) modern

abbrev pub sanitize_storage : Option Fields → Fields → Fields
sanitize_storage (some storage) options = or_pop "storage" (without_old_settings storage) options
sanitize_storage none options = options

abbrev pub is_stderr : Option Json → Bool
is_stderr (some (string s)) = s == "stderr"
is_stderr other = false

abbrev pub sanitize_log : Option Fields → Fields → Fields
sanitize_log (some system_log) options =
    if is_stderr (get_field system_log "destination")
    then or_pop "systemLog" (pop_field "destination" system_log) options
    else options
sanitize_log none options = options

-- `_sanitize`
unfoldable pub sanitize : Fields → Fields
unfolding get_field set_field pop_field
sanitize options =
    let stored = sanitize_storage (as_mapping (get_field options "storage")) options in
    sanitize_log (as_mapping (get_field stored "systemLog")) stored

abbrev sanitized : Option Fields → Option Fields
sanitized none = none
sanitized (some options) = some (sanitize options)

-- `normalize`
unfoldable pub normalize : Fields → Option Fields
unfolding normalize_into sanitize
normalize options = sanitized (nest options)
