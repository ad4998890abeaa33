-- ===== src/Deletion/Names.antt =====
-- How scripts/openstack/delete-project-resources.py normalises names and finds an item's identifier.
use Prim.Native.String.{String}
use yggdrasil_home.Base.{
  Char, code, Bool, true, false, ◌&&◌, ◌||◌, List, [], ◌∷◌, leb, ◌==◌, if◌then◌else◌, lower,
  map_text, strip, strip_by, same_char, is_blank,
}
use yggdrasil_home.Base.Dict
use yggdrasil_home.Base.Json.{Json, null, array, object, Fields, get_json, str}
use yggdrasil_home.Deletion.Tables.{service_aliases, resource_aliases}

-- `[a-z0-9]`
unfoldable pub is_name_char : Char → Bool
is_name_char c = let n = code c in (leb 97 n && leb n 122) || (leb 48 n && leb n 57)

-- `re.sub(r"[^a-z0-9]+", "_", s)`; the flag is set inside a run that the pattern matches.
unfoldable pub squeeze : Bool → String → String
squeeze in_run String.[] = String.[]
squeeze in_run (String.◌∷◌ c s) =
    let kept = String.◌∷◌ c (squeeze false s) in
    let dropped = squeeze true s in
    if is_name_char c then kept else if in_run then dropped else String.◌∷◌ "_" dropped

-- The names are keys of a JSON object, so `str(value or "")` is the name itself.
unfoldable pub normalize_name : String → String
unfolding is_name_char squeeze
normalize_name value = strip_by (same_char "_") (squeeze false (lower (strip value)))

hyphenate : Char → Char
hyphenate c = if same_char c "_" then "-" else c

unfoldable pub canonical_service : String → String
unfolding hyphenate
canonical_service value =
    let normalized = normalize_name value in
    Dict.get_or service_aliases normalized (map_text hyphenate normalized)

unfoldable pub canonical_resource : String → String
canonical_resource value =
    let normalized = normalize_name value in Dict.get_or resource_aliases normalized normalized

unfoldable pub scalar_text : Json → String
scalar_text null = ""
scalar_text (array xs) = ""
scalar_text (object fs) = ""
scalar_text value = strip (str value)

unfoldable pub identifier_keys : String → String → List String
identifier_keys service resource =
    if (service == "workflow") && (resource == "cron_trigger")
    then "name" ∷ "id" ∷ "uuid" ∷ []
    else if (service == "alarm") && (resource == "alarm")
    then "alarm_id" ∷ "id" ∷ "uuid" ∷ "name" ∷ "display_name" ∷ "stack_name" ∷ []
    else "id" ∷ "uuid" ∷ "name" ∷ "display_name" ∷ "stack_name" ∷ []

-- The first of the keys with a text that is not blank.
unfoldable pub first_text : Fields → List String → String
first_text raw [] = ""
first_text raw (key ∷ keys) =
    let rest = first_text raw keys in
    let value = scalar_text (get_json raw key) in if is_blank value then rest else value

unfoldable pub identifier : Fields → String → String → String
unfolding first_text identifier_keys
identifier raw service resource = first_text raw (identifier_keys service resource)
