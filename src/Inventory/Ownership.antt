-- ===== src/Inventory/Ownership.antt =====
-- Whose a resource is: `_value`, `_resource_attr`, `_link_project_value`, `_project_value` and
-- `_belongs_to_project`. A resource is the mapping of its attributes; one that is missing is None.
use Prim.Native.String.{String}
use yggdrasil_home.Base.{
  ℕ, zero, suc, Bool, true, false, not, ◌&&◌, ◌||◌, Option, none, some, List, [], ◌∷◌, ◌==◌, ◌<>◌,
  Char, code, eqb, leb, has_prefix, drop_prefix, if◌then◌else◌, is_blank,
}
use yggdrasil_home.Base.Dict.{member}
use yggdrasil_home.Base.Json.{Json, null, array, object, get_json, to_list, truthy, or_else}
use yggdrasil_home.Inventory.Filters.{text_of}
use yggdrasil_home.Inventory.Catalog.{has_suffix}

-- `_value(resource, key)`
unfoldable pub value_of : Json → String → Json
unfolding get_json
value_of (object fs) key = get_json fs key
value_of other key = null

-- The first that is not None.
unfoldable pub first_value : List Json → Json
first_value [] = null
first_value (null ∷ rest) = first_value rest
first_value (value ∷ rest) = value

unfoldable pub resource_attr : Json → String → Json
unfolding value_of first_value has_suffix or_else member
resource_attr resource name = first_value (
    value_of resource name
    ∷ (if has_suffix "_id" name
        then value_of resource "id"
        else if has_suffix "_name" name
            || member ("container" ∷ "queue_name" ∷ "stack_name" ∷ "namespace_name" ∷ []) name
        then or_else (value_of resource "name") (value_of resource "id")
        else null)
    ∷ [])

-- The longest part of characters of a kind at the start, and the rest.
unfoldable pub span_by : (Char → Bool) → String → String × String
span_by p String.[] = ("", "")
span_by p (String.◌∷◌ c s) =
    let (run, rest) = span_by p s in if p c then (String.◌∷◌ c run, rest) else ("", String.◌∷◌ c s)

abbrev is_digit : Char → Bool
is_digit c = leb 48 (code c) && leb (code c) 57

abbrev is_hex : Char → Bool
is_hex c =
    is_digit c || (leb 97 (code c) && leb (code c) 102) || (leb 65 (code c) && leb (code c) 70)

abbrev is_hex_or_dash : Char → Bool
is_hex_or_dash c = is_hex c || eqb (code c) 45

-- The text has at least as many characters.
at_least : ℕ → String → Bool
at_least zero s = true
at_least (suc n) String.[] = false
at_least (suc n) (String.◌∷◌ c s) = at_least n s

ends_segment : String → Bool
ends_segment s = is_blank s || has_prefix "/" s

abbrev with_tail : String → String × String → Option String
with_tail id (tail, rest) =
    if not (is_blank tail) && ends_segment rest then some (id <> ("-" <> tail)) else none

abbrev after_hex : String → String → Option String → Option String
after_hex id rest none = if ends_segment rest then some id else none
after_hex id rest (some tail) = with_tail id (span_by is_hex_or_dash tail)

abbrev project_at : String × String → Option String
project_at (id, rest) = if at_least 16 id then after_hex id rest (drop_prefix "-" rest) else none

-- `([0-9a-f]{16,}(?:-[0-9a-f-]+)?)(?:/|$)`
project_segment : String → Option String
unfolding span_by at_least ends_segment drop_prefix has_prefix
project_segment s = project_at (span_by is_hex s)

abbrev after_number : String × String → Option String
after_number (digits, rest) = if is_blank digits then none else some rest

abbrev then_slash : Option String → Option String
then_slash none = none
then_slash (some rest) = drop_prefix "/" rest

abbrev minor_version : String → Option String → Option String
minor_version rest none = drop_prefix "/" rest
minor_version rest (some digits) = then_slash (after_number (span_by is_digit digits))

abbrev version_rest : Option String → Option String
version_rest none = none
version_rest (some rest) = minor_version rest (drop_prefix "." rest)

-- `\d+(?:\.\d+)?/` at the start, and what follows.
after_version : String → Option String
unfolding span_by drop_prefix
after_version s = version_rest (after_number (span_by is_digit s))

abbrev segment_of : Option String → Option String
segment_of none = none
segment_of (some rest) = project_segment rest

abbrev found_here : Option String → Option String
found_here none = none
found_here (some rest) = segment_of (after_version rest)

abbrev or_else_text : Option String → Option String → Option String
or_else_text (some s) rest = some s
or_else_text none rest = rest

-- `project_pattern.search`: the project in a URL, after its version, in either case.
unfoldable pub project_in : String → Option String
unfolding project_segment after_version drop_prefix
project_in String.[] = none
project_in (String.◌∷◌ c s) =
    or_else_text (found_here (drop_prefix "/v" (String.◌∷◌ c s)))
      (or_else_text (found_here (drop_prefix "/V" (String.◌∷◌ c s))) (project_in s))

abbrev or_link : Option String → Json → Json
or_link (some project) rest = Json.string project
or_link none rest = rest

unfoldable pub link_in : List Json → Json
unfolding value_of project_in text_of truthy
link_in [] = null
link_in (link ∷ links) =
    let rest = link_in links in
    let href = value_of link "href" in
    if truthy href then or_link (project_in (text_of href)) rest else rest

unfoldable pub link_project_of : Json → Json
unfolding link_in
link_project_of (object links) = link_in (object links ∷ [])
link_project_of (array links) = link_in (to_list links)
link_project_of other = null

-- The identifier of a project that a resource refers to.
unfoldable pub reference_of : Json → Json
unfolding first_value value_of
reference_of null = null
reference_of project =
    first_value
      (value_of project "id" ∷ value_of project "project_id" ∷ value_of project "tenant_id" ∷ [])

unfoldable pub project_value : Json → Json
unfolding first_value value_of link_project_of reference_of
project_value resource = first_value (
    value_of resource "project_id"
    ∷ value_of resource "tenant_id"
    ∷ value_of resource "tenant"
    ∷ value_of resource "owner"
    ∷ link_project_of (value_of resource "links")
    ∷ reference_of (value_of resource "project")
    ∷ reference_of (value_of (value_of resource "location") "project")
    ∷ value_of resource "user_project_id"
    ∷ [])

abbrev is_project : String → Json → Bool
is_project project_id null = true
is_project project_id value = text_of value == project_id

unfoldable pub belongs_to_project : String → Json → Bool
unfolding project_value text_of
belongs_to_project project_id resource = is_project project_id (project_value resource)
