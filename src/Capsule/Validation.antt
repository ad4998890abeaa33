-- ===== src/Capsule/Validation.antt =====
-- `do_validate` of the capsule profile: the tests on a template, in their order.
pub mod Accepted
use Prim.Native.String.{String}
use yggdrasil_home.Base.{Bool, true, false, not, ◌&&◌, ◌||◌, List, any, if◌then◌else◌, ◌==◌}
use yggdrasil_home.Base.Json.{
  Json, null, string, array, object, Fields, end, get_json, to_list, truthy, or_else,
}

-- The message of the exception, or acceptance.
pub data Verdict : Type 0 where
  accepted : Verdict
  invalid_spec : String → Verdict

abbrev is_text : Json → String → Bool
is_text (string s) t = s == t
is_text other t = false

-- `value or {}`, and `value or []`
abbrev pub or_mapping : Json → Json
or_mapping value = or_else value (object end)

unfoldable pub lacks_image : Json → Bool
unfolding truthy get_json
lacks_image (object container) = not (truthy (get_json container "image"))
lacks_image other = true

unfoldable pub check_labels : Json → Verdict
check_labels (object labels) = accepted
check_labels other = invalid_spec "template.metadata.labels must be a mapping"

unfoldable pub check_metadata : Json → Verdict
unfolding check_labels or_else get_json
check_metadata (object metadata) = check_labels (or_mapping (get_json metadata "labels"))
check_metadata other = invalid_spec "template.metadata must be a mapping"

-- The containers, and what is checked after them.
unfoldable pub check_containers : Json → Verdict → Verdict
unfolding lacks_image any truthy
check_containers (array containers) rest =
    if not (truthy (array containers))
    then invalid_spec "template.spec.containers must not be empty"
    else if any lacks_image (to_list containers)
    then invalid_spec "every capsule container needs an image"
    else rest
check_containers other rest =
    if truthy other
    then invalid_spec "every capsule container needs an image"
    else invalid_spec "template.spec.containers must not be empty"

unfoldable pub check_spec : Json → Verdict → Verdict
unfolding check_containers get_json
check_spec (object spec) rest = check_containers (get_json spec "containers") rest
check_spec other rest = invalid_spec "template.spec must be a mapping"

unfoldable pub check_kind : Fields → Verdict → Verdict
unfolding get_json
check_kind template rest =
    if is_text (get_json template "kind") "capsule"
    then rest
    else invalid_spec "template.kind must be 'capsule'"

unfoldable pub do_validate : Json → Verdict
unfolding check_kind check_spec check_metadata or_else get_json
do_validate (object template) = check_kind template (
    check_spec (or_mapping (get_json template "spec"))
      (check_metadata (or_mapping (get_json template "metadata"))))
do_validate other = invalid_spec "template.kind must be 'capsule'"
