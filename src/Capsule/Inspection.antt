-- ===== src/Capsule/Inspection.antt =====
-- `do_check` and `do_get_details` of the capsule profile.
use Prim.Native.String.{String}
use yggdrasil_home.Base.{Bool, false, Option, none, some, ◌<>◌, if◌then◌else◌, is_blank}
use yggdrasil_home.Base.Json.{
  null, Json, object, string, Fields, end, field, get_json, truthy, or_else, str,
}
use yggdrasil_home.Capsule.Session.{
  World, Run, pure, raise, handled, ◌>>=◌, ◌>>◌, record_event, log, Error, error, Response,
  capsule_url, get_capsule, response_json, fields_of, connect,
}
use yggdrasil_home.Capsule.Profile.{Node, is_one_of, ready_states}

module _ (w : World) where
  check_response : Option Response → Run Bool
  unfolding response_json fields_of is_one_of get_json
  check_response none = pure false
  check_response (some response) = do
    payload ← response_json w response
    capsule ← fields_of w payload
    is_one_of w ready_states (get_json capsule "status")

  abbrev unchecked : String → Error → Run Bool
  unchecked id e =
      record_event (log ("Could not check Zun capsule " <> (id <> (": " <> e.message))))
      >> pure false

  unfoldable pub check_at : String → String → Run Bool
  unfolding check_response get_capsule
  check_at id base_url h =
      let (r, h') = (get_capsule w (capsule_url w base_url id) >>= check_response) h in
      handled r (unchecked id) h'

  unfoldable pub do_check : Node → Run Bool
  unfolding check_at connect
  do_check node =
      if is_blank node.physical_id then pure false else connect w >>= check_at node.physical_id

  abbrev details_error : String → Json → Error
  details_error id reason = error "RuntimeError" (
      "Failed to get details for Capsule "
      <> (id <> (": " <> str (or_else reason (string "unknown error")))))

  abbrev name_value : Option String → Json
  name_value none = null
  name_value (some name) = string name

  abbrev details : Node → Fields → Fields
  details node capsule =
      field "id"
        (or_else (or_else (get_json capsule "uuid") (get_json capsule "id"))
          (string node.physical_id))
        (field "name" (or_else (get_json capsule "name") (name_value node.name)) (
          field "status" (get_json capsule "status")
            (field "addresses" (or_else (get_json capsule "addresses") (object end)) end)))

  details_of : Node → Option Response → Run Fields
  unfolding response_json fields_of or_else truthy get_json str
  details_of node none = pure end
  details_of node (some response) = do
    payload ← response_json w response
    capsule ← fields_of w payload
    if truthy (get_json capsule "Error")
        then (do
          trouble ← fields_of w (get_json capsule "Error")
          raise (details_error node.physical_id (get_json trouble "message")))
        else pure (details node capsule)

  abbrev without_details : String → Error → Run Fields
  without_details id e =
      record_event (log ("Could not get details for Zun capsule " <> (id <> (": " <> e.message))))
      >> pure (field "Error" (object (field "message" (string e.message) end)) end)

  unfoldable pub details_at : Node → String → Run Fields
  unfolding details_of get_capsule
  details_at node base_url h =
      let (r, h') =
        (get_capsule w (capsule_url w base_url node.physical_id) >>= details_of node) h in
      handled r (without_details node.physical_id) h'

  unfoldable pub do_get_details : Node → Run Fields
  unfolding details_at connect
  do_get_details node =
      if is_blank node.physical_id then pure end else connect w >>= details_at node
