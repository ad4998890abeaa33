-- ===== src/Capsule/Creation.antt =====
-- `do_create` of the capsule profile, with its roll-back.
use Prim.Native.String.{String}
use yggdrasil_home.Base.{ℕ, Bool, Option, none, some, ◌<>◌, if◌then◌else◌}
use yggdrasil_home.Base.Json.{object, Fields, end, field, get_json, truthy, or_else, str}
use yggdrasil_home.Capsule.Session.{
  World, Run, Outcome, returned, raised, unfinished, pure, raise, out_of_fuel, or_raise, handled,
  ◌>>=◌, ◌>>◌, record_event, log, Error, error, Response, Reply, responded, failed_with, post_url,
  send_request, capsules_url, response_json, fields_of, connect,
}
use yggdrasil_home.Capsule.Profile.{
  Node, make_template, wait_for_state, delete_capsule, ready_states,
}

abbrev pub not_created : String → Error → Error
not_created capsule_id e = record {
  class_name = "EResourceCreation";
  http_status = none;
  response_status = none;
  message = e.message;
  resource_id = capsule_id;
}

module _ (w : World) where
  abbrev fine : Reply → Run Response
  fine (failed_with e) = raise e
  fine (responded r) = or_raise (w.raise_for_status r) (pure r)

  -- The request, up to the identifier of the capsule.
  unfoldable pub request_capsule : String → Fields → Run String
  unfolding response_json fields_of or_else str get_json
  request_capsule base_url template = do
    reply ←
        send_request w
          (post_url (capsules_url w base_url) (object (field "template" (object template) end)))
    response ← fine reply
    payload ← response_json w response
    capsule ← fields_of w payload
    let capsule_id = or_else (get_json capsule "uuid") (get_json capsule "id")
    if truthy capsule_id
        then pure (str capsule_id)
        else raise (error "RuntimeError" "Zun did not return the created capsule UUID")

  abbrev ready_or : String → Option Fields → Run String
  ready_or capsule_id (some capsule) = pure capsule_id
  ready_or capsule_id none = raise (
      error "RuntimeError" ("Zun capsule " <> (capsule_id <> " disappeared before becoming ready")))

  unfoldable pub await_capsule : ℕ → String → String → Run String
  unfolding wait_for_state
  await_capsule fuel base_url capsule_id =
      wait_for_state w fuel base_url capsule_id ready_states 600000 >>= ready_or capsule_id

  abbrev after_roll_back : String → Error → Outcome Bool → Run String
  after_roll_back capsule_id e (returned b) = raise (not_created capsule_id e)
  after_roll_back capsule_id e (raised f) =
      record_event (log ("Failed to roll back capsule " <> capsule_id))
      >> raise (not_created capsule_id e)
  after_roll_back capsule_id e unfinished = out_of_fuel

  -- The `except` once the capsule's identifier is known.
  unfoldable pub roll_back : ℕ → String → String → Error → Run String
  unfolding delete_capsule
  roll_back fuel base_url capsule_id e h =
      let (r, h') = delete_capsule w fuel base_url capsule_id h in after_roll_back capsule_id e r h'

  -- The wait, of which an exception rolls the creation back.
  unfoldable pub settle : ℕ → String → String → Run String
  unfolding await_capsule roll_back
  settle fuel base_url capsule_id h =
      let (r, h') = await_capsule fuel base_url capsule_id h in
      handled r (roll_back fuel base_url capsule_id) h'

  abbrev after_post : ℕ → String → Outcome String → Run String
  after_post fuel base_url (returned capsule_id) = settle fuel base_url capsule_id
  after_post fuel base_url (raised e) = raise (not_created "" e)
  after_post fuel base_url unfinished = out_of_fuel

  unfoldable pub create_at : ℕ → Fields → String → Run String
  unfolding request_capsule settle
  create_at fuel template base_url h =
      let (r, h') = request_capsule base_url template h in after_post fuel base_url r h'

  unfoldable pub do_create : ℕ → Fields → Node → Run String
  unfolding create_at make_template connect
  do_create fuel template node = do
    base_url ← connect w
    made ← make_template w template node
    create_at fuel made base_url
