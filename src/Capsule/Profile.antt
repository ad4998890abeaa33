-- ===== src/Capsule/Profile.antt =====
-- The template, the waits and the deletion of the capsule profile.
pub mod Absent
pub mod Ends
use Prim.Native.String.{String}
use yggdrasil_home.Base.{
  ℕ, zero, suc, ◌+◌, Char, code, Bool, true, false, ◌&&◌, ◌||◌, Option, none, some, List, [], ◌∷◌,
  ◌==◌, ◌<>◌, eqb, leb, ltb, if◌then◌else◌, is_blank, lower, map_text, strip_by, same_char,
}
use yggdrasil_home.Base.Dict
use yggdrasil_home.Base.Dict.{member}
use yggdrasil_home.Base.Fields.{set_field}
use yggdrasil_home.Base.Json.{
  Json, null, flag, number, string, array, object, Fields, end, field, to_dict, get_json, truthy,
  or_else, str,
}
use yggdrasil_home.Capsule.Session.{
  World, Run, Outcome, returned, raised, unfinished, pure, raise, out_of_fuel, or_raise, rescue,
  handled, ◌>>=◌, ◌>>◌, record_event, Event, sleep, log, Error, error, is_not_found, Response,
  Reply, responded, failed_with, get_url, delete_url, post_url, monotonic, send_request,
  capsule_url, capsules_url, get_capsule, response_json, fields_of, connect,
}

-- What is read of the node. An identifier that is missing or None is "", as `or ""` makes it; the name
-- may be None.
pub record Node : Type 0 where
  pub id : String
  pub name : Option String
  pub cluster_id : String
  pub physical_id : String

-- `d.setdefault(k, {})`
unfoldable pub default_mapping : Fields → String → Json
unfolding Dict.get
default_mapping fs k = elim (Dict.get (to_dict fs) k) [ none ↦ object end | some v ↦ v ]

abbrev is_capsule_char : Char → Bool
is_capsule_char c = let n = code c in (leb 97 n && leb n 122) || (leb 48 n && leb n 57) || eqb n 45

abbrev capsule_char : Char → Char
capsule_char c = if is_capsule_char c then c else "-"

-- `s[:n]`
unfoldable pub take_text : ℕ → String → String
take_text zero s = ""
take_text (suc n) String.[] = String.[]
take_text (suc n) (String.◌∷◌ c s) = String.◌∷◌ c (take_text n s)

unfoldable pub capsule_name : String → String
unfolding lower map_text strip_by take_text
capsule_name name = take_text 63 (strip_by (same_char "-") (map_text capsule_char (lower name)))

-- `str(obj.name)`
abbrev name_text : Option String → String
name_text none = "None"
name_text (some name) = name

abbrev pub timeouts : ℕ × ℕ × ℕ
timeouts = (600000, 300000, 2000)

abbrev pub ready_states : List String
ready_states = "Running" ∷ "Succeeded" ∷ []

abbrev pub failed_states : List String
failed_states = "Failed" ∷ "Error" ∷ "Unknown" ∷ []

module _ (w : World) where
  abbrev with_name : String → Fields → Fields
  with_name name metadata =
      if is_blank name then metadata else set_field "name" (string name) metadata

  abbrev with_labels : Node → Fields → Fields
  with_labels node labels =
      set_field "yggdrasil_senlin_node_id" (string node.id)
        (set_field "yggdrasil_senlin_cluster_id" (string node.cluster_id) labels)

  -- `_make_template`, of a template that is a mapping; the copy is deep.
  unfoldable pub make_template : Fields → Node → Run Fields
  unfolding set_field default_mapping fields_of capsule_name
  make_template template node = do
    metadata ← fields_of w (default_mapping template "metadata")
    labels ← fields_of w (default_mapping metadata "labels")
    let labelled = set_field "labels" (object (with_labels node labels)) metadata
    pure (
        set_field "metadata" (object (with_name (capsule_name (name_text node.name)) labelled))
          template)

  -- `value in states`
  unfoldable pub is_one_of : List String → Json → Run Bool
  unfolding member
  is_one_of states (string s) = pure (member states s)
  is_one_of states (array xs) = raise (w.unhashable (array xs))
  is_one_of states (object fs) = raise (w.unhashable (object fs))
  is_one_of states other = pure false

  abbrev text_at : Fields → String → String → Json
  text_at fs key default = elim (Dict.get (to_dict fs) key) [ none ↦ string default | some v ↦ v ]

  abbrev entered : String → Fields → Error
  entered capsule_id capsule = error "RuntimeError" (
      "Zun capsule "
      <> (capsule_id
          <> (" entered "
              <> (str (text_at capsule "status" "unknown")
                  <> (": " <> str (text_at capsule "status_reason" "no status reason"))))))

  -- A look at the capsule: what `_wait_for_state` returns, or the state that it goes on with.
  unfoldable pub look :
      String → List String → Option Response → Run (Option (Option Fields) × String)
  unfolding response_json fields_of is_one_of str Dict.get
  look capsule_id states none = pure (some none, "")
  look capsule_id states (some response) = do
    payload ← response_json w response
    capsule ← fields_of w payload
    let state = text_at capsule "status" "unknown"
    reached ← is_one_of states state
    if reached then pure (some (some capsule), str state) else (do
      broken ← is_one_of failed_states state
      if broken then raise (entered capsule_id capsule) else pure (none, str state))

  abbrev state_timeout : String → String → Error
  state_timeout capsule_id last_state =
      error "TimeoutError"
        ("Timed out waiting for Zun capsule " <> (capsule_id <> ("; last state: " <> last_state)))

  abbrev go_on : {A : Type 0} → Option A × String → (String → Run A) → Run A
  go_on (some a, state) rest = pure a
  go_on (none, state) rest = record_event (sleep 2000) >> rest state

  -- The `while` of `_wait_for_state`, on fuel.
  unfoldable pub state_loop :
      ℕ → String → String → List String → (deadline : ℕ) → String → Run (Option Fields)
  unfolding look get_capsule
  state_loop zero url capsule_id states deadline last_state = out_of_fuel
  state_loop (suc fuel) url capsule_id states deadline last_state =
      let rest = state_loop fuel url capsule_id states deadline in
      do
        time ← monotonic w
        if ltb time deadline
            then (do
              found ← get_capsule w url
              seen ← look capsule_id states found
              go_on seen rest)
            else raise (state_timeout capsule_id last_state)

  unfoldable pub wait_for_state :
      ℕ → String → String → List String → (timeout : ℕ) → Run (Option Fields)
  unfolding state_loop
  wait_for_state fuel base_url capsule_id states timeout = do
    start ← monotonic w
    state_loop fuel (capsule_url w base_url capsule_id) capsule_id states (start + timeout)
        "unknown"

  -- A round of the wait of `_delete_capsule`: the capsule is gone, or `rest` is the next round.
  abbrev after_look : Run Bool → Option Response → Run Bool
  after_look rest none = pure true
  after_look rest (some response) = record_event (sleep 2000) >> rest

  unfoldable pub gone_loop : ℕ → String → String → (deadline : ℕ) → Run Bool
  unfolding get_capsule
  gone_loop zero url capsule_id deadline = out_of_fuel
  gone_loop (suc fuel) url capsule_id deadline =
      let rest = gone_loop fuel url capsule_id deadline in
      do
        time ← monotonic w
        if ltb time deadline
            then get_capsule w url >>= after_look rest
            else raise (error "TimeoutError" ("Timed out deleting Zun capsule " <> capsule_id))

  abbrev wait_until_gone : ℕ → String → String → Run Bool
  wait_until_gone fuel url capsule_id = do
    start ← monotonic w
    gone_loop fuel url capsule_id (start + 300000)

  -- The `except` of the request: the capsule may be absent all the same.
  abbrev confirm_absent : Error → Option Response → Run Bool
  confirm_absent e none = pure true
  confirm_absent e (some response) = raise e

  unfoldable pub request_failed : String → Error → Run Bool
  unfolding is_not_found get_capsule
  request_failed url e =
      if is_not_found e then pure true else get_capsule w url >>= confirm_absent e

  abbrev checked : ℕ → String → String → Option Error → Run Bool
  checked fuel url capsule_id none = wait_until_gone fuel url capsule_id
  checked fuel url capsule_id (some e) = request_failed url e

  unfoldable pub after_request : ℕ → String → String → Reply → Run Bool
  unfolding request_failed gone_loop
  after_request fuel url capsule_id (failed_with e) = request_failed url e
  after_request fuel url capsule_id (responded r) =
      if eqb r.status_code 404
      then pure true
      else checked fuel url capsule_id (w.raise_for_status r)

  unfoldable pub delete_capsule : ℕ → String → String → Run Bool
  unfolding after_request
  delete_capsule fuel base_url capsule_id =
      let url = capsule_url w base_url capsule_id in
      send_request w (delete_url url) >>= after_request fuel url capsule_id

  abbrev not_deleted : String → Error → Error
  not_deleted capsule_id e = record {
    class_name = "EResourceDeletion";
    http_status = none;
    response_status = none;
    message = e.message;
    resource_id = capsule_id;
  }

  abbrev deleted_or : String → Outcome Bool → Run Bool
  deleted_or capsule_id outcome = handled outcome (λ e. raise (not_deleted capsule_id e))

  unfoldable pub delete_node : ℕ → String → String → Run Bool
  unfolding delete_capsule
  delete_node fuel capsule_id base_url h =
      let (r, h') = delete_capsule fuel base_url capsule_id h in deleted_or capsule_id r h'

  unfoldable pub do_delete : ℕ → Node → Run Bool
  unfolding delete_node connect
  do_delete fuel node =
      if is_blank node.physical_id
      then pure true
      else connect w >>= delete_node fuel node.physical_id
