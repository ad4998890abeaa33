-- ===== src/Deletion/Senlin.antt =====
-- `delete_senlin_resource`: a clustering resource is deleted through the SDK, and the deletion is
-- followed until the resource is gone, its action fails or the time is up.
pub mod Ends
pub mod Gone
use Prim.Native.String.{String}
use yggdrasil_home.Base.{
  ℕ, zero, suc, ◌+◌, Bool, Option, none, some, List, [], ◌∷◌, ◌==◌, ◌<>◌, ltb, ◌||◌, if◌then◌else◌,
  is_blank, upper,
}
use yggdrasil_home.Base.Dict.{member}
use yggdrasil_home.Deletion.World.{
  World, Run, pure, out_of_fuel, ◌>>=◌, ◌>>◌, monotonic, record_event, sleep, Answer, returned,
  raised, call, senlin, whole_seconds, go_on, get_resource, delete_resource, get_action,
}
use yggdrasil_home.Deletion.Commands.{Resource}

-- The keys of `getters` and `deleters`.
abbrev pub senlin_kinds : List String
senlin_kinds = "cluster" ∷ "node" ∷ "policy" ∷ "profile" ∷ "receiver" ∷ []

abbrev pub is_missing : String → Bool
is_missing class_name = class_name == "NotFoundException"

module _ (w : World) where
  abbrev trouble : Resource → String → List String
  trouble r what = ("clustering/" <> (r.resource <> ("/" <> (r.identifier <> (": " <> what))))) ∷ []

  abbrev of_class : String → String → String
  of_class what class_name = what <> (" (" <> (class_name <> ")"))

  -- An SDK call whose exception ends the deletion: well, if the resource is not there.
  unfoldable pub ended_by : Resource → String → Answer → Option (List String)
  ended_by r what (returned id status) = none
  ended_by r what (raised class_name) =
      if is_missing class_name then some [] else some (trouble r (of_class what class_name))

  -- The look at the action: an error ends the loop, and so does a status of failure. The action's
  -- own absence does not.
  unfoldable pub action_verdict : Resource → Answer → Option (List String)
  unfolding upper
  action_verdict r (raised class_name) =
      if is_missing class_name
      then none
      else some (trouble r (of_class "action lookup failed" class_name))
  action_verdict r (returned id status) =
      if (upper status == "FAILED") || (upper status == "CANCELLED")
      then some (trouble r ("Senlin deletion action entered " <> upper status))
      else none

  unfoldable pub check_action : Resource → String → Run (Option (List String))
  unfolding action_verdict
  check_action r action_id =
      if is_blank action_id
      then pure none
      else (do answer ← call w (senlin (get_action action_id)); pure (action_verdict r answer))

  -- The end of a round, and the round from the look at the resource on; `rest` is the next round.
  abbrev after_action : ℕ → Run (List String) → Option (List String) → Run (List String)
  after_action poll rest failure = go_on failure (record_event (sleep poll) >> rest)

  unfoldable pub after_lookup :
      Resource → String → ℕ → Run (List String) → Answer → Run (List String)
  unfolding check_action ended_by
  after_lookup r action_id poll rest answer =
      go_on (ended_by r "resource lookup failed" answer)
        (check_action r action_id >>= after_action poll rest)

  -- The `while`, on fuel.
  unfoldable pub senlin_loop : ℕ → Resource → String → (deadline wait poll : ℕ) → Run (List String)
  unfolding after_lookup whole_seconds
  senlin_loop zero r action_id deadline wait poll = out_of_fuel
  senlin_loop (suc fuel) r action_id deadline wait poll =
      let rest = senlin_loop fuel r action_id deadline wait poll in
      do
        time ← monotonic w
        if ltb time deadline
            then call w (senlin (get_resource r.resource r.identifier))
              >>= after_lookup r action_id poll rest
            else pure (
                trouble r ("Senlin resource remained after " <> (whole_seconds wait <> " seconds")))

  abbrev id_of : Answer → String
  id_of (returned id status) = id
  id_of (raised class_name) = ""

  abbrev request_and_wait : ℕ → (wait poll : ℕ) → Resource → Run (List String)
  request_and_wait fuel wait poll r = do
    action ← call w (senlin (delete_resource r.resource r.identifier))
    go_on (ended_by r "delete request failed" action)
        (do start ← monotonic w; senlin_loop fuel r (id_of action) (start + wait) wait poll)

  unfoldable pub delete_senlin_resource : ℕ → (wait poll : ℕ) → Resource → Run (List String)
  unfolding senlin_loop ended_by member
  delete_senlin_resource fuel wait poll r =
      if member senlin_kinds r.resource
      then (do
        found ← call w (senlin (get_resource r.resource r.identifier))
        go_on (ended_by r "unable to load Senlin resource" found)
            (request_and_wait fuel wait poll r))
      else pure (trouble r "unsupported Senlin resource")
