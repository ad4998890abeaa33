-- ===== src/Balancer/Added.antt =====
-- What an addition of a member has done when it returns.
use Prim.Native.String.{String}
use yggdrasil_home.Base.{
  ◌≡◌, refl, ℕ, Bool, true, false, Option, none, some, ◌∷◌, inl, inr, Bool-cases, Option-cases,
}
use yggdrasil_home.Base.Dict
use yggdrasil_home.Base.Dict.{Dict}
use yggdrasil_home.Base.Json.{Json, null, flag, number, string, array, object, get_json, truthy}
use yggdrasil_home.Base.Run.{Outcome, returned, raised, unfinished, and_then, handled, pure, ◌>>=◌}
use yggdrasil_home.Balancer.{
  Action, Event, History, ClusterNode, Verdict, World, add_failed, added, address_of, call,
  confirmed, created, error_message, get_details, load_profile, member_add, member_of,
  pool_member_create, ready, recorded, refused, subnet_get, try_member_add, unreadable,
  wait_for_lb_ready, with_address, with_details,
}

module _ (w : World) (node : ClusterNode) (lb_id pool_id : String) (port : ℕ)
    (subnet_name : String) where
  -- The events by which the subnet, the details and the member are known.
  abbrev got : History → History
  got h = subnet_get subnet_name ∷ h

  abbrev detailed : History → History
  detailed h = get_details node.id ∷ load_profile node.profile_id ∷ got h

  abbrev made : History → Json → History
  made h address =
      pool_member_create
        (member_of w node pool_id port (w.subnet (got h)) (w.details (detailed h)) address)
      ∷ wait_for_lb_ready lb_id
      ∷ detailed h

  -- The calls of an addition, in their order: the member was made with the capsule's address on the
  -- pool's subnet, when the load balancer was ready, and it was ready again afterwards.
  pub data IsAdded (h : History) : String → History → Type 0 where
    by_calls :
        (address : Json)
        → address_of w (w.subnet (got h)) (w.details (detailed h)) ≡ some address
        → w.is_lb_ready (wait_for_lb_ready lb_id ∷ detailed h) ≡ true
        → w.is_lb_ready (wait_for_lb_ready lb_id ∷ made h address) ≡ true
        → IsAdded h (w.member_id (made h address)) (wait_for_lb_ready lb_id ∷ made h address)

  -- A verdict that adds a member has made it so; the code has no loop to leave unfinished.
  Fine : History → Outcome String Verdict × History → Type 0
  Fine h (raised e, later) = Unit
  Fine h (returned (refused reason), later) = Unit
  Fine h (returned (added member_id), later) = IsAdded h member_id later
  Fine h (unfinished, later) = ⊥

  call-Fine :
      {A : Type 0} (event : Event) (answer : History → A) (next : A → Action Verdict)
      (h start : History)
      → Fine h (next (answer (event ∷ start)) (event ∷ start))
      → Fine h ((call w event answer >>= next) start)
  unfolding Fine
  call-Fine event answer next h start k = elim (Option-cases (w.fails (event ∷ start))) [
    | inl e ↦ rw e k
    | inr (message, e) ↦ rw e tt
  ]

  confirmed-Fine :
      (h : History) (address : Json)
      → address_of w (w.subnet (got h)) (w.details (detailed h)) ≡ some address
      → w.is_lb_ready (wait_for_lb_ready lb_id ∷ detailed h) ≡ true
      → (b : Bool) → w.is_lb_ready (wait_for_lb_ready lb_id ∷ made h address) ≡ b
      → Fine h (
        returned (confirmed w node lb_id (w.member_id (made h address)) b),
        wait_for_lb_ready lb_id ∷ made h address,
      )
  unfolding Fine
  confirmed-Fine h address e r true k = by_calls address e r k
  confirmed-Fine h address e r false k = tt

  created-Fine :
      (h : History) (address : Json)
      → address_of w (w.subnet (got h)) (w.details (detailed h)) ≡ some address
      → (b : Bool) → w.is_lb_ready (wait_for_lb_ready lb_id ∷ detailed h) ≡ b
      → Fine h (
          created w node lb_id
            (member_of w node pool_id port (w.subnet (got h)) (w.details (detailed h)) address)
            b
            (wait_for_lb_ready lb_id ∷ detailed h))
  unfolding Fine
  created-Fine h address e false r = tt
  created-Fine h address e true r =
      let member =
        member_of w node pool_id port (w.subnet (got h)) (w.details (detailed h)) address in
      let waited = wait_for_lb_ready lb_id ∷ detailed h in
      call-Fine (pool_member_create member) w.member_id
        (λ member_id. ready w lb_id >>= λ b. pure (confirmed w node lb_id member_id b)) h waited
        (call-Fine (wait_for_lb_ready lb_id) w.is_lb_ready
          (λ b. pure (confirmed w node lb_id (w.member_id (made h address)) b)) h (made h address)
          (confirmed-Fine h address e r (w.is_lb_ready (wait_for_lb_ready lb_id ∷ made h address))
            refl))

  address-Fine :
      (h : History) (o : Option Json)
      → address_of w (w.subnet (got h)) (w.details (detailed h)) ≡ o
      → Fine h (
          with_address w node lb_id pool_id port
            (w.subnet (got h))
            (w.details (detailed h))
            o
            (detailed h))
  unfolding Fine
  address-Fine h none e = tt
  address-Fine h (some address) e =
      call-Fine (wait_for_lb_ready lb_id) w.is_lb_ready
        (created w node lb_id
          (member_of w node pool_id port (w.subnet (got h)) (w.details (detailed h)) address))
        h (detailed h)
        (created-Fine h address e (w.is_lb_ready (wait_for_lb_ready lb_id ∷ detailed h)) refl)

  error-Fine :
      (h start : History) (error : Json)
      → Fine h ((error_message w error >>= λ message. pure (unreadable w node message)) start)
  unfolding Fine
  error-Fine h start (object fs) = tt
  error-Fine h start null = tt
  error-Fine h start (flag b) = tt
  error-Fine h start (number n) = tt
  error-Fine h start (string s) = tt
  error-Fine h start (array xs) = tt

  details-Fine :
      (h : History)
      → Fine h (
          with_details w node lb_id pool_id port
            (w.subnet (got h))
            (w.details (detailed h))
            (detailed h))
  details-Fine h = elim (Bool-cases (truthy (get_json (w.details (detailed h)) "Error"))) [
    | inl k ↦ rw k (error-Fine h (detailed h) (get_json (w.details (detailed h)) "Error"))
    | inr k ↦ rw k (address-Fine h (address_of w (w.subnet (got h)) (w.details (detailed h))) refl)
  ]

  try-Fine : (h : History) → Fine h (try_member_add w node lb_id pool_id port subnet_name h)
  try-Fine h = call-Fine (subnet_get subnet_name) w.subnet _ h h (
      call-Fine (load_profile node.profile_id) (λ x. tt) _ h (got h)
        (call-Fine (get_details node.id) w.details _ h (load_profile node.profile_id ∷ got h)
          (details-Fine h)))

  -- How an addition ends: with none and a reason recorded for the node, or with the identifier of the
  -- member that was made, and nothing recorded.
  pub data IsSettled (errors : Dict String) (h : History)
      : Outcome String (Option String × Dict String) × History → Type 0 where
    failed :
        {later : History} (reason : String)
        → IsSettled errors h (returned (none, Dict.put errors node.id reason), later)
    succeeded :
        {member_id : String} {later : History}
        → IsAdded h member_id later
        → IsSettled errors h (returned (some member_id, errors), later)

  -- An addition always returns, whatever fails on its way. It returns none exactly with a reason
  -- recorded for the node; it returns a member only if the member was made, with the capsule's address
  -- on the pool's subnet, by a load balancer that was ready before and after.
  pub member_add-IsSettled :
      (errors : Dict String) (h : History)
      → IsSettled errors h (member_add w node lb_id pool_id port subnet_name errors h)
  unfolding member_add Fine
  member_add-IsSettled errors h =
      by_outcome (try_member_add w node lb_id pool_id port subnet_name h) (try-Fine h)
    where
      by_outcome :
          (r : Outcome String Verdict × History)
          → Fine h r
          → IsSettled errors h (
              let (o, later) = handled r.0 (λ error. pure (add_failed w node pool_id error)) r.1 in
              and_then o (λ verdict. pure (recorded w node.id errors verdict)) later)
      by_outcome (raised e, later) k = failed _
      by_outcome (returned (refused reason), later) k = failed reason
      by_outcome (returned (added member_id), later) k = succeeded k
      by_outcome (unfinished, later) k = absurd k
