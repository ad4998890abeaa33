-- ===== src/Balancer/Tests.antt =====
-- A capsule that is added to a pool, and each theorem applied to it.
use yggdrasil_home.Base.{◌≡◌, refl, true, none, some, [], ◌∷◌}
use yggdrasil_home.Base.Json.{null, string, array, object, nil, cons, Fields, end, field}
use yggdrasil_home.Base.Run.{returned}
use yggdrasil_home.Balancer.{ClusterNode, World, address_for_subnet, errors_text, member_add}
use yggdrasil_home.Balancer.Address.{address_for_subnet_first, addresses_of, first_on_subnet}
use yggdrasil_home.Balancer.Added.{IsSettled, member_add-IsSettled}

abbrev addresses : Fields
addresses =
    field "net"
      (array (
        cons null (
          cons
            (object (
              field "subnet_id" (string "s1")
                (field "version" (string "4") (field "addr" (string "10.0.0.5") end))))
            nil)))
      end

abbrev senlin : World
senlin = record {
  fails = λ h. none;
  subnet = λ h. record { id = "s1"; ip_version = 4 };
  details = λ h. field "addresses" (object addresses) end;
  is_lb_ready = λ h. true;
  member_id = λ h. "m1";
  is_removed = λ h. true;
}

abbrev node : ClusterNode
node = record { id = "n1"; name = "node"; profile_id = "p1" }

member_given : (member_add senlin node "lb" "pool" 80 "subnet" [] []).0 ≡ returned (some "m1", [])
unfolding member_add
member_given = refl

two_failures : errors_text (("n1", "a") ∷ ("n2", "b") ∷ ("n3", "a") ∷ []) ≡ "a; b"
unfolding errors_text
two_failures = refl

member_add-IsSettled_example :
    IsSettled senlin node "lb" "pool" 80 "subnet" [] []
      (member_add senlin node "lb" "pool" 80 "subnet" [] [])
member_add-IsSettled_example = member_add-IsSettled senlin node "lb" "pool" 80 "subnet" [] []

address_for_subnet_first_example :
    address_for_subnet (object addresses) "s1" "4"
    ≡ first_on_subnet "s1" "4" (addresses_of addresses)
address_for_subnet_first_example = address_for_subnet_first "s1" "4" addresses
