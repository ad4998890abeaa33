-- ===== src/Samples/Reports.antt =====
-- An inventory report with resources of several services, and what becomes of it.
use Prim.Native.String.{String}
use yggdrasil_home.Base.Json.{Json, string, array, object, nil, cons, Fields, end, field}

abbrev pub item : String → Json
item id = object (field "id" (string id) end)

abbrev pub named : String → String → Json
named id name = object (field "id" (string id) (field "name" (string name) end))

abbrev pub recordset : String → String → Json
recordset id zone = object (field "id" (string id) (field "zone_id" (string zone) end))

abbrev one : Json → Json
one x = array (cons x nil)

abbrev pub services : Fields
services =
    field "identity"
      (object (field "project" (one (item "p")) (field "trusts" (one (item "t1")) end)))
      (field "Compute"
        (object (field "servers" (array (cons (item "s2") (cons (item "s1") nil))) end))
        (field "dns" (object (field "recordsets" (one (recordset "r1" "z1")) end))
          (field "network" (object (field "networks" (one (named "n1" "lan")) end)) end)))

abbrev pub report : Fields
report = field "resources" (object services) end

-- A recordset that lacks its zone.
abbrev pub broken_report : Fields
broken_report =
    field "resources" (object (field "dns" (object (field "recordset" (one (item "r1")) end)) end))
      end
