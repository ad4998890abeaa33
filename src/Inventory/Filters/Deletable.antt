-- ===== src/Inventory/Filters/Deletable.antt =====
-- The table of the kinds that the inventory takes for non-deletable, against the table of phases. The
-- kinds that it leaves out as global are another table.
use Prim.Native.String.{String}
use yggdrasil_home.Base.{ℕ, ◌≡◌, refl, Bool, true, not, some, all, All}
use yggdrasil_home.Deletion.Tables.{Kind, resource_phases}
use yggdrasil_home.Deletion.Plan.{phase_of}
use yggdrasil_home.Deletion.Plan.Phases.{phase_in-All, all-All}
use yggdrasil_home.Inventory.Filters.{non_deletable_resource}

row_is_shown : Kind × ℕ → Bool
unfolding non_deletable_resource
row_is_shown ((service, resource), phase) = not (non_deletable_resource service resource)

rows_are_shown : All (λ row. row_is_shown row ≡ true) resource_phases
unfolding row_is_shown all
rows_are_shown = all-All row_is_shown resource_phases refl

-- A kind that has a phase in the deletion plan is not one that the inventory leaves out as not
-- deletable.
pub phased_shown :
    (service resource : String) (phase : ℕ)
    → phase_of (service, resource) ≡ some phase
    → not (non_deletable_resource service resource) ≡ true
unfolding phase_of row_is_shown
phased_shown service resource phase e =
    phase_in-All (λ s r n. not (non_deletable_resource s r) ≡ true) resource_phases rows_are_shown
      service resource phase e
