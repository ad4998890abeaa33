-- ===== src/Deletion/Plan/Order.antt =====
-- The order in which a plan deletes.
use Prim.Native.String.{String}
use yggdrasil_home.Base.{◌≡◌, true, false, List, text_le}
use yggdrasil_home.Base.Sorting.{sort, IsSorted, sort-IsSorted}
use yggdrasil_home.Order.{
  text_le-total, text_le_trans, lexicographic-total, lexicographic_trans, text_lexicographic_trans,
  leb-total, leb_trans,
}
use yggdrasil_home.Deletion.Commands.{Resource}
use yggdrasil_home.Deletion.Plan.{Operation, operation_le, key_le}

key_le-total : (a b : Resource) → key_le a b ≡ false → key_le b a ≡ true
unfolding key_le
key_le-total a b =
    lexicographic-total _ _ _ _ (text_le-total _ _) (text_le-total _ _)
      (lexicographic-total _ _ _ _ (text_le-total _ _) (text_le-total _ _) (text_le-total _ _))

operation_le-total : (a b : Operation) → operation_le a b ≡ false → operation_le b a ≡ true
unfolding operation_le
operation_le-total a b =
    lexicographic-total _ _ _ _ (leb-total a.phase b.phase) (leb-total b.phase a.phase)
      (key_le-total a.resource b.resource)

key_le_trans : (a b c : Resource) → key_le a b ≡ true → key_le b c ≡ true → key_le a c ≡ true
unfolding key_le
key_le_trans a b c =
    text_lexicographic_trans _ _ _ _ _ _
      (text_lexicographic_trans _ _ _ _ _ _ (text_le_trans _ _ _))

operation_le_trans :
    (a b c : Operation)
    → operation_le a b ≡ true
    → operation_le b c ≡ true
    → operation_le a c ≡ true
unfolding operation_le
operation_le_trans a b c =
    lexicographic_trans _ _ _ _ _ _ _ _ _ (leb_trans a.phase b.phase c.phase)
      (leb_trans c.phase a.phase b.phase) (leb_trans b.phase c.phase a.phase)
      (key_le_trans a.resource b.resource c.resource)

pub operations-IsSorted : (ops : List Operation) → IsSorted operation_le (sort operation_le ops)
operations-IsSorted = sort-IsSorted operation_le operation_le-total operation_le_trans

pub issues-IsSorted : (issues : List String) → IsSorted text_le (sort text_le issues)
issues-IsSorted = sort-IsSorted text_le text_le-total text_le_trans
