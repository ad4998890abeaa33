-- ===== src/Inventory/Selection/Order.antt =====
-- The order of ranks.
use Prim.Native.String.{String}
use yggdrasil_home.Base.{◌≡◌, true, false}
use yggdrasil_home.Order.{
  text_le-total, text_le_trans, lexicographic-total, lexicographic_trans, text_lexicographic_trans,
  leb-total, leb_trans,
}
use yggdrasil_home.Inventory.Filters.{Endpoint}
use yggdrasil_home.Inventory.Selection.{Rank, rank, rank_le, ranked_le}

rank_le-total : (a b : Rank) → rank_le a b ≡ false → rank_le b a ≡ true
unfolding rank_le
rank_le-total (a, v, s, u) (b, w, t, x) =
    lexicographic-total _ _ _ _ (leb-total a b) (leb-total b a) (
      lexicographic-total _ _ _ _ (leb-total w v) (leb-total v w)
        (lexicographic-total _ _ _ _ (text_le-total s t) (text_le-total t s) (text_le-total u x)))

rank_le_trans : (a b c : Rank) → rank_le a b ≡ true → rank_le b c ≡ true → rank_le a c ≡ true
unfolding rank_le
rank_le_trans (a, v, s, u) (b, w, t, x) (c, z, r, y) =
    lexicographic_trans _ _ _ _ _ _ _ _ _ (leb_trans a b c) (leb_trans c a b) (leb_trans b c a) (
      lexicographic_trans _ _ _ _ _ _ _ _ _ (λ p q. leb_trans z w v q p)
        (λ p q. leb_trans w v z q p) (λ p q. leb_trans v z w q p)
        (text_lexicographic_trans s t r _ _ _ (text_le_trans u x y)))

pub ranked_le-total :
    (k : String) (a b : Endpoint) → ranked_le k a b ≡ false → ranked_le k b a ≡ true
unfolding ranked_le
ranked_le-total k a b = rank_le-total (rank k a) (rank k b)

pub ranked_le_trans :
    (k : String) (a b c : Endpoint)
    → ranked_le k a b ≡ true
    → ranked_le k b c ≡ true
    → ranked_le k a c ≡ true
unfolding ranked_le
ranked_le_trans k a b c = rank_le_trans (rank k a) (rank k b) (rank k c)
