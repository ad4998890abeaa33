-- ===== src/Order.antt =====
-- Orders: that of texts, that of numbers, and the comparison of tuples, total and transitive.
use Prim.Native.String.{String}
use yggdrasil_home.Base.{ℕ, ◌≡◌, refl, Bool, true, false, not, ◌&&◌, ◌||◌, arith, text_le, leb}

pub text_le-total : (s t : String) → text_le s t ≡ false → text_le t s ≡ true
unfolding text_le
text_le-total String.[] t h = cc
text_le-total (String.◌∷◌ c s) String.[] h = refl
text_le-total (String.◌∷◌ c s) (String.◌∷◌ d t) h = ground (arith, text_le-total s t)

pub text_le_trans : (s t u : String) → text_le s t ≡ true → text_le t u ≡ true → text_le s u ≡ true
unfolding text_le
text_le_trans String.[] t u h k = refl
text_le_trans (String.◌∷◌ c s) String.[] u h k = cc
text_le_trans (String.◌∷◌ c s) (String.◌∷◌ d t) String.[] h k = cc
text_le_trans (String.◌∷◌ c s) (String.◌∷◌ d t) (String.◌∷◌ e u) h k =
    ground (arith, text_le_trans s t u)

-- A comparison of tuples: the first component, and on a tie the rest.
abbrev pub lexicographic : Bool → Bool → Bool → Bool
lexicographic le ge rest = le && (not ge || rest)

pub lexicographic-total :
    (le ge rest rest' : Bool)
    → (le ≡ false → ge ≡ true)
    → (ge ≡ false → le ≡ true)
    → (rest ≡ false → rest' ≡ true)
    → lexicographic le ge rest ≡ false
    → lexicographic ge le rest' ≡ true
lexicographic-total true true rest rest' p q r h = r h
lexicographic-total true false rest rest' p q r h = cc
lexicographic-total false true rest rest' p q r h = refl
lexicographic-total false false rest rest' p q r h = q refl

pub leb-total : (m n : ℕ) → leb m n ≡ false → leb n m ≡ true
leb-total m n h = ground arith

-- Of three values, `ab`, `bc`, `ac` compare forwards and `ba`, `cb`, `ca` backwards.
pub lexicographic_trans :
    (ab ba bc cb ac ca r s t : Bool)
    → (ab ≡ true → bc ≡ true → ac ≡ true)
    → (ca ≡ true → ab ≡ true → cb ≡ true)
    → (bc ≡ true → ca ≡ true → ba ≡ true)
    → (r ≡ true → s ≡ true → t ≡ true)
    → lexicographic ab ba r ≡ true
    → lexicographic bc cb s ≡ true
    → lexicographic ac ca t ≡ true
lexicographic_trans true ba true cb true ca r s t p q u v h k = ground (arith, q, u, v)
lexicographic_trans true ba true cb false ca r s t p q u v h k = cc (p refl refl)
lexicographic_trans true ba false cb ac ca r s t p q u v h k = cc
lexicographic_trans false ba bc cb ac ca r s t p q u v h k = cc

pub text_lexicographic_trans :
    (a b c : String) (r s t : Bool)
    → (r ≡ true → s ≡ true → t ≡ true)
    → lexicographic (text_le a b) (text_le b a) r ≡ true
    → lexicographic (text_le b c) (text_le c b) s ≡ true
    → lexicographic (text_le a c) (text_le c a) t ≡ true
text_lexicographic_trans a b c r s t =
    lexicographic_trans _ _ _ _ _ _ r s t (text_le_trans a b c) (text_le_trans c a b)
      (text_le_trans b c a)

pub leb_trans : (m n k : ℕ) → leb m n ≡ true → leb n k ≡ true → leb m k ≡ true
leb_trans m n k p q = ground arith
