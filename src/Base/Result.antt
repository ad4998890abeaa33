-- ===== src/Base/Result.antt =====
-- What a call returns or raises.
use mathlib.Core.Path.{◌≡◌, refl, ap, subst}
use yggdrasil_home.Base.Lists.{In, here, there, All, AllPairs, not_In-nil}
use mathlib.Core.List.{List, [], ◌∷◌, map}

pub data Result {ℓ κ} (E : Type ℓ) (A : Type κ) : Type (ℓ ⊔ κ) where
  err : E → Result E A
  ok : A → Result E A

infixl 5 ◌>>=◌
-- What follows a call that returns; a failure is passed on.
abbrev pub ◌>>=◌ {ℓ κ μ} :
    {A : Type κ} {E : Type ℓ} {B : Type μ} → Result E A → (A → Result E B) → Result E B
err failure >>= next = err failure
ok value >>= next = next value

-- What a chain that returns has returned at each link.
pub links {ℓ κ μ} :
    {A : Type κ} {E : Type ℓ} {B : Type μ} {result : B} (first : Result E A) (next : A → Result E B)
    → first >>= next ≡ ok result
    → (value : A) × (first ≡ ok value) × (next value ≡ ok result)
links (err failure) next returns = cc
links (ok value) next returns = (value, refl, returns)

-- The first failure of a list of calls, or what they all return.
unfoldable pub collect {ℓ κ} : {E : Type ℓ} {A : Type κ} → List (Result E A) → Result E (List A)
collect [] = ok []
collect (err failure ∷ rest) = err failure
collect (ok value ∷ rest) = collect rest >>= λ more. ok (value ∷ more)

value_or {ℓ κ} : {E : Type ℓ} {A : Type κ} → A → Result E A → A
value_or a (ok b) = b
value_or a (err e) = a

pub ok_inj {ℓ κ} : {E : Type ℓ} {A : Type κ} {a b : A} → ◌≡◌ {A = Result E A} (ok a) (ok b) → a ≡ b
unfolding value_or
ok_inj {a = a} h = ap (value_or a) h

-- The results of the calls, one for one.
pub data Each {ℓ κ μ} {E : Type ℓ} {A : Type κ} {B : Type μ} (f : A → Result E B)
    : List A → List B → Type (ℓ ⊔ κ ⊔ μ) where
  none_left : Each f [] []
  and_each :
      {a : A} {b : B} {xs : List A} {ys : List B}
      → f a ≡ ok b
      → Each f xs ys
      → Each f (a ∷ xs) (b ∷ ys)

module _ {ℓ κ μ} {E : Type ℓ} {A : Type κ} {B : Type μ} (f : A → Result E B) where
  collect_first :
      (r : Result E B) (a : A) (xs : List A) (ys : List B)
      → f a ≡ r
      → ((zs : List B) → collect (map f xs) ≡ ok zs → Each f xs zs)
      → collect (r ∷ map f xs) ≡ ok ys
      → Each f (a ∷ xs) ys
  unfolding collect
  collect_first (err e) a xs ys k ih h = cc h
  collect_first (ok b) a xs ys k ih h =
      let (zs, p, q) = links (collect (map f xs)) (λ more. ok (b ∷ more)) h in
      subst (Each f (a ∷ xs)) (ok_inj q) (and_each k (ih zs p))

  pub collect-Each : (xs : List A) (ys : List B) → collect (map f xs) ≡ ok ys → Each f xs ys
  unfolding collect
  collect-Each [] [] h = none_left
  collect-Each [] (y ∷ ys) h = cc h
  collect-Each (x ∷ xs) ys h = collect_first (f x) x xs ys refl (collect-Each xs) h

  -- Each result is that of a call, and each call has its result.
  pub Each-from :
      {xs : List A} {ys : List B} {b : B}
      → Each f xs ys
      → In b ys
      → (a : A) × In a xs × (f a ≡ ok b)
  Each-from none_left m = absurd (not_In-nil m)
  Each-from (and_each {a = a} k h) (here e) = (a, here refl, rw e k)
  Each-from (and_each k h) (there m) = let (a, n, l) = Each-from h m in (a, there n, l)

  pub Each-to :
      {xs : List A} {ys : List B} {a : A}
      → Each f xs ys
      → In a xs
      → (b : B) × In b ys × (f a ≡ ok b)
  Each-to none_left m = absurd (not_In-nil m)
  Each-to (and_each {b = b} k h) (here e) = (b, here refl, rw e k)
  Each-to (and_each k h) (there m) = let (b, n, l) = Each-to h m in (b, there n, l)

  -- A relation between any two arguments that the calls carry over holds between any two results.
  module _ (R : A → A → Type κ) (S : B → B → Type μ)
      (carries : (a a' : A) (b b' : B) → f a ≡ ok b → f a' ≡ ok b' → R a a' → S b b') where
    Each-All :
        {xs : List A} {ys : List B} (a : A) (b : B)
        → f a ≡ ok b
        → Each f xs ys
        → All (R a) xs
        → All (S b) ys
    Each-All a b k none_left h = tt
    Each-All a b k (and_each {a = a'} {b = b'} l each) h =
        (carries a a' b b' k l h.0, Each-All a b k each h.1)

    pub Each-AllPairs : {xs : List A} {ys : List B} → Each f xs ys → AllPairs R xs → AllPairs S ys
    Each-AllPairs none_left h = tt
    Each-AllPairs (and_each {a = a} {b = b} k each) h =
        (Each-All a b k each h.0, Each-AllPairs each h.1)
