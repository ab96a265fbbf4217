-- ===== src/Prelude/Filters.antt =====
-- Lemmas on the lists that a Boolean test keeps.
use mathlib.Core.Path.{◌≡◌, refl}
use mathlib.Core.Bool.{Bool, true, false}
use mathlib.Core.List.{List, [], ◌∷◌, ◌++◌}
use native.Mathlib.Omega.{arith}
use feed_mux.Prelude.Lists.{filter}

pub filter-append :
    {A : Type 0} (p : A → Bool) (xs ys : List A) → filter p (xs ++ ys) ≡ filter p xs ++ filter p ys
filter-append p [] ys = refl
filter-append p (x ∷ xs) ys = ground (arith, filter-append p xs ys)

pub filter_disjoint :
    {A : Type 0} (p q : A → Bool) (xs : List A)
    → ((x : A) → p x ≡ true → q x ≡ false)
    → filter p (filter q xs) ≡ []
filter_disjoint p q [] h = refl
filter_disjoint p q (x ∷ xs) h = ground (arith, filter_disjoint p q xs h, h x)

pub filter_implied :
    {A : Type 0} (p q : A → Bool) (xs : List A)
    → ((x : A) → p x ≡ true → q x ≡ true)
    → filter p (filter q xs) ≡ filter p xs
filter_implied p q [] h = refl
filter_implied p q (x ∷ xs) h = ground (arith, filter_implied p q xs h, h x)
