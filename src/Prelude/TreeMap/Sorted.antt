-- ===== src/Prelude/TreeMap/Sorted.antt =====
-- Ascending key order as an invariant, and what it gives: a map is determined by its lookups.
use feed_mux.Prelude.Tests.{if◌then◌else◌}
use feed_mux.Prelude.TreeMap.{Key, Map, same, lookup, insert, remove, lookup-insert, lookup-remove}
use mathlib.Core.Path.{◌≡◌, refl}
use mathlib.Core.Bool.{true, false}
use mathlib.Core.List.{[], ◌∷◌}
use mathlib.Core.Option.{none}
use native.Mathlib.Omega.{arith}

module _ {ℓ κ} {K : Type ℓ} {V : Type κ} ⦃o : Key K⦄ where
  abbrev pub Above : K → Map K V → Type 0
  Above k [] = Unit
  Above k ((j, w) ∷ m) = (o.before k j ≡ true) × Above k m

  abbrev pub IsSorted : Map K V → Type 0
  IsSorted [] = Unit
  IsSorted ((k, v) ∷ m) = Above k m × IsSorted m

  Above-imp : (j k : K) (m : Map K V) → o.before j k ≡ true → Above k m → Above j m
  Above-imp j k [] h a = tt
  Above-imp j k ((i, w) ∷ m) h a = (o.before_trans j k i h a.0, Above-imp j k m h a.1)

  Above-insert :
      (j k : K) (v : V) (m : Map K V) → o.before j k ≡ true → Above j m → Above j (insert k v m)
  unfolding insert
  Above-insert j k v [] h a = (h, tt)
  Above-insert j k v ((i, w) ∷ m) h a = ground (arith, Above-insert j k v m h a.1)

  pub insert-IsSorted : (k : K) (v : V) (m : Map K V) → IsSorted m → IsSorted (insert k v m)
  unfolding insert
  insert-IsSorted k v [] s = (tt, tt)
  insert-IsSorted k v ((i, w) ∷ m) s =
      ground
        (arith, insert-IsSorted k v m s.1, Above-insert i k v m, Above-imp k i m, o.same_of k i)

  Above-remove : (j k : K) (m : Map K V) → Above j m → Above j (remove k m)
  unfolding remove
  Above-remove j k [] a = tt
  Above-remove j k ((i, w) ∷ m) a = ground (arith, Above-remove j k m a.1)

  pub remove-IsSorted : (k : K) (m : Map K V) → IsSorted m → IsSorted (remove k m)
  unfolding remove
  remove-IsSorted k [] s = tt
  remove-IsSorted k ((i, w) ∷ m) s = ground (arith, remove-IsSorted k m s.1, Above-remove i k m s.0)

  lookup-Above : (k : K) (m : Map K V) → Above k m → lookup k m ≡ none
  unfolding lookup
  lookup-Above k [] a = refl
  lookup-Above k ((i, w) ∷ m) a = ground (arith, lookup-Above k m a.1)

  lookup_tail :
      (i k : K) (v : V) (m : Map K V)
      → Above k m
      → lookup i m ≡ (if same i k then none else lookup i ((k, v) ∷ m))
  unfolding lookup
  lookup_tail i k v m a = ground (arith, lookup-Above k m a, o.same_of i k)

  head_same :
      (k : K) (v : V) (m : Map K V) (j : K) (w : V) (n : Map K V)
      → Above k m
      → Above j n
      → lookup k ((k, v) ∷ m) ≡ lookup k ((j, w) ∷ n)
      → lookup j ((k, v) ∷ m) ≡ lookup j ((j, w) ∷ n)
      → (k ≡ j) × (v ≡ w)
  unfolding lookup
  head_same k v m j w n a b hk hj = ground (
    arith,
    o.irrefl k,
    o.irrefl j,
    o.same_of k j,
    lookup-Above k n,
    lookup-Above j m,
    Above-imp k j n,
    Above-imp j k m,
  )

  -- Two maps in ascending order with the same lookups are the same list.
  pub IsSorted-ext :
      (m n : Map K V) → IsSorted m → IsSorted n → ((k : K) → lookup k m ≡ lookup k n) → m ≡ n
  unfolding lookup
  IsSorted-ext [] [] s t h = refl
  IsSorted-ext [] ((j, w) ∷ n) s t h = ground (arith, h j, o.irrefl j)
  IsSorted-ext ((k, v) ∷ m) [] s t h = ground (arith, h k, o.irrefl k)
  IsSorted-ext ((k, v) ∷ m) ((j, w) ∷ n) s t h =
      let heads = head_same k v m j w n s.0 t.0 (h k) (h j) in
      let tails =
        IsSorted-ext m n s.1 t.1
          λ i. ground (arith, heads, h i, lookup_tail i k v m s.0, lookup_tail i j w n t.0) in
      cc (heads.0, heads.1, tails)

  -- Insertions at two keys commute, and a second insertion at a key replaces the first.
  pub insert_comm :
      (j k : K) (v w : V) (m : Map K V)
      → IsSorted m
      → same j k ≡ false
      → insert j v (insert k w m) ≡ insert k w (insert j v m)
  insert_comm j k v w m s ne =
      IsSorted-ext _ _ (insert-IsSorted j v _ (insert-IsSorted k w m s))
        (insert-IsSorted k w _ (insert-IsSorted j v m s))
        λ i. ground (
          arith,
          lookup-insert j i v (insert k w m),
          lookup-insert k i w m,
          lookup-insert k i w (insert j v m),
          lookup-insert j i v m,
          o.same_of i j,
          o.same_of i k,
        )

  pub insert_twice :
      (k : K) (v w : V) (m : Map K V) → IsSorted m → insert k w (insert k v m) ≡ insert k w m
  insert_twice k v w m s =
      IsSorted-ext _ _ (insert-IsSorted k w _ (insert-IsSorted k v m s)) (insert-IsSorted k w m s)
        λ i.
          ground (
            arith,
            lookup-insert k i w (insert k v m),
            lookup-insert k i v m,
            lookup-insert k i w m,
          )

  -- A fresh key inserted and removed again.
  pub remove-insert :
      (k : K) (v : V) (m : Map K V) → IsSorted m → lookup k m ≡ none → remove k (insert k v m) ≡ m
  remove-insert k v m s fresh =
      IsSorted-ext _ _ (remove-IsSorted k _ (insert-IsSorted k v m s)) s
        λ i. ground (arith, lookup-remove k i (insert k v m), lookup-insert k i v m, o.same_of i k)
