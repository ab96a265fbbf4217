-- ===== src/Prelude/TreeMap.antt =====
-- Maps as association lists in ascending key order: the source's `BTreeMap`, whose iteration order
-- this is, and its `HashMap`s and `HashSet`s, whose order the source never relies on. A key type
-- comes with a strict total order as an instance.
pub mod Sorted
use feed_mux.Prelude.Tests.{if◌then◌else◌, is_some, ltb, leb}
use feed_mux.Prelude.Lists.{length}
use Prim.Native.Nat.{ℕ, suc, ◌+◌, ◌≤◌}
use mathlib.Core.Path.{◌≡◌, refl}
use mathlib.Core.Bool.{Bool, true, false, ◌&&◌, ◌||◌, not}
use mathlib.Core.List.{List, [], ◌∷◌, map}
use mathlib.Core.Option.{Option, none, some}
use native.Mathlib.Omega.{arith}

pub record Key {ℓ} (K : Type ℓ) : Type ℓ where
  pub before : K → K → Bool
  pub irrefl : (a : K) → before a a ≡ false
  pub before_trans : (a b c : K) → before a b ≡ true → before b c ≡ true → before a c ≡ true
  pub same_of : (a b : K) → before a b ≡ false → before b a ≡ false → a ≡ b

pub ltb_trans : (a b c : ℕ) → ltb a b ≡ true → ltb b c ≡ true → ltb a c ≡ true
ltb_trans a b c h k = ground arith

pub ltb_same : (a b : ℕ) → ltb a b ≡ false → ltb b a ≡ false → a ≡ b
ltb_same a b h k = ground arith

pub ltb_irrefl : (a : ℕ) → ltb a a ≡ false
ltb_irrefl a = ground arith

instance abbrev pub nat_key : Key ℕ
nat_key = record { before = ltb; irrefl = ltb_irrefl; before_trans = ltb_trans; same_of = ltb_same }

-- Pairs in lexicographic order.
abbrev pub lex_before : ℕ × ℕ → ℕ × ℕ → Bool
lex_before a b = ltb a.0 b.0 || (leb a.0 b.0 && ltb a.1 b.1)

pub lex_irrefl : (a : ℕ × ℕ) → lex_before a a ≡ false
lex_irrefl a = ground arith

pub lex_trans :
    (a b c : ℕ × ℕ) → lex_before a b ≡ true → lex_before b c ≡ true → lex_before a c ≡ true
lex_trans a b c h k = ground arith

pub lex_same : (a b : ℕ × ℕ) → lex_before a b ≡ false → lex_before b a ≡ false → a ≡ b
lex_same a b h k = ground arith

instance abbrev pub pair_key : Key (ℕ × ℕ)
pair_key = record {
  before = lex_before;
  irrefl = lex_irrefl;
  before_trans = lex_trans;
  same_of = lex_same;
}

abbrev pub Map {ℓ κ} : Type ℓ → Type κ → Type (ℓ ⊔ κ)
Map K V = List (K × V)

module _ {ℓ} {K : Type ℓ} ⦃o : Key K⦄ where
  abbrev pub same : K → K → Bool
  same a b = not (o.before a b) && not (o.before b a)

module _ {ℓ κ} {K : Type ℓ} {V : Type κ} ⦃o : Key K⦄ where
  unfoldable pub lookup : K → Map K V → Option V
  lookup k [] = none
  lookup k ((j, v) ∷ m) = if same k j then some v else lookup k m

  abbrev pub contains_key : Map K V → K → Bool
  contains_key m k = is_some (lookup k m)

  unfoldable pub insert : K → V → Map K V → Map K V
  insert k v [] = (k, v) ∷ []
  insert k v ((j, w) ∷ m) =
      if o.before k j
      then (k, v) ∷ (j, w) ∷ m
      else if o.before j k
      then (j, w) ∷ insert k v m
      else (k, v) ∷ m

  unfoldable pub remove : K → Map K V → Map K V
  remove k [] = []
  remove k ((j, w) ∷ m) = let rest = remove k m in if same k j then rest else (j, w) ∷ rest

module _ {ℓ κ} {K : Type ℓ} {V : Type κ} where
  abbrev pub keys : Map K V → List K
  keys [] = []
  keys ((k, v) ∷ m) = k ∷ keys m

  abbrev pub values : Map K V → List V
  values [] = []
  values ((k, v) ∷ m) = v ∷ values m

module _ {ℓ κ} {K : Type ℓ} {V : Type κ} ⦃o : Key K⦄ where
  pub lookup-insert :
      (k j : K) (v : V) (m : Map K V)
      → lookup j (insert k v m) ≡ (if same j k then some v else lookup j m)
  unfolding lookup insert
  lookup-insert k j v [] = refl
  lookup-insert k j v ((i, w) ∷ m) = ground (
    arith,
    lookup-insert k j v m,
    o.same_of j k,
    o.same_of j i,
    o.same_of k i,
    o.irrefl k,
    o.irrefl j,
  )

  pub lookup-remove :
      (k j : K) (m : Map K V) → lookup j (remove k m) ≡ (if same j k then none else lookup j m)
  unfolding lookup remove
  lookup-remove k j [] = ground arith
  lookup-remove k j ((i, w) ∷ m) = ground (
    arith,
    lookup-remove k j m,
    o.same_of j k,
    o.same_of j i,
    o.same_of k i,
    o.irrefl k,
    o.irrefl j,
  )

  pub length-insert-le : (k : K) (v : V) (m : Map K V) → length (insert k v m) ≤ length m + 1
  unfolding insert
  length-insert-le k v [] = omega arith
  length-insert-le k v ((i, w) ∷ m) = ground (arith, length-insert-le k v m)

  pub length-remove-le : (k : K) (m : Map K V) → length (remove k m) ≤ length m
  unfolding remove
  length-remove-le k [] = omega arith
  length-remove-le k ((i, w) ∷ m) = ground (arith, length-remove-le k m)
