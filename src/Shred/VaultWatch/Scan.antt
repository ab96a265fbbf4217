-- ===== src/Shred/VaultWatch/Scan.antt =====
-- What `scan_hits` reports: the watched vaults that stand somewhere in the bytes.
use mathlib.Core.List.{
  Mem, mem-map_of_mem, mem-cons, mem-cons_self, mem-cons_of_mem, not-mem-nil, Mem-prop,
}
use mathlib.Core.Logic.Or
use native.Mathlib.Nat.{ℕ_set}
use feed_mux.Prelude.{
  ℕ, ◌≤◌, ◌≡◌, ◌↔◌, refl, ap, true, ◌||◌, List, [], ◌∷◌, ◌++◌, All, arith, length, length-append,
  ltb, is_empty, Text, starts_with, Bool-cases, inl, inr, ==_iff, map,
}
use feed_mux.Shred.VaultWatch.{VaultHit, VaultWatchSet, contains_subslice, hits_of, scan_hits}

-- The needle stands in the haystack, with bytes before and behind it.
abbrev pub Occurs : List ℕ → List ℕ → Type 0
Occurs needle hay = (pre : List ℕ) × (post : List ℕ) × (hay ≡ pre ++ (needle ++ post))

starts_with-append : (p s : List ℕ) → starts_with (p ++ s) p ≡ true
starts_with-append [] [] = refl
starts_with-append [] (c ∷ s) = refl
starts_with-append (c ∷ p) s = ground (arith, starts_with-append p s)

rest_of_prefix : (s p : List ℕ) → starts_with s p ≡ true → (r : List ℕ) × (s ≡ p ++ r)
rest_of_prefix [] [] h = ([], refl)
rest_of_prefix (c ∷ s) [] h = (c ∷ s, refl)
rest_of_prefix [] (d ∷ p) h = absurd (ground arith)
rest_of_prefix (c ∷ s) (d ∷ p) h =
    let (r, e) = rest_of_prefix s p (ground arith) in (r, ground (arith, e, ==_iff c d))

contains_subslice_sound :
    (hay needle : List ℕ) → contains_subslice hay needle ≡ true → Occurs needle hay
unfolding contains_subslice
contains_subslice_sound [] needle h = let (r, e) = rest_of_prefix [] needle h in ([], r, e)
contains_subslice_sound (b ∷ bs) needle h = elim (Bool-cases (starts_with (b ∷ bs) needle)) [
  | inl here ↦ let (r, e) = rest_of_prefix (b ∷ bs) needle here in ([], r, e)
  | inr later ↦
      let (pre, post, e) = contains_subslice_sound bs needle (rw later at h) in
      (b ∷ pre, post, ap (λ t. b ∷ t) e)
]

contains_subslice_here : (needle post : List ℕ) → contains_subslice (needle ++ post) needle ≡ true
unfolding contains_subslice
contains_subslice_here [] [] = refl
contains_subslice_here [] (b ∷ bs) = refl
contains_subslice_here (c ∷ p) post = rw (starts_with-append (c ∷ p) post)

contains_subslice_complete :
    (pre needle post : List ℕ) → contains_subslice (pre ++ (needle ++ post)) needle ≡ true
unfolding contains_subslice
contains_subslice_complete [] needle post = contains_subslice_here needle post
contains_subslice_complete (b ∷ pre) needle post =
    ground (arith, contains_subslice_complete pre needle post)

-- The scan for one key decides whether it occurs.
pub contains_subslice_iff :
    (hay needle : List ℕ) → (contains_subslice hay needle ≡ true) ↔ Occurs needle hay
contains_subslice_iff hay needle = (
  contains_subslice_sound hay needle,
  λ (pre, post, e). rw e (contains_subslice_complete pre needle post),
)

abbrev pub vault_of : VaultHit → List ℕ
vault_of h = h.vault

Occurs-length : (hay needle : List ℕ) → Occurs needle hay → length needle ≤ length hay
Occurs-length hay needle (pre, post, e) =
    omega (arith, ap length e, length-append pre (needle ++ post), length-append needle post)

wide : (vs : List (List ℕ)) (v : List ℕ) → All (λ u. length u ≡ 32) vs → Mem v vs → length v ≡ 32
wide [] v a m = absurd (not-mem-nil m)
wide (w ∷ vs) v a m =
    Or.elim (ℕ_set _ _) (mem-cons.0 m) (λ e. rw e a.0) (λ later. wide vs v a.1 later)

never_early :
    (vs : List (List ℕ)) (hay v : List ℕ)
    → All (λ u. length u ≡ 32) vs
    → Mem v vs
    → Occurs v hay
    → (is_empty vs || ltb (length hay) 32) ≡ true
    → ⊥
never_early [] hay v a m o early = not-mem-nil m
never_early (w ∷ vs) hay v a m o early =
    ltb_32 (length hay) early (Occurs-length hay v o) (wide (w ∷ vs) v a m)
  where
    ltb_32 : (n : ℕ) → ltb n 32 ≡ true → length v ≤ n → length v ≡ 32 → ⊥
    ltb_32 n h k e = ground arith

module _ (encode_base58 : List ℕ → Text) where
  hits_of_sound :
      (hay : List ℕ) (vs : List (List ℕ)) (v : List ℕ)
      → Mem v (map vault_of (hits_of encode_base58 hay vs))
      → Mem v vs × (contains_subslice hay v ≡ true)
  unfolding hits_of
  hits_of_sound hay [] v m = absurd (not-mem-nil m)
  hits_of_sound hay (w ∷ vs) v m = elim (Bool-cases (contains_subslice hay w)) [
    | inl found ↦
        Or.elim found_prop (mem-cons.0 (rw found at m)) (λ e. rw e (mem-cons_self, found))
          λ later. let (k, c) = hits_of_sound hay vs v later in (mem-cons_of_mem w k, c)
    | inr missed ↦ let (k, c) = hits_of_sound hay vs v (rw missed at m) in (mem-cons_of_mem w k, c)
  ]
    where
      found_prop : IsProp (Mem v (w ∷ vs) × (contains_subslice hay v ≡ true))
      found_prop = hlevel Mem-prop

  hits_of_complete :
      (hay : List ℕ) (vs : List (List ℕ)) (v : List ℕ)
      → Mem v vs
      → contains_subslice hay v ≡ true
      → Mem v (map vault_of (hits_of encode_base58 hay vs))
  unfolding hits_of
  hits_of_complete hay [] v m c = absurd (not-mem-nil m)
  hits_of_complete hay (w ∷ vs) v m c =
      Or.elim Mem-prop (mem-cons.0 m) (λ e. rw (← e, c) mem-cons_self)
        λ later.
          let rest = hits_of_complete hay vs v later c in
          elim (Bool-cases (contains_subslice hay w)) [
            | inl found ↦ rw found (mem-cons_of_mem w rest)
            | inr missed ↦ rw missed rest
          ]

  -- The hits of a batch are the watched vaults that occur in its bytes, each vault being 32 bytes
  -- long. A batch too short to hold a vault is no exception.
  pub scan_hits_iff :
      (w : VaultWatchSet) (hay : List ℕ) (v : List ℕ)
      → All (λ u. length u ≡ 32) w.vaults
      → Mem v (map vault_of (scan_hits encode_base58 w hay)) ↔ (Mem v w.vaults × Occurs v hay)
  unfolding scan_hits
  scan_hits_iff w hay v widths = elim (Bool-cases (is_empty w.vaults || ltb (length hay) 32)) [
    | inl early ↦ (
      λ m. absurd (not-mem-nil (rw early at m)),
      λ (m, o). absurd (never_early w.vaults hay v widths m o early),
    )
    | inr scans ↦ rw scans (
      λ m. let (k, c) = hits_of_sound hay w.vaults v m in (k, contains_subslice_sound hay v c),
      λ (m, o). hits_of_complete hay w.vaults v m ((contains_subslice_iff hay v).1 o),
    )
  ]

  abbrev pub hit_for : List ℕ → VaultHit
  hit_for v = record { vault = v; vault_b58 = encode_base58 v }

  hits_of-hit_for :
      (hay : List ℕ) (vs : List (List ℕ))
      → hits_of encode_base58 hay vs ≡ map hit_for (map vault_of (hits_of encode_base58 hay vs))
  unfolding hits_of
  hits_of-hit_for hay [] = refl
  hits_of-hit_for hay (v ∷ vs) = ground (arith, hits_of-hit_for hay vs)

  scan_hits-hit_for :
      (w : VaultWatchSet) (hay : List ℕ)
      → scan_hits encode_base58 w hay ≡ map hit_for (map vault_of (scan_hits encode_base58 w hay))
  unfolding scan_hits
  scan_hits-hit_for w hay = ground (arith, hits_of-hit_for hay w.vaults)

  -- A watched vault in the bytes is among the hits, under its own name.
  pub mem-scan_hits :
      (w : VaultWatchSet) (hay : List ℕ) (v : List ℕ)
      → All (λ u. length u ≡ 32) w.vaults
      → Mem v w.vaults
      → Occurs v hay
      → Mem (hit_for v) (scan_hits encode_base58 w hay)
  mem-scan_hits w hay v widths watched found =
      rw (scan_hits-hit_for w hay)
        (mem-map_of_mem hit_for ((scan_hits_iff w hay v widths).1 (watched, found)))
