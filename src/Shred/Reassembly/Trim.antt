-- ===== src/Shred/Reassembly/Trim.antt =====
-- The loop that drops old sets, against the list of sets that it leaves.
use feed_mux.Prelude.{
  ℕ, zero, suc, ◌-◌, ◌≤◌, ◌≡◌, refl, arith, [], ◌∷◌, length, leb, drop, Bool-cases, inl, inr,
}
use feed_mux.Prelude.TreeMap.{Map, pair_key, remove}
use feed_mux.Prelude.TreeMap.Sorted.{IsSorted, Above}
use feed_mux.Shred.Reassembly.{FecSetBuffer, trim_loop}

remove-Above : (k : ℕ × ℕ) (m : Map (ℕ × ℕ) FecSetBuffer) → Above k m → remove k m ≡ m
unfolding remove
remove-Above k [] h = refl
remove-Above k ((j, b) ∷ m) h = ground (arith, remove-Above k m h.1, h.0)

remove_first :
    (k : ℕ × ℕ) (b : FecSetBuffer) (m : Map (ℕ × ℕ) FecSetBuffer)
    → Above k m
    → remove k ((k, b) ∷ m) ≡ m
unfolding remove
remove_first k b m h = ground (arith, remove-Above k m h, pair_key.irrefl k)

drop_none : (n : ℕ) → 0 - n ≡ 0
drop_none n = omega arith

-- The loop ends by its own condition: whatever the fuel, if it is at least the number of sets, the
-- loop leaves no more sets than the limit, and they are the sets of the highest keys, all that the limit
-- has room for.
pub trim_loop-drop :
    (fuel max_sets : ℕ) (m : Map (ℕ × ℕ) FecSetBuffer)
    → IsSorted m
    → length m ≤ fuel
    → (trim_loop fuel max_sets m ≡ drop (length m - max_sets) m)
      × (length (trim_loop fuel max_sets m) ≤ max_sets)
unfolding trim_loop
trim_loop-drop zero max_sets [] s h = (rw (drop_none max_sets) refl, omega arith)
trim_loop-drop (suc fuel) max_sets [] s h = (rw (drop_none max_sets) refl, omega arith)
trim_loop-drop zero max_sets ((k, b) ∷ m) s h = absurd (omega (arith, h))
trim_loop-drop (suc fuel) max_sets ((k, b) ∷ m) s h =
    let i = trim_loop-drop fuel max_sets m s.1 (omega (arith, h)) in
    elim (Bool-cases (leb (length ((k, b) ∷ m)) max_sets)) [
      | inl few ↦
          let all : length ((k, b) ∷ m) - max_sets ≡ 0 = ground (arith, few) in
          rw (trim_loop, few, all) (refl, ground (arith, few))
      | inr many ↦
          let one : length ((k, b) ∷ m) - max_sets ≡ suc (length m - max_sets) =
            ground (arith, many) in
          rw (trim_loop, many, remove_first k b m s.0, one) i
    ]
