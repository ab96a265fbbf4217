-- ===== src/Shred/Reassembly/Bounded.antt =====
-- The reassembler keeps its maps in key order and never holds more sets than its limit.
use feed_mux.Prelude.{
  ℕ, zero, suc, ◌≤◌, [], ◌∷◌, All, arith, length, leb, unwrap_or, inl, inr, Bool-cases,
}
use feed_mux.Prelude.TreeMap.{Map, pair_key, nat_key, lookup, insert, remove, length-remove-le}
use feed_mux.Prelude.TreeMap.Sorted.{IsSorted, insert-IsSorted, remove-IsSorted}
use feed_mux.Shred.Parse.{ParsedDataShred}
use feed_mux.Shred.Reassembly.{
  FecSetBuffer, ShredReassembler, new, trim_loop, trim_old_sets, push, with_shred, buffered,
  shred_key, buffer_of,
}

-- Both maps in order, and every buffer in index order.
abbrev pub IsBuffer : (ℕ × ℕ) × FecSetBuffer → Type 0
IsBuffer (k, buf) = IsSorted buf.shreds

pub record IsWellFormed (r : ShredReassembler) : Type 0 where
  pub sorted : IsSorted r.sets
  pub buffers : All IsBuffer r.sets
  pub limit : 16 ≤ r.max_sets
  pub bounded : length r.sets ≤ r.max_sets

length-remove_first :
    (k : ℕ × ℕ) (b : FecSetBuffer) (m : Map (ℕ × ℕ) FecSetBuffer)
    → length (remove k ((k, b) ∷ m)) ≤ length m
unfolding remove
length-remove_first k b m = ground (arith, pair_key.irrefl k, length-remove-le k m)

All-remove : (k : ℕ × ℕ) (m : Map (ℕ × ℕ) FecSetBuffer) → All IsBuffer m → All IsBuffer (remove k m)
unfolding remove
All-remove k [] h = tt
All-remove k ((j, b) ∷ m) h = ground (arith, All-remove k m h.1)

All-insert :
    (k : ℕ × ℕ) (b : FecSetBuffer) (m : Map (ℕ × ℕ) FecSetBuffer)
    → IsSorted b.shreds
    → All IsBuffer m
    → All IsBuffer (insert k b m)
unfolding insert
All-insert k b [] s h = (s, tt)
All-insert k b ((j, c) ∷ m) s h = ground (arith, All-insert k b m s h.1)

lookup-IsBuffer :
    (k : ℕ × ℕ) (m : Map (ℕ × ℕ) FecSetBuffer)
    → All IsBuffer m
    → IsSorted (unwrap_or (lookup k m) (record { shreds = [] })).shreds
unfolding lookup
lookup-IsBuffer k [] h = tt
lookup-IsBuffer k ((j, c) ∷ m) h = ground (arith, lookup-IsBuffer k m h.1)

-- With a round for every set, the loop ends within the limit, and drops nothing below it.
trim_loop-bounded :
    (fuel max_sets : ℕ) (m : Map (ℕ × ℕ) FecSetBuffer)
    → length m ≤ fuel
    → length (trim_loop fuel max_sets m) ≤ max_sets
unfolding trim_loop
trim_loop-bounded zero n [] h = omega arith
trim_loop-bounded zero n (e ∷ m) h = absurd (omega arith)
trim_loop-bounded (suc f) n [] h = omega arith
trim_loop-bounded (suc f) n ((k, b) ∷ m) h =
    ground (arith, trim_loop-bounded f n (remove k ((k, b) ∷ m)), length-remove_first k b m)

trim_loop-IsSorted :
    (fuel max_sets : ℕ) (m : Map (ℕ × ℕ) FecSetBuffer)
    → IsSorted m
    → All IsBuffer m
    → IsSorted (trim_loop fuel max_sets m) × All IsBuffer (trim_loop fuel max_sets m)
unfolding trim_loop
trim_loop-IsSorted zero n m s a = (s, a)
trim_loop-IsSorted (suc f) n [] s a = (tt, tt)
trim_loop-IsSorted (suc f) n ((k, b) ∷ m) s a =
    let ih =
      trim_loop-IsSorted f n (remove k ((k, b) ∷ m)) (remove-IsSorted k ((k, b) ∷ m) s)
        (All-remove k ((k, b) ∷ m) a) in
    elim (Bool-cases (leb (length ((k, b) ∷ m)) n)) [
      | inl fits ↦ rw fits (s, a)
      | inr over ↦ rw over ih
    ]

trim-IsWellFormed :
    (r : ShredReassembler)
    → IsSorted r.sets
    → All IsBuffer r.sets
    → 16 ≤ r.max_sets
    → IsWellFormed (trim_old_sets r)
unfolding trim_old_sets
trim-IsWellFormed r s a l =
    let kept = trim_loop-IsSorted (length r.sets) r.max_sets r.sets s a in
    record {
      sorted = kept.0;
      buffers = kept.1;
      limit = l;
      bounded = trim_loop-bounded (length r.sets) r.max_sets r.sets (omega arith);
    }

pub new-IsWellFormed : (n : ℕ) → IsWellFormed (new n)
unfolding new
new-IsWellFormed n = omega arith

with_shred-IsSorted :
    (r : ShredReassembler) (s : ParsedDataShred)
    → IsWellFormed r
    → IsSorted (with_shred r s).sets × All IsBuffer (with_shred r s).sets
with_shred-IsSorted r s v = (
  insert-IsSorted (shred_key s) (buffered r s) r.sets v.sorted,
  All-insert (shred_key s) (buffered r s) r.sets
      (insert-IsSorted s.index s.payload (buffer_of r (shred_key s)).shreds
        (lookup-IsBuffer (shred_key s) r.sets v.buffers))
      v.buffers,
)

-- Whatever the shred, `push` leaves the maps in key order and at most `max_sets` sets.
pub push-IsWellFormed :
    (r : ShredReassembler) (s : ParsedDataShred) → IsWellFormed r → IsWellFormed (push r s).0
unfolding push
push-IsWellFormed r s v =
    let (sorted, buffers) = with_shred-IsSorted r s v in
    let kept = trim-IsWellFormed (with_shred r s) sorted buffers v.limit in
    let popped =
      trim-IsWellFormed (record r { sets = remove (shred_key s) (with_shred r s).sets })
        (remove-IsSorted (shred_key s) _ sorted) (All-remove (shred_key s) _ buffers) v.limit in
    ground (arith, kept, popped)
