-- ===== src/Shred/Reassembly/Order.antt =====
-- The order in which the shreds of one FEC set arrive makes no difference to its batch.
pub mod Batch
use mathlib.Core.List.{
  Perm, Permᴰ, Mem, Nodup, Nodup-nil, Nodup-cons, mem-cons_self, mem-cons, not-mem-nil,
}
use mathlib.Core.Logic.Or
use mathlib.Core.HLevel.{⊥_prop}
use mathlib.Core.List.Perm
use mathlib.Core.List.Permᴰ
use mathlib.Core.Logic.{∥∥₁_elim}
use mathlib.Core.HLevel.{hedberg}
use native.Mathlib.Decide.{ℕ_discrete}
use feed_mux.Prelude.{
  ℕ, zero, suc, ◌+◌, ◌≤◌, ◌<◌, ◌≡◌, ◌≢◌, refl, sym, ap, ◌∙◌, Bool, true, false, List, [], ◌∷◌, ◌++◌,
  map, Option, none, some, All, arith, length, leb, ltb, unwrap_or, is_empty, append-nil,
  append_assoc,
}
use feed_mux.Prelude.TreeMap.{
  Map, pair_key, nat_key, same, lookup, insert, remove, lookup-insert, lookup-remove,
  length-insert-le, values,
}
use feed_mux.Prelude.TreeMap.Sorted.{
  IsSorted, Above, insert-IsSorted, remove-IsSorted, insert_comm, insert_twice,
}
use feed_mux.Shred.Parse.{ParsedDataShred}
use feed_mux.Shred.Reassembly.{
  FecSetBuffer, ShredReassembler, DeshredBatch, deshred, trim_loop, trim_old_sets, push, with_shred,
  buffered, shred_key, buffer_of, concat,
}
use feed_mux.Shred.Reassembly.Bounded.{IsWellFormed}

-- Several shreds, in the order of arrival.
abbrev pub deliver : ShredReassembler → List ParsedDataShred → ShredReassembler
deliver r [] = r
deliver r (s ∷ ss) = deliver (push r s).0 ss

abbrev pub gather : Map ℕ (List ℕ) → List ParsedDataShred → Map ℕ (List ℕ)
gather m [] = m
gather m (s ∷ ss) = gather (insert s.index s.payload m) ss

abbrev pub index_of : ParsedDataShred → ℕ
index_of s = s.index

ltb_ne : (a b : ℕ) → ltb a b ≡ true → a ≢ b
ltb_ne a b h e = ground arith

same_ne : (a b : ℕ) → a ≢ b → same a b ≡ false
same_ne a b h = ground arith

gather-Permᴰ :
    {xs ys : List ParsedDataShred}
    → Permᴰ xs ys
    → Nodup (map index_of xs)
    → (m : Map ℕ (List ℕ)) → IsSorted m
    → gather m xs ≡ gather m ys
gather-Permᴰ Permᴰ.nil d m s = refl
gather-Permᴰ (Permᴰ.cons {a = a} {b = b} {l₁ = l₁} e p) d m s = rw (← e) (
    gather-Permᴰ p (Nodup-cons.0 d).1 (insert a.index a.payload m)
      (insert-IsSorted a.index a.payload m s))
gather-Permᴰ (Permᴰ.swap {a = a} {b = b} {l = l} e f) d m s =
    rw (← e, ← f)
      (ap (λ n. gather n l)
        (insert_comm b.index a.index b.payload a.payload m s
          (same_ne b.index a.index (λ q. (Nodup-cons.0 d).0 (rw q mem-cons_self)))))
gather-Permᴰ (Permᴰ.trans {l₁ = l₁} {l₂ = l₂} p q) d m s =
    gather-Permᴰ p d m s ∙ gather-Permᴰ q (Perm.nodup (Perm.map index_of ∣ p ∣₁) d) m s

-- A shred of the set that does not complete it.
abbrev pub IsPart : ℕ × ℕ → ParsedDataShred → Type 0
IsPart key s = (s.data_complete ≡ false) × (shred_key s ≡ key)

trim_loop_keeps :
    (fuel n : ℕ) (m : Map (ℕ × ℕ) FecSetBuffer) → length m ≤ n → trim_loop fuel n m ≡ m
unfolding trim_loop
trim_loop_keeps zero n m h = refl
trim_loop_keeps (suc f) n [] h = refl
trim_loop_keeps (suc f) n ((k, b) ∷ m) h = ground arith

pub trim_keeps : (r : ShredReassembler) → length r.sets ≤ r.max_sets → trim_old_sets r ≡ r
unfolding trim_old_sets
trim_keeps r h = ground (arith, trim_loop_keeps (length r.sets) r.max_sets r.sets h)

-- The reassembler with the buffer `b` at `key`.
abbrev pub with_buffer : ShredReassembler → ℕ × ℕ → Map ℕ (List ℕ) → ShredReassembler
with_buffer r key b = record r { sets = insert key (record { shreds = b }) r.sets }

pub same_self : (k : ℕ × ℕ) → same k k ≡ true
same_self k = ground arith

pub buffer_of-with_buffer :
    (r : ShredReassembler) (key : ℕ × ℕ) (b : Map ℕ (List ℕ))
    → (buffer_of (with_buffer r key b) key).shreds ≡ b
buffer_of-with_buffer r key b =
    rw (lookup-insert key key (record { shreds = b }) r.sets, same_self key)

with_buffer_twice :
    (r : ShredReassembler) (key : ℕ × ℕ) (b c : Map ℕ (List ℕ))
    → IsSorted r.sets
    → with_buffer (with_buffer r key b) key c ≡ with_buffer r key c
with_buffer_twice r key b c sorted =
    ap (λ m. record r { sets = m })
      (insert_twice key (record { shreds = b }) (record { shreds = c }) r.sets sorted)

module _ (r : ShredReassembler) (key : ℕ × ℕ) (room : length r.sets < r.max_sets) where
  push_part :
      (s : ParsedDataShred)
      → IsPart key s
      → push r s ≡ (with_buffer r key (insert s.index s.payload (buffer_of r key).shreds), none)
  unfolding push
  push_part s p =
      rw (p.0, p.1)
        (ground (
          arith,
          trim_keeps (with_buffer r key (insert s.index s.payload (buffer_of r key).shreds)),
          length-insert-le key
              (record { shreds = insert s.index s.payload (buffer_of r key).shreds }) r.sets,
        ))

  push_again :
      (s : ParsedDataShred) (b : Map ℕ (List ℕ))
      → IsSorted r.sets
      → IsPart key s
      → (push (with_buffer r key b) s).0 ≡ with_buffer r key (insert s.index s.payload b)
  unfolding push
  push_again s b sorted p =
      rw (p.0, p.1, buffer_of-with_buffer r key b)
        (rw (with_buffer_twice r key b (insert s.index s.payload b) sorted) (
          trim_keeps (with_buffer r key (insert s.index s.payload b)) (
            omega (
              arith,
              length-insert-le key (record { shreds = insert s.index s.payload b }) r.sets,
            ))))

  deliver_more :
      (ss : List ParsedDataShred) (b : Map ℕ (List ℕ))
      → IsSorted r.sets
      → All (IsPart key) ss
      → deliver (with_buffer r key b) ss ≡ with_buffer r key (gather b ss)
  deliver_more [] b sorted parts = refl
  deliver_more (s ∷ ss) b sorted parts =
      rw (push_again s b sorted parts.0)
        (deliver_more ss (insert s.index s.payload b) sorted parts.1)

abbrev pub entries : List ParsedDataShred → Map ℕ (List ℕ)
entries [] = []
entries (s ∷ ss) = (s.index, s.payload) ∷ entries ss

insert_end :
    (k : ℕ) (v : List ℕ) (m n : Map ℕ (List ℕ))
    → IsSorted (m ++ (k, v) ∷ n)
    → insert k v m ≡ m ++ (k, v) ∷ []
unfolding insert
insert_end k v [] n h = refl
insert_end k v ((j, w) ∷ m) n h = ground (arith, insert_end k v m n h.1, last_above j k v m n h.0)
  where
    last_above : (j k : ℕ) (v : List ℕ) (m n : Map ℕ (List ℕ)) → Above j (m ++ (k, v) ∷ n) → j < k
    last_above j k v [] n a = ground arith
    last_above j k v (e ∷ m) n a = last_above j k v m n a.1

gather-entries :
    (ss : List ParsedDataShred) (m : Map ℕ (List ℕ))
    → IsSorted (m ++ entries ss)
    → gather m ss ≡ m ++ entries ss
gather-entries [] m h = rw append-nil
gather-entries (s ∷ ss) m h = rw (insert_end s.index s.payload m (entries ss) h) (
    gather-entries ss (m ++ (s.index, s.payload) ∷ [])
      (rw (append_assoc m ((s.index, s.payload) ∷ []) (entries ss)) h)
    ∙ append_assoc m ((s.index, s.payload) ∷ []) (entries ss))
