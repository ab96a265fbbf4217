-- ===== src/Shred/Reassembly/Order/Batch.antt =====
-- The batch of an FEC set, from the shreds that arrived.
use mathlib.Core.List.{Perm, Mem, Nodup, Nodup-nil, Nodup-cons, mem-cons, not-mem-nil}
use mathlib.Core.Logic.{∥∥₁_elim}
use mathlib.Core.Logic.Or
use mathlib.Core.HLevel.{⊥_prop}
use feed_mux.Prelude.{
  ℕ, ◌<◌, ◌≡◌, refl, sym, ap, ◌∙◌, true, false, List, [], ◌∷◌, ◌++◌, map, none, some, All, arith,
  length, is_empty,
}
use feed_mux.Prelude.TreeMap.{Map, pair_key, nat_key, lookup, insert, remove, values}
use feed_mux.Prelude.TreeMap.Sorted.{IsSorted, Above, remove-insert}
use feed_mux.Shred.Parse.{ParsedDataShred}
use feed_mux.Shred.Reassembly.{
  ShredReassembler, DeshredBatch, deshred, trim_old_sets, push, buffered, shred_key, buffer_of,
  concat,
}
use feed_mux.Shred.Reassembly.Bounded.{IsWellFormed}
use feed_mux.Shred.Reassembly.Order.{
  deliver, gather, index_of, entries, IsPart, with_buffer, gather-Permᴰ, gather-entries,
  deliver_more, push_part, trim_keeps, buffer_of-with_buffer, with_buffer_twice, insert_end, ltb_ne,
}

map_set : IsSet (Map ℕ (List ℕ))
map_set = hlevel

not-mem-Above :
    (k : ℕ) (ss : List ParsedDataShred) → Above k (entries ss) → ¬ Mem k (map index_of ss)
not-mem-Above k [] a m = not-mem-nil m
not-mem-Above k (s ∷ ss) a m =
    Or.elim ⊥_prop (mem-cons.0 m) (λ e. ltb_ne k s.index a.0 e) (not-mem-Above k ss a.1)

IsSorted-Nodup : (ss : List ParsedDataShred) → IsSorted (entries ss) → Nodup (map index_of ss)
IsSorted-Nodup [] h = Nodup-nil
IsSorted-Nodup (s ∷ ss) h = Nodup-cons.1 (not-mem-Above s.index ss h.0, IsSorted-Nodup ss h.1)

values-append : (m n : Map ℕ (List ℕ)) → values (m ++ n) ≡ values m ++ values n
values-append [] n = refl
values-append ((k, v) ∷ m) n = ap (λ t. v ∷ t) (values-append m n)

abbrev pub payload_of : ParsedDataShred → List ℕ
payload_of s = s.payload

pub values-entries : (ss : List ParsedDataShred) → values (entries ss) ≡ map payload_of ss
values-entries [] = refl
values-entries (s ∷ ss) = ap (λ t. s.payload ∷ t) (values-entries ss)

pub entries-append : (ss ts : List ParsedDataShred) → entries (ss ++ ts) ≡ entries ss ++ entries ts
entries-append [] ts = refl
entries-append (s ∷ ss) ts = ap (λ t. (s.index, s.payload) ∷ t) (entries-append ss ts)

IsSorted-prefix : (m n : Map ℕ (List ℕ)) → IsSorted (m ++ n) → IsSorted m
IsSorted-prefix [] n h = tt
IsSorted-prefix ((k, v) ∷ m) n h = (above k m n h.0, IsSorted-prefix m n h.1)
  where
    above : (k : ℕ) (m n : Map ℕ (List ℕ)) → Above k (m ++ n) → Above k m
    above k [] n a = tt
    above k (e ∷ m) n a = (a.0, above k m n a.1)

pub concat_ne :
    (m : Map ℕ (List ℕ)) (k : ℕ) (v : List ℕ)
    → 0 < length v
    → (is_empty (m ++ (k, v) ∷ []) ≡ false)
      × (is_empty (concat (values (m ++ (k, v) ∷ []))) ≡ false)
unfolding concat
concat_ne [] k [] h = absurd (omega arith)
concat_ne [] k (x ∷ v) h = (refl, refl)
concat_ne ((j, []) ∷ m) k v h = (refl, (concat_ne m k v h).1)
concat_ne ((j, x ∷ w) ∷ m) k v h = (refl, refl)

-- What a set becomes once its parts have arrived: nothing but its buffer differs from before.
record Arrived (r d : ShredReassembler) (key : ℕ × ℕ) (b : Map ℕ (List ℕ)) : Type 0 where
  held : (buffer_of d key).shreds ≡ b
  rest : (c : Map ℕ (List ℕ)) → with_buffer d key c ≡ with_buffer r key c

module _ (r : ShredReassembler) (key : ℕ × ℕ) (room : length r.sets < r.max_sets)
    (sorted : IsSorted r.sets) (fresh : lookup key r.sets ≡ none) where
  deliver-Arrived :
      (ss : List ParsedDataShred)
      → All (IsPart key) ss
      → Arrived r (deliver r ss) key (gather [] ss)
  deliver-Arrived [] parts = record { held = rw fresh; rest = λ c. refl }
  deliver-Arrived (s ∷ ss) parts =
      rw (push_part r key room s parts.0, fresh)
        (rw (deliver_more r key room ss (insert s.index s.payload []) sorted parts.1) (record {
          held = buffer_of-with_buffer r key _;
          rest = λ c. with_buffer_twice r key _ c sorted;
        }))

pub gather-ordered :
    (arrived ordered : List ParsedDataShred)
    → Perm ordered arrived
    → IsSorted (entries ordered)
    → gather [] arrived ≡ entries ordered
gather-ordered arrived ordered p inorder = ∥∥₁_elim p (map_set _ _) λ d.
    sym (gather-Permᴰ d (IsSorted-Nodup ordered inorder) [] tt) ∙ gather-entries ordered [] inorder

batch_of : ParsedDataShred → List ℕ → DeshredBatch
batch_of last bytes = record { slot = last.slot; fec_set_index = last.fec_set_index; bytes = bytes }

deshred_whole :
    (last : ParsedDataShred) (whole : Map ℕ (List ℕ))
    → is_empty whole ≡ false
    → is_empty (concat (values whole)) ≡ false
    → deshred (record { shreds = whole }) last.slot last.fec_set_index
      ≡ some (batch_of last (concat (values whole)))
unfolding deshred batch_of
deshred_whole last whole n n' = ground (arith, n, n')

push_complete :
    (d : ShredReassembler) (last : ParsedDataShred) (whole : Map ℕ (List ℕ))
    → last.data_complete ≡ true
    → buffered d last ≡ record { shreds = whole }
    → is_empty whole ≡ false
    → is_empty (concat (values whole)) ≡ false
    → push d last ≡ (
      trim_old_sets
          (record d { sets = remove (shred_key last) (with_buffer d (shred_key last) whole).sets }),
      some (batch_of last (concat (values whole))),
    )
unfolding push
push_complete d last whole complete e n n' =
    let given : deshred (buffered d last) last.slot last.fec_set_index
        ≡ some (batch_of last (concat (values whole))) =
      rw e (deshred_whole last whole n n') in
    ground (arith, given, complete, e)

push_last :
    (r d : ShredReassembler) (last : ParsedDataShred) (b whole : Map ℕ (List ℕ))
    → length r.sets < r.max_sets
    → IsSorted r.sets
    → lookup (shred_key last) r.sets ≡ none
    → Arrived r d (shred_key last) b
    → last.data_complete ≡ true
    → insert last.index last.payload b ≡ whole
    → is_empty whole ≡ false
    → is_empty (concat (values whole)) ≡ false
    → push d last ≡ (r, some (batch_of last (concat (values whole))))
push_last r d last b whole room sorted fresh a complete e n n' =
    let key = shred_key last in
    rw (push_complete d last whole complete (rw (a.held, e)) n n') (
      ap (λ q. (q, some (batch_of last (concat (values whole)))))
        (ap (λ q. trim_old_sets (record q { sets = remove key q.sets })) (a.rest whole)
          ∙ ap (λ m. trim_old_sets (record r { sets = m }))
              (remove-insert key (record { shreds = whole }) r.sets sorted fresh)
          ∙ trim_keeps r (omega arith)))

-- Once the other shreds of an FEC set have arrived, in any order, the one that completes it gives
-- out the payloads of all of them in the order of their indices, and leaves the reassembler as it
-- was before the set. The reassembler is well-formed, holds nothing of the set at first and has room
-- for one more; the completing shred has the highest index and a payload.
pub deliver-batch :
    (r : ShredReassembler) (arrived ordered : List ParsedDataShred) (last : ParsedDataShred)
    → IsWellFormed r
    → length r.sets < r.max_sets
    → lookup (shred_key last) r.sets ≡ none
    → All (IsPart (shred_key last)) arrived
    → Perm ordered arrived
    → IsSorted (entries (ordered ++ last ∷ []))
    → last.data_complete ≡ true
    → 0 < length last.payload
    → push (deliver r arrived) last ≡ (
      r,
      some (record {
        slot = last.slot;
        fec_set_index = last.fec_set_index;
        bytes = concat (map payload_of (ordered ++ last ∷ []));
      }),
    )
unfolding batch_of
deliver-batch r arrived ordered last v room fresh parts p inorder complete nonempty =
    let key = shred_key last in
    let split = entries-append ordered (last ∷ []) in
    let ascending : IsSorted (entries ordered ++ (last.index, last.payload) ∷ []) =
      rw split at inorder in
    let whole = entries ordered ++ (last.index, last.payload) ∷ [] in
    let held = gather-ordered arrived ordered p (IsSorted-prefix (entries ordered) _ ascending) in
    let kept = concat_ne (entries ordered) last.index last.payload nonempty in
    rw (← values-entries (ordered ++ last ∷ []), split)
      (push_last r (deliver r arrived) last (gather [] arrived) whole room v.sorted fresh
        (deliver-Arrived r key room v.sorted fresh arrived parts) complete
        (rw held (insert_end last.index last.payload (entries ordered) [] ascending)) kept.0 kept.1)
