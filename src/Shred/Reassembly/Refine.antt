-- ===== src/Shred/Reassembly/Refine.antt =====
-- The reassembler against a specification without maps and without a limit: the shreds that have not
-- been given out yet, in the order of their arrival.
pub mod Delivered
use feed_mux.Prelude.{
  ℕ, ◌≤◌, ◌≡◌, refl, sym, ap, ap₂, ◌∙◌, arith, Bool, true, false, not, ◌&&◌, List, [], ◌∷◌, ◌++◌,
  Option, none, some, filter, length, leb, is_empty, if◌then◌else◌, Bool-cases, inl, inr,
  append-nil,
}
use feed_mux.Prelude.Filters.{filter-append, filter_disjoint, filter_implied}
use feed_mux.Prelude.TreeMap.{
  Map, pair_key, nat_key, same, lookup, insert, remove, lookup-insert, lookup-remove,
  length-remove-le, values,
}
use feed_mux.Shred.Parse.{ParsedDataShred}
use feed_mux.Shred.Reassembly.{
  FecSetBuffer, ShredReassembler, DeshredBatch, new, deshred, trim_old_sets, push, with_shred,
  buffered, shred_key, buffer_of, concat,
}
use feed_mux.Shred.Reassembly.Assembly.{assembled, concat-gather}
use feed_mux.Shred.Reassembly.Order.{gather, trim_keeps, buffer_of-with_buffer}

abbrev pub in_set : ℕ × ℕ → ParsedDataShred → Bool
in_set key s = same key (shred_key s)

abbrev pub outside : ℕ × ℕ → ParsedDataShred → Bool
outside key s = not (in_set key s)

-- The payloads of the pending shreds of a set, by index, the last one for each index.
abbrev pub bytes_of : ℕ × ℕ → List ParsedDataShred → List ℕ
bytes_of key pending = assembled (filter (in_set key) pending)

abbrev pub batch_of : ParsedDataShred → List ℕ → DeshredBatch
batch_of s bytes = record { slot = s.slot; fec_set_index = s.fec_set_index; bytes = bytes }

-- The specification: a shred is added to the pending ones, and a completing one takes all of its set
-- out, unless they have no bytes.
abbrev pub spec_push :
    List ParsedDataShred → ParsedDataShred → List ParsedDataShred × Option DeshredBatch
spec_push pending s =
    let pending' = pending ++ (s ∷ []) in
    if not s.data_complete
    then (pending', none)
    else if is_empty (bytes_of (shred_key s) pending')
    then (pending', none)
    else (
      filter (outside (shred_key s)) pending',
      some (batch_of s (bytes_of (shred_key s) pending')),
    )

abbrev pub outputs : ShredReassembler → List ParsedDataShred → List (Option DeshredBatch)
outputs r [] = []
outputs r (s ∷ ss) = (push r s).1 ∷ outputs (push r s).0 ss

abbrev pub spec_outputs : List ParsedDataShred → List ParsedDataShred → List (Option DeshredBatch)
spec_outputs pending [] = []
spec_outputs pending (s ∷ ss) = (spec_push pending s).1 ∷ spec_outputs (spec_push pending s).0 ss

-- No set is dropped: with each shred there are no more sets than the limit.
abbrev pub has_room : ShredReassembler → List ParsedDataShred → Bool
has_room r [] = true
has_room r (s ∷ ss) = leb (length (with_shred r s).sets) r.max_sets && has_room (push r s).0 ss

-- Each buffer holds the pending shreds of its set.
abbrev pub Reps : ShredReassembler → List ParsedDataShred → Type 0
Reps r pending = (key : ℕ × ℕ) → (buffer_of r key).shreds ≡ gather [] (filter (in_set key) pending)

same_iff : (a b : ℕ × ℕ) → same a b ≡ true → a ≡ b
same_iff a b h = pair_key.same_of a b (ground (arith, h)) (ground (arith, h))

gather-append :
    (m : Map ℕ (List ℕ)) (xs ys : List ParsedDataShred)
    → gather m (xs ++ ys) ≡ gather (gather m xs) ys
gather-append m [] ys = refl
gather-append m (x ∷ xs) ys = gather-append (insert x.index x.payload m) xs ys

Reps-with_shred :
    (r : ShredReassembler) (pending : List ParsedDataShred) (s : ParsedDataShred)
    → Reps r pending
    → Reps (with_shred r s) (pending ++ (s ∷ []))
Reps-with_shred r pending s h key = elim (Bool-cases (same key (shred_key s))) [
  | inl e ↦
      rw
        (
          lookup-insert (shred_key s) key (buffered r s) r.sets,
          filter-append (in_set key) pending (s ∷ []),
          e,
          gather-append [] (filter (in_set key) pending) (s ∷ []),
        )
        (ap (insert s.index s.payload) (rw (same_iff key (shred_key s) e) (h (shred_key s))))
  | inr e ↦
      rw
        (
          lookup-insert (shred_key s) key (buffered r s) r.sets,
          filter-append (in_set key) pending (s ∷ []),
          e,
          append-nil,
        )
        (h key)
]

pub filter-outside_other :
    (key k : ℕ × ℕ) (ss : List ParsedDataShred)
    → same key k ≡ false
    → filter (in_set key) (filter (outside k) ss) ≡ filter (in_set key) ss
filter-outside_other key k ss h =
    filter_implied (in_set key) (outside k) ss
      (λ s i. ap (λ x. not (same k x)) (sym (same_iff key (shred_key s) i)) ∙ ground (arith, h))

filter-outside_same :
    (key k : ℕ × ℕ) (ss : List ParsedDataShred)
    → same key k ≡ true
    → filter (in_set key) (filter (outside k) ss) ≡ []
filter-outside_same key k ss h =
    filter_disjoint (in_set key) (outside k) ss (λ s i. rw (← same_iff key k h) (ground (arith, i)))

without : ShredReassembler → ℕ × ℕ → ShredReassembler
without r k = record r { sets = remove k r.sets }

Reps-without :
    (r : ShredReassembler) (pending : List ParsedDataShred) (k : ℕ × ℕ)
    → Reps r pending
    → Reps (without r k) (filter (outside k) pending)
unfolding without
Reps-without r pending k h key = elim (Bool-cases (same key k)) [
  | inl e ↦ rw (lookup-remove k key r.sets, e, filter-outside_same key k pending e) refl
  | inr e ↦ rw (lookup-remove k key r.sets, e, filter-outside_other key k pending e) (h key)
]

deshred_lem :
    (s : ParsedDataShred) (buf : FecSetBuffer) (m : Map ℕ (List ℕ))
    → buf.shreds ≡ m
    → deshred buf s.slot s.fec_set_index
      ≡ (if is_empty (concat (values m)) then none else some (batch_of s (concat (values m))))
unfolding deshred concat
deshred_lem s buf [] h = rw (deshred, h) refl
deshred_lem s buf ((k, v) ∷ m) h = rw (deshred, h) refl

buffered-gather :
    (r : ShredReassembler) (pending : List ParsedDataShred) (s : ParsedDataShred)
    → Reps r pending
    → (buffered r s).shreds ≡ gather [] (filter (in_set (shred_key s)) (pending ++ (s ∷ [])))
buffered-gather r pending s h =
    sym (buffer_of-with_buffer r (shred_key s) (buffered r s).shreds)
    ∙ Reps-with_shred r pending s h (shred_key s)

-- One shred.
pub record Agrees (p : ShredReassembler × Option DeshredBatch)
    (q : List ParsedDataShred × Option DeshredBatch) : Type 0 where
  pub same_batch : p.1 ≡ q.1
  pub reps : Reps p.0 q.0

-- The two definitions by what they branch on.
branches-Agrees :
    (complete no_bytes : Bool) (r : ShredReassembler) (pending : List ParsedDataShred) (key : ℕ × ℕ)
    (b : DeshredBatch) (o : Option DeshredBatch)
    → o ≡ (if no_bytes then none else some b)
    → length r.sets ≤ r.max_sets
    → Reps r pending
    → Agrees
        (if not complete then (trim_old_sets r, none) else (elim o [
          | none ↦ (trim_old_sets r, none)
          | some batch ↦ (trim_old_sets (without r key), some batch)
        ]))
        (if not complete
          then (pending, none)
          else if no_bytes
          then (pending, none)
          else (filter (outside key) pending, some b))
unfolding without
branches-Agrees false no_bytes r pending key b o d room h =
    rw (trim_keeps r room) (record { same_batch = refl; reps = h })
branches-Agrees true true r pending key b o d room h =
    rw (d, trim_keeps r room) (record { same_batch = refl; reps = h })
branches-Agrees true false r pending key b o d room h =
    let fits : length (without r key).sets ≤ r.max_sets =
      omega (arith, room, length-remove-le key r.sets) in
    rw (d, trim_keeps (without r key) fits)
      (record { same_batch = refl; reps = Reps-without r pending key h })

pub push-Agrees :
    (r : ShredReassembler) (pending : List ParsedDataShred) (s : ParsedDataShred)
    → Reps r pending
    → length (with_shred r s).sets ≤ r.max_sets
    → Agrees (push r s) (spec_push pending s)
unfolding push without
push-Agrees r pending s h room =
    let key = shred_key s in
    let pending' = pending ++ (s ∷ []) in
    branches-Agrees s.data_complete (is_empty (bytes_of key pending')) (with_shred r s) pending' key
      (batch_of s (bytes_of key pending')) (deshred (buffered r s) s.slot s.fec_set_index)
      (deshred_lem s (buffered r s) (gather [] (filter (in_set key) pending'))
          (buffered-gather r pending s h)
        ∙ ap (λ bytes. if is_empty bytes then none else some (batch_of s bytes))
            (concat-gather (filter (in_set key) pending')))
      room (Reps-with_shred r pending s h)

outputs-Reps :
    (ss : List ParsedDataShred) (r : ShredReassembler) (pending : List ParsedDataShred)
    → Reps r pending
    → has_room r ss ≡ true
    → outputs r ss ≡ spec_outputs pending ss
outputs-Reps [] r pending h room = refl
outputs-Reps (s ∷ ss) r pending h room =
    let a = push-Agrees r pending s h (ground (arith, room)) in
    ap₂ (λ o os. o ∷ os) a.same_batch
      (outputs-Reps ss (push r s).0 (spec_push pending s).0 a.reps (ground (arith, room)))

-- While no set is dropped, a new reassembler gives out exactly the batches of the specification,
-- each at the same shred: a completing shred takes out the shreds of its set that have arrived since
-- the set was last given out, unless they have no bytes, as the payloads in the order of their
-- indices, the last one of each index, whatever the shreds of other sets between them and in
-- whatever order they come.
pub outputs_refine :
    (max_sets : ℕ) (ss : List ParsedDataShred)
    → has_room (new max_sets) ss ≡ true
    → outputs (new max_sets) ss ≡ spec_outputs [] ss
unfolding new lookup
outputs_refine max_sets ss room = outputs-Reps ss (new max_sets) [] (λ key. refl) room
