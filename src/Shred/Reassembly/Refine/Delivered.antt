-- ===== src/Shred/Reassembly/Refine/Delivered.antt =====
-- The batch of one FEC set when shreds of other sets come between its own.
use mathlib.Core.List.{Perm}
use mathlib.Core.List.Perm
use feed_mux.Prelude.{
  ℕ, ◌<◌, ◌≡◌, refl, sym, ◌∙◌, arith, true, false, ◌&&◌, List, [], ◌∷◌, ◌++◌, some, All, filter,
  length, is_empty, append_assoc, append-nil,
}
use feed_mux.Prelude.Filters.{filter-append}
use feed_mux.Prelude.TreeMap.{lookup, pair_key, nat_key}
use feed_mux.Prelude.TreeMap.Sorted.{IsSorted}
use feed_mux.Shred.Parse.{ParsedDataShred}
use feed_mux.Shred.Reassembly.{ShredReassembler, new, push, shred_key}
use feed_mux.Shred.Reassembly.Order.{deliver, entries, same_self}
use feed_mux.Shred.Reassembly.Order.Batch.{
  gather-ordered, values-entries, entries-append, concat_ne,
}
use feed_mux.Shred.Reassembly.Assembly.{joined, concat-joined, concat-gather}
use feed_mux.Shred.Reassembly.Refine.{
  in_set, bytes_of, batch_of, spec_push, has_room, Reps, push-Agrees, filter-outside_other,
}

abbrev spec_deliver : List ParsedDataShred → List ParsedDataShred → List ParsedDataShred
spec_deliver pending [] = pending
spec_deliver pending (s ∷ ss) = spec_deliver (spec_push pending s).0 ss

deliver-Reps :
    (ss : List ParsedDataShred) (r : ShredReassembler) (pending : List ParsedDataShred)
    → Reps r pending
    → has_room r ss ≡ true
    → Reps (deliver r ss) (spec_deliver pending ss)
deliver-Reps [] r pending h room = h
deliver-Reps (s ∷ ss) r pending h room =
    deliver-Reps ss (push r s).0 (spec_push pending s).0
      (push-Agrees r pending s h (ground (arith, room))).reps (ground (arith, room))

has_room-append :
    (ss ts : List ParsedDataShred) (r : ShredReassembler)
    → has_room r (ss ++ ts) ≡ (has_room r ss && has_room (deliver r ss) ts)
has_room-append [] ts r = refl
has_room-append (s ∷ ss) ts r = ground (arith, has_room-append ss ts (push r s).0)

-- A shred of another set, or one that does not complete the set.
abbrev pub Waits : ℕ × ℕ → ParsedDataShred → Type 0
Waits key s = in_set key s ≡ true → s.data_complete ≡ false

spec_push_keeps :
    (key : ℕ × ℕ) (pending : List ParsedDataShred) (s : ParsedDataShred)
    → Waits key s
    → filter (in_set key) (spec_push pending s).0 ≡ filter (in_set key) (pending ++ (s ∷ []))
spec_push_keeps key pending s waits =
    ground (arith, waits, filter-outside_other key (shred_key s) (pending ++ (s ∷ [])))

spec_deliver_keeps :
    (key : ℕ × ℕ) (ss pending : List ParsedDataShred)
    → All (Waits key) ss
    → filter (in_set key) (spec_deliver pending ss)
      ≡ filter (in_set key) pending ++ filter (in_set key) ss
spec_deliver_keeps key [] pending waits = rw append-nil
spec_deliver_keeps key (s ∷ ss) pending waits =
    rw
      (
        spec_deliver_keeps key ss (spec_push pending s).0 waits.1,
        spec_push_keeps key pending s waits.0,
        filter-append (in_set key) pending (s ∷ []),
        append_assoc,
      )
      (ground arith)

-- The shreds of one set in the order of their indices, and the completing one behind them.
pub record Completes (ss ordered : List ParsedDataShred) (last : ParsedDataShred) : Type 0 where
  pub waits : All (Waits (shred_key last)) ss
  pub same_shreds : Perm ordered (filter (in_set (shred_key last)) ss)
  pub ascending : IsSorted (entries (ordered ++ last ∷ []))
  pub complete : last.data_complete ≡ true
  pub has_payload : 0 < length last.payload

module _ (ss ordered : List ParsedDataShred) (last : ParsedDataShred)
    (c : Completes ss ordered last) where
  bytes_whole :
      (pending : List ParsedDataShred)
      → filter (in_set (shred_key last)) pending ≡ filter (in_set (shred_key last)) ss
      → bytes_of (shred_key last) (pending ++ (last ∷ [])) ≡ joined (ordered ++ last ∷ [])
  bytes_whole pending h =
      let key = shred_key last in
      rw
        (
          filter-append (in_set key) pending (last ∷ []),
          h,
          same_self key,
          ← concat-gather (filter (in_set key) ss ++ (last ∷ [])),
          gather-ordered (filter (in_set key) ss ++ (last ∷ [])) (ordered ++ last ∷ [])
              (Perm.append_right (last ∷ []) c.same_shreds) c.ascending,
          values-entries (ordered ++ last ∷ []),
        )
        (concat-joined (ordered ++ last ∷ []))

  whole_ne : is_empty (joined (ordered ++ last ∷ [])) ≡ false
  whole_ne =
      rw
        (
          ← concat-joined (ordered ++ last ∷ []),
          ← values-entries (ordered ++ last ∷ []),
          entries-append ordered (last ∷ []),
        )
        (concat_ne (entries ordered) last.index last.payload c.has_payload).1

  spec_push_whole :
      (pending : List ParsedDataShred)
      → filter (in_set (shred_key last)) pending ≡ filter (in_set (shred_key last)) ss
      → (spec_push pending last).1 ≡ some (batch_of last (joined (ordered ++ last ∷ [])))
  spec_push_whole pending h = rw (bytes_whole pending h, whole_ne) (ground (arith, c.complete))

  -- Whatever comes between the shreds of a set, the one that completes it gives out the payloads of
  -- all of them in the order of their indices, while no set is dropped.
  pub push-Completes :
      (max_sets : ℕ)
      → has_room (new max_sets) (ss ++ last ∷ []) ≡ true
      → (push (deliver (new max_sets) ss) last).1
        ≡ some (batch_of last (joined (ordered ++ last ∷ [])))
  unfolding new lookup
  push-Completes max_sets room =
      let r = new max_sets in
      let both : (has_room r ss && has_room (deliver r ss) (last ∷ [])) ≡ true =
        sym (has_room-append ss (last ∷ []) r) ∙ room in
      let reps = deliver-Reps ss r [] (λ key. refl) (ground (arith, both)) in
      (push-Agrees (deliver r ss) (spec_deliver [] ss) last reps (ground (arith, both))).same_batch
      ∙ spec_push_whole (spec_deliver [] ss) (spec_deliver_keeps (shred_key last) ss [] c.waits)
