-- ===== src/Shred/Reassembly/Tests.antt =====
-- The reassembler with two sets whose shreds alternate, and the loop that drops sets.
use feed_mux.Prelude.{
  ℕ, ◌-◌, ◌≤◌, ◌≡◌, refl, arith, List, [], ◌∷◌, Bool, true, false, none, some, Text, codes, length,
  drop,
}
use feed_mux.Prelude.TreeMap.{Map, lookup, insert, remove}
use feed_mux.Shred.Parse.{ParsedDataShred}
use feed_mux.Shred.Reassembly.{
  FecSetBuffer, DeshredBatch, new, push, deshred, trim_old_sets, concat, trim_loop,
}
use feed_mux.Shred.Reassembly.Refine.{outputs, spec_outputs, outputs_refine}
use feed_mux.Shred.Reassembly.Trim.{trim_loop-drop}

abbrev part : ℕ → ℕ → Text → Bool → ParsedDataShred
part set index payload complete = record {
  slot = 1;
  index = index;
  fec_set_index = set;
  data_complete = complete;
  last_in_slot = false;
  payload = payload;
}

-- The first shred of the set 9 comes twice.
abbrev arrivals : List ParsedDataShred
arrivals =
    part 9 1 (codes "old") false
    ∷ part 4 0 (codes "x") false
    ∷ part 9 1 (codes "b") false
    ∷ part 9 0 (codes "a") true
    ∷ part 4 1 (codes "y") true
    ∷ []

abbrev batch : ℕ → Text → DeshredBatch
batch set bytes = record { slot = 1; fec_set_index = set; bytes = bytes }

arrivals_batches :
    outputs (new 16) arrivals
    ≡ none ∷ none ∷ none ∷ some (batch 9 (codes "ab")) ∷ some (batch 4 (codes "xy")) ∷ []
unfolding new push deshred trim_old_sets concat lookup insert remove
arrivals_batches = refl

outputs_refine_example : outputs (new 16) arrivals ≡ spec_outputs [] arrivals
unfolding new push deshred trim_old_sets concat lookup insert remove
outputs_refine_example = outputs_refine 16 arrivals refl

abbrev buffer : FecSetBuffer
buffer = record { shreds = [] }

abbrev three : Map (ℕ × ℕ) FecSetBuffer
three = ((1, 0), buffer) ∷ ((1, 9), buffer) ∷ ((2, 0), buffer) ∷ []

trim_loop-drop_example :
    (trim_loop 5 2 three ≡ drop (length three - 2) three) × (length (trim_loop 5 2 three) ≤ 2)
trim_loop-drop_example =
    trim_loop-drop 5 2 three ((refl, (refl, tt)), ((refl, tt), (tt, tt))) (omega arith)
