-- ===== src/Shred/Reassembly.antt =====
-- src/shred/reassembly.rs: shreds are collected by slot and FEC set index, and a set is given out as
-- one batch when its data-complete shred arrives. A method returns the new state beside its result.
pub mod Order
pub mod Bounded
pub mod Refine
pub mod Trim
pub mod Assembly
mod Tests
use feed_mux.Prelude.{
  ℕ, zero, suc, List, [], ◌∷◌, ◌++◌, Option, none, some, if◌then◌else◌, length, leb, max, is_empty,
  not, unwrap_or,
}
use feed_mux.Prelude.TreeMap.{Map, pair_key, nat_key, lookup, insert, remove, values}
use feed_mux.Shred.Parse.{ParsedDataShred}

pub record FecSetBuffer : Type 0 where
  pub shreds : Map ℕ (List ℕ)

pub record ShredReassembler : Type 0 where
  pub sets : Map (ℕ × ℕ) FecSetBuffer
  pub max_sets : ℕ

pub record DeshredBatch : Type 0 where
  pub slot : ℕ
  pub fec_set_index : ℕ
  pub bytes : List ℕ

unfoldable pub new : ℕ → ShredReassembler
new max_sets = record { sets = []; max_sets = max max_sets 16 }

-- `for payload in self.shreds.values() { bytes.extend_from_slice(payload) }`
unfoldable pub concat : List (List ℕ) → List ℕ
concat [] = []
concat (p ∷ ps) = p ++ concat ps

unfoldable pub deshred : FecSetBuffer → ℕ → ℕ → Option DeshredBatch
deshred buf slot fec_set_index =
    if is_empty buf.shreds
    then none
    else let bytes = concat (values buf.shreds) in
      if is_empty bytes
      then none
      else some (record { slot = slot; fec_set_index = fec_set_index; bytes = bytes })

-- `while self.sets.len() > self.max_sets`: one round removes the first key. The rounds left are
-- bounded by `fuel`.
unfoldable pub trim_loop : ℕ → ℕ → Map (ℕ × ℕ) FecSetBuffer → Map (ℕ × ℕ) FecSetBuffer
trim_loop zero max_sets sets = sets
trim_loop (suc fuel) max_sets [] = []
trim_loop (suc fuel) max_sets ((k, buf) ∷ m) =
    let rest = trim_loop fuel max_sets (remove k ((k, buf) ∷ m)) in
    if leb (length ((k, buf) ∷ m)) max_sets then (k, buf) ∷ m else rest

unfoldable pub trim_old_sets : ShredReassembler → ShredReassembler
unfolding trim_loop
trim_old_sets r = record r { sets = trim_loop (length r.sets) r.max_sets r.sets }

abbrev pub shred_key : ParsedDataShred → ℕ × ℕ
shred_key shred = (shred.slot, shred.fec_set_index)

-- `self.sets.entry(key).or_default()`
abbrev pub buffer_of : ShredReassembler → ℕ × ℕ → FecSetBuffer
buffer_of r key = unwrap_or (lookup key r.sets) (record { shreds = [] })

abbrev pub buffered : ShredReassembler → ParsedDataShred → FecSetBuffer
buffered r shred = record {
  shreds = insert shred.index shred.payload (buffer_of r (shred_key shred)).shreds;
}

abbrev pub with_shred : ShredReassembler → ParsedDataShred → ShredReassembler
with_shred r shred = record r { sets = insert (shred_key shred) (buffered r shred) r.sets }

unfoldable pub push : ShredReassembler → ParsedDataShred → ShredReassembler × Option DeshredBatch
push r shred =
    let r' = with_shred r shred in
    if not shred.data_complete
    then (trim_old_sets r', none)
    else elim (deshred (buffered r shred) shred.slot shred.fec_set_index) [
      | none ↦ (trim_old_sets r', none)
      | some batch ↦
          (trim_old_sets (record r' { sets = remove (shred_key shred) r'.sets }), some batch)
    ]
