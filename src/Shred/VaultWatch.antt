-- ===== src/Shred/VaultWatch.antt =====
-- src/shred/vault_watch.rs: the scan of a batch for watched vault keys. Vaults are lists of 32 bytes;
-- the source's `HashSet` is a list in the set's own order of iteration. The base-58 encoder is the
-- crate bs58, a parameter here.
pub mod Scan
pub mod Estimate
use feed_mux.Prelude.{
  ℕ, zero, suc, ◌≤◌, List, [], ◌∷◌, Bool, true, false, ◌||◌, not, if◌then◌else◌, length, ltb,
  ==_iff, ◌==◌, Text, text_eq, starts_with, is_empty, max, min, any, map,
}

pub record VaultHit : Type 0 where
  pub vault : List ℕ
  pub vault_b58 : Text

pub record VaultWatchSet : Type 0 where
  pub vaults : List (List ℕ)
  pub vault_labels : List Text

-- A `HashSet` holds a key once.
unfoldable pub insert_vault : List (List ℕ) → List ℕ → List (List ℕ)
insert_vault vaults v = if any (text_eq v) vaults then vaults else v ∷ vaults

unfoldable pub collect : List (List ℕ) → List (List ℕ)
unfolding insert_vault
collect [] = []
collect (v ∷ vs) = insert_vault (collect vs) v

-- `haystack.windows(32).any(|window| window == needle)`: a window is a prefix of some suffix.
unfoldable pub contains_subslice : List ℕ → List ℕ → Bool
contains_subslice [] needle = starts_with [] needle
contains_subslice (b ∷ bs) needle = starts_with (b ∷ bs) needle || contains_subslice bs needle

-- Whether `n` bytes can be read, and one of them is not 0.
unfoldable pub nonzero_window : ℕ → List ℕ → Bool
nonzero_window zero bs = false
nonzero_window (suc n) [] = false
nonzero_window (suc n) (b ∷ bs) = not (b == 0) || nonzero_window n bs

-- The windows of 64 bytes that hold a byte other than 0, with no bound on their number.
unfoldable pub nonzero_windows : List ℕ → ℕ
nonzero_windows [] = 0
nonzero_windows (b ∷ bs) =
    let rest = nonzero_windows bs in
    if ltb (length (b ∷ bs)) 64 then 0 else if nonzero_window 64 (b ∷ bs) then suc rest else rest

-- `.take(256).count()`.
unfoldable pub signature_like_count : List ℕ → ℕ
signature_like_count bytes = min (nonzero_windows bytes) 256

unfoldable pub count_transactions_estimate : List ℕ → ℕ
unfolding signature_like_count
count_transactions_estimate bytes = if is_empty bytes then 0 else max (signature_like_count bytes) 1

module _ (encode_base58 : List ℕ → Text) where
  unfoldable pub from_pubkeys : List (List ℕ) → VaultWatchSet
  unfolding collect
  from_pubkeys pubkeys = record {
    vaults = collect pubkeys;
    vault_labels = collect (map encode_base58 pubkeys);
  }

  -- `for vault in &self.vaults`
  unfoldable pub hits_of : List ℕ → List (List ℕ) → List VaultHit
  hits_of haystack [] = []
  hits_of haystack (v ∷ vs) =
      let rest = hits_of haystack vs in
      if contains_subslice haystack v
      then record { vault = v; vault_b58 = encode_base58 v } ∷ rest
      else rest

  unfoldable pub scan_hits : VaultWatchSet → List ℕ → List VaultHit
  unfolding hits_of
  scan_hits w haystack =
      if is_empty w.vaults || ltb (length haystack) 32 then [] else hits_of haystack w.vaults
