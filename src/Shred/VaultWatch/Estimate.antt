-- ===== src/Shred/VaultWatch/Estimate.antt =====
-- Bounds of the transaction estimate.
use feed_mux.Prelude.{
  ℕ, suc, ◌-◌, ◌≤◌, ◌<◌, ◌≡◌, ◌↔◌, true, false, List, [], ◌∷◌, arith, length, max, min, All, ◌==◌,
  ◌==◌,
}
use feed_mux.Shred.VaultWatch.{nonzero_windows, count_transactions_estimate, nonzero_window}

nonzero_windows-le : (bs : List ℕ) → nonzero_windows bs ≤ length bs - 63
unfolding nonzero_windows
nonzero_windows-le [] = omega arith
nonzero_windows-le (b ∷ bs) = ground (arith, nonzero_windows-le bs)

-- The estimate is 0 for an empty batch and for no other, and is at most 256 and at most the number
-- of windows of 64 bytes, or 1 where there are none.
pub count_transactions_estimate_bounds :
    (bytes : List ℕ)
    → ((count_transactions_estimate bytes ≡ 0) ↔ (bytes ≡ []))
      × (count_transactions_estimate bytes ≤ 256)
      × (count_transactions_estimate bytes ≤ max (length bytes - 63) 1)
unfolding count_transactions_estimate
count_transactions_estimate_bounds [] = (ground arith, omega arith, omega arith)
count_transactions_estimate_bounds (b ∷ bs) =
    let few = nonzero_windows-le (b ∷ bs) in
    ((λ e. absurd (omega arith), λ e. absurd (cc)), omega arith, omega arith)

nonzero_window-head : (n b : ℕ) (bs : List ℕ) → 0 < b → nonzero_window (suc n) (b ∷ bs) ≡ true
unfolding nonzero_window
nonzero_window-head n b bs h = rw (positive b h)
  where
    positive : (b : ℕ) → 0 < b → (b == 0) ≡ false
    positive b h = ground arith

nonzero_windows-full : (bs : List ℕ) → All (λ b. 0 < b) bs → nonzero_windows bs ≡ length bs - 63
unfolding nonzero_windows
nonzero_windows-full [] h = omega arith
nonzero_windows-full (b ∷ bs) h =
    ground (arith, nonzero_windows-full bs h.1, nonzero_window-head 63 b bs h.0)

-- The windows overlap: of bytes that are all non-zero every position counts, up to 256, however many
-- signatures of 64 bytes they hold.
pub count_transactions_estimate-nonzero :
    (bytes : List ℕ)
    → All (λ b. 0 < b) bytes
    → 64 ≤ length bytes
    → count_transactions_estimate bytes ≡ min (length bytes - 63) 256
unfolding count_transactions_estimate
count_transactions_estimate-nonzero [] h k = absurd (omega arith)
count_transactions_estimate-nonzero (b ∷ bs) h k = omega (arith, nonzero_windows-full (b ∷ bs) h)
