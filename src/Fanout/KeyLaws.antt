-- ===== src/Fanout/KeyLaws.antt =====
-- Distinct quotes are written under distinct keys.
use mathlib.Core.List.{append_cancel_left}
use feed_mux.Prelude.{ℕ, ◌≡◌, refl, [], ◌∷◌, ◌++◌, All, arith, Text, codes}
use feed_mux.Prelude.Decimal.{to_string, IsDigit, to_string-IsDigit, to_string_injective}
use feed_mux.Fanout.Keys.{hop1_row_key}

no_colon : (p q s : Text) → All IsDigit s → s ≡ p ++ (b':' ∷ q) → ⊥
no_colon [] q [] d e = cc
no_colon [] q (c ∷ s) d e = ground (arith, d.0)
no_colon (x ∷ p) q [] d e = cc
no_colon (x ∷ p) q (c ∷ s) d e = no_colon p q s d.1 (ground (arith, e))

split_at_colon :
    (p q s t : Text)
    → All IsDigit s
    → All IsDigit t
    → p ++ (b':' ∷ s) ≡ q ++ (b':' ∷ t)
    → (p ≡ q) × (s ≡ t)
split_at_colon [] [] s t d d' e = (refl, ground (arith, e))
split_at_colon [] (y ∷ q) s t d d' e = absurd (no_colon q t s d (ground (arith, e)))
split_at_colon (x ∷ p) [] s t d d' e = absurd (no_colon p s t d' (ground (arith, e)))
split_at_colon (x ∷ p) (y ∷ q) s t d d' e =
    let ih = split_at_colon p q s t d d' (ground (arith, e)) in ground (arith, ih, e)

-- A hop-1 key determines its pair and its size, also where the pair's label holds a colon.
pub hop1_row_key_injective :
    (pair pair' : Text) (size size' : ℕ)
    → hop1_row_key pair size ≡ hop1_row_key pair' size'
    → (pair ≡ pair') × (size ≡ size')
unfolding hop1_row_key
hop1_row_key_injective pair pair' size size' e =
    let (p, s) =
      split_at_colon pair pair' (to_string size) (to_string size') (to_string-IsDigit size)
        (to_string-IsDigit size') (append_cancel_left (codes "mux:titan:hop1:") _ _ e) in
    (p, to_string_injective size size' s)
