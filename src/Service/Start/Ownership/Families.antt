-- ===== src/Service/Start/Ownership/Families.antt =====
-- No key belongs to two families.
use feed_mux.Prelude.{
  ◌≡◌, arith, refl, ap, ◌∙◌, [], ◌∷◌, Bool, true, false, ◌||◌, not, ◌==◌, Text, codes, text_eq,
  text_eq_iff, starts_with, Bool-cases, inl, inr, ℕ, ◌+◌, ◌≤◌, if◌then◌else◌,
}
use feed_mux.Fanout.Keys
use feed_mux.Service.Start.Ownership.{titan_key, triton_key, shred_key}

-- Two prefixes that differ somewhere.
abbrev clash : Text → Text → Bool
clash [] q = false
clash (a ∷ p) [] = false
clash (a ∷ p) (b ∷ q) = not (a == b) || clash p q

starts_with-clash :
    (k p q : Text) → clash p q ≡ true → starts_with k p ≡ true → starts_with k q ≡ false
starts_with-clash k [] q c h = absurd (ground (arith, c))
starts_with-clash k (a ∷ p) [] c h = absurd (ground (arith, c))
starts_with-clash [] (a ∷ p) (b ∷ q) c h = absurd (ground (arith, h))
starts_with-clash (x ∷ k) (a ∷ p) (b ∷ q) c h = ground (arith, c, h, starts_with-clash k p q)

-- The keys with a prefix, and one more.
abbrev family : Text → Text → Text → Bool
family prefix meta k = starts_with k prefix || text_eq k meta

family_apart :
    (p m q n k : Text)
    → clash p q ≡ true
    → starts_with m q ≡ false
    → starts_with n p ≡ false
    → text_eq m n ≡ false
    → family p m k ≡ true
    → family q n k ≡ false
family_apart p m q n k c u v w h = elim (Bool-cases (text_eq k m)) [
  | inl e ↦ ap (family q n) ((text_eq_iff k m).0 e) ∙ ground (arith, u, w)
  | inr e ↦
      let pre : starts_with k p ≡ true = ground (arith, h, e) in
      elim (Bool-cases (text_eq k n)) [
        | inl g ↦
            let none_there : starts_with k p ≡ false =
              ap (λ x. starts_with x p) ((text_eq_iff k n).0 g) ∙ v in
            absurd (ground (arith, pre, none_there))
        | inr g ↦ ground (arith, starts_with-clash k p q c pre, g)
      ]
]

-- The key of the heartbeat belongs to none of them.
family_else :
    (p m n k : Text)
    → starts_with n p ≡ false
    → text_eq n m ≡ false
    → text_eq k n ≡ true
    → family p m k ≡ false
family_else p m n k u w h = ap (family p m) ((text_eq_iff k n).0 h) ∙ ground (arith, u, w)

abbrev pub one : Bool → ℕ
one b = if b then 1 else 0

-- At most one of the four families has the key.
pub one_family :
    (k : Text)
    → one (triton_key k)
        + one (shred_key k)
        + one (titan_key k)
        + one (text_eq k Keys.meta_heartbeat_ms)
      ≤ 1
one_family k =
    count (triton_key k) (shred_key k) (titan_key k) (text_eq k Keys.meta_heartbeat_ms)
      (family_apart (codes "mux:triton:") Keys.meta_triton_up (codes "mux:shred:")
        Keys.meta_shred_up k refl refl refl refl)
      (family_apart (codes "mux:triton:") Keys.meta_triton_up (codes "mux:titan:")
        Keys.meta_titan_up k refl refl refl refl)
      (family_apart (codes "mux:shred:") Keys.meta_shred_up (codes "mux:titan:") Keys.meta_titan_up
        k refl refl refl refl)
      (family_else (codes "mux:triton:") Keys.meta_triton_up Keys.meta_heartbeat_ms k refl refl)
      (family_else (codes "mux:shred:") Keys.meta_shred_up Keys.meta_heartbeat_ms k refl refl)
      (family_else (codes "mux:titan:") Keys.meta_titan_up Keys.meta_heartbeat_ms k refl refl)
  where
    count :
        (a b c d : Bool)
        → (a ≡ true → b ≡ false)
        → (a ≡ true → c ≡ false)
        → (b ≡ true → c ≡ false)
        → (d ≡ true → a ≡ false)
        → (d ≡ true → b ≡ false)
        → (d ≡ true → c ≡ false)
        → one a + one b + one c + one d ≤ 1
    count a b c d ab ac bc da db dc = ground (arith, ab, ac, bc, da, db, dc)
