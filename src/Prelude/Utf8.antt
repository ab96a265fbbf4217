-- ===== src/Prelude/Utf8.antt =====
-- Slicing a text at a byte: it succeeds at the edges of characters, so everywhere in an ASCII text.
use Prim.Native.Nat.{ℕ, zero, suc, ◌+◌, ◌-◌, ◌≤◌, ◌<◌}
use mathlib.Core.Path.{◌≡◌, refl}
use mathlib.Core.Bool.{Bool, true, false}
use mathlib.Core.List.{[], ◌∷◌, ◌++◌}
use mathlib.Core.Option.{Option, none, some}
use native.Mathlib.Omega.{arith}
use feed_mux.Prelude.Tests.{if◌then◌else◌, leb, le→leb, lt→leb}
use feed_mux.Prelude.Lists.{All}
use feed_mux.Prelude.Strings.{Text, utf8_len, utf8_width, byte_prefix}

abbrev pub IsAscii : ℕ → Type 0
IsAscii c = c < 0x80

utf8_width_bounds : (c : ℕ) → (1 ≤ utf8_width c) × (utf8_width c ≤ 4)
utf8_width_bounds c = ground arith

utf8_width_ascii : (c : ℕ) → IsAscii c → utf8_width c ≡ 1
utf8_width_ascii c h = ground arith

pub utf8_len-append : (s t : Text) → utf8_len (s ++ t) ≡ utf8_len s + utf8_len t
utf8_len-append [] t = omega arith
utf8_len-append (c ∷ s) t = omega (arith, utf8_len-append s t)

-- One step of the slice.
byte_prefix_step :
    (n : ℕ) (c : ℕ) (s p : Text)
    → utf8_width c ≤ n
    → byte_prefix (n - utf8_width c) s ≡ some p
    → byte_prefix n (c ∷ s) ≡ some (c ∷ p)
unfolding byte_prefix
byte_prefix_step zero c s p h e = absurd (omega (arith, utf8_width_bounds c))
byte_prefix_step (suc n) c s p h e =
    let test : leb (utf8_width c) (suc n) ≡ true = le→leb (utf8_width c) (suc n) h in rw (e, test)

byte_prefix_fail :
    (n : ℕ) (c : ℕ) (s : Text)
    → 0 < n
    → byte_prefix (n - utf8_width c) s ≡ none
    → byte_prefix n (c ∷ s) ≡ none
unfolding byte_prefix
byte_prefix_fail zero c s h e = absurd (omega arith)
byte_prefix_fail (suc n) c s h e = rw e (if_same (leb (utf8_width c) (suc n)))
  where
    if_same : (b : Bool) → ◌≡◌ {A = Option Text} (if b then none else none) none
    if_same true = refl
    if_same false = refl

byte_prefix_short :
    (n : ℕ) (c : ℕ) (s : Text) → 0 < n → n < utf8_width c → byte_prefix n (c ∷ s) ≡ none
unfolding byte_prefix
byte_prefix_short zero c s h k = absurd (omega arith)
byte_prefix_short (suc n) c s h k = rw (lt→leb (suc n) (utf8_width c) k)

pub byte_prefix_ascii :
    (n : ℕ) (s : Text)
    → All IsAscii s
    → n ≤ utf8_len s
    → (p : Text) × (byte_prefix n s ≡ some p) × (utf8_len p ≡ n)
unfolding byte_prefix
byte_prefix_ascii zero s a h = ([], refl, refl)
byte_prefix_ascii (suc n) [] a h = absurd (omega arith)
byte_prefix_ascii (suc n) (c ∷ s) a h =
    let one = utf8_width_ascii c a.0 in
    let (p, e, l) = byte_prefix_ascii n s a.1 (omega (arith, one)) in
    (
      c ∷ p,
      byte_prefix_step (suc n) c s p (omega (arith, one)) (rw (one, sub_one n) e),
      omega (arith, one, l),
    )
  where
    sub_one : (n : ℕ) → suc n - 1 ≡ n
    sub_one n = omega arith

pub byte_prefix_inside :
    (p : Text) (c : ℕ) (s : Text) (n : ℕ)
    → utf8_len p < n
    → n < utf8_len p + utf8_width c
    → byte_prefix n (p ++ (c ∷ s)) ≡ none
byte_prefix_inside [] c s n h k = byte_prefix_short n c s h (omega arith)
byte_prefix_inside (d ∷ p) c s n h k = byte_prefix_fail n d (p ++ (c ∷ s)) (omega arith) (
    byte_prefix_inside p c s (n - utf8_width d) (omega (arith, utf8_width_bounds d))
      (omega (arith, utf8_width_bounds d)))
