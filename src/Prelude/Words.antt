-- ===== src/Prelude/Words.antt =====
-- What the program uses of `str`: `trim`, `split` at a character and `parse` of an unsigned number.
use Prim.Native.Nat.{ℕ, ◌+◌, ◌-◌, ◌*◌, ◌^◌, ◌<◌}
use mathlib.Core.Path.{◌≡◌}
use mathlib.Core.Bool.{Bool, ◌&&◌, ◌||◌}
use mathlib.Core.List.{List, [], ◌∷◌}
use mathlib.Core.Option.{Option, none, some}
use native.Mathlib.Omega.{arith}
use feed_mux.Prelude.Tests.{if◌then◌else◌, leb, ltb, ◌==◌}
use feed_mux.Prelude.Lists.{is_empty}
use feed_mux.Prelude.Strings.{Text}

-- The code points with the Unicode property White_Space.
abbrev pub is_whitespace : ℕ → Bool
is_whitespace c =
    (leb 9 c && leb c 13)
    || (c == 0x20)
    || (c == 0x85)
    || (c == 0xa0)
    || (c == 0x1680)
    || (leb 0x2000 c && leb c 0x200a)
    || (c == 0x2028)
    || (c == 0x2029)
    || (c == 0x202f)
    || (c == 0x205f)
    || (c == 0x3000)

abbrev pub trim_start : Text → Text
trim_start [] = []
trim_start (c ∷ s) = let rest = trim_start s in if is_whitespace c then rest else c ∷ s

abbrev pub trim_end : Text → Text
trim_end [] = []
trim_end (c ∷ s) =
    let rest = trim_end s in if is_whitespace c && is_empty rest then [] else c ∷ rest

unfoldable pub trim : Text → Text
trim s = trim_end (trim_start s)

abbrev cons_first : ℕ → List Text → List Text
cons_first c [] = (c ∷ []) ∷ []
cons_first c (p ∷ ps) = (c ∷ p) ∷ ps

-- `s.split(sep)`, which yields at least one part.
unfoldable pub split : ℕ → Text → List Text
split sep [] = [] ∷ []
split sep (c ∷ s) = let rest = split sep s in if c == sep then [] ∷ rest else cons_first c rest

abbrev is_digit : ℕ → Bool
is_digit c = leb b'0' c && leb c b'9'

unfoldable pub parse_digits : ℕ → ℕ → Text → Option ℕ
parse_digits limit n [] = some n
parse_digits limit n (c ∷ s) =
    let rest = parse_digits limit (n * 10 + (c - b'0')) s in
    if is_digit c && ltb (n * 10 + (c - b'0')) limit then rest else none

-- `s.parse()` into an unsigned type with the numbers below `limit`.
unfoldable pub parse_unsigned : ℕ → Text → Option ℕ
parse_unsigned limit [] = none
parse_unsigned limit (c ∷ s) =
    if c == b'+'
    then (if is_empty s then none else parse_digits limit 0 s)
    else parse_digits limit 0 (c ∷ s)

parse_digits_bound :
    (limit n v : ℕ) (s : Text) → n < limit → parse_digits limit n s ≡ some v → v < limit
unfolding parse_digits
parse_digits_bound limit n v [] h e = ground (arith, e)
parse_digits_bound limit n v (c ∷ s) h e =
    ground (arith, parse_digits_bound limit (n * 10 + (c - b'0')) v s, e)

pub parse_unsigned_bound :
    (limit v : ℕ) (s : Text) → 0 < limit → parse_unsigned limit s ≡ some v → v < limit
unfolding parse_unsigned
parse_unsigned_bound limit v [] h e = ground (arith, e)
parse_unsigned_bound limit v (c ∷ s) h e =
    ground (arith, parse_digits_bound limit 0 v s h, parse_digits_bound limit 0 v (c ∷ s) h, e)

abbrev pub u64_limit : ℕ
u64_limit = 2 ^ 64

abbrev pub u32_limit : ℕ
u32_limit = 2 ^ 32
