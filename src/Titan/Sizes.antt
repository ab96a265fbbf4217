-- ===== src/Titan/Sizes.antt =====
-- src/titan_quote.rs: the list of hunt sizes.
pub mod Order
use feed_mux.Prelude.{
  ℕ, ◌≤◌, ◌<◌, List, [], ◌∷◌, map, Bool, true, false, Option, none, some, if◌then◌else◌, leb, ltb,
  ◌==◌, Text, is_empty, filter,
}
use feed_mux.Prelude.Words.{trim, split, parse_unsigned, u64_limit}

unfoldable pub default_hunt_sizes_lamports : List ℕ
default_hunt_sizes_lamports = 250000000 ∷ 500000000 ∷ 1000000000 ∷ 2500000000 ∷ 5000000000 ∷ []

unfoldable pub insert_sorted : ℕ → List ℕ → List ℕ
insert_sorted n [] = n ∷ []
insert_sorted n (m ∷ ms) = let rest = insert_sorted n ms in if leb n m then n ∷ m ∷ ms else m ∷ rest

-- `sort_unstable`.
unfoldable pub sort : List ℕ → List ℕ
unfolding insert_sorted
sort [] = []
sort (n ∷ ns) = insert_sorted n (sort ns)

abbrev pub skip_head : ℕ → List ℕ → List ℕ
skip_head n [] = n ∷ []
skip_head n (m ∷ ms) = if n == m then m ∷ ms else n ∷ m ∷ ms

-- `dedup`: one of each run of equal numbers.
unfoldable pub dedup : List ℕ → List ℕ
dedup [] = []
dedup (n ∷ ns) = skip_head n (dedup ns)

-- `filter_map(|part| part.trim().parse::<u64>().ok())`.
unfoldable pub parsed_sizes : List Text → List ℕ
parsed_sizes [] = []
parsed_sizes (part ∷ parts) =
    let rest = parsed_sizes parts in
    elim (parse_unsigned u64_limit (trim part)) [ none ↦ rest | some n ↦ n ∷ rest ]

unfoldable pub positive_sizes : Text → List ℕ
unfolding parsed_sizes
positive_sizes raw = filter (λ n. ltb 0 n) (parsed_sizes (split b',' raw))

unfoldable pub parse_hunt_sizes : Option Text → List ℕ
unfolding sort dedup positive_sizes
parse_hunt_sizes none = default_hunt_sizes_lamports
parse_hunt_sizes (some raw) =
    if is_empty (trim raw)
    then default_hunt_sizes_lamports
    else (let sizes = dedup (sort (positive_sizes (trim raw))) in
        if is_empty sizes then default_hunt_sizes_lamports else sizes)
