-- ===== src/Titan/Board/Find.antt =====
-- What the document of the size board says of each size.
use feed_mux.Prelude.{
  ℕ, suc, ◌≤◌, ◌≡◌, inl, inr, refl, ◌∙◌, arith, List, [], ◌∷◌, ◌++◌, map, Bool, Option, none, some,
  if◌then◌else◌, ◌==◌, filter, replicate, is_some, ap₂, Text, Bool-cases, ==_iff,
}
use feed_mux.Prelude.Filters.{filter-append}
use feed_mux.Prelude.TreeMap.Sorted.{IsSorted, Above}
use feed_mux.Prelude.TreeMap.{nat_key, Map, lookup, contains_key, insert, values}
use feed_mux.Titan.Board.{
  SizeBoardPin, TitanSizeBoard, aged, blank_pin, blank_pins, insert_pin, sort_pins,
  build_size_board_doc_with_pair, put_pin,
}

abbrev pub is_of : ℕ → SizeBoardPin → Bool
is_of size pin = pin.size_lamports == size

-- Every pin stands under its own size.
abbrev pub IsKeyed : Map ℕ SizeBoardPin → Type 0
IsKeyed [] = Unit
IsKeyed ((k, p) ∷ m) = (p.size_lamports ≡ k) × IsKeyed m

-- The pins stand in the order of their sizes.
abbrev pub IsOrdered : List SizeBoardPin → Type 0
IsOrdered [] = Unit
IsOrdered (p ∷ []) = Unit
IsOrdered (p ∷ q ∷ qs) = (p.size_lamports ≤ q.size_lamports) × IsOrdered (q ∷ qs)

filter-insert_pin :
    (s : ℕ) (p : SizeBoardPin) (ps : List SizeBoardPin)
    → filter (is_of s) (insert_pin p ps) ≡ filter (is_of s) (p ∷ ps)
unfolding insert_pin
filter-insert_pin s p [] = refl
filter-insert_pin s p (q ∷ qs) = ground (arith, filter-insert_pin s p qs)

filter-sort_pins :
    (s : ℕ) (ps : List SizeBoardPin) → filter (is_of s) (sort_pins ps) ≡ filter (is_of s) ps
unfolding sort_pins
filter-sort_pins s [] = refl
filter-sort_pins s (p ∷ ps) =
    ground (arith, filter-insert_pin s p (sort_pins ps), filter-sort_pins s ps)

insert_pin-IsOrdered :
    (p : SizeBoardPin) (ps : List SizeBoardPin) → IsOrdered ps → IsOrdered (insert_pin p ps)
unfolding insert_pin
insert_pin-IsOrdered p [] h = ground arith
insert_pin-IsOrdered p (q ∷ []) h = ground arith
insert_pin-IsOrdered p (q ∷ r ∷ rs) h = ground (arith, insert_pin-IsOrdered p (r ∷ rs), h)

sort_pins-IsOrdered : (ps : List SizeBoardPin) → IsOrdered (sort_pins ps)
unfolding sort_pins
sort_pins-IsOrdered [] = ground arith
sort_pins-IsOrdered (p ∷ ps) = insert_pin-IsOrdered p (sort_pins ps) (sort_pins-IsOrdered ps)

abbrev pub or_else : Option SizeBoardPin → Option SizeBoardPin → Option SizeBoardPin
or_else none o = o
or_else (some p) o = some p

-- The line of a quote, aged, or none.
abbrev pub aged_lines : ℕ → Option SizeBoardPin → List SizeBoardPin
aged_lines now none = []
aged_lines now (some p) = aged now p ∷ []

filter-Above :
    (s now k : ℕ) (m : Map ℕ SizeBoardPin)
    → IsKeyed m
    → Above k m
    → s ≤ k
    → filter (is_of s) (map (aged now) (values m)) ≡ []
filter-Above s now k [] h a low = refl
filter-Above s now k ((j, p) ∷ m) h a low =
    ground (arith, filter-Above s now k m h.1 a.1 low, h.0, a.0)

filter-values :
    (s now : ℕ) (m : Map ℕ SizeBoardPin)
    → IsKeyed m
    → IsSorted m
    → filter (is_of s) (map (aged now) (values m)) ≡ aged_lines now (lookup s m)
unfolding lookup
filter-values s now [] h o = refl
filter-values s now ((k, p) ∷ m) h o =
    ground (arith, filter-values s now m h.1 o.1, filter-Above s now k m h.1 o.0, h.0)

-- How often a size stands in a list.
abbrev pub times : ℕ → List ℕ → ℕ
times n [] = 0
times n (m ∷ ms) = let rest = times n ms in if m == n then suc rest else rest

filter-blank_pins :
    (s : ℕ) (b : TitanSizeBoard) (sizes : List ℕ)
    → filter (is_of s) (blank_pins b sizes)
      ≡ (if contains_key b.pins s then [] else replicate (times s sizes) (blank_pin b s))
unfolding blank_pins
filter-blank_pins s b [] = ground arith
filter-blank_pins s b (z ∷ zs) = elim (Bool-cases (z == s)) [
  | inl p ↦ rw ((==_iff z s).0 p) (ground (arith, filter-blank_pins s b zs))
  | inr p ↦ ground (arith, filter-blank_pins s b zs, p)
]

-- The lines of a size: its quote, aged, or without a quote one blank line for each time that it is a
-- hunt size.
abbrev pub expected_lines : TitanSizeBoard → ℕ → ℕ → List SizeBoardPin
expected_lines b now s =
    if contains_key b.pins s
    then aged_lines now (lookup s b.pins)
    else replicate (times s b.hunt_sizes) (blank_pin b s)

lines_joined :
    (o : Option SizeBoardPin) (now : ℕ) (blank : List SizeBoardPin)
    → aged_lines now o ++ (if is_some o then [] else blank)
      ≡ (if is_some o then aged_lines now o else blank)
lines_joined none now blank = refl
lines_joined (some p) now blank = refl

-- For a board whose pins stand under their own sizes, in the map's order, the document is in the order
-- of the sizes, and its lines for a size are these and no others: the one line of the size's pin
-- with its age at the time of the document; where the size has no pin, a blank line for each time
-- that it stands among the hunt sizes, which says "unsubscribed" where the size is marked so; and
-- none for a size that is neither.
pub build_size_board_doc_with_pair_lem :
    (b : TitanSizeBoard) (now s : ℕ) (pair base mid : Text)
    → IsKeyed b.pins
    → IsSorted b.pins
    → IsOrdered (build_size_board_doc_with_pair b now pair base mid).pins
      × (filter (is_of s) (build_size_board_doc_with_pair b now pair base mid).pins
          ≡ expected_lines b now s)
unfolding build_size_board_doc_with_pair
build_size_board_doc_with_pair_lem b now s pair base mid h o =
    let live = map (aged now) (values b.pins) in
    let blank = blank_pins b b.hunt_sizes in
    (
      sort_pins-IsOrdered (live ++ blank),
      filter-sort_pins s (live ++ blank)
          ∙ filter-append (is_of s) live blank
          ∙ ap₂ (λ xs ys. xs ++ ys) (filter-values s now b.pins h o)
              (filter-blank_pins s b b.hunt_sizes)
          ∙ lines_joined (lookup s b.pins) now (replicate (times s b.hunt_sizes) (blank_pin b s)),
    )

insert-IsKeyed :
    (p : SizeBoardPin) (m : Map ℕ SizeBoardPin) → IsKeyed m → IsKeyed (insert p.size_lamports p m)
unfolding insert
insert-IsKeyed p [] h = (refl, ground arith)
insert-IsKeyed p ((k, q) ∷ m) h = ground (arith, insert-IsKeyed p m h.1, h)

-- Storing a quote keeps every pin under its own size.
pub put_pin-IsKeyed :
    (b : TitanSizeBoard) (p : SizeBoardPin) → IsKeyed b.pins → IsKeyed (put_pin b p).pins
unfolding put_pin
put_pin-IsKeyed b p h = insert-IsKeyed p b.pins h
