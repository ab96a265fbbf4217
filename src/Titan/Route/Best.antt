-- ===== src/Titan/Route/Best.antt =====
-- The chosen route has the largest output.
use feed_mux.Prelude.{
  ◌≤◌, ◌≡◌, ◌⊎◌, inl, inr, refl, ◌∙◌, arith, List, [], ◌∷◌, false, none, some, leb, is_empty, All,
  Bool-cases,
}
use feed_mux.Titan.Value.{Value, value_as_map}
use feed_mux.Titan.Route.{
  Candidate, candidates, larger, max_from, max_by_out, expected_winner, chosen, select_best_route,
}

abbrev pub IsIn : Candidate → List Candidate → Type 0
IsIn c [] = ⊥
IsIn c (d ∷ ds) = (c ≡ d) ⊎ IsIn c ds

-- No candidate of the list has a larger output.
abbrev pub IsMost : Candidate → List Candidate → Type 0
IsMost c ds = All (λ d. d.out ≤ c.out) ds

larger-ge : (b c : Candidate) → (b.out ≤ (larger b c).out) × (c.out ≤ (larger b c).out)
larger-ge b c = ground arith

larger_cases : (b c : Candidate) → (larger b c ≡ b) ⊎ (larger b c ≡ c)
larger_cases b c = elim (Bool-cases (leb b.out c.out)) [
  | inl p ↦ inr (rw p refl)
  | inr p ↦ inl (rw p refl)
]

max_from-ge : (b : Candidate) (cs : List Candidate) → b.out ≤ (max_from b cs).out
unfolding max_from
max_from-ge b [] = omega arith
max_from-ge b (c ∷ cs) = omega (arith, max_from-ge (larger b c) cs, (larger-ge b c).0)

max_from-IsMost : (b : Candidate) (cs : List Candidate) → IsMost (max_from b cs) cs
unfolding max_from
max_from-IsMost b [] = ground arith
max_from-IsMost b (c ∷ cs) =
    (omega (arith, max_from-ge (larger b c) cs, (larger-ge b c).1), max_from-IsMost (larger b c) cs)

max_from-IsIn : (b : Candidate) (cs : List Candidate) → IsIn (max_from b cs) (b ∷ cs)
unfolding max_from
max_from-IsIn b [] = inl refl
max_from-IsIn b (c ∷ cs) = elim (max_from-IsIn (larger b c) cs) [
  | inl e ↦ elim (larger_cases b c) [ inl l ↦ inl (e ∙ l) | inr r ↦ inr (inl (e ∙ r)) ]
  | inr m ↦ inr (inr m)
]

max_by_out-IsMost :
    (cs : List Candidate)
    → is_empty cs ≡ false
    → (c : Candidate) × (max_by_out cs ≡ some c) × IsIn c cs × IsMost c cs
unfolding max_by_out
max_by_out-IsMost [] h = absurd (ground (arith, h))
max_by_out-IsMost (b ∷ cs) h =
    (max_from b cs, refl, max_from-IsIn b cs, (max_from-ge b cs, max_from-IsMost b cs))

no_entries : (es : List (Value × Value)) → is_empty (candidates es) ≡ false → is_empty es ≡ false
unfolding candidates
no_entries [] h = h
no_entries (e ∷ es) h = refl

select_best_route_max :
    (quotes_map swap_quotes : Value) (entries : List (Value × Value)) (c : Candidate)
    → value_as_map quotes_map ≡ some entries
    → is_empty entries ≡ false
    → expected_winner entries swap_quotes ≡ none
    → max_by_out (candidates entries) ≡ some c
    → select_best_route quotes_map swap_quotes ≡ some (chosen c)
unfolding select_best_route
select_best_route_max quotes_map swap_quotes entries c h p w e =
    rw (select_best_route, h, p, w, e) refl

-- Where the quotes have no route of the expected winner, the chosen route is one of the routes with
-- an output, under its provider, and no other of them has a larger output. There is a choice as soon
-- as one route has an output.
pub select_best_route-IsMost :
    (quotes_map swap_quotes : Value) (entries : List (Value × Value))
    → value_as_map quotes_map ≡ some entries
    → expected_winner entries swap_quotes ≡ none
    → is_empty (candidates entries) ≡ false
    → (c : Candidate) × (select_best_route quotes_map swap_quotes ≡ some (chosen c))
      × IsIn c (candidates entries)
      × IsMost c (candidates entries)
select_best_route-IsMost quotes_map swap_quotes entries h w some_out =
    let (c, e, inside, most) = max_by_out-IsMost (candidates entries) some_out in
    (
      c,
      select_best_route_max quotes_map swap_quotes entries c h (no_entries entries some_out) w e,
      inside,
      most,
    )
