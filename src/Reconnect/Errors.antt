-- ===== src/Reconnect/Errors.antt =====
-- What the summaries of gRPC errors show, and when making one panics.
use feed_mux.Prelude.{
  ℕ, ◌+◌, ◌<◌, ◌≡◌, ◌⊎◌, [], ◌∷◌, ◌++◌, Bool, true, false, ◌&&◌, ◌||◌, Option, none, some, arith,
  Text, codes, contains, utf8_len, utf8_width, byte_prefix, if◌then◌else◌, ltb, lt→ltb,
}
use feed_mux.Prelude.Utf8.{utf8_len-append, byte_prefix_inside}
use feed_mux.Reconnect.{to_ascii_lowercase, grpc_error_summary, ellipsis}

-- An error whose text the summary replaces.
abbrev pub is_masked : Text → Bool
is_masked err =
    let low = to_ascii_lowercase err in
    contains low (codes "403 forbidden")
    || contains low (codes "status: 403")
    || contains low (codes "401 unauthorized")
    || contains low (codes "status: 401")
    || (contains low (codes "invalid compression flag") && contains low (codes "403"))

-- One of the fixed messages.
abbrev IsFixed : Text → Type 0
IsFixed s =
    (s ≡ codes "HTTP 403 Forbidden (check TRITON_GRPC_TOKEN/plan)")
    ⊎ (s ≡ codes "HTTP 401 Unauthorized (check TRITON_GRPC_TOKEN)")
    ⊎ (s ≡ codes "HTTP 403 rejected as non-gRPC body (check TRITON_GRPC_TOKEN/plan)")

module _ (a b c d e f : Bool) (s t u : Text) (rest : Option Text) where
  abbrev pick : Option Text
  pick = if a || b then some s else if c || d then some t else if e && f then some u else rest

  pick_unmasked : (a || b || c || d || (e && f)) ≡ false → pick ≡ rest
  pick_unmasked h = ground (arith, h)

clip : Text → Option Text
clip err =
    if ltb 200 (utf8_len err)
    then elim (byte_prefix 200 err) [ none ↦ none | some p ↦ some (p ++ (ellipsis ∷ [])) ]
    else some err

grpc_error_summary-clip : (err : Text) → is_masked err ≡ false → grpc_error_summary err ≡ clip err
unfolding grpc_error_summary clip
grpc_error_summary-clip err h =
    pick_unmasked (contains (to_ascii_lowercase err) (codes "403 forbidden"))
      (contains (to_ascii_lowercase err) (codes "status: 403"))
      (contains (to_ascii_lowercase err) (codes "401 unauthorized"))
      (contains (to_ascii_lowercase err) (codes "status: 401"))
      (contains (to_ascii_lowercase err) (codes "invalid compression flag"))
      (contains (to_ascii_lowercase err) (codes "403"))
      (codes "HTTP 403 Forbidden (check TRITON_GRPC_TOKEN/plan)")
      (codes "HTTP 401 Unauthorized (check TRITON_GRPC_TOKEN)")
      (codes "HTTP 403 rejected as non-gRPC body (check TRITON_GRPC_TOKEN/plan)") (clip err) h

-- Making the summary panics wherever byte 200 of the text falls inside a character and the text has
-- no mark of a refused token.
pub grpc_error_summary_panics :
    (before rest : Text) (c : ℕ)
    → is_masked (before ++ (c ∷ rest)) ≡ false
    → utf8_len before < 200
    → 200 < utf8_len before + utf8_width c
    → grpc_error_summary (before ++ (c ∷ rest)) ≡ none
unfolding clip
grpc_error_summary_panics before rest c h low high =
    let long : ltb 200 (utf8_len (before ++ (c ∷ rest))) ≡ true =
      lt→ltb 200 _ (omega (arith, utf8_len-append before (c ∷ rest))) in
    rw (
      grpc_error_summary-clip (before ++ (c ∷ rest)) h,
      long,
      byte_prefix_inside before c rest 200 low high,
    )
