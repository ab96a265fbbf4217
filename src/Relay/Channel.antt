-- ===== src/Relay/Channel.antt =====
-- What tokio documents of a receiver of its `broadcast` channel, as a relation between the values
-- sent since the receiver subscribed and what it has received so far: the values come in order; a
-- receiver that falls behind is told how many values it has missed, and goes on behind them; a
-- closed channel says so behind its last value.
use feed_mux.Prelude.{ℕ, ◌+◌, ◌≤◌, List, [], ◌∷◌, length, drop}

pub data Received (E : Type 0) : Type 0 where
  value : E → Received E
  lagged : ℕ → Received E
  channel_closed : Received E

pub data Delivers {E : Type 0} : List E → List (Received E) → Type 0 where
  so_far : {es : List E} → Delivers es []
  next :
      {e : E} {es : List E} {rs : List (Received E)}
      → Delivers es rs
      → Delivers (e ∷ es) (value e ∷ rs)
  after_lag :
      {n : ℕ} {es : List E} {rs : List (Received E)}
      → n ≤ length es
      → Delivers (drop n es) rs
      → Delivers es (lagged n ∷ rs)
  the_end : Delivers [] (channel_closed ∷ [])

-- `Kept n xs es`: the list `es` begins with the values `xs`, in their order, among which `n` further
-- values stand.
pub data Kept {E : Type 0} : ℕ → List E → List E → Type 0 where
  rest : {es : List E} → Kept 0 [] es
  keep : {n : ℕ} {e : E} {xs es : List E} → Kept n xs es → Kept n (e ∷ xs) (e ∷ es)
  skip : {n m : ℕ} {xs es : List E} → m ≤ length es → Kept n xs (drop m es) → Kept (m + n) xs es

module _ {E : Type 0} where
  -- The values among what was received, and how many were missed.
  abbrev pub values_in : List (Received E) → List E
  values_in [] = []
  values_in (value e ∷ rs) = e ∷ values_in rs
  values_in (lagged n ∷ rs) = values_in rs
  values_in (channel_closed ∷ rs) = values_in rs

  abbrev pub missed : List (Received E) → ℕ
  missed [] = 0
  missed (value e ∷ rs) = missed rs
  missed (lagged n ∷ rs) = n + missed rs
  missed (channel_closed ∷ rs) = missed rs

  pub Delivers-Kept :
      {es : List E} {rs : List (Received E)} → Delivers es rs → Kept (missed rs) (values_in rs) es
  Delivers-Kept so_far = rest
  Delivers-Kept (next d) = keep (Delivers-Kept d)
  Delivers-Kept (after_lag h d) = skip h (Delivers-Kept d)
  Delivers-Kept the_end = rest
