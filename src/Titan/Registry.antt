-- ===== src/Titan/Registry.antt =====
-- src/titan_quote.rs: the registry of streams.
use feed_mux.Prelude.{ℕ, [], Option, none, some}
use feed_mux.Prelude.TreeMap.{nat_key, Map, lookup, insert}

pub record TitanStreamRegistry : Type 0 where
  pub request_to_size : Map ℕ ℕ
  pub stream_to_size : Map ℕ ℕ

-- The source's `clear` and `default`.
abbrev pub cleared : TitanStreamRegistry
cleared = record { request_to_size = []; stream_to_size = [] }

unfoldable pub register_pending_request : TitanStreamRegistry → ℕ → ℕ → TitanStreamRegistry
register_pending_request r request_id size_lamports = record r {
  request_to_size = insert request_id size_lamports r.request_to_size;
}

unfoldable pub size_for_pending_request : TitanStreamRegistry → ℕ → Option ℕ
size_for_pending_request r request_id = lookup request_id r.request_to_size

unfoldable pub size_for_stream : TitanStreamRegistry → ℕ → Option ℕ
size_for_stream r stream_id = lookup stream_id r.stream_to_size

unfoldable pub confirm_stream : TitanStreamRegistry → ℕ → ℕ → TitanStreamRegistry
confirm_stream r request_id stream_id = elim (lookup request_id r.request_to_size) [
  | none ↦ r
  | some size ↦ record r { stream_to_size = insert stream_id size r.stream_to_size }
]
