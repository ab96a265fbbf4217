-- ===== src/Titan/Message/Streams.antt =====
-- From a subscription by its response to the quotes of its stream.
use feed_mux.Prelude.{ℕ, ◌≡◌, refl, ◌∙◌, subst, arith, List, Option, none, some, Text}
use feed_mux.Prelude.TreeMap.{nat_key, lookup, lookup-insert}
use feed_mux.Config.{Base58Decode}
use feed_mux.Titan.Value.{Value}
use feed_mux.Titan.Registry.{
  TitanStreamRegistry, size_for_stream, register_pending_request, confirm_stream,
}
use feed_mux.Titan.Quote.{ParsedHop1Quote, parse_stream_data_hop1}
use feed_mux.Titan.Quote.Size.{Every, HasSize, size_of_quote}
use feed_mux.Titan.Message.{confirmation, register_stream_from_response}

Every_value {ℓ κ} :
    {A : Type ℓ} (P : A → Type κ) (o : Option A) (a : A) → Every P o → o ≡ some a → P a
Every_value P none a h e = absurd (ground (arith, e))
Every_value P (some b) a h e = subst P (ground (arith, e)) h

-- The registry after a request for a size and the response that confirms it.
abbrev pub confirmed : TitanStreamRegistry → ℕ → ℕ → Value → TitanStreamRegistry
confirmed r request_id size reply =
    register_stream_from_response reply (register_pending_request r request_id size)

register_stream_from_response_lem :
    (r : TitanStreamRegistry) (request_id stream_id : ℕ) (reply : Value)
    → confirmation reply ≡ some (request_id, stream_id)
    → register_stream_from_response reply r ≡ confirm_stream r request_id stream_id
unfolding register_stream_from_response
register_stream_from_response_lem r request_id stream_id reply h =
    rw (register_stream_from_response, h) refl

size_for_stream-confirm_stream :
    (r : TitanStreamRegistry) (request_id stream_id size : ℕ)
    → lookup request_id r.request_to_size ≡ some size
    → size_for_stream (confirm_stream r request_id stream_id) stream_id ≡ some size
unfolding confirm_stream size_for_stream
size_for_stream-confirm_stream r request_id stream_id size h =
    rw (confirm_stream, h) (lookup-insert stream_id stream_id size r.stream_to_size ∙ ground arith)

size_for_stream-confirmed :
    (r : TitanStreamRegistry) (request_id stream_id size : ℕ) (reply : Value)
    → confirmation reply ≡ some (request_id, stream_id)
    → size_for_stream (confirmed r request_id size reply) stream_id ≡ some size
unfolding register_pending_request
size_for_stream-confirmed r request_id stream_id size reply h =
    let r' = register_pending_request r request_id size in
    rw (register_stream_from_response_lem r' request_id stream_id reply h) (
      size_for_stream-confirm_stream r' request_id stream_id size
        (lookup-insert request_id request_id size r.request_to_size ∙ ground arith))

-- Once a response confirms the stream of a request for a size, every quote of that stream is a
-- quote for that size, whatever amount its message names.
pub parse_stream_data_hop1-confirmed :
    (decode : Base58Decode) (encode : List ℕ → Text) (r : TitanStreamRegistry)
    (request_id stream_id size : ℕ) (reply v : Value) (q : ParsedHop1Quote)
    → confirmation reply ≡ some (request_id, stream_id)
    → parse_stream_data_hop1 decode encode (some v) (confirmed r request_id size reply) ≡ some q
    → q.stream_id ≡ stream_id
    → q.size_lamports ≡ size
parse_stream_data_hop1-confirmed decode encode r request_id stream_id size reply v q h e same =
    let r' = confirmed r request_id size reply in
    Every_value (HasSize decode encode r') (parse_stream_data_hop1 decode encode (some v) r') q
      (size_of_quote decode encode r' v) e size
      (rw same (size_for_stream-confirmed r request_id stream_id size reply h))
