-- ===== src/Relay/TitanClient/Order.antt =====
-- What a client of the relay sees of the events that the upstream relays.
use feed_mux.Prelude.{
  append_cancel, ℕ, ◌+◌, ◌≤◌, ◌≡◌, refl, sym, ap, ◌∙◌, arith, List, [], ◌∷◌, ◌++◌, map, Bool, true,
  none, some, Text, Result, drop,
}
use feed_mux.Config.{Base58Decode, Pubkey}
use feed_mux.Fanout.{RedisFanout}
use feed_mux.Reconnect.{WsError, is_expected_disconnect}
use feed_mux.Titan.Board.{TitanSizeBoardDoc}
use feed_mux.Titan.Message.{TitanHop1Row}
use feed_mux.Titan.Session.{
  TitanLocalEvent, upstream_frame, upstream_connected, Shared, Event, read_loop,
}
use feed_mux.Titan.Session.Relay.{frames_of, read_loop-frames_of}
use feed_mux.Relay.Channel.{
  Received, value, lagged, channel_closed, Delivers, next, after_lag, Kept, rest, keep, skip,
  values_in, missed,
}
use feed_mux.Relay.TitanClient.{
  LocalMessage, text_message, binary_message, pong, Turn, from_channel, from_client, client_ping,
  client_close, client_end, client_other, client_error, serving, message_of, stop_on, client_loop,
  local_status,
}

-- What the client has received of the channel over all its turns.
abbrev pub receipts : List Turn → List (Received TitanLocalEvent)
receipts [] = []
receipts (from_channel r result ∷ turns) = r ∷ receipts turns
receipts (from_client e ∷ turns) = receipts turns

-- The messages other than pongs.
abbrev pub relayed : List LocalMessage → List LocalMessage
relayed [] = []
relayed (text_message s ∷ ms) = text_message s ∷ relayed ms
relayed (binary_message bytes ∷ ms) = binary_message bytes ∷ relayed ms
relayed (pong ∷ ms) = relayed ms

relayed-message_of :
    (e : TitanLocalEvent) (ms : List LocalMessage)
    → relayed (message_of e ∷ ms) ≡ message_of e ∷ relayed ms
unfolding message_of local_status
relayed-message_of (upstream_frame bytes) ms = refl
relayed-message_of (upstream_connected up) ms = refl

-- Messages that are those of some of the events, in order.
pub record InOrder (es : List TitanLocalEvent) (lost : ℕ) (ms : List LocalMessage) : Type 0 where
  pub shown : List TitanLocalEvent
  pub between : ℕ
  pub same : ms ≡ map message_of shown
  pub kept : Kept between shown es
  pub few : between ≤ lost

none_shown : (es : List TitanLocalEvent) (n : ℕ) → InOrder es n []
none_shown es n = record { shown = []; between = 0; same = refl; kept = rest; few = omega arith }

-- Whatever the client does, and however often it lags behind, the statuses and frames that it is sent
-- after the first status are those of the upstream's events, in the order of the events and beginning
-- with the first, and no more events are left out between them than the channel counted as missed.
pub client_loop-InOrder :
    (turns : List Turn) (es : List TitanLocalEvent)
    → Delivers es (receipts turns)
    → InOrder es (missed (receipts turns)) (relayed (client_loop turns).0)
unfolding client_loop
client_loop-InOrder [] es d = none_shown es 0
client_loop-InOrder (from_channel (value e) none ∷ turns) [] d = elim d [ ]
client_loop-InOrder (from_channel (value e) none ∷ turns) (e' ∷ es) (next d) =
    let i = client_loop-InOrder turns es d in
    record {
      shown = e ∷ i.shown;
      between = i.between;
      same = relayed-message_of e (client_loop turns).0 ∙ ap (λ ms. message_of e ∷ ms) i.same;
      kept = keep i.kept;
      few = i.few;
    }
client_loop-InOrder (from_channel (value e) (some err) ∷ turns) es d =
    none_shown es (missed (receipts (from_channel (value e) (some err) ∷ turns)))
client_loop-InOrder (from_channel (lagged n) result ∷ turns) es (after_lag h d) =
    let i = client_loop-InOrder turns (drop n es) d in
    record {
      shown = i.shown;
      between = n + i.between;
      same = i.same;
      kept = skip h i.kept;
      few = omega (arith, i.few);
    }
client_loop-InOrder (from_channel channel_closed result ∷ turns) es d =
    none_shown es (missed (receipts (from_channel channel_closed result ∷ turns)))
client_loop-InOrder (from_client (client_ping none) ∷ turns) es d = client_loop-InOrder turns es d
client_loop-InOrder (from_client (client_ping (some err)) ∷ turns) es d =
    none_shown es (missed (receipts (from_client (client_ping (some err)) ∷ turns)))
client_loop-InOrder (from_client client_close ∷ turns) es d =
    none_shown es (missed (receipts (from_client client_close ∷ turns)))
client_loop-InOrder (from_client client_end ∷ turns) es d =
    none_shown es (missed (receipts (from_client client_end ∷ turns)))
client_loop-InOrder (from_client client_other ∷ turns) es d = client_loop-InOrder turns es d
client_loop-InOrder (from_client (client_error err) ∷ turns) es d =
    none_shown es (missed (receipts (from_client (client_error err) ∷ turns)))

stop_on-not_serving : (e : WsError) → stop_on e ≡ serving → ⊥
unfolding stop_on is_expected_disconnect
stop_on-not_serving e h = ground (arith, h)

-- A client that is still served has been sent everything that it received.
client_loop-serving :
    (turns : List Turn)
    → (client_loop turns).1 ≡ serving
    → relayed (client_loop turns).0 ≡ map message_of (values_in (receipts turns))
unfolding client_loop
client_loop-serving [] h = refl
client_loop-serving (from_channel (value e) none ∷ turns) h =
    relayed-message_of e (client_loop turns).0
    ∙ ap (λ ms. message_of e ∷ ms) (client_loop-serving turns h)
client_loop-serving (from_channel (value e) (some err) ∷ turns) h =
    absurd (stop_on-not_serving err h)
client_loop-serving (from_channel (lagged n) result ∷ turns) h = client_loop-serving turns h
client_loop-serving (from_channel channel_closed result ∷ turns) h = cc
client_loop-serving (from_client (client_ping none) ∷ turns) h = client_loop-serving turns h
client_loop-serving (from_client (client_ping (some err)) ∷ turns) h =
    absurd (stop_on-not_serving err h)
client_loop-serving (from_client client_close ∷ turns) h = cc
client_loop-serving (from_client client_end ∷ turns) h = cc
client_loop-serving (from_client client_other ∷ turns) h = client_loop-serving turns h
client_loop-serving (from_client (client_error err) ∷ turns) h = absurd (stop_on-not_serving err h)

-- Where a client is still served and has received all that a session of the upstream has relayed
-- since the client subscribed, none of it missed, it has been sent the binary messages of the
-- session up to the session's end, unchanged and in order, and nothing else but pongs.
pub client_loop-read_loop :
    (decode : Base58Decode) (encode : List ℕ → Text) (row_json : TitanHop1Row → Result Text Text)
    (doc_json : TitanSizeBoardDoc → Result Text Text) (fanout : RedisFanout) (ttl : ℕ)
    (hunt_sizes : List ℕ) (wallet : Pubkey) (events : List Event) (received : Bool) (s : Shared)
    (turns : List Turn)
    → (client_loop turns).1 ≡ serving
    → (read_loop decode encode row_json doc_json fanout true ttl hunt_sizes wallet events received
        s).0.relayed
      ≡ s.relayed ++ values_in (receipts turns)
    → relayed (client_loop turns).0 ≡ map message_of (frames_of events)
client_loop-read_loop decode encode row_json doc_json fanout ttl hunt_sizes wallet events received s
      turns h e =
    let sent =
      read_loop-frames_of decode encode row_json doc_json fanout ttl hunt_sizes wallet events
        received s in
    client_loop-serving turns h
    ∙ ap (map message_of)
        (append_cancel s.relayed (values_in (receipts turns)) (frames_of events) (sym e ∙ sent.0))
