-- ===== src/Relay/TitanClient.antt =====
-- src/titan_local.rs: a client of the local WebSocket relay. What `select!` yields is a list of
-- turns, each from the channel or from the client's socket, with the result of the send that the
-- turn makes; the list ends where the client is still served.
pub mod Order
use feed_mux.Prelude.{
  ℕ, List, [], ◌∷◌, ◌++◌, Bool, true, false, Option, none, some, if◌then◌else◌, Text, codes,
}
use feed_mux.Reconnect.{WsError, is_expected_disconnect}
use feed_mux.Titan.Session.{TitanLocalEvent, upstream_frame, upstream_connected}
use feed_mux.Relay.Channel.{Received, value, lagged, channel_closed}

-- The `json!` object of a status.
pub record LocalStatus : Type 0 where
  pub event : Text
  pub upstream : Text
  pub connected : Bool

pub data LocalMessage : Type 0 where
  text_message : LocalStatus → LocalMessage
  binary_message : List ℕ → LocalMessage
  pong : LocalMessage

-- What the client's socket yields; a ping comes with the error of the pong.
pub data ClientEvent : Type 0 where
  client_ping : Option WsError → ClientEvent
  client_close : ClientEvent
  client_end : ClientEvent
  client_other : ClientEvent
  client_error : WsError → ClientEvent

pub data Turn : Type 0 where
  from_channel : Received TitanLocalEvent → Option WsError → Turn
  from_client : ClientEvent → Turn

pub data ClientState : Type 0 where
  serving served : ClientState
  failed : WsError → ClientState

unfoldable pub local_status : Bool → LocalMessage
local_status connected = text_message (record {
  event = codes "titan.local.status";
  upstream = codes "titan_ws";
  connected = connected;
})

unfoldable pub message_of : TitanLocalEvent → LocalMessage
unfolding local_status
message_of (upstream_frame bytes) = binary_message bytes
message_of (upstream_connected up) = local_status up

-- An expected disconnect breaks the loop, any other error is returned.
unfoldable pub stop_on : WsError → ClientState
unfolding is_expected_disconnect
stop_on e = if is_expected_disconnect e then served else failed e

abbrev pub sending :
    LocalMessage → List LocalMessage × ClientState → List LocalMessage × ClientState
sending m (ms, state) = (m ∷ ms, state)

-- The messages sent to the client, and how the loop stands.
unfoldable pub client_loop : List Turn → List LocalMessage × ClientState
unfolding message_of stop_on
client_loop [] = ([], serving)
client_loop (from_channel (value e) none ∷ turns) = sending (message_of e) (client_loop turns)
client_loop (from_channel (value e) (some err) ∷ turns) = ([], stop_on err)
client_loop (from_channel (lagged n) result ∷ turns) = client_loop turns
client_loop (from_channel channel_closed result ∷ turns) = ([], served)
client_loop (from_client (client_ping none) ∷ turns) = sending pong (client_loop turns)
client_loop (from_client (client_ping (some err)) ∷ turns) = ([], stop_on err)
client_loop (from_client client_close ∷ turns) = ([], served)
client_loop (from_client client_end ∷ turns) = ([], served)
client_loop (from_client client_other ∷ turns) = client_loop turns
client_loop (from_client (client_error err) ∷ turns) = ([], stop_on err)

-- `accepting` is the error of the handshake, `greeting` that of sending the first status; `connected`
-- is the relay's flag when it is read.
unfoldable pub serve_client :
    Option WsError → Bool → Option WsError → List Turn → List LocalMessage × ClientState
unfolding local_status client_loop
serve_client (some err) connected greeting turns = ([], failed err)
serve_client none connected (some err) turns = ([], failed err)
serve_client none connected none turns = sending (local_status connected) (client_loop turns)
