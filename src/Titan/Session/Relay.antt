-- ===== src/Titan/Session/Relay.antt =====
-- What the local relay sees of a session.
use feed_mux.Prelude.{
  ℕ, ◌≡◌, refl, ◌∙◌, append_assoc, append-nil, List, [], ◌∷◌, ◌++◌, Bool, true, false, ◌||◌, arith,
  none, some, Text, Result,
}
use feed_mux.Config.{Base58Decode, Pubkey}
use feed_mux.Fanout.{RedisFanout}
use feed_mux.Reconnect.{WsError, WsDisconnectKind}
use feed_mux.Titan.Board.{TitanSizeBoardDoc}
use feed_mux.Titan.Message.{TitanHop1Row}
use feed_mux.Titan.Session.{
  TitanLocalEvent, upstream_frame, Shared, Event, binary_message, ping, close_message,
  other_message, failure, on_binary, read_loop,
}

-- The frames that arrive before the message that ends the session.
abbrev pub frames_of : List Event → List TitanLocalEvent
frames_of [] = []
frames_of (binary_message bytes value ts now end ∷ es) = upstream_frame bytes ∷ frames_of es
frames_of (ping none ∷ es) = frames_of es
frames_of (ping (some e) ∷ es) = []
frames_of (close_message ∷ es) = []
frames_of (other_message ∷ es) = frames_of es
frames_of (failure e ∷ es) = []

-- Whether there is such a frame.
abbrev pub any_frame : List Event → Bool
any_frame es = elim (frames_of es) [ [] ↦ false | f ∷ fs ↦ true ]

or_true : (b : Bool) → (b || true) ≡ true
or_true b = ground arith

module _ (decode : Base58Decode) (encode : List ℕ → Text)
    (row_json : TitanHop1Row → Result Text Text) (doc_json : TitanSizeBoardDoc → Result Text Text)
    (fanout : RedisFanout) (ttl : ℕ) (hunt_sizes : List ℕ) (wallet : Pubkey) where
  abbrev loop : List Event → Bool → Shared → Shared × Bool × Result WsError WsDisconnectKind
  loop = read_loop decode encode row_json doc_json fanout true ttl hunt_sizes wallet

  -- The relay gets exactly the binary messages up to the end of the session, unchanged and in order,
  -- whatever the handler makes of them, and the session counts as one that received data exactly if
  -- there is such a message or it did before.
  pub read_loop-frames_of :
      (es : List Event) (received : Bool) (s : Shared)
      → ((loop es received s).0.relayed ≡ s.relayed ++ frames_of es)
        × ((loop es received s).1 ≡ (any_frame es || received))
  unfolding read_loop on_binary
  read_loop-frames_of [] received s = (rw append-nil refl, refl)
  read_loop-frames_of (binary_message bytes value ts now end ∷ es) received s =
      let s' =
        on_binary decode encode row_json doc_json fanout true ttl hunt_sizes wallet bytes value ts
          now end s in
      (
        (read_loop-frames_of es true s').0
            ∙ append_assoc s.relayed (upstream_frame bytes ∷ []) (frames_of es),
        (read_loop-frames_of es true s').1 ∙ or_true (any_frame es),
      )
  read_loop-frames_of (ping none ∷ es) received s = read_loop-frames_of es received s
  read_loop-frames_of (ping (some e) ∷ es) received s = (rw append-nil refl, refl)
  read_loop-frames_of (close_message ∷ es) received s = (rw append-nil refl, refl)
  read_loop-frames_of (other_message ∷ es) received s = read_loop-frames_of es received s
  read_loop-frames_of (failure e ∷ es) received s = (rw append-nil refl, refl)
