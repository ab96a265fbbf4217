-- ===== src/Titan/Session/Ends.antt =====
-- However a session ends, the upstream is marked as down before the next one starts.
use feed_mux.Prelude.{
  ℕ, ◌≡◌, refl, List, [], ◌∷◌, ◌++◌, true, false, Option, none, some, Text, Result, ok, err, inl,
  inr, Bool-cases,
}
use feed_mux.Config.{Base58Decode, Pubkey}
use feed_mux.Fanout.{set_titan_upstream_up}
use feed_mux.Fanout.Keys
use feed_mux.Fanout.Counters.{Server, exec_all, exec_all-append, count_zeroes}
use feed_mux.Fanout.Tally.{live}
use feed_mux.Reconnect.{ReconnectBackoff, WsError, reset, should_reset_backoff}
use feed_mux.Reconnect.Backoff.{IsValid, wait-IsValid, reset-IsValid}
use feed_mux.Titan.Board.{TitanSizeBoardDoc}
use feed_mux.Titan.Message.{TitanHop1Row}
use feed_mux.Titan.Session.{
  TitanLocalEvent, upstream_connected, Shared, Script, SessionOutcome, mark_titan_disconnected,
  run_session, live_turn, run_live_loop, backoff_after,
}

abbrev pub last : List TitanLocalEvent → Option TitanLocalEvent
last [] = none
last (e ∷ []) = some e
last (e ∷ f ∷ es) = last (f ∷ es)

last-append : (es : List TitanLocalEvent) (e : TitanLocalEvent) → last (es ++ (e ∷ [])) ≡ some e
last-append [] e = refl
last-append (f ∷ []) e = refl
last-append (f ∷ g ∷ es) e = last-append (g ∷ es) e

-- The flag is down, the relay's last event says so, and a server that holds what the commands so far
-- leave has the upstream as down and no live pair.
pub record IsDown (server : Server) (start : Server.State server) (s : Shared) : Type 0 where
  pub flag_down : s.connected ≡ false
  pub told : last s.relayed ≡ some (upstream_connected false)
  pub up_zero : server.count Keys.meta_titan_up (exec_all server s.redis start) ≡ some 0
  pub live_zero : server.count Keys.titan_pairs_live (exec_all server s.redis start) ≡ some 0

module _ (server : Server) (start : Server.State server) (channel : Text) where
  mark_titan_disconnected-IsDown :
      (s : Shared) → IsDown server start (mark_titan_disconnected (live channel) true s)
  unfolding mark_titan_disconnected set_titan_upstream_up
  mark_titan_disconnected-IsDown s =
      let down = set_titan_upstream_up (live channel) false in
      record {
        flag_down = refl;
        told = last-append s.relayed (upstream_connected false);
        up_zero =
            rw (exec_all-append server s.redis down start)
              (count_zeroes server Keys.meta_titan_up down (exec_all server s.redis start) refl);
        live_zero =
            rw (exec_all-append server s.redis down start)
              (count_zeroes server Keys.titan_pairs_live down (exec_all server s.redis start) refl);
      }

  module _ (decode : Base58Decode) (encode : List ℕ → Text)
      (row_json : TitanHop1Row → Result Text Text) (doc_json : TitanSizeBoardDoc → Result Text Text)
      (ttl : ℕ) (hunt_sizes : List ℕ) (wallet : Pubkey) where
    abbrev turn : Script → Shared × ReconnectBackoff → Shared × ReconnectBackoff
    turn = live_turn decode encode row_json doc_json (live channel) true ttl hunt_sizes wallet

    abbrev loop : List Script → Shared × ReconnectBackoff → Shared × ReconnectBackoff
    loop = run_live_loop decode encode row_json doc_json (live channel) true ttl hunt_sizes wallet

    turn-IsDown :
        (script : Script) (state : Shared × ReconnectBackoff)
        → IsDown server start (turn script state).0
    unfolding live_turn
    turn-IsDown script (s, b) =
        mark_titan_disconnected-IsDown
          (run_session decode encode row_json doc_json (live channel) true ttl hunt_sizes wallet
            script (mark_titan_disconnected (live channel) true s)).0

    loop-IsDown :
        (scripts : List Script) (state : Shared × ReconnectBackoff)
        → IsDown server start state.0
        → IsDown server start (loop scripts state).0
    unfolding run_live_loop
    loop-IsDown [] state h = h
    loop-IsDown (script ∷ scripts) state h =
        loop-IsDown scripts (turn script state) (turn-IsDown script state)

    -- With a live fan-out and a relay, whatever the sessions of the loop do and however each ends, after
    -- the last of them the flag is false, the relay's last event is the disconnect, and the server
    -- counts the upstream as down and no pair as live.
    pub run_live_loop-IsDown :
        (script : Script) (scripts : List Script) (state : Shared × ReconnectBackoff)
        → IsDown server start (loop (script ∷ scripts) state).0
    unfolding run_live_loop
    run_live_loop-IsDown script scripts state =
        loop-IsDown scripts (turn script state) (turn-IsDown script state)

    backoff_after-IsValid :
        (o : Result WsError SessionOutcome) (b : ReconnectBackoff)
        → IsValid b
        → IsValid (
            backoff_after decode encode row_json doc_json
              (live channel)
              true
              ttl
              hunt_sizes
              wallet
              o
              b)
    unfolding backoff_after
    backoff_after-IsValid (err e) b h = wait-IsValid b h
    backoff_after-IsValid (ok o) b h =
        elim (Bool-cases (should_reset_backoff o.received_data o.connected_for)) [
          | inl p ↦ rw p (wait-IsValid (reset b) (reset-IsValid b h))
          | inr p ↦ rw p (wait-IsValid b h)
        ]
