-- ===== src/Titan/Session/Tallied.antt =====
-- What each of the Titan counters gains from a message, and that the other commands spare them.
use feed_mux.Prelude.{ℕ, ◌≡◌, arith, List, Bool, some, Text, Result, ok}
use feed_mux.Config.{Base58Decode, Pubkey}
use feed_mux.Fanout.{set_titan_upstream_up, publish_titan_size_board}
use feed_mux.Fanout.Keys
use feed_mux.Fanout.Silence.{titan_up, size_board, commands}
use feed_mux.Fanout.Counters.{gains}
use feed_mux.Fanout.Tally.{live}
use feed_mux.Titan.Board.{TitanSizeBoardDoc}
use feed_mux.Titan.Message.{TitanHop1Row, TitanMessageKind, Handled, handle_titan_server_message}
use feed_mux.Titan.Message.Effects.{
  published, failed, unread, Counts, handle_titan_server_message-Counts,
}
use feed_mux.Titan.Session.Counted.{Adds}

module _ (decode : Base58Decode) (encode : List ℕ → Text)
    (row_json : TitanHop1Row → Result Text Text) (doc_json : TitanSizeBoardDoc → Result Text Text)
    (channel : Text) (has_relay : Bool) (ttl : ℕ) (hunt_sizes : List ℕ) (wallet : Pubkey)
    (serial : (row : TitanHop1Row) → (json : Text) × (row_json row ≡ ok json)) where
  abbrev pub Key : Text → (TitanMessageKind → ℕ) → Type 0
  Key = Adds decode encode row_json doc_json channel has_relay ttl

  -- A key whose gain from a message the counts tell.
  by_message :
      (k : Text) (by : TitanMessageKind → ℕ)
      → ((up : Bool) → gains k (commands (live channel) (titan_up up)) ≡ some 0)
      → ((json : Result Text Text) → gains k (commands (live channel) (size_board json)) ≡ some 0)
      → ((r : Handled) → Counts r → gains k r.sent ≡ some (by r.kind))
      → Key k by
  by_message k by up board message = record {
    for_up = up;
    for_board = board;
    for_message = λ v ts now end registry board.
        message
          (handle_titan_server_message decode encode row_json doc_json (live channel) ttl ts now end
            v registry board)
          (handle_titan_server_message-Counts decode encode row_json doc_json channel ttl ts now end
            registry board v serial);
  }

  pub hop1_served-Adds : Key Keys.titan_hop1_served published
  unfolding set_titan_upstream_up publish_titan_size_board
  hop1_served-Adds =
      by_message Keys.titan_hop1_served published (λ up. ground arith) (λ json. ground arith)
        (λ r c. c.0)

  pub decoded-Adds : Key Keys.titan_decoded published
  unfolding set_titan_upstream_up publish_titan_size_board
  decoded-Adds =
      by_message Keys.titan_decoded published (λ up. ground arith) (λ json. ground arith)
        (λ r c. c.1)

  pub errors-Adds : Key Keys.titan_errors failed
  unfolding set_titan_upstream_up publish_titan_size_board
  errors-Adds =
      by_message Keys.titan_errors failed (λ up. ground arith) (λ json. ground arith) (λ r c. c.2)

  pub fell_through-Adds : Key Keys.titan_fell_through unread
  unfolding set_titan_upstream_up publish_titan_size_board
  fell_through-Adds =
      by_message Keys.titan_fell_through unread (λ up. ground arith) (λ json. ground arith)
        (λ r c. c.3)
