-- ===== src/Titan/Board.antt =====
-- src/titan_quote.rs: the size board and its document. The source's `HashMap`s are maps in key order;
-- the document sorts the pins by their key, so the order of iteration does not show.
pub mod Find
use feed_mux.Prelude.{
  ℕ, ◌+◌, ◌-◌, List, [], ◌∷◌, ◌++◌, map, Bool, true, false, Option, none, some, if◌then◌else◌, leb,
  ltb, Text, codes,
}
use feed_mux.Prelude.TreeMap.{nat_key, Map, lookup, contains_key, insert, remove, values}

pub record SizeBoardPin : Type 0 where
  pub size_lamports : ℕ
  pub hop1_age_ms : ℕ
  pub hop1_fresh_ms : ℕ
  pub provider : Text
  pub venue_label : Text
  pub route_in_amount : ℕ
  pub route_out_amount : ℕ
  pub status : Option Text

pub record TitanSizeBoard : Type 0 where
  pub pins : Map ℕ SizeBoardPin
  pub hunt_sizes : List ℕ
  pub unsubscribed : Map ℕ (Unit {0})

-- The source's `clear` and `default`.
abbrev pub cleared_board : TitanSizeBoard
cleared_board = record { pins = []; hunt_sizes = []; unsubscribed = [] }

unfoldable pub init_hunt_sizes : TitanSizeBoard → List ℕ → TitanSizeBoard
init_hunt_sizes board sizes = record board { hunt_sizes = sizes }

unfoldable pub mark_unsubscribed : TitanSizeBoard → ℕ → TitanSizeBoard
mark_unsubscribed board size_lamports = record board {
  unsubscribed = insert size_lamports tt board.unsubscribed;
}

-- The block of `publish_hop1_quote` that holds the board's lock.
unfoldable pub put_pin : TitanSizeBoard → SizeBoardPin → TitanSizeBoard
put_pin board pin = record board {
  unsubscribed = remove pin.size_lamports board.unsubscribed;
  pins = insert pin.size_lamports pin board.pins;
}

pub record TitanSizeBoardDoc : Type 0 where
  pub schema : Text
  pub pair : Text
  pub base : Text
  pub mid : Text
  pub updated_ms : ℕ
  pub pins : List SizeBoardPin

-- `saturating_sub` is the subtraction of ℕ.
abbrev pub aged : ℕ → SizeBoardPin → SizeBoardPin
aged now pin = record pin { hop1_age_ms = now - pin.hop1_fresh_ms }

-- The pin of a hunt size without a quote.
abbrev pub blank_pin : TitanSizeBoard → ℕ → SizeBoardPin
blank_pin board size = record {
  size_lamports = size;
  hop1_age_ms = 0;
  hop1_fresh_ms = 0;
  provider = [];
  venue_label = [];
  route_in_amount = 0;
  route_out_amount = 0;
  status = if contains_key board.unsubscribed size then some (codes "unsubscribed") else none;
}

-- The loop over the hunt sizes.
unfoldable pub blank_pins : TitanSizeBoard → List ℕ → List SizeBoardPin
blank_pins board [] = []
blank_pins board (size ∷ sizes) =
    let rest = blank_pins board sizes in
    if contains_key board.pins size then rest else blank_pin board size ∷ rest

unfoldable pub insert_pin : SizeBoardPin → List SizeBoardPin → List SizeBoardPin
insert_pin p [] = p ∷ []
insert_pin p (q ∷ qs) =
    let rest = insert_pin p qs in
    if leb p.size_lamports q.size_lamports then p ∷ q ∷ qs else q ∷ rest

-- `sort_by_key(|p| p.size_lamports)`, which is stable.
unfoldable pub sort_pins : List SizeBoardPin → List SizeBoardPin
unfolding insert_pin
sort_pins [] = []
sort_pins (p ∷ ps) = insert_pin p (sort_pins ps)

unfoldable pub build_size_board_doc_with_pair :
    TitanSizeBoard → ℕ → Text → Text → Text → TitanSizeBoardDoc
unfolding sort_pins blank_pins
build_size_board_doc_with_pair board now pair base mid = record {
  schema = codes "mux.titan.size_board.v1";
  pair = pair;
  base = base;
  mid = mid;
  updated_ms = now;
  pins = sort_pins (map (aged now) (values board.pins) ++ blank_pins board board.hunt_sizes);
}
