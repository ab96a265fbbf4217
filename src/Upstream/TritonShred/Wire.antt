-- ===== src/Upstream/TritonShred/Wire.antt =====
-- Datagrams and the data shreds that a sender wrote into them.
use feed_mux.Prelude.{
  ℕ, ◌≡◌, ◌≤◌, arith, List, [], ◌∷◌, ◌++◌, none, some, length, drop, min, length-append,
  drop-append_length, take-all,
}
use feed_mux.Shred.Parse.{ParsedDataShred, max_datagram_size, parse_data_shred}
use feed_mux.Shred.Parse.RoundTrip.{Frame, IsFrame, encode, parse_data_shred-encode}
use feed_mux.Upstream.TritonShred.{Datagram, received}

-- The datagram is a prefix of `skip` bytes and a frame with the shred, with any bytes behind it, and
-- the listener's buffer takes it in whole.
pub record Carries (skip : ℕ) (d : Datagram) (s : ParsedDataShred) : Type 0 where
  pub frame : Frame
  pub valid : IsFrame frame
  pub same_shred : frame.shred ≡ s
  pub prefix : List ℕ
  pub rest : List ℕ
  pub width : length prefix ≡ skip
  pub written : d.bytes ≡ prefix ++ encode frame rest
  pub fits : length d.bytes ≤ max_datagram_size

-- The shreds that the datagrams carry, in their order; some datagrams hold no data shred.
pub data Wire (skip : ℕ) : List Datagram → List ParsedDataShred → Type 0 where
  quiet : Wire skip [] []
  carrying :
      {d : Datagram} {s : ParsedDataShred} {ds : List Datagram} {ss : List ParsedDataShred}
      → Carries skip d s
      → Wire skip ds ss
      → Wire skip (d ∷ ds) (s ∷ ss)
  ignored :
      {d : Datagram} {ds : List Datagram} {ss : List ParsedDataShred}
      → parse_data_shred (drop (min skip (length (received d))) (received d)) ≡ none
      → Wire skip ds ss
      → Wire skip (d ∷ ds) ss

drop_prefix :
    (skip : ℕ) (xs ys : List ℕ)
    → length xs ≡ skip
    → drop (min skip (length (xs ++ ys))) (xs ++ ys) ≡ ys
drop_prefix skip xs ys h =
    let all : min skip (length (xs ++ ys)) ≡ length xs = omega (arith, h, length-append xs ys) in
    rw all (drop-append_length xs ys)

received_whole : (d : Datagram) → length d.bytes ≤ max_datagram_size → received d ≡ d.bytes
unfolding received
received_whole d h = take-all max_datagram_size d.bytes h

-- The parser reads the shred off the datagram.
pub parse_data_shred-Carries :
    (skip : ℕ) (d : Datagram) (s : ParsedDataShred)
    → Carries skip d s
    → parse_data_shred (drop (min skip (length (received d))) (received d)) ≡ some s
parse_data_shred-Carries skip d s c =
    rw
      (
        received_whole d c.fits,
        c.written,
        drop_prefix skip c.prefix (encode c.frame c.rest) c.width,
        ← c.same_shred,
      )
      (parse_data_shred-encode c.frame c.valid c.rest)
