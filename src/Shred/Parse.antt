-- ===== src/Shred/Parse.antt =====
-- src/shred/parse.rs: the header of a data shred in a UDP datagram. A packet is a list of bytes;
-- `slice` is the source's `packet[a..b]`, which is in bounds wherever the code takes one.
pub mod Bounds
pub mod RoundTrip
use feed_mux.Prelude.{
  ℕ, ◌+◌, ◌-◌, ◌*◌, ◌%◌, ◌/◌, Bool, ◌||◌, not, List, [], ◌∷◌, Option, none, some, ltb, leb, ◌==◌,
  if◌then◌else◌, length, get_elem?, unwrap_or, take, drop, ◌>>=◌,
}

abbrev pub max_datagram_size : ℕ
max_datagram_size = 1232

abbrev pub size_of_data_headers : ℕ
size_of_data_headers = 88

pub data ShredKind : Type 0 where
  data_shred coding unknown : ShredKind

pub record ParsedDataShred : Type 0 where
  pub slot : ℕ
  pub index : ℕ
  pub fec_set_index : ℕ
  pub data_complete : Bool
  pub last_in_slot : Bool
  pub payload : List ℕ

unfoldable pub shred_kind : ℕ → ShredKind
shred_kind variant =
    if variant == 0x5a || variant == 0xa5
    then ShredKind.data_shred
    else if variant == 0x69 || variant == 0x96
    then ShredKind.data_shred
    else if variant == 0x4b || variant == 0xb4
    then ShredKind.coding
    else if variant == 0x78 || variant == 0x87
    then ShredKind.coding
    else ShredKind.unknown

abbrev pub is_data : ShredKind → Bool
is_data ShredKind.data_shred = Bool.true
is_data _ = Bool.false

unfoldable pub slice : List ℕ → ℕ → ℕ → List ℕ
slice packet from to = take (to - from) (drop from packet)

-- `from_le_bytes`: the first byte is the least.
unfoldable pub from_le_bytes : List ℕ → ℕ
from_le_bytes [] = 0
from_le_bytes (b ∷ bs) = b + 256 * from_le_bytes bs

unfoldable pub merkle_proof_bytes : ℕ → ℕ
merkle_proof_bytes body_len = if ltb 600 body_len then 80 else if ltb 400 body_len then 40 else 0

-- `saturating_sub` is the subtraction of ℕ.
unfoldable pub merkle_payload_end : List ℕ → ℕ → Option ℕ
merkle_payload_end packet declared_size =
    if leb declared_size size_of_data_headers
    then none
    else let body = slice packet size_of_data_headers declared_size in
      if leb (length body) 20
      then some declared_size
      else some (declared_size - merkle_proof_bytes (length body))

-- A byte of the packet; 0 stands for no byte, which the length test has ruled out.
unfoldable pub byte_at : List ℕ → ℕ → ℕ
byte_at packet i = unwrap_or (get_elem? packet i) 0

-- `flags & 0b0000_0001 != 0`.
abbrev pub data_complete_bit : ℕ → Bool
data_complete_bit flags = not (flags % 2 == 0)

-- `flags & 0b1000_0000 != 0`.
abbrev pub last_in_slot_bit : ℕ → Bool
last_in_slot_bit flags = not ((flags / 128) % 2 == 0)

unfoldable pub parsed : List ℕ → ℕ → ParsedDataShred
parsed packet payload_end = record {
  slot = from_le_bytes (slice packet 65 73);
  index = from_le_bytes (slice packet 73 77);
  fec_set_index = from_le_bytes (slice packet 79 83);
  data_complete = data_complete_bit (byte_at packet 85);
  last_in_slot = last_in_slot_bit (byte_at packet 85);
  payload = slice packet size_of_data_headers payload_end;
}

unfoldable pub declared_size : List ℕ → ℕ
declared_size packet = from_le_bytes (slice packet 86 88)

unfoldable pub parse_data_shred : List ℕ → Option ParsedDataShred
parse_data_shred packet = if ltb (length packet) size_of_data_headers then none else do
  variant ← get_elem? packet 64
  if not (is_data (shred_kind variant))
      then none
      else let end = declared_size packet in
        if ltb (length packet) end || leb end size_of_data_headers
        then none
        else do payload_end ← merkle_payload_end packet end; some (parsed packet payload_end)
