-- ===== src/Shred/Parse/Bounds.antt =====
-- What a parsed data shred guarantees, whatever the packet.
use feed_mux.Prelude.{
  ℕ, ◌+◌, ◌-◌, ◌^◌, ◌≤◌, ◌<◌, ◌≡◌, List, [], ◌∷◌, some, All, arith, length, take, drop, min,
  length-take, length-drop, Option-cases, inl, inr,
}
use feed_mux.Shred.Parse.{
  ParsedDataShred, parse_data_shred, merkle_payload_end, merkle_proof_bytes, from_le_bytes, slice,
  declared_size, parsed,
}
use native.Mathlib.Nat.{pow-suc, add-sub_cancel_left}

abbrev pub IsByte : ℕ → Type 0
IsByte b = b < 256

All-drop : (P : ℕ → Type 0) (n : ℕ) (xs : List ℕ) → All P xs → All P (drop n xs)
All-drop P ℕ.zero xs h = h
All-drop P (ℕ.suc n) [] h = h
All-drop P (ℕ.suc n) (x ∷ xs) h = All-drop P n xs h.1

from_le_bytes_bound : (n : ℕ) (bs : List ℕ) → All IsByte bs → from_le_bytes (take n bs) < 256 ^ n
unfolding from_le_bytes
from_le_bytes_bound ℕ.zero bs h = omega arith
from_le_bytes_bound (ℕ.suc n) [] h = rw pow-suc (omega (arith, from_le_bytes_bound n [] h))
from_le_bytes_bound (ℕ.suc n) (b ∷ bs) h = rw pow-suc (omega (arith, from_le_bytes_bound n bs h.1))

length-slice : (p : List ℕ) (a b : ℕ) → length (slice p a b) ≡ min (b - a) (length p - a)
unfolding slice
length-slice p a b = omega (arith, length-take (b - a) (drop a p), length-drop a p)

merkle_proof_bytes-lt : (n : ℕ) → 20 < n → merkle_proof_bytes n < n
unfolding merkle_proof_bytes
merkle_proof_bytes-lt n h = ground arith

-- `merkle_payload_end` seen from outside.
pub payload_end_bounds :
    (p : List ℕ) (size : ℕ) (e : ℕ)
    → merkle_payload_end p size ≡ some e
    → size ≤ length p
    → (88 < e) × (e ≤ size)
unfolding merkle_payload_end
payload_end_bounds p size e h k =
    ground (arith, length-slice p 88 size, merkle_proof_bytes-lt (length (slice p 88 size)))

field_bound :
    (packet : List ℕ) (from n : ℕ)
    → All IsByte packet
    → from_le_bytes (slice packet from (from + n)) < 256 ^ n
unfolding slice
field_bound packet from n bytes =
    rw (add-sub_cancel_left from n)
      (from_le_bytes_bound n (drop from packet) (All-drop IsByte from packet bytes))

-- A packet that parses declares a size within the packet, and the record is read off it.
pub parse_some :
    (packet : List ℕ) (s : ParsedDataShred)
    → parse_data_shred packet ≡ some s
    → (e : ℕ) × (88 < e) × (e ≤ length packet) × (s ≡ parsed packet e)
unfolding parse_data_shred
parse_some packet s h = elim (Option-cases (merkle_payload_end packet (declared_size packet))) [
  | inl e ↦ absurd (ground arith)
  | inr (e, found) ↦
      let within : declared_size packet ≤ length packet = ground arith in
      let bounds = payload_end_bounds packet (declared_size packet) e found within in
      (e, bounds.0, omega arith, ground arith)
]

-- A packet of bytes that parses is at least a header long, its numbers fit the widths of their
-- fields (64, 32 and 32 bits), and the payload is not empty and lies within the packet behind the
-- header.
pub parse_data_shred_bounds :
    (packet : List ℕ) (s : ParsedDataShred)
    → All IsByte packet
    → parse_data_shred packet ≡ some s
    → (s.slot < 2 ^ 64)
      × (s.index < 2 ^ 32)
      × (s.fec_set_index < 2 ^ 32)
      × (0 < length s.payload)
      × (length s.payload + 88 ≤ length packet)
unfolding parsed
parse_data_shred_bounds packet s bytes h =
    let (e, above, within, q) = parse_some packet s h in
    rw q (
      field_bound packet 65 8 bytes,
      field_bound packet 73 4 bytes,
      field_bound packet 79 4 bytes,
      omega (arith, length-slice packet 88 e),
      omega (arith, length-slice packet 88 e),
    )
