-- ===== src/Shred/Parse/RoundTrip.antt =====
-- The layout of a data shred written out as an encoder, and that the parser inverts it.
use feed_mux.Prelude.{
  ℕ, ◌+◌, ◌*◌, ◌/◌, ◌%◌, ◌^◌, ◌≤◌, ◌<◌, ◌≡◌, ◌⊎◌, ap, Bool, List, [], ◌∷◌, ◌++◌, some, arith,
  length, take, drop, if◌then◌else◌, get_elem?, length-append, append_assoc, take-append_length,
}
use feed_mux.Shred.Parse.{
  ParsedDataShred, ShredKind, shred_kind, parse_data_shred, merkle_payload_end, merkle_proof_bytes,
  from_le_bytes, slice, declared_size, parsed, byte_at,
}
use native.Mathlib.Nat.{pow-suc, add-sub_cancel_left, zero-add, suc-add}

-- `to_le_bytes` at a width of `k` bytes.
abbrev pub to_le_bytes : ℕ → ℕ → List ℕ
to_le_bytes ℕ.zero n = []
to_le_bytes (ℕ.suc k) n = n % 256 ∷ to_le_bytes k (n / 256)

from_le_bytes-to_le_bytes : (k n : ℕ) → n < 256 ^ k → from_le_bytes (to_le_bytes k n) ≡ n
unfolding from_le_bytes
from_le_bytes-to_le_bytes ℕ.zero n h = omega arith
from_le_bytes-to_le_bytes (ℕ.suc k) n h =
    let rest : n < 256 ^ k * 256 = rw pow-suc at h in
    omega (arith, from_le_bytes-to_le_bytes k (n / 256) (omega arith))

-- The two flag bits that the parser reads.
abbrev pub flag_byte : Bool → Bool → ℕ
flag_byte complete last = (if complete then 1 else 0) + (if last then 128 else 0)

-- What a sender writes: a signature of 64 bytes, the variant, slot, index, version, FEC set index,
-- parent offset, flags and size, then the payload and the Merkle proof.
pub record Frame : Type 0 where
  pub signature : List ℕ
  pub variant : ℕ
  pub version : ℕ
  pub parent : ℕ
  pub shred : ParsedDataShred
  pub proof : List ℕ

abbrev pub header : Frame → ℕ → List ℕ
header f size =
    f.variant
    ∷ (to_le_bytes 8 f.shred.slot
        ++ to_le_bytes 4 f.shred.index
        ++ to_le_bytes 2 f.version
        ++ to_le_bytes 4 f.shred.fec_set_index
        ++ to_le_bytes 2 f.parent
        ++ flag_byte f.shred.data_complete f.shred.last_in_slot ∷ to_le_bytes 2 size)

abbrev pub body : Frame → List ℕ
body f = f.shred.payload ++ f.proof

abbrev pub encode : Frame → List ℕ → List ℕ
encode f rest = f.signature ++ (header f (88 + length (body f)) ++ (body f ++ rest))

-- The variants of a data shred, and the sizes of a proof behind a payload of `n` bytes, each with the
-- limits of the body that the two make up.
abbrev pub IsDataVariant : ℕ → Type 0
IsDataVariant v = (v ≡ 0x5a) ⊎ (v ≡ 0xa5) ⊎ (v ≡ 0x69) ⊎ (v ≡ 0x96)

abbrev pub HasProof : ℕ → ℕ → Type 0
HasProof n proof =
    ((proof ≡ 0) × (n ≤ 400))
    ⊎ ((proof ≡ 40) × (400 < n + 40) × (n + 40 ≤ 600))
    ⊎ ((proof ≡ 80) × (600 < n + 80))

-- A frame of the layout: numbers within their widths, one of the data variants, a payload, and a proof
-- of one of the sizes.
pub record IsFrame (f : Frame) : Type 0 where
  pub signed : length f.signature ≡ 64
  pub data_variant : IsDataVariant f.variant
  pub slot_width : f.shred.slot < 256 ^ 8
  pub index_width : f.shred.index < 256 ^ 4
  pub fec_width : f.shred.fec_set_index < 256 ^ 4
  pub has_payload : 0 < length f.shred.payload
  pub size_width : 88 + length (body f) < 256 ^ 2
  pub proof_size : HasProof (length f.shred.payload) (length f.proof)

drop-append : (k : ℕ) (xs ys : List ℕ) → drop (length xs + k) (xs ++ ys) ≡ drop k ys
drop-append k [] ys = rw zero-add
drop-append k (x ∷ xs) ys = rw suc-add (drop-append k xs ys)

get_elem?-append : (k : ℕ) (xs ys : List ℕ) → get_elem? (xs ++ ys) (length xs + k) ≡ get_elem? ys k
get_elem?-append k [] ys = rw zero-add
get_elem?-append k (x ∷ xs) ys = rw suc-add (get_elem?-append k xs ys)

slice_behind :
    (sig ys : List ℕ) (k n : ℕ)
    → length sig ≡ 64
    → slice (sig ++ ys) (64 + k) (64 + k + n) ≡ take n (drop k ys)
unfolding slice
slice_behind sig ys k n h =
    rw (add-sub_cancel_left (64 + k) n, ← h) (ap (take n) (drop-append k sig ys))

byte_behind :
    (sig ys : List ℕ) (k : ℕ) → length sig ≡ 64 → get_elem? (sig ++ ys) (64 + k) ≡ get_elem? ys k
byte_behind sig ys k h = rw (← h) (get_elem?-append k sig ys)

variant_kind : (v : ℕ) → IsDataVariant v → shred_kind v ≡ ShredKind.data_shred
unfolding shred_kind
variant_kind v h = ground (arith, h)

proof_bytes : (n proof : ℕ) → HasProof n proof → proof ≡ merkle_proof_bytes (n + proof)
unfolding merkle_proof_bytes
proof_bytes n proof h = ground (arith, h)

short_proof : (n : ℕ) → n ≤ 20 → merkle_proof_bytes n ≡ 0
unfolding merkle_proof_bytes
short_proof n h = ground arith

module _ (f : Frame) (v : IsFrame f) (rest : List ℕ) where
  abbrev size : ℕ
  size = 88 + length (body f)

  abbrev tail : List ℕ
  tail = header f size ++ (body f ++ rest)

  length-encode : length (encode f rest) ≡ size + length rest
  length-encode =
      omega (arith, length-append f.signature tail, length-append (body f) rest, v.signed)

  declared_size-encode : declared_size (encode f rest) ≡ size
  unfolding declared_size
  declared_size-encode =
      rw (slice_behind f.signature tail 22 2 v.signed)
        (from_le_bytes-to_le_bytes 2 size v.size_width)

  slice-body : (n : ℕ) → slice (encode f rest) 88 (88 + n) ≡ take n (body f ++ rest)
  slice-body n = slice_behind f.signature tail 24 n v.signed

  merkle_payload_end-encode :
      merkle_payload_end (encode f rest) size ≡ some (88 + length f.shred.payload)
  unfolding merkle_payload_end
  merkle_payload_end-encode =
      rw (slice-body (length (body f)), take-append_length (body f) rest)
        (ground (
          arith,
          proof_bytes (length f.shred.payload) (length f.proof) v.proof_size,
          v.has_payload,
          length-append f.shred.payload f.proof,
          short_proof (length (body f)),
        ))

  slot-encode : from_le_bytes (slice (encode f rest) 65 73) ≡ f.shred.slot
  slot-encode =
      rw (slice_behind f.signature tail 1 8 v.signed)
        (from_le_bytes-to_le_bytes 8 f.shred.slot v.slot_width)

  index-encode : from_le_bytes (slice (encode f rest) 73 77) ≡ f.shred.index
  index-encode =
      rw (slice_behind f.signature tail 9 4 v.signed)
        (from_le_bytes-to_le_bytes 4 f.shred.index v.index_width)

  fec_set_index-encode : from_le_bytes (slice (encode f rest) 79 83) ≡ f.shred.fec_set_index
  fec_set_index-encode =
      rw (slice_behind f.signature tail 15 4 v.signed)
        (from_le_bytes-to_le_bytes 4 f.shred.fec_set_index v.fec_width)

  flags-encode : byte_at (encode f rest) 85 ≡ flag_byte f.shred.data_complete f.shred.last_in_slot
  unfolding byte_at
  flags-encode = rw (byte_behind f.signature tail 21 v.signed)

  payload-encode : slice (encode f rest) 88 (88 + length f.shred.payload) ≡ f.shred.payload
  payload-encode =
      rw (slice-body (length f.shred.payload), append_assoc f.shred.payload f.proof rest)
        (take-append_length f.shred.payload (f.proof ++ rest))

  parsed-encode : parsed (encode f rest) (88 + length f.shred.payload) ≡ f.shred
  unfolding parsed
  parsed-encode =
      rw (slot-encode, index-encode, fec_set_index-encode, flags-encode, payload-encode)
        (ground arith)

  -- A frame of the layout, with any bytes behind it, parses to the shred that it carries.
  pub parse_data_shred-encode : parse_data_shred (encode f rest) ≡ some f.shred
  unfolding parse_data_shred
  parse_data_shred-encode = ground (
    arith,
    length-encode,
    declared_size-encode,
    merkle_payload_end-encode,
    parsed-encode,
    byte_behind f.signature tail 0 v.signed,
    variant_kind f.variant v.data_variant,
    v.has_payload,
    length-append f.shred.payload f.proof,
  )
