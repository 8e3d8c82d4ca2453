-- ===== src/Wire/Codec.antt =====
-- The header's two encodings, read back.
use device_app.Base.{ℕ, ◌^◌, ◌<◌, ◌≡◌, refl, some, arith, length, ap}
use device_app.Wire.{
  MessageType, type_byte, byte_type, header_be, header_le, read_header_be, read_header_le,
  header_size,
}

-- A type that an enumerator names, or a byte that none names.
abbrev pub IsTyped : MessageType → Type 0
IsTyped (MessageType.unnamed b) = 0x0b < b
IsTyped _ = Unit {0}

pub byte_type-type_byte : (t : MessageType) → IsTyped t → byte_type (type_byte t) ≡ t
unfolding byte_type type_byte
byte_type-type_byte MessageType.ack h = refl
byte_type-type_byte (MessageType.unnamed b) h = ground arith
byte_type-type_byte _ h = refl

pub length-header_be : (t : MessageType) (n : ℕ) → length (header_be t n) ≡ header_size
unfolding header_be
length-header_be t n = refl

pub length-header_le : (t : MessageType) (n : ℕ) → length (header_le t n) ≡ header_size
unfolding header_le
length-header_le t n = refl

header_value_be :
    (t : MessageType) (n : ℕ)
    → n < 2 ^ 32
    → read_header_be (header_be t n)
      ≡ some (record { type = byte_type (type_byte t); body_length = n })
unfolding read_header_be header_be
header_value_be t n h =
    ap (λ k. some (record { type = byte_type (type_byte t); body_length = k })) (omega arith)

header_value_le :
    (t : MessageType) (n : ℕ)
    → n < 2 ^ 32
    → read_header_le (header_le t n)
      ≡ some (record { type = byte_type (type_byte t); body_length = n })
unfolding read_header_le header_le
header_value_le t n h =
    ap (λ k. some (record { type = byte_type (type_byte t); body_length = k })) (omega arith)

-- A header in network byte order, with a length that fits in 32 bits and a type that is named or
-- above 0x0b, is read back as it was written.
pub read_header_be-header_be :
    (t : MessageType) (n : ℕ)
    → IsTyped t
    → n < 2 ^ 32
    → read_header_be (header_be t n) ≡ some (record { type = t; body_length = n })
read_header_be-header_be t n k h = rw (header_value_be t n h) (rw (byte_type-type_byte t k))

-- A header in the byte order of a little-endian host, with a length that fits in 32 bits and a type
-- that is named or above 0x0b, is read back as it was written.
pub read_header_le-header_le :
    (t : MessageType) (n : ℕ)
    → IsTyped t
    → n < 2 ^ 32
    → read_header_le (header_le t n) ≡ some (record { type = t; body_length = n })
read_header_le-header_le t n k h = rw (header_value_le t n h) (rw (byte_type-type_byte t k))

-- A header in network byte order or in that of a little-endian host, with a length that fits in 32
-- bits and a type that is named or above 0x0b, is read back as it was written.
pub header_round_trips :
    (t : MessageType) (n : ℕ)
    → IsTyped t
    → n < 2 ^ 32
    → (read_header_be (header_be t n) ≡ some (record { type = t; body_length = n }))
      × (read_header_le (header_le t n) ≡ some (record { type = t; body_length = n }))
header_round_trips t n k h = (read_header_be-header_be t n k h, read_header_le-header_le t n k h)
