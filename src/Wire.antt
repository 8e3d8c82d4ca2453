-- ===== src/Wire.antt =====
-- common/Common.h: the message types and the five bytes of a packed `PacketHeader`, in network
-- byte order (`htonl`) between the servers and in the host's little-endian order towards Qt.
pub mod Codec
use device_app.Base.{
  ℕ, ◌+◌, ◌*◌, ◌/◌, ◌%◌, ◌^◌, List, [], ◌∷◌, Option, none, some, Bool, if◌then◌else◌, nat_eq,
}

-- `unnamed b` is an enum object that holds a byte with no enumerator, as a received one may.
pub data MessageType : Type 0 where
  ack login success fail device available ai camera assign meta image handshake : MessageType
  unnamed : ℕ → MessageType

pub record PacketHeader : Type 0 where
  pub type : MessageType
  pub body_length : ℕ

abbrev pub Bytes : Type 0
Bytes = List ℕ

unfoldable pub type_byte : MessageType → ℕ
type_byte MessageType.ack = 0x00
type_byte MessageType.login = 0x01
type_byte MessageType.success = 0x02
type_byte MessageType.fail = 0x03
type_byte MessageType.device = 0x04
type_byte MessageType.available = 0x05
type_byte MessageType.ai = 0x06
type_byte MessageType.camera = 0x07
type_byte MessageType.assign = 0x08
type_byte MessageType.meta = 0x09
type_byte MessageType.image = 0x0a
type_byte MessageType.handshake = 0x0b
type_byte (MessageType.unnamed b) = b

-- The enum object that a received byte is read into.
unfoldable pub byte_type : ℕ → MessageType
byte_type b =
    if nat_eq b 0x00
    then MessageType.ack
    else if nat_eq b 0x01
    then MessageType.login
    else if nat_eq b 0x02
    then MessageType.success
    else if nat_eq b 0x03
    then MessageType.fail
    else if nat_eq b 0x04
    then MessageType.device
    else if nat_eq b 0x05
    then MessageType.available
    else if nat_eq b 0x06
    then MessageType.ai
    else if nat_eq b 0x07
    then MessageType.camera
    else if nat_eq b 0x08
    then MessageType.assign
    else if nat_eq b 0x09
    then MessageType.meta
    else if nat_eq b 0x0a
    then MessageType.image
    else if nat_eq b 0x0b
    then MessageType.handshake
    else MessageType.unnamed b

-- static_cast<uint32_t>(n)
abbrev pub u32 : ℕ → ℕ
u32 n = n % 2 ^ 32

-- The memory of a header whose `body_length` is `htonl(static_cast<uint32_t>(n))`.
unfoldable pub header_be : MessageType → ℕ → Bytes
unfolding type_byte
header_be t n =
    type_byte t
    ∷ (u32 n / 2 ^ 24)
    ∷ (u32 n / 2 ^ 16 % 256)
    ∷ (u32 n / 2 ^ 8 % 256)
    ∷ (u32 n % 256)
    ∷ []

-- The memory of a header whose `body_length` is `static_cast<uint32_t>(n)`, on a little-endian host.
unfoldable pub header_le : MessageType → ℕ → Bytes
unfolding type_byte
header_le t n =
    type_byte t
    ∷ (u32 n % 256)
    ∷ (u32 n / 2 ^ 8 % 256)
    ∷ (u32 n / 2 ^ 16 % 256)
    ∷ (u32 n / 2 ^ 24)
    ∷ []

-- `header.type` and `ntohl(header.body_length)`, from the five bytes that were received.
unfoldable pub read_header_be : Bytes → Option PacketHeader
unfolding byte_type
read_header_be (t ∷ a ∷ b ∷ c ∷ d ∷ []) =
    some (record { type = byte_type t; body_length = a * 2 ^ 24 + b * 2 ^ 16 + c * 2 ^ 8 + d })
read_header_be _ = none

-- `header.type` and `header.body_length` on a little-endian host.
unfoldable pub read_header_le : Bytes → Option PacketHeader
unfolding byte_type
read_header_le (t ∷ a ∷ b ∷ c ∷ d ∷ []) =
    some (record { type = byte_type t; body_length = a + b * 2 ^ 8 + c * 2 ^ 16 + d * 2 ^ 24 })
read_header_le _ = none

-- sizeof(PacketHeader), packed
abbrev pub header_size : ℕ
header_size = 5
