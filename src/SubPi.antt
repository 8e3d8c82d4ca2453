-- ===== src/SubPi.antt =====
-- DeviceServer/src/SubPiManager.cpp: the listener of a Sub-Pi's command socket. A callback to the
-- device manager is a `Heard` in the result, since each turn makes it last; `none` is an exception
-- that nothing catches.
pub mod Listener
pub mod Beacon
pub mod Receiver
pub mod Arrival
use device_app.Base.{
  ℕ, suc, ◌+◌, ◌*◌, ◌||◌, String, List, [], ◌∷◌, Option, none, some, Bool, true, false, ◌>>=◌,
  if◌then◌else◌, leb, ltb, nat_eq,
}
use device_app.Wire.{MessageType, Bytes, PacketHeader, header_size, read_header_be}
use device_app.Net.{Ready, Net, recv_exact}
use device_app.Json.{JsonLib}
use Prim.Native.String.{len, slice}

pub data Heard (J : Type 0) : Type 0 where
  ai available meta : J → Heard J
  image : J → Bytes → Heard J

-- What a turn left: whether the loop goes on, the count of errors in a row, and the callback made.
pub record Step (W J : Type 0) : Type 0 where
  pub goes_on : Bool
  pub error_count : ℕ
  pub heard : Option (Heard J)
  pub world : W

-- device_id.substr(6)
abbrev pub address_of : String → String
address_of device_id = slice device_id 6 (len device_id)

module _ {W J : Type 0} (net : Net W) (js : JsonLib J) (device_id : String) where
  -- event["device_id"] = device_id; event["ip"] = ip;
  unfoldable pub tagged : J → Option J
  tagged event = do
    named ← js.set event "device_id" (js.string device_id)
    js.set named "ip" (js.string (address_of device_id))

  unfoldable pub quiet : ℕ → W → Step W J
  quiet errors w = record { goes_on = true; error_count = errors; heard = none; world = w }

  unfoldable pub broken : ℕ → W → Step W J
  broken errors w = record { goes_on = false; error_count = errors; heard = none; world = w }

  unfoldable pub passed_on : Heard J → W → Step W J
  passed_on event w = record { goes_on = true; error_count = 0; heard = some event; world = w }

  -- The third message in a row that is no JSON ends the listener.
  unfoldable pub unparsed : ℕ → W → Step W J
  unparsed errors w = record {
    goes_on = ltb (errors + 1) 3;
    error_count = errors + 1;
    heard = none;
    world = w;
  }

  -- The picture that follows, of 1 byte to 10 MB; the two values read for the log come after it.
  unfoldable pub picture : ℕ → ℕ → J → W → Option (Step W J)
  unfolding quiet broken passed_on
  picture fd errors event w = do
    jpeg_size ← js.value_u32 event "jpeg_size" 0
    let (jpeg, w') = recv_exact net fd jpeg_size w
    let handled : Option (Step W J) = elim jpeg [
      | none ↦ some (broken errors w')
      | some bytes ↦ (do
        frame_index ← js.value_number event "frame_index"
        total_frames ← js.value_number event "total_frames"
        some (passed_on (Heard.image event bytes) w'))
    ]
    if nat_eq jpeg_size 0 || ltb (10 * 1024 * 1024) jpeg_size
        then some (quiet errors w)
        else handled

  -- A parsed message, by its type.
  unfoldable pub handle : ℕ → MessageType → ℕ → J → W → Option (Step W J)
  unfolding tagged passed_on picture quiet
  handle fd MessageType.ai errors json w = do
    event ← tagged json
    some (passed_on (Heard.ai event) w)
  handle fd MessageType.image errors json w = do event ← tagged json; picture fd errors event w
  handle fd MessageType.available errors json w = do
    cpu ← js.value_number json "cpu"
    memory ← js.value_number json "memory"
    temp ← js.value_number json "temp"
    some (passed_on (Heard.available json) w)
  handle fd MessageType.meta errors json w = do
    event ← tagged json
    some (passed_on (Heard.meta event) w)
  handle fd _ errors json w = some (quiet errors w)

  abbrev pub is_parsed_type : MessageType → Bool
  is_parsed_type MessageType.ai = true
  is_parsed_type MessageType.image = true
  is_parsed_type MessageType.available = true
  is_parsed_type MessageType.meta = true
  is_parsed_type _ = false

  unfoldable pub body_turn : ℕ → MessageType → ℕ → Bytes → W → Option (Step W J)
  unfolding handle unparsed quiet
  body_turn fd type errors body_str w =
      let parsed : Option (Step W J) = elim (js.parse body_str) [
        | none ↦ some (unparsed errors w)
        | some json ↦ handle fd type errors json w
      ] in
      if is_parsed_type type then parsed else some (quiet errors w)

  -- A body of length 0 or above 1 MB is skipped, but not taken off the stream.
  unfoldable pub packet_turn : ℕ → PacketHeader → ℕ → W → Option (Step W J)
  unfolding body_turn quiet broken
  packet_turn fd header errors w =
      let (buf, w') = recv_exact net fd header.body_length w in
      let handled : Option (Step W J) = elim buf [
        | none ↦ some (broken errors w')
        | some bytes ↦ body_turn fd header.type errors bytes w'
      ] in
      if nat_eq header.body_length 0 || ltb (1024 * 1024) header.body_length
      then some (quiet errors w)
      else handled

  -- One turn after select.
  unfoldable pub listen_turn : ℕ → Ready → ℕ → W → Option (Step W J)
  unfolding packet_turn quiet broken
  listen_turn fd Ready.failed errors w = some (broken errors w)
  listen_turn fd Ready.timed_out errors w = some (quiet errors w)
  listen_turn fd Ready.readable errors w =
      let (bytes, w') = recv_exact net fd header_size w in
      elim (bytes >>= read_header_be) [
        | none ↦ some (broken errors w')
        | some header ↦ packet_turn fd header errors w'
      ]

  -- What the device manager does with an event before the next turn.
  unfoldable pub hear : (Heard J → W → W) → Option (Heard J) → W → W
  hear on_event none w = w
  hear on_event (some event) w = on_event event w

  -- The `while`, over what each test of `is_running_` and each select find; true: it goes on.
  unfoldable pub listen :
      (Heard J → W → W) → ℕ → List (Bool × Ready) → ℕ → W → Option (Bool × ℕ × W)
  unfolding hear listen_turn
  listen on_event fd [] errors w = some (true, errors, w)
  listen on_event fd ((false, ready) ∷ rest) errors w = some (false, errors, w)
  listen on_event fd ((true, ready) ∷ rest) errors w = do
    step ← listen_turn fd ready errors w
    let w' = hear on_event step.heard step.world
    let more = listen on_event fd rest step.error_count w'
    if step.goes_on then more else some (false, step.error_count, w')
