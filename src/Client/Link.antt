-- ===== src/Client/Link.antt =====
-- ClientServer/src/InternalClient.cpp: a wait for the DeviceServer's messages, and what each does.
-- `none` is an exception that nothing catches.
pub mod Arrival
pub mod Retry
use device_app.Base.{
  ℕ, ◌*◌, ◌&&◌, ◌||◌, String, List, [], ◌∷◌, Option, none, some, Bool, true, false, ◌>>=◌,
  if◌then◌else◌, ltb, nat_eq, length,
}
use device_app.Wire.{MessageType, Bytes, PacketHeader, header_size, read_header_be}
use device_app.Net.{Ready, Net, recv_exact}
use device_app.Json.{JsonLib}
use device_app.Auth.{Sqlite}
use device_app.Qt.{SecureSession}
use device_app.Client.{ClientServer, on_ai_event, on_image_event, on_meta_event}

module _ {W S J D : Type 0} (net : Net W) (tls : SecureSession S) (js : JsonLib J) (sql : Sqlite D)
    (sha256 : String → Bytes) where
  -- The picture follows the metadata; outside the limits it is not read.
  image_push : ℕ → J → ClientServer W S J D → Option (ClientServer W S J D)
  image_push fd meta st = do
    jpeg_size ← js.value_u32 meta "jpeg_size" 0
    let (jpeg, world') = recv_exact net fd jpeg_size st.world
    let read : ClientServer W S J D = record st { world = world' }
    let handled : ClientServer W S J D = elim jpeg [
      | none ↦ read
      | some bytes ↦ on_image_event net tls js sql sha256 meta bytes read
    ]
    some (if ltb 0 jpeg_size && ltb jpeg_size (10 * 1024 * 1024) then handled else st)

  -- A parsed message.
  unfoldable pub pushed : ℕ → MessageType → J → ClientServer W S J D → Option (ClientServer W S J D)
  unfolding image_push
  pushed fd MessageType.camera body st = some (record st { cached_cameras = body })
  pushed fd MessageType.available body st = some (record st { cached_device_status = body })
  pushed fd MessageType.ai body st = some (on_ai_event net tls js sql sha256 body st)
  pushed fd MessageType.image body st = image_push fd body st
  pushed fd MessageType.meta body st = some (on_meta_event net tls js sql sha256 body st)
  pushed fd _ body st = some st

  -- Text that is no JSON is dropped, whatever the type.
  pub dispatch_push_event :
      ℕ → MessageType → Bytes → ClientServer W S J D → Option (ClientServer W S J D)
  unfolding pushed
  dispatch_push_event fd type body_str st = elim (js.parse body_str) [
    | none ↦ some st
    | some body ↦ pushed fd type body st
  ]

  body_arrives : ℕ → PacketHeader → ClientServer W S J D → Option (Bool × ClientServer W S J D)
  body_arrives fd header st =
      let (buf, world') = recv_exact net fd header.body_length st.world in
      let read : ClientServer W S J D = record st { world = world' } in
      let handled : Option (Bool × ClientServer W S J D) = elim buf [
        | none ↦ some (false, read)
        | some bytes ↦ (do st' ← dispatch_push_event fd header.type bytes read; some (true, st'))
      ] in
      if nat_eq header.body_length 0 || ltb (1024 * 1024) header.body_length
      then some (true, st)
      else handled

  -- false: the connection is given up.
  pub handle_incoming : Ready → ℕ → ClientServer W S J D → Option (Bool × ClientServer W S J D)
  unfolding body_arrives
  handle_incoming Ready.failed fd st = some (false, st)
  handle_incoming Ready.timed_out fd st = some (true, st)
  handle_incoming Ready.readable fd st =
      let (bytes, world') = recv_exact net fd header_size st.world in
      let read : ClientServer W S J D = record st { world = world' } in
      elim (bytes >>= read_header_be) [
        | none ↦ some (false, read)
        | some header ↦ body_arrives fd header read
      ]

  -- The `while` of a connection, between storing the descriptor and giving it up; each element is a
  -- test of `is_running_` and what select then says. `none` beside a state: it goes on.
  pub receive_pushes :
      ℕ → List (Bool × Ready) → ClientServer W S J D → Option (Bool × ClientServer W S J D)
  receive_pushes fd [] st = some (true, st)
  receive_pushes fd ((false, ready) ∷ rest) st = some (false, st)
  receive_pushes fd ((true, ready) ∷ rest) st = elim (handle_incoming ready fd st) [
    | none ↦ none
    | some (false, st') ↦ some (false, st')
    | some (true, st') ↦ receive_pushes fd rest st'
  ]

  disconnect : ℕ → Bool × ClientServer W S J D → Bool × ClientServer W S J D
  disconnect fd (true, st) = (true, st)
  disconnect fd (false, st) =
      (false, record st { current_fd = none; world = net.close st.world fd })

  -- A connection from its connect(2) on: true, while it lasts.
  pub connection :
      ℕ → List (Bool × Ready) → ClientServer W S J D → Option (Bool × ClientServer W S J D)
  unfolding receive_pushes disconnect
  connection fd rounds st = do
    r ← receive_pushes fd rounds (record st { current_fd = some fd })
    some (disconnect fd r)
