-- ===== src/SubPi/Beacon.antt =====
-- The beacon receiver of DeviceServer/src/SubPiManager.cpp, with the device manager's callbacks in it:
-- the ports that Sub-Pis are told to stream to.
pub mod Ports
pub mod Stop
use device_app.Base.{
  ℕ, zero, suc, ◌+◌, ◌&&◌, ◌||◌, String, List, [], ◌∷◌, ◌++◌, Option, none, some, Bool, true, false,
  if◌then◌else◌, nat_eq, remove, remove_all, elem, text_key, is_empty,
}
use device_app.Base.Map.{find}
use device_app.Wire.{Bytes}
use device_app.Net.{Net}
use device_app.Device.{DeviceType, DeviceInfo}
use device_app.DeviceManager.{Devices, Notice, is_registered, on_sub_pi_found}
use device_app.DeviceManager.Monitor.{Health}
use Prim.Native.String.{◌++◌ as append}

-- `std::string message(buffer)` ends at the first zero byte.
c_string : Bytes → Bytes
c_string [] = []
c_string (b ∷ bs) = if nat_eq b 0 then [] else b ∷ c_string bs

starts : Bytes → Bytes → Bool
starts [] text = true
starts (p ∷ ps) [] = false
starts (p ∷ ps) (b ∷ bs) = nat_eq p b && starts ps bs

-- message.find(pattern) != npos
contains : Bytes → Bytes → Bool
unfolding starts
contains pattern [] = is_empty pattern
contains pattern (b ∷ bs) = starts pattern (b ∷ bs) || contains pattern bs

-- "SUB_PI_ALIVE"
abbrev pub alive : Bytes
alive = 83 ∷ 85 ∷ 66 ∷ 95 ∷ 80 ∷ 73 ∷ 95 ∷ 65 ∷ 76 ∷ 73 ∷ 86 ∷ 69 ∷ []

-- "START_STREAM:"
abbrev pub start_stream : Bytes
start_stream = 83 ∷ 84 ∷ 65 ∷ 82 ∷ 84 ∷ 95 ∷ 83 ∷ 84 ∷ 82 ∷ 69 ∷ 65 ∷ 77 ∷ 58 ∷ []

unfoldable pub is_beacon : Bytes → Bool
unfolding contains c_string
is_beacon datagram = contains alive (c_string datagram)

-- The registry, and the receiver's own state: the ids whose listener threads are held, and those that ended.
pub record Boards (W : Type 0) : Type 0 where
  pub devices : Devices
  pub next_port : ℕ
  pub listeners : List String
  pub finished_ids : List String
  pub world : W

-- `to_string` is std::to_string on the port, as bytes.
module _ {W : Type 0} (net : Net W) (health : Health W) (to_string : ℕ → Bytes) where
  -- TCP port 5000 of the board; the result of the send is not looked at. `none`: no connection.
  unfoldable pub request_start_stream : String → ℕ → W → Option ℕ × W
  request_start_stream target_ip listen_port w =
      let (sock, w₁) = health.socket w in
      elim sock [
        | none ↦ (none, w₁)
        | some fd ↦
            (let (connected, w₂) = health.connect w₁ fd target_ip 5000 in
              if connected
              then (some fd, (net.send w₂ fd (start_stream ++ to_string listen_port)).1)
              else (none, health.close w₂ fd))
      ]

  unfoldable pub cleanup_finished_threads : Boards W → Boards W
  cleanup_finished_threads s = record s {
    finished_ids = [];
    listeners = remove_all s.finished_ids s.listeners;
  }

  abbrev pub new_board : String → ℕ → ℕ → DeviceInfo
  new_board ip port fd = record {
    id = append "SubPi_" ip;
    ip = ip;
    type = DeviceType.sub_pi;
    is_online = true;
    source_url = "";
    udp_listen_port = port;
    command_socket_fd = some fd;
  }

  -- A board that took the command: it gets the port, and a listener thread of its own; one that was
  -- held for the id is joined first.
  unfoldable pub board_found : String → ℕ → Boards W → Boards W × List Notice
  unfolding cleanup_finished_threads
  board_found ip fd s =
      let info = new_board ip s.next_port fd in
      let (devices', notices) = on_sub_pi_found s.devices info in
      let cleaned =
        cleanup_finished_threads (record s { devices = devices'; next_port = s.next_port + 1 }) in
      (record cleaned { listeners = info.id ∷ remove info.id cleaned.listeners }, notices)

  -- A datagram from an address.
  unfoldable pub beacon_turn : Bytes → String → Boards W → Boards W × List Notice
  unfolding board_found request_start_stream
  beacon_turn datagram sender_ip s =
      let (sock, w') = request_start_stream sender_ip s.next_port s.world in
      let asked : Boards W × List Notice = elim sock [
        | none ↦ (record s { world = w' }, [])
        | some fd ↦ board_found sender_ip fd (record s { world = w' })
      ] in
      if is_beacon datagram
      then (if is_registered s.devices (append "SubPi_" sender_ip) then (s, []) else asked)
      else (s, [])
