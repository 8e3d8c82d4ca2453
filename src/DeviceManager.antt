-- ===== src/DeviceManager.antt =====
-- DeviceServer/src/DeviceManager.cpp: the registry of devices, its callbacks, the motor command.
-- A callback to the controller is a `Notice` in the result, in the order of the calls; the
-- controller always sets the callbacks before the discovery starts.
pub mod Monitor
pub mod Registry
pub mod Motor
use device_app.Base.{
  ℕ, String, List, [], ◌∷◌, Option, none, some, Bool, true, false, ◌&&◌, not, map, length, ◌==◌,
  text_key, if◌then◌else◌,
}
use device_app.Base.Map.{Map, find, insert}
use device_app.Wire.{MessageType, Bytes, header_be}
use device_app.Net.{Net, send_parts}
use device_app.Json.{JsonLib}
use device_app.Device.{DeviceType, DeviceInfo, is_sub_pi}

pub data Notice : Type 0 where
  registered : DeviceInfo → Notice
  removed : String → Notice
  changed : Notice

abbrev pub Devices : Type 0
Devices = Map String DeviceInfo

-- The duplicate check of both scanners.
unfoldable pub is_registered : Devices → String → Bool
is_registered devices id = elim (find id devices) [ none ↦ false | some d ↦ d.is_online ]

-- A beacon's device: registered if new, recovered if offline, left alone if online.
unfoldable pub on_sub_pi_found : Devices → DeviceInfo → Devices × List Notice
on_sub_pi_found devices info = elim (find info.id devices) [
  | some existing ↦
      if not existing.is_online
      then (let recovered = record existing {
        is_online = true;
        command_socket_fd = info.command_socket_fd;
        udp_listen_port = info.udp_listen_port;
      } in
          (insert info.id recovered devices, Notice.registered recovered ∷ Notice.changed ∷ []))
      else (devices, [])
  | none ↦ (insert info.id info devices, Notice.registered info ∷ Notice.changed ∷ [])
]

-- A camera found by a scan. A recovered one keeps its URL.
unfoldable pub on_hanwha_found : Devices → DeviceInfo → Devices × List Notice
on_hanwha_found devices info = elim (find info.id devices) [
  | some existing ↦
      if not existing.is_online
      then (let recovered = record existing { is_online = true } in
          (insert info.id recovered devices, Notice.registered recovered ∷ Notice.changed ∷ []))
      else (devices, [])
  | none ↦ (insert info.id info devices, Notice.registered info ∷ Notice.changed ∷ [])
]

pub get_device_list : Devices → List DeviceInfo
get_device_list [] = []
get_device_list ((id, d) ∷ rest) = d ∷ get_device_list rest

module _ {J : Type 0} (js : JsonLib J) where
  -- The cache of the Sub-Pis' states.
  pub on_available_event : Map String J → String → J → Map String J
  on_available_event status id j = insert id j status

  status_entry : Option DeviceInfo → J → Option J
  status_entry none entry = some entry
  status_entry (some d) entry = js.set entry "ip" (js.string d.ip)

  status_entries : Devices → Map String J → Option (List J)
  unfolding status_entry
  status_entries devices [] = some []
  status_entries devices ((id, entry) ∷ rest) = elim (status_entry (find id devices) entry) [
    | none ↦ none
    | some e ↦ elim (status_entries devices rest) [ none ↦ none | some es ↦ some (e ∷ es) ]
  ]

  -- `none`: an entry that is no object makes `entry["ip"] =` throw.
  pub get_device_status_list : Devices → Map String J → Option J
  unfolding status_entries
  get_device_status_list devices status = elim (status_entries devices status) [
    | none ↦ none
    | some es ↦ some (js.array_of es)
  ]

-- The first online Sub-Pi at the address, in the order of the ids.
pub find_command_fd : String → Devices → Option ℕ
find_command_fd ip [] = none
find_command_fd ip ((id, info) ∷ rest) =
    if is_sub_pi info.type && info.is_online && info.ip == ip
    then info.command_socket_fd
    else find_command_fd ip rest

module _ {W J : Type 0} (net : Net W) (js : JsonLib J) where
  abbrev pub motor_body : String → String → Bytes
  motor_body ip motor =
      js.dump (js.object_of (("device", js.string ip) ∷ ("motor", js.string motor) ∷ []))

  pub send_motor_command : Devices → String → String → W → Bool × W
  send_motor_command devices ip motor w = elim (find_command_fd ip devices) [
    | none ↦ (false, w)
    | some fd ↦
        (let body_str = motor_body ip motor in
          send_parts net fd (header_be MessageType.device (length body_str) ∷ body_str ∷ []) w)
  ]
