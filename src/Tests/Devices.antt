-- ===== src/Tests/Devices.antt =====
-- The DeviceServer and the transport at concrete inputs.
use device_app.Base.{
  ℕ, ◌≡◌, refl, String, List, [], ◌∷◌, none, some, Bool, true, false, text_key, elem, arith, ◌⊎◌,
}
use device_app.Base.Map.{find}
use device_app.Wire.{MessageType, header_be, header_le, read_header_be, read_header_le}
use device_app.Wire.Codec
use device_app.Net.Transfer
use device_app.Net.Transfer.{Ends, Delivers}
use device_app.Net.{send_loop, recv_loop}
use device_app.Device.{DeviceInfo, DeviceType}
use device_app.DeviceManager.{Devices, is_registered, send_motor_command}
use device_app.DeviceManager.Monitor.{take_all_offline, CheckTarget, check_all}
use device_app.DeviceManager.Monitor.Sweep
use device_app.DeviceManager.Monitor.Sweep.{gone}
use device_app.DeviceManager.Monitor.Checks
use device_app.DeviceManager.Monitor.Checks.{Round}
use device_app.DeviceManager.Registry.{EntryFits, names_sub_pi}
use device_app.DeviceManager.Motor
use device_app.DeviceManager.Motor.{Some, Target, motor_frame}
use device_app.Tests.Models.{wires, wires-laws, quiet, values, dead}

transfers_end_example :
    Ends (send_loop wires 7 5 (1 ∷ 2 ∷ 3 ∷ 4 ∷ 5 ∷ []) quiet)
    × Ends (recv_loop wires 7 5 2 (9 ∷ []) quiet)
transfers_end_example =
    Transfer.transfers_end wires 7 5 2 (1 ∷ 2 ∷ 3 ∷ 4 ∷ 5 ∷ []) (9 ∷ []) quiet (omega arith)
      (omega arith)

header_round_trips_example :
    (read_header_be (header_be (MessageType.unnamed 200) 70000)
      ≡ some (record { type = MessageType.unnamed 200; body_length = 70000 }))
    × (read_header_le (header_le (MessageType.unnamed 200) 70000)
        ≡ some (record { type = MessageType.unnamed 200; body_length = 70000 }))
header_round_trips_example =
    Codec.header_round_trips (MessageType.unnamed 200) 70000 (omega arith) (omega arith)

abbrev pub board : DeviceInfo
board = record {
  id = "SubPi_10.0.0.2";
  ip = "10.0.0.2";
  type = DeviceType.sub_pi;
  is_online = true;
  source_url = "udp://10.0.0.2";
  udp_listen_port = 5001;
  command_socket_fd = some 7;
}

abbrev pub lens : DeviceInfo
lens = record {
  id = "Hanwha_10.0.0.3";
  ip = "10.0.0.3";
  type = DeviceType.hanwha;
  is_online = true;
  source_url = "rtsp://10.0.0.3";
  udp_listen_port = 0;
  command_socket_fd = none;
}

abbrev pub both : Devices
both = ("Hanwha_10.0.0.3", lens) ∷ ("SubPi_10.0.0.2", board) ∷ []

pub board_fits : EntryFits ("SubPi_10.0.0.2", board)
unfolding names_sub_pi
board_fits = record { key = refl; kind = refl; socket = refl }

pub lens_fits : EntryFits ("Hanwha_10.0.0.3", lens)
unfolding names_sub_pi
lens_fits = record { key = refl; kind = refl; socket = refl }

-- A board appears, is swept, and appears again while a camera is found.
sweep_exact_example :
    let s =
      take_all_offline dead
        ("SubPi_10.0.0.2" ∷ "SubPi_10.0.0.2" ∷ [])
        (record { devices = both; removed_ids = []; world = 0 }) in
    (find "SubPi_10.0.0.2" s.devices ≡ gone (some board))
    × (elem "SubPi_10.0.0.2" s.removed_ids ≡ true)
unfolding find is_registered
sweep_exact_example =
    Sweep.sweep_exact dead ("SubPi_10.0.0.2" ∷ "SubPi_10.0.0.2" ∷ []) both 0 "SubPi_10.0.0.2"

abbrev targets : List CheckTarget
targets =
    record { id = "Hanwha_10.0.0.3"; ip = "10.0.0.3"; type = DeviceType.hanwha; fd = none }
    ∷ record { id = "SubPi_10.0.0.2"; ip = "10.0.0.2"; type = DeviceType.sub_pi; fd = some 7 }
    ∷ []

check_all-Round_example :
    (verdict : String → Bool) × Round dead verdict targets (check_all dead targets [] 0).0
check_all-Round_example = Checks.check_all-Round dead targets 0

motor_delivered_or_refused_example :
    let r = send_motor_command wires values both "10.0.0.2" "left" quiet in
    ((fd : ℕ) × Some (λ d. Target "10.0.0.2" d × (d.command_socket_fd ≡ some fd)) both
      × Delivers wires-laws fd (motor_frame wires wires-laws values "10.0.0.2" "left") quiet r)
    ⊎ ((¬ Some (Target "10.0.0.2") both) × (r ≡ (false, quiet)))
motor_delivered_or_refused_example =
    Motor.motor_delivered_or_refused wires wires-laws values both "10.0.0.2" "left" quiet
      (lens_fits, (board_fits, tt))
