-- ===== src/Tests/Processes.antt =====
-- The threads of the discovery, the accept loop and the two processes at concrete inputs.
use device_app.Base.{ℕ, ◌≡◌, refl, List, [], ◌∷◌, none, some, Bool, true, nat_key, text_key}
use device_app.Base.Map.{find, insert}
use device_app.Auth.{User}
use device_app.Qt.Accepting
use device_app.DeviceManager.{is_registered, on_sub_pi_found}
use device_app.SubPi.Beacon.{alive, beacon_turn, is_beacon}
use device_app.Tls.Context.{ContextLib}
use device_app.Client.Process as Client
use device_app.Client.Process.Main as ClientMain
use device_app.Client.Process.Early as ClientEarly
use device_app.DeviceServer.{Turn, turn, registry_section}
use device_app.DeviceServer.Process as Device
use device_app.DeviceServer.Process.Main as DeviceMain
use device_app.DeviceServer.Process.Early as DeviceEarly
use device_app.Tests.Models.{Wires, wires, quiet, values, Value}
use device_app.Tests.Boards.{answering, digits, text_of_port}
use device_app.Tests.Cameras.{silent}
use device_app.Tests.Services.{ports}

-- The handler of client 7 ends while accept waits, and accept gives 7 again.
abbrev gone : List ℕ
gone = 7 ∷ []

abbrev contexts : ContextLib ℕ
contexts = record {
  server_ctx = some 1;
  client_ctx = some 1;
  use_certificate_file = λ c file. c;
  use_private_key_file = λ c file. c;
  set_verify = λ c mode. c;
  load_verify_locations = λ c file. c;
}

abbrev Happening : Type 0
Happening = Client.Event Wires Bool ℕ (List User)

abbrev second : List Happening
second = Client.Event.signal ∷ []

-- The signal comes at once.
abbrev hasty : Client.Schedule Wires Bool ℕ (List User)
hasty = record { at_first = second; after_link = []; after_tls = []; after_port = []; rounds = [] }

-- A board answers while the RTSP server is not started yet.
abbrev discovering : Device.App Wires Value
discovering = record (DeviceMain.fresh quiet) {
  discovery = record (DeviceMain.fresh {J = Value} quiet).discovery { is_discovering = true };
}

abbrev beacon : List (Device.Event Wires)
beacon = Device.Event.discovers (Turn.beacon alive "10.0.0.2") ∷ []

early_boards_unrelayed_example :
    let found =
      Device.happen_all wires ports values none answering silent digits text_of_port 5 beacon
        discovering in
    let s = (Device.start_relays found).discovery.server in
    (s.rtsp ≡ record { mounted = true; factories = [] })
    × (turn wires answering silent digits text_of_port 5 (Turn.beacon alive "10.0.0.2") s ≡ s)
unfolding is_registered find Device.happen_all turn registry_section beacon_turn is_beacon
    on_sub_pi_found insert
early_boards_unrelayed_example =
    DeviceEarly.early_boards_unrelayed wires ports values none answering silent digits text_of_port
      5 beacon discovering alive "10.0.0.2" refl refl refl
