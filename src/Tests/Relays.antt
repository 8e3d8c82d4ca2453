-- ===== src/Tests/Relays.antt =====
-- A new Sub-Pi and its relay at concrete inputs.
use device_app.Base.{String, ◌++◌, text_key}
use device_app.SubPi.Beacon.{alive}
use device_app.SubPi.Beacon.Ports.{IsPorted}
use device_app.DeviceServer.{Server, Turn, started, registry_section, Interleaved}
use device_app.DeviceServer.Sound
use device_app.DeviceServer.Relaying
use device_app.DeviceServer.Interleaving
use device_app.DeviceManager.Registry.{IsConsistent}
use device_app.Tests.Cameras.{silent as quiet_lens}
use device_app.Tests.Models.{Wires, wires, quiet as silent}
use device_app.Tests.Boards.{answering, digits, text_of_port}
use Prim.Native.String.{◌++◌ as append}

abbrev server : Server Wires
server = started silent

-- A sweep of a board that is back before the relays hear of it.
interleaved_registry_example :
    let t = Turn.beacon alive "10.0.0.2" in
    let s = (registry_section wires answering quiet_lens digits text_of_port 5 t server).0 in
    IsConsistent s.boards.devices × IsPorted s.boards.devices s.boards.next_port
interleaved_registry_example =
    Interleaving.interleaved_registry wires answering quiet_lens digits text_of_port 5 _ _
      (Interleaved.release (Turn.beacon alive "10.0.0.2") (Interleaved.start silent))
