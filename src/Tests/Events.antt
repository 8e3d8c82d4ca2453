-- ===== src/Tests/Events.antt =====
-- An event's way through both servers at a concrete input.
use device_app.Base.{ℕ, ◌≡◌, refl, [], ◌∷◌, ◌++◌, none, some, true, nat_key, arith}
use device_app.Wire.{MessageType, header_be}
use device_app.Net.{Ready, join}
use device_app.Json.{JsonLib, JsonTextLaws}
use device_app.Auth.{User}
use device_app.InternalServer.{Hub, frame}
use device_app.DeviceController.{Manager}
use device_app.Client.{ClientServer, on_ai_event}
use device_app.Client.Link.{handle_incoming}
use device_app.Qt.Clients.{no_clients}
use device_app.SubPi.{tagged}
use device_app.DeviceServer.Events.{event_turn}
use device_app.DeviceServer.Events.Through
use device_app.Tests.Models.{
  Wires, wires, wires-laws, wires-IsHealthy, wires-IsFed, bytes_lib, sessions, table, digest,
}
use mathlib.Core.List.{List}
use mathlib.Core.Bool.{Bool}

-- A value that is set stays as it is.
abbrev marking : JsonLib ℕ
marking = record bytes_lib { set = λ j k v. some j }

marking-laws : JsonTextLaws marking
marking-laws = record { parse-dump = λ j. refl; dump-ne-nil = λ j h. cc }

-- The frame of the event 9 stands in every stream.
abbrev carrying : Wires
carrying = record { taken = λ fd. []; inbox = λ fd. 6 ∷ 0 ∷ 0 ∷ 0 ∷ 1 ∷ 9 ∷ [] }

abbrev hub : Hub Wires (Manager ℕ)
hub = record {
  client_fds = 7 ∷ [];
  finished_fds = [];
  client_threads = 7 ∷ [];
  owner = record { devices = []; device_status = [] };
  world = carrying;
}

abbrev client : ClientServer Wires Bool ℕ (List User)
client = record {
  qt = no_clients;
  db = [];
  cached_cameras = 0;
  cached_device_status = 0;
  current_fd = some 4;
  world = carrying;
}

ai_event_reaches_qt_example :
    (hub' : Hub Wires (Manager ℕ)) × (v : Wires) × (event_turn wires marking none "SubPi_10.0.0.2" 5
        Ready.readable 2 hub
      ≡ some (true, 0, hub'))
    × (wires-laws.sent hub'.world 7
        ≡ wires-laws.sent hub.world 7 ++ join (frame wires marking MessageType.ai 9))
    × (handle_incoming wires sessions marking table digest Ready.readable 4 client
        ≡ some
            (true, on_ai_event wires sessions marking table digest 9 (record client { world = v })))
    × (wires-laws.incoming v 4 ≡ [])
unfolding wires-laws header_be tagged
ai_event_reaches_qt_example =
    Through.ai_event_reaches_qt wires wires-laws marking none "SubPi_10.0.0.2" wires wires-laws
      sessions marking-laws table digest (9 ∷ []) [] 9 9 5 2 7 hub [] 4 client (wires-IsFed 5)
      (omega arith) (omega arith) refl refl refl (refl, tt) (wires-IsHealthy 7) refl (wires-IsFed 4)
      (omega arith) refl
