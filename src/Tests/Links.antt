-- ===== src/Tests/Links.antt =====
-- The client handler and the link between the two servers at concrete inputs.
use device_app.Base.{ℕ, ◌≡◌, refl, List, [], ◌∷◌, Option, some, Bool, true, false, nat_key, arith}
use device_app.Base.Map.{find}
use device_app.Wire.{MessageType, header_be}
use device_app.Net.{Ready, join}
use device_app.Auth.{User}
use device_app.Qt.{QtServer, accept_client}
use device_app.Qt.Clients.{Reachable}
use device_app.Qt.Handler.{Host, client_turn, client_handler}
use device_app.Qt.Handler.Handshake
use device_app.Qt.Handler.Handshake.{Passes}
use device_app.Qt.Handler.Cleanup
use device_app.Qt.Handler.Cleanup.{CleansUp}
use device_app.InternalServer.{
  Owner, Hub, frame, image_frame, broadcast_ai_event, broadcast_meta_event, broadcast_camera_list,
  broadcast_image_event,
}
use device_app.InternalServer.Push
use device_app.InternalServer.Push.{Gains, Spares}
use device_app.Client.{ClientServer}
use device_app.Client.Link.{receive_pushes}
use device_app.Client.Link.Arrival
use device_app.Tests.Models.{
  Wires, wires, wires-laws, wires-IsHealthy, wires-IsFed, quiet, bytes_lib, bytes_text-laws, table,
  sessions, digest,
}

-- A client connected, and its handler ended.
abbrev connected : QtServer Bool
connected = record {
  client_fds = 7 ∷ [];
  client_roles = [];
  tls_sessions = [];
  finished_fds = [];
  client_threads = 7 ∷ [];
}

connected-Reachable : Reachable connected
unfolding accept_client
connected-Reachable = Reachable.accepted 7 Reachable.start refl refl

-- An owner that counts messages.
abbrev counting : ℕ → MessageType → ℕ → Host Wires Bool ℕ → Option (Host Wires Bool ℕ)
counting fd type body st = some (record st { owner = 1 })

abbrev host : Host Wires Bool ℕ
host = record {
  qt = record connected { tls_sessions = (7, false) ∷ [] };
  owner = 0;
  world = record { taken = λ fd. []; inbox = λ fd. 1 ∷ 1 ∷ 0 ∷ 0 ∷ 0 ∷ 55 ∷ [] };
}

turn_before_handshake_example :
    Passes wires wires-laws sessions bytes_lib counting 7 host
      (client_turn wires sessions bytes_lib counting 7 true host)
unfolding find
turn_before_handshake_example =
    Handshake.turn_before_handshake wires wires-laws sessions bytes_lib counting 7 false host refl
      refl

client_handler-CleansUp_example :
    CleansUp wires sessions bytes_lib counting 7
      (client_handler wires sessions bytes_lib counting 7 false false (true ∷ true ∷ []) host)
client_handler-CleansUp_example =
    Cleanup.client_handler-CleansUp wires sessions bytes_lib counting 7 false false
      (true ∷ true ∷ []) host refl

abbrev owner : Owner Wires ℕ ℕ
owner = record {
  get_camera_list = λ e. 70;
  get_device_status = λ e. some 80;
  on_device_command = λ j e w. some (e, w);
}

abbrev hub : Hub Wires ℕ
hub = record {
  client_fds = 5 ∷ 7 ∷ [];
  finished_fds = [];
  client_threads = 5 ∷ 7 ∷ [];
  owner = 0;
  world = quiet;
}

pushes_reach_healthy_example :
    Gains wires wires-laws bytes_lib owner 7
      (join (frame wires bytes_lib MessageType.ai 9))
      hub
      (broadcast_ai_event wires bytes_lib owner 9 hub)
    × Gains wires wires-laws bytes_lib owner 7
        (join (frame wires bytes_lib MessageType.meta 9))
        hub
        (broadcast_meta_event wires bytes_lib owner 9 hub)
    × Gains wires wires-laws bytes_lib owner 7
        (join (frame wires bytes_lib MessageType.camera 70))
        hub
        (broadcast_camera_list wires bytes_lib owner hub)
    × Gains wires wires-laws bytes_lib owner 7
        (join (image_frame wires bytes_lib 9 (1 ∷ 2 ∷ [])))
        hub
        (broadcast_image_event wires bytes_lib owner 9 (1 ∷ 2 ∷ []) hub)
pushes_reach_healthy_example =
    Push.pushes_reach_healthy wires wires-laws bytes_lib owner 9 (1 ∷ 2 ∷ []) hub 7
      (refl, (refl, tt)) (wires-IsHealthy 7) refl

-- The DeviceServer's greeting has arrived, with the start of a next message.
abbrev greeted : Wires
greeted = record {
  taken = λ fd. [];
  inbox = λ fd. 7 ∷ 0 ∷ 0 ∷ 0 ∷ 1 ∷ 70 ∷ 5 ∷ 0 ∷ 0 ∷ 0 ∷ 1 ∷ 80 ∷ 9 ∷ [];
}

abbrev client_server : ClientServer Wires Bool ℕ (List User)
client_server = record {
  qt = connected;
  db = [];
  cached_cameras = 0;
  cached_device_status = 0;
  current_fd = some 4;
  world = greeted;
}

greeting_fills_caches_example :
    (w : Wires) × (wires-laws.incoming w 4 ≡ 9 ∷ [])
    × (receive_pushes wires sessions bytes_lib table digest 4
          ((true, Ready.readable) ∷ (true, Ready.readable) ∷ [])
          client_server
        ≡ some (
          true,
          record client_server { cached_cameras = 70; cached_device_status = 80; world = w },
        ))
unfolding wires-laws header_be
greeting_fills_caches_example =
    Arrival.greeting_fills_caches wires wires-laws sessions bytes_lib bytes_text-laws table digest
      70 80 (9 ∷ []) 4 client_server (wires-IsFed 4) (omega arith) (omega arith) refl
