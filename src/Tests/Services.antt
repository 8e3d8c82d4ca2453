-- ===== src/Tests/Services.antt =====
-- The starts and stops, and the reconnects, at concrete inputs.
use device_app.Base.{ℕ, refl, List, [], ◌∷◌, none, some, Bool, true, nat_key}
use device_app.Base.Map.{insert}
use device_app.Net.Listening.{Listener}
use device_app.Auth.{User}
use device_app.Qt.{accept_client, set_client_role}
use device_app.Qt.Clients.{Reachable, no_clients}
use device_app.Qt.Lifecycle.{Service}
use device_app.InternalServer.{Owner, Hub}
use device_app.InternalServer.Lifecycle as Inner
use device_app.Client.{ClientServer}
use device_app.Net.{Ready}
use device_app.Client.Link.Retry.{Attempt, connection_loop}
use device_app.Client.Link.Retry.Holding
use device_app.Tests.Models.{Wires, wires, quiet, bytes_lib, sessions, table, digest}

abbrev pub ports : Listener Wires
ports = record {
  socket = λ w. (some 3, w);
  reuse_address = λ w fd. w;
  bind = λ w fd port. (true, w);
  listen = λ w fd backlog. (true, w);
  shutdown = λ w fd. w;
}

-- Client 7 is connected.
abbrev pub busy : Service Wires Bool
busy = record {
  qt = record {
    client_fds = 7 ∷ [];
    client_roles = (7, "admin") ∷ [];
    tls_sessions = [];
    finished_fds = [];
    client_threads = 7 ∷ [];
  };
  server_fd = some 3;
  port = 20000;
  is_running = true;
  accepting = true;
  world = quiet;
}

pub busy-Reachable : Reachable busy.qt
unfolding accept_client set_client_role insert
busy-Reachable = Reachable.tagged 7 "admin" (Reachable.accepted 7 Reachable.start refl refl) refl

abbrev client : ClientServer Wires Bool ℕ (List User)
client = record {
  qt = no_clients;
  db = [];
  cached_cameras = 5;
  cached_device_status = 6;
  current_fd = none;
  world = quiet;
}

-- A connection that is lost at its first read, and another one.
abbrev twice : List (Bool × Attempt)
twice =
    (true, Attempt.accepted 4 ((true, Ready.readable) ∷ [])) ∷ (true, Attempt.accepted 5 []) ∷ []

loop_holds_example :
    Holding.HeldIf wires sessions bytes_lib table digest
      (λ g. Holding.offers wires sessions bytes_lib table digest g twice)
      []
      (connection_loop wires sessions bytes_lib table digest twice client)
loop_holds_example = Holding.loop_holds wires sessions bytes_lib table digest twice client refl

abbrev owner : Owner Wires ℕ ℕ
owner = record {
  get_camera_list = λ e. 5;
  get_device_status = λ e. some 6;
  on_device_command = λ body e w. some (e, w);
}

-- Client 7 is served, the handler of client 8 has ended.
abbrev hub : Hub Wires ℕ
hub = record {
  client_fds = 7 ∷ [];
  finished_fds = 8 ∷ [];
  client_threads = 7 ∷ 8 ∷ [];
  owner = 0;
  world = quiet;
}

abbrev served : Inner.Service Wires ℕ
served = record { hub = hub; server_fd = some 3; port = 30000; is_running = true; accepting = true }
