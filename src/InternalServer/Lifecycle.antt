-- ===== src/InternalServer/Lifecycle.antt =====
-- InternalServer::start and stop of DeviceServer/src/InternalServer.cpp. Unlike the Qt port's, this
-- stop leaves a client's socket open until its handler has ended.
use device_app.Base.{
  ℕ, List, [], ◌∷◌, Option, none, some, Bool, true, false, elem, nat_key, if◌then◌else◌,
}
use device_app.Net.{Net}
use device_app.Net.Listening.{Listener, open_port, close_port}
use device_app.InternalServer.{Owner, Hub, end_client}
use device_app.Json.{JsonLib}

pub record Service (W E : Type 0) : Type 0 where
  pub hub : Hub W E
  pub server_fd : Option ℕ
  pub port : ℕ
  pub is_running : Bool
  pub accepting : Bool

module _ {W : Type 0} (net : Net W) (sockets : Listener W) where
  shutdown_clients : List ℕ → W → W
  shutdown_clients [] w = w
  shutdown_clients (fd ∷ fds) w = shutdown_clients fds (sockets.shutdown w fd)

  close_clients : List ℕ → W → W
  close_clients [] w = w
  close_clients (fd ∷ fds) w = close_clients fds (net.close w fd)

module _ {W J E : Type 0} (net : Net W) (js : JsonLib J) (owner : Owner W J E)
    (sockets : Listener W) where
  unfoldable pub opened : Option ℕ × W → ℕ → Service W E → Service W E
  opened (none, w) port s = record s {
    port = port;
    server_fd = none;
    hub = record s.hub { world = w };
  }
  opened (some fd, w) port s = record s {
    port = port;
    server_fd = some fd;
    is_running = true;
    accepting = true;
    hub = record s.hub { world = w };
  }

  unfoldable pub start : ℕ → Service W E → Service W E
  unfolding opened
  start port s =
      let started = opened (open_port net sockets port 3 s.hub.world) port s in
      if s.is_running then s else started

  -- The join of a handler: one that has not ended before leaves its loop, since its recv fails.
  join_handler : ℕ → Hub W E → Hub W E
  join_handler fd hub = if elem fd hub.finished_fds then hub else end_client net js owner fd hub

  pub join_handlers : List ℕ → Hub W E → Hub W E
  unfolding join_handler
  join_handlers [] hub = hub
  join_handlers (fd ∷ fds) hub = join_handlers fds (join_handler fd hub)

  pub shut : Service W E → Hub W E
  unfolding shutdown_clients
  shut s = record s.hub {
    world =
        shutdown_clients net sockets s.hub.client_fds
          (close_port net sockets s.server_fd s.hub.world);
  }

  unfoldable pub stop : Service W E → Service W E
  unfolding shut join_handlers close_clients
  stop s =
      let joined = join_handlers s.hub.client_threads (shut s) in
      if s.is_running
      then record s {
        is_running = false;
        server_fd = none;
        accepting = false;
        hub = record joined {
          client_fds = [];
          client_threads = [];
          world = close_clients net sockets joined.client_fds joined.world;
        };
      }
      else s
