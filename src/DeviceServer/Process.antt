-- ===== src/DeviceServer/Process.antt =====
-- The process of the DeviceServer: run, stop and the destructors of
-- DeviceServer/src/DeviceController.cpp, under the signal handler of DeviceServer/src/main.cpp. A
-- signal comes between two statements of run.
pub mod Early
pub mod Main
pub mod Settling
pub mod Ending
use device_app.Base.{
  ℕ, String, List, [], ◌∷◌, Option, none, Bool, true, false, not, if◌then◌else◌, ◌||◌,
}
use device_app.Base.Map.{Map}
use device_app.Wire.{Bytes}
use device_app.Net.{Net}
use device_app.Net.Listening.{Listener}
use device_app.Json.{JsonLib}
use device_app.DeviceManager.Monitor.{Health}
use device_app.Onvif.{Probes}
use device_app.Relay.Lifecycle as Rtsp
use device_app.Relay.Lifecycle.{RtspService}
use device_app.InternalServer.Lifecycle as Port
use device_app.DeviceController.{Manager, owner}
use device_app.DeviceServer.{Server, Turn, turn}
use device_app.DeviceServer.Discovery.{Discovery, start_discovery, stop_discovery}

-- The controller with its members; the relays and the world stand in the discovery's server.
pub record App (W J : Type 0) : Type 0 where
  pub discovery : Discovery W
  pub device_status : Map String J
  -- rtsp_server_.is_running_, and whether its loop's thread is joinable
  pub relaying : Bool
  pub looping : Bool
  -- internal_server_
  pub client_fds : List ℕ
  pub finished_fds : List ℕ
  pub client_threads : List ℕ
  pub server_fd : Option ℕ
  pub port : ℕ
  pub serving : Bool
  pub accepting : Bool
  pub is_running : Bool

-- What the threads of the internal port make of its tables.
pub record Connections : Type 0 where
  pub client_fds : List ℕ
  pub finished_fds : List ℕ
  pub client_threads : List ℕ

pub data Event (W : Type 0) : Type 0 where
  -- SIGINT, with the datagram that the beacon receiver is at work on
  signal : Option (Bytes × String) → Event W
  -- a thread of the discovery takes a turn, while there is one
  discovers : Turn W → Event W
  -- the threads of the internal port, while it serves
  connects : Connections → Event W

-- What happens between the statements of run: after each start, and in each sleep of its loop.
pub record Schedule (W : Type 0) : Type 0 where
  pub at_first : List (Event W)
  pub after_discovery : List (Event W)
  pub after_relays : List (Event W)
  pub after_port : List (Event W)
  pub rounds : List (List (Event W))

module _ {W : Type 0} where
  unfoldable pub is_signal : Event W → Bool
  is_signal (Event.signal last) = true
  is_signal (Event.discovers t) = false
  is_signal (Event.connects c) = false

  unfoldable pub signals : List (Event W) → Bool
  unfolding is_signal
  signals [] = false
  signals (e ∷ es) = is_signal e || signals es

  unfoldable pub round_signals : List (List (Event W)) → Bool
  unfolding signals
  round_signals [] = false
  round_signals (es ∷ rest) = signals es || round_signals rest

  unfoldable pub interrupted : Schedule W → Bool
  unfolding round_signals
  interrupted e =
      signals e.at_first
      || signals e.after_discovery
      || signals e.after_relays
      || signals e.after_port
      || round_signals e.rounds

module _ {W J : Type 0} where
  abbrev pub relays : App W J → RtspService
  relays a = record { rtsp = a.discovery.server.rtsp; is_running = a.relaying; looping = a.looping }

  abbrev pub with_relays : RtspService → App W J → App W J
  with_relays r a = record a {
    discovery = record a.discovery { server = record a.discovery.server { rtsp = r.rtsp } };
    relaying = r.is_running;
    looping = r.looping;
  }

  abbrev pub service : App W J → Port.Service W (Manager J)
  service a = record {
    hub = record {
      client_fds = a.client_fds;
      finished_fds = a.finished_fds;
      client_threads = a.client_threads;
      owner = record {
        devices = a.discovery.server.boards.devices;
        device_status = a.device_status;
      };
      world = a.discovery.server.boards.world;
    };
    server_fd = a.server_fd;
    port = a.port;
    is_running = a.serving;
    accepting = a.accepting;
  }

  abbrev pub with_service : Port.Service W (Manager J) → App W J → App W J
  with_service s a = record a {
    discovery = record a.discovery {
      server = record a.discovery.server {
        boards = record a.discovery.server.boards {
          devices = s.hub.owner.devices;
          world = s.hub.world;
        };
      };
    };
    device_status = s.hub.owner.device_status;
    client_fds = s.hub.client_fds;
    finished_fds = s.hub.finished_fds;
    client_threads = s.hub.client_threads;
    server_fd = s.server_fd;
    port = s.port;
    serving = s.is_running;
    accepting = s.accepting;
  }

  unfoldable pub connected : Connections → App W J → App W J
  connected c a =
      if a.serving
      then record a {
        client_fds = c.client_fds;
        finished_fds = c.finished_fds;
        client_threads = c.client_threads;
      }
      else a

  unfoldable pub start_relays : App W J → App W J
  start_relays a = with_relays (Rtsp.start (relays a)) a

  unfoldable pub stop_relays : App W J → App W J
  stop_relays a = with_relays (Rtsp.stop (relays a)) a

module _ {W J : Type 0} (net : Net W) (sockets : Listener W) (js : JsonLib J)
    (addresses : Option (List (Option String))) where
  unfoldable pub start_port : App W J → App W J
  start_port a =
      with_service (Port.start net js (owner net js addresses) sockets 30000 (service a)) a

  unfoldable pub stop_port : App W J → App W J
  stop_port a = with_service (Port.stop net js (owner net js addresses) sockets (service a)) a

  module _ (health : Health W) (probes : Probes W) (port_bytes : ℕ → Bytes) (to_string : ℕ → String)
      (profile : ℕ) where
    unfoldable pub discovered : Turn W → App W J → App W J
    discovered t a =
        let server' = turn net health probes port_bytes to_string profile t a.discovery.server in
        if a.discovery.is_discovering
        then record a { discovery = record a.discovery { server = server' } }
        else a

    unfoldable pub stop_manager : Option (Bytes × String) → App W J → App W J
    stop_manager last a = record a {
      discovery = stop_discovery net health port_bytes to_string last a.discovery;
    }

    -- DeviceController::stop; also the signal handler. Each join in it is taken to end.
    unfoldable pub stop : Option (Bytes × String) → App W J → App W J
    unfolding stop_port stop_relays stop_manager
    stop last a =
        if not a.is_running
        then a
        else stop_manager last (stop_relays (stop_port (record a { is_running = false })))

    unfoldable pub happen : Event W → App W J → App W J
    unfolding stop discovered connected
    happen (Event.signal last) a = stop last a
    happen (Event.discovers t) a = discovered t a
    happen (Event.connects c) a = connected c a

    unfoldable pub happen_all : List (Event W) → App W J → App W J
    unfolding happen
    happen_all [] a = a
    happen_all (e ∷ es) a = happen_all es (happen e a)
