-- ===== src/Client/Process.antt =====
-- The process of the ClientServer: run, stop and the destructors of ClientServer/src/ClientController.cpp,
-- under the signal handler of ClientServer/src/main.cpp. A signal comes between two statements of run.
pub mod Main
pub mod Stopping
pub mod Settling
pub mod Leftovers
pub mod Rounds
pub mod Ending
pub mod Early
use device_app.Base.{
  ℕ, String, List, [], ◌∷◌, Option, none, some, Bool, true, false, not, if◌then◌else◌, ◌||◌,
}
use device_app.Wire.{Bytes}
use device_app.Net.{Net}
use device_app.Net.Listening.{Listener}
use device_app.Json.{JsonLib}
use device_app.Auth.{Sqlite}
use device_app.Qt.{SecureSession, QtServer}
use device_app.Qt.Clients.{no_clients}
use device_app.Qt.Lifecycle as Port
use device_app.Client.{ClientServer, broadcast_round}
use device_app.Client.Link.Retry as Retry
use device_app.Client.Link.Retry.{LinkService}
use device_app.Tls.Context.{ContextLib, init_tls}

-- The controller with its members; the Qt port's tables and the database stand in the link's client.
pub record App (W S J D C : Type 0) : Type 0 where
  pub link : LinkService W S J D
  pub server_fd : Option ℕ
  pub port : ℕ
  -- qt_server_.is_running_, and whether its accept thread is joinable
  pub serving : Bool
  pub accepting : Bool
  pub tls_ctx : Option C
  pub is_running : Bool

-- SIGINT, or what the other threads make of the state that they share.
pub data Event (W S J D : Type 0) : Type 0 where
  signal : Event W S J D
  others : ClientServer W S J D → Event W S J D

-- What happens between the statements of run: after each start, and in each round's pause, with the
-- round's status.
pub record Schedule (W S J D : Type 0) : Type 0 where
  pub at_first : List (Event W S J D)
  pub after_link : List (Event W S J D)
  pub after_tls : List (Event W S J D)
  pub after_port : List (Event W S J D)
  pub rounds : List (J × List (Event W S J D))

module _ {W S J D C : Type 0} where
  abbrev pub service : App W S J D C → Port.Service W S
  service a = record {
    qt = a.link.client.qt;
    server_fd = a.server_fd;
    port = a.port;
    is_running = a.serving;
    accepting = a.accepting;
    world = a.link.client.world;
  }

  abbrev pub with_service : Port.Service W S → App W S J D C → App W S J D C
  with_service s a = record a {
    link = record a.link { client = record a.link.client { qt = s.qt; world = s.world } };
    server_fd = s.server_fd;
    port = s.port;
    serving = s.is_running;
    accepting = s.accepting;
  }

  -- The threads that are there bring the state to `st`: the handlers of the Qt port its tables and the
  -- accounts, the link its caches and its socket.
  unfoldable pub shared : ClientServer W S J D → App W S J D C → App W S J D C
  shared st a =
      let old = a.link.client in
      record a {
        link = record a.link {
          client = record {
            qt = if a.serving then st.qt else old.qt;
            db = if a.serving then st.db else old.db;
            cached_cameras = if a.link.is_running then st.cached_cameras else old.cached_cameras;
            cached_device_status =
                if a.link.is_running then st.cached_device_status else old.cached_device_status;
            current_fd = if a.link.is_running then st.current_fd else old.current_fd;
            world = st.world;
          };
        };
      }

  unfoldable pub start_link : App W S J D C → App W S J D C
  start_link a = record a { link = Retry.start "127.0.0.1" 30000 a.link }

module _ {W S J D : Type 0} where
  unfoldable pub is_signal : Event W S J D → Bool
  is_signal Event.signal = true
  is_signal (Event.others st) = false

  unfoldable pub signals : List (Event W S J D) → Bool
  unfolding is_signal
  signals [] = false
  signals (e ∷ es) = is_signal e || signals es

  unfoldable pub round_signals : List (J × List (Event W S J D)) → Bool
  unfolding signals
  round_signals [] = false
  round_signals ((status, es) ∷ rest) = signals es || round_signals rest

  unfoldable pub interrupted : Schedule W S J D → Bool
  unfolding round_signals
  interrupted e =
      signals e.at_first
      || signals e.after_link
      || signals e.after_tls
      || signals e.after_port
      || round_signals e.rounds

module _ {W S J D C : Type 0} (net : Net W) (sockets : Listener W) where
  unfoldable pub stop_link : App W S J D C → App W S J D C
  stop_link a = record a { link = Retry.stop net sockets a.link }

  unfoldable pub start_port : App W S J D C → App W S J D C
  start_port a = with_service (Port.start net sockets 20000 (service a)) a

  unfoldable pub stop_port : App W S J D C → App W S J D C
  stop_port a = with_service (Port.stop net sockets (service a)) a

  -- ClientController::stop, the link first; also the signal handler. Each join in it is taken to end.
  unfoldable pub stop : App W S J D C → App W S J D C
  unfolding stop_link stop_port
  stop a = if not a.is_running then a else stop_port (stop_link (record a { is_running = false }))

  unfoldable pub happen : Event W S J D → App W S J D C → App W S J D C
  unfolding stop shared
  happen Event.signal a = stop a
  happen (Event.others st) a = shared st a

  unfoldable pub happen_all : List (Event W S J D) → App W S J D C → App W S J D C
  unfolding happen
  happen_all [] a = a
  happen_all (e ∷ es) a = happen_all es (happen e a)

  -- ~AuthManager; `close_database` is sqlite3_close.
  unfoldable pub destroy_auth : (D → D) → App W S J D C → App W S J D C
  destroy_auth close_database a =
      let client = record a.link.client { db = close_database a.link.client.db } in
      record a { link = record a.link { client = client } }

  -- ~QtCommServer
  unfoldable pub destroy_port : App W S J D C → App W S J D C
  unfolding stop_port
  destroy_port a = record (stop_port a) { tls_ctx = none }
