-- ===== src/Client/Link/Retry.antt =====
-- The outer loop of InternalClient::connectionLoop in ClientServer/src/InternalClient.cpp: its
-- attempts to connect, its start and its stop.
pub mod Holding
use device_app.Base.{
  ℕ, ◌≡◌, refl, ◌∙◌, String, List, [], ◌∷◌, ◌++◌, Option, none, some, Bool, true, false, ◌>>=◌,
  if◌then◌else◌, ◌&&◌, All,
}
use device_app.Wire.{Bytes}
use device_app.Net.{Ready, Net}
use device_app.Net.Listening.{Listener}
use device_app.Json.{JsonLib}
use device_app.Auth.{Sqlite}
use device_app.Qt.{SecureSession}
use device_app.Client.{ClientServer}
use device_app.Client.Link.{handle_incoming, receive_pushes, disconnect, connection}

-- What the kernel makes of one turn of the loop.
pub data Attempt : Type 0 where
  -- socket(2) fails
  no_socket : Attempt
  -- connect(2) fails on this descriptor
  refused : ℕ → Attempt
  -- connect(2) succeeds, and the connection's waits end like this
  accepted : ℕ → List (Bool × Ready) → Attempt

-- Where the loop stands: ended, pausing before its next turn, or on a connection.
pub data Standing : Type 0 where
  stopped pausing connected : Standing

module _ {W S J D : Type 0} (net : Net W) (tls : SecureSession S) (js : JsonLib J) (sql : Sqlite D)
    (sha256 : String → Bytes) where
  still_on : Bool × ClientServer W S J D → Standing × ClientServer W S J D
  still_on (true, st) = (Standing.connected, st)
  still_on (false, st) = (Standing.pausing, st)

  -- One turn. `none` is an exception that nothing catches.
  attempt : Attempt → ClientServer W S J D → Option (Standing × ClientServer W S J D)
  unfolding still_on
  attempt Attempt.no_socket st = some (Standing.pausing, st)
  attempt (Attempt.refused fd) st =
      some (Standing.pausing, record st { world = net.close st.world fd })
  attempt (Attempt.accepted fd rounds) st = do
    r ← connection net tls js sql sha256 fd rounds st
    some (still_on r)

  -- The loop; each element is a test of `is_running_` and the turn that follows it.
  unfoldable pub connection_loop :
      List (Bool × Attempt) → ClientServer W S J D → Option (Standing × ClientServer W S J D)
  unfolding attempt
  connection_loop [] st = some (Standing.pausing, st)
  connection_loop ((false, a) ∷ rest) st = some (Standing.stopped, st)
  connection_loop ((true, a) ∷ rest) st = elim (attempt a st) [
    | none ↦ none
    | some (Standing.stopped, st') ↦ some (Standing.stopped, st')
    | some (Standing.pausing, st') ↦ connection_loop rest st'
    | some (Standing.connected, st') ↦ some (Standing.connected, st')
  ]

-- InternalClient's thread, with its flag and the address it connects to.
pub record LinkService (W S J D : Type 0) : Type 0 where
  pub is_running : Bool
  pub auth_host : String
  pub auth_port : ℕ
  -- `conn_thread_` is joinable
  pub connecting : Bool
  pub client : ClientServer W S J D

module _ {W S J D : Type 0} where
  unfoldable pub start : String → ℕ → LinkService W S J D → LinkService W S J D
  start host port s =
      if s.is_running
      then s
      else record s { is_running = true; auth_host = host; auth_port = port; connecting = true }

module _ {W S J D : Type 0} (net : Net W) (sockets : Listener W) where
  -- The socket is shut down, so the loop's wait ends, and the loop closes it.
  unfoldable pub hung_up : Option ℕ → ClientServer W S J D → ClientServer W S J D
  hung_up none st = st
  hung_up (some fd) st = record st {
    current_fd = none;
    world = net.close (sockets.shutdown st.world fd) fd;
  }

  unfoldable pub stop : LinkService W S J D → LinkService W S J D
  unfolding hung_up
  stop s =
      if s.is_running
      then record s {
        is_running = false;
        connecting = false;
        client = hung_up s.client.current_fd s.client;
      }
      else s
