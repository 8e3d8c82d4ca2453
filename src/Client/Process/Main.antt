-- ===== src/Client/Process/Main.antt =====
-- run, the destructors and main: the courses that the ClientServer's process takes through its steps.
use device_app.Base.{String, List, [], ◌∷◌, Option, none, some, Bool, true, false, if◌then◌else◌}
use device_app.Wire.{Bytes}
use device_app.Net.{Net}
use device_app.Net.Listening.{Listener}
use device_app.Json.{JsonLib}
use device_app.Auth.{Sqlite}
use device_app.Qt.{SecureSession}
use device_app.Qt.Clients.{no_clients}
use device_app.Client.{broadcast_round}
use device_app.Tls.Context.{ContextLib, init_tls}
use device_app.Client.Process.{
  App, Event, Schedule, start_link, start_port, stop_link, stop, destroy_auth, destroy_port,
  happen_all,
}

module _ {W S J D C : Type 0} (net : Net W) (sockets : Listener W) where
  -- The destructors: the controller's own, and those of its members, the last one first.
  unfoldable pub destroyed : (D → D) → App W S J D C → App W S J D C
  unfolding stop stop_link destroy_auth destroy_port
  destroyed close_database a =
      stop_link net sockets
        (destroy_port net sockets (destroy_auth net sockets close_database (stop net sockets a)))

  module _ (tls : SecureSession S) (js : JsonLib J) (sql : Sqlite D) (sha256 : String → Bytes)
      (contexts : ContextLib C) where
    -- The main loop. false: it has ended.
    unfoldable pub main_loop :
        List (J × List (Event W S J D)) → App W S J D C → Bool × App W S J D C
    unfolding happen_all
    main_loop [] a = (a.is_running, a)
    main_loop ((status, events) ∷ rest) a =
        let sent = broadcast_round net tls js sql sha256 status a.link.client in
        let next =
          main_loop rest
            (happen_all net sockets events (record a { link = record a.link { client = sent } })) in
        if a.is_running then next else (false, a)

    -- run after the accounts are there.
    unfoldable pub started : Schedule W S J D → App W S J D C → App W S J D C
    unfolding happen_all start_link start_port
    started e a =
        let linked = happen_all net sockets e.after_link (start_link a) in
        let ctx = (init_tls contexts "Server/server.crt" "Server/server.key" "Server/ca.crt").1 in
        let secured = happen_all net sockets e.after_tls (record linked { tls_ctx = ctx }) in
        happen_all net sockets e.after_port (start_port net sockets secured)

    -- ClientController::run, with what AuthManager::init gives. Without the accounts it returns.
    unfoldable pub run : Schedule W S J D → Bool × Option D → App W S J D C → Bool × App W S J D C
    unfolding started main_loop happen_all
    run e (true, some d) a =
        let first = happen_all net sockets e.at_first (record a { is_running = true }) in
        let client = record first.link.client { db = d } in
        main_loop e.rounds
          (started e (record first { link = record first.link { client = client } }))
    run e (is_open, db) a =
        (false, happen_all net sockets e.at_first (record a { is_running = true }))

    -- main of main.cpp: false, when it has returned and the controller is destroyed.
    unfoldable pub client_main :
        (D → D) → Schedule W S J D → Bool × Option D → App W S J D C → Bool × App W S J D C
    unfolding run destroyed
    client_main close_database e auth a =
        let (on, b) = run e auth a in if on then (true, b) else (false, destroyed close_database b)

-- Before run: nothing is started. `empty` is json::array(), `unopened` the database before init.
abbrev pub fresh : {W S J D C : Type 0} → J → D → W → App W S J D C
fresh empty unopened w = record {
  link = record {
    is_running = false;
    auth_host = "";
    auth_port = 30000;
    connecting = false;
    client = record {
      qt = no_clients;
      db = unopened;
      cached_cameras = empty;
      cached_device_status = empty;
      current_fd = none;
      world = w;
    };
  };
  server_fd = none;
  port = 20000;
  serving = false;
  accepting = false;
  tls_ctx = none;
  is_running = false;
}
