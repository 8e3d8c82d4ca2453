-- ===== src/DeviceServer/Process/Main.antt =====
-- run, the destructors and main: the courses that the DeviceServer's process takes through its steps.
use device_app.Base.{ℕ, String, List, [], ◌∷◌, Option, none, Bool, true, false, if◌then◌else◌}
use device_app.Wire.{Bytes}
use device_app.Net.{Net}
use device_app.Net.Listening.{Listener}
use device_app.Json.{JsonLib}
use device_app.DeviceManager.Monitor.{Health}
use device_app.Onvif.{Probes}
use device_app.DeviceServer.Discovery.{start_discovery}
use device_app.DeviceServer.Process.{
  App, Event, Schedule, start_relays, stop_relays, start_port, stop_port, stop_manager, stop,
  happen_all,
}

module _ {W J : Type 0} (net : Net W) (sockets : Listener W) (js : JsonLib J)
    (addresses : Option (List (Option String))) (health : Health W) (probes : Probes W)
    (port_bytes : ℕ → Bytes) (to_string : ℕ → String) (profile : ℕ) where
  -- The destructors: the controller's own, and those of its members, the last one first.
  unfoldable pub destroyed : Option (Bytes × String) → App W J → App W J
  unfolding stop stop_port stop_relays stop_manager
  destroyed last a =
      stop_manager net sockets js addresses health probes port_bytes to_string profile last (
        stop_relays (
          stop_port net sockets js addresses
            (stop net sockets js addresses health probes port_bytes to_string profile last a)))

  -- The loop of run. false: it has ended.
  unfoldable pub main_loop : List (List (Event W)) → App W J → Bool × App W J
  unfolding happen_all
  main_loop [] a = (a.is_running, a)
  main_loop (events ∷ rest) a =
      let next =
        main_loop rest (
          happen_all net sockets js addresses health probes port_bytes to_string profile events
            a) in
      if a.is_running then next else (false, a)

  -- The start-up of run.
  unfoldable pub started : Schedule W → App W J → App W J
  unfolding happen_all start_relays start_port
  started e a =
      let first =
        happen_all net sockets js addresses health probes port_bytes to_string profile e.at_first
          (record a { is_running = true }) in
      let found =
        happen_all net sockets js addresses health probes port_bytes to_string profile
          e.after_discovery (record first { discovery = start_discovery first.discovery }) in
      let relayed =
        happen_all net sockets js addresses health probes port_bytes to_string profile
          e.after_relays (start_relays found) in
      happen_all net sockets js addresses health probes port_bytes to_string profile e.after_port
        (start_port net sockets js addresses relayed)

  unfoldable pub run : Schedule W → App W J → Bool × App W J
  unfolding started main_loop
  run e a = main_loop e.rounds (started e a)

  -- main of main.cpp: false, when it has returned and the controller is destroyed; `last` is the
  -- datagram that the beacon receiver is at work on by then.
  unfoldable pub device_main : Option (Bytes × String) → Schedule W → App W J → Bool × App W J
  unfolding run destroyed
  device_main last e a =
      let (on, b) = run e a in if on then (true, b) else (false, destroyed last b)

-- Before run: nothing is started, and the RTSP server has no mount points.
abbrev pub fresh : {W J : Type 0} → W → App W J
fresh w = record {
  discovery = record {
    server = record {
      boards = record {
        devices = [];
        next_port = 15001;
        listeners = [];
        finished_ids = [];
        world = w;
      };
      sunapi_fail_count = [];
      rtsp = record { mounted = false; factories = [] };
    };
    is_discovering = false;
    beacon_thread = false;
    scan_thread = false;
    monitor_thread = false;
  };
  device_status = [];
  relaying = false;
  looping = false;
  client_fds = [];
  finished_fds = [];
  client_threads = [];
  server_fd = none;
  port = 30000;
  serving = false;
  accepting = false;
  is_running = false;
}
