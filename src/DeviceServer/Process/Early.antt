-- ===== src/DeviceServer/Process/Early.antt =====
-- The boards that register before the RTSP server of the DeviceServer is started: the order of
-- DeviceController::run in DeviceServer/src/DeviceController.cpp, and RtspServer::addRelayPath of
-- DeviceServer/src/RtspServer.cpp.
use device_app.Base.{
  ℕ, ◌≡◌, refl, String, List, [], ◌∷◌, Option, true, false, not, if_cases, text_key, arith,
}
use device_app.Wire.{Bytes}
use device_app.Net.{Net}
use device_app.Net.Listening.{Listener}
use device_app.Json.{JsonLib}
use device_app.DeviceManager.{Notice, is_registered}
use device_app.DeviceManager.Monitor.{Health}
use device_app.SubPi.Beacon.{Boards, beacon_turn, is_beacon}
use device_app.Onvif.{Probes}
use device_app.Relay.{Rtsp, after_notice, after_notices, add_relay_path, remove_relay_path}
use device_app.Relay.Lifecycle as Life
use device_app.DeviceServer.{Server, Turn, turn, registry_section}
use device_app.DeviceServer.Discovery.{Discovery, stop_discovery, stopped_server}
use device_app.DeviceServer.Process.{
  App, Event, relays, start_relays, stop_relays, stop_port, stop_manager, stop, discovered,
  connected, happen, happen_all,
}
use Prim.Native.String.{◌++◌ as append}

-- No server object, and no mount points.
abbrev pub unmounted : Rtsp
unmounted = record { mounted = false; factories = [] }

after_notices-unmounted :
    (to_string : ℕ → String) (ns : List Notice) → after_notices to_string unmounted ns ≡ unmounted
unfolding after_notices after_notice add_relay_path remove_relay_path
after_notices-unmounted to_string [] = refl
after_notices-unmounted to_string (Notice.registered info ∷ ns) =
    after_notices-unmounted to_string ns
after_notices-unmounted to_string (Notice.removed id ∷ ns) = after_notices-unmounted to_string ns
after_notices-unmounted to_string (Notice.changed ∷ ns) = after_notices-unmounted to_string ns

start-mounts :
    (r : Life.RtspService)
    → r.rtsp ≡ unmounted
    → r.is_running ≡ false
    → (Life.start r).rtsp ≡ record { mounted = true; factories = [] }
unfolding Life.start Life.mounted_rtsp
start-mounts r e off =
    if_cases (λ (q : Life.RtspService). q.rtsp ≡ record { mounted = true; factories = [] })
      r.is_running _ _ (λ on. ground (arith, on, off)) (λ _. rw e refl)

module _ {W J : Type 0} (net : Net W) (sockets : Listener W) (js : JsonLib J)
    (addresses : Option (List (Option String))) (health : Health W) (probes : Probes W)
    (port_bytes : ℕ → Bytes) (to_string : ℕ → String) (profile : ℕ) where
  -- The RTSP server was not started yet.
  abbrev Unrelayed : App W J → Type 0
  Unrelayed a = (a.discovery.server.rtsp ≡ unmounted) × (a.relaying ≡ false)

  told : (r : Rtsp) (ns : List Notice) → r ≡ unmounted → after_notices to_string r ns ≡ unmounted
  told r ns e = rw e (after_notices-unmounted to_string ns)

  abbrev section : Turn W → Server W → Server W × List Notice
  section = registry_section net health probes port_bytes to_string profile

  turn-unmounted :
      (t : Turn W) (s : Server W)
      → s.rtsp ≡ unmounted
      → (turn net health probes port_bytes to_string profile t s).rtsp ≡ unmounted
  unfolding turn registry_section after_notices
  turn-unmounted (Turn.beacon datagram ip) s e =
      told s.rtsp (section (Turn.beacon datagram ip) s).1 e
  turn-unmounted (Turn.scan replies) s e = told s.rtsp (section (Turn.scan replies) s).1 e
  turn-unmounted (Turn.channel_found ip i url) s e =
      told s.rtsp (section (Turn.channel_found ip i url) s).1 e
  turn-unmounted (Turn.sweep ids) s e = told s.rtsp (section (Turn.sweep ids) s).1 e
  turn-unmounted (Turn.elsewhere w) s e = e

  stop_manager-Unrelayed :
      (last : Option (Bytes × String)) (a : App W J)
      → Unrelayed a
      → Unrelayed
          (stop_manager net sockets js addresses health probes port_bytes to_string profile last a)
  unfolding stop_manager stop_discovery stopped_server
  stop_manager-Unrelayed last a h =
      if_cases (λ (d : Discovery W). (d.server.rtsp ≡ unmounted) × (a.relaying ≡ false))
        (not a.discovery.is_discovering) _ _ (λ _. h)
        (λ _. (told a.discovery.server.rtsp _ h.0, h.1))

  stop-Unrelayed :
      (last : Option (Bytes × String)) (a : App W J)
      → Unrelayed a
      → Unrelayed (stop net sockets js addresses health probes port_bytes to_string profile last a)
  unfolding stop stop_relays stop_port Life.stop
  stop-Unrelayed last a h =
      let b = stop_port net sockets js addresses (record a { is_running = false }) in
      if_cases Unrelayed (not a.is_running) _ _ (λ _. h)
        (λ _. stop_manager-Unrelayed last (stop_relays b) (
          if_cases (λ (r : Life.RtspService). (r.rtsp ≡ unmounted) × (r.is_running ≡ false))
            (not a.relaying) _ _ (λ _. h) (λ _. (refl, refl))))

  happen_all-Unrelayed :
      (es : List (Event W)) (a : App W J)
      → Unrelayed a
      → Unrelayed
          (happen_all net sockets js addresses health probes port_bytes to_string profile es a)
  unfolding happen_all happen discovered connected
  happen_all-Unrelayed [] a h = h
  happen_all-Unrelayed (Event.signal last ∷ es) a h =
      happen_all-Unrelayed es _ (stop-Unrelayed last a h)
  happen_all-Unrelayed (Event.discovers t ∷ es) a h = happen_all-Unrelayed es _ (
      if_cases Unrelayed a.discovery.is_discovering _ _
        (λ _. (turn-unmounted t a.discovery.server h.0, h.1)) (λ _. h))
  happen_all-Unrelayed (Event.connects c ∷ es) a h =
      happen_all-Unrelayed es _ (if_cases Unrelayed a.serving _ _ (λ _. h) (λ _. h))

  known_board :
      (datagram : Bytes) (ip : String) (s : Server W)
      → is_registered s.boards.devices (append "SubPi_" ip) ≡ true
      → turn net health probes port_bytes to_string profile (Turn.beacon datagram ip) s ≡ s
  unfolding turn registry_section beacon_turn after_notices
  known_board datagram ip s h =
      if_cases
        (λ (r : Boards W × List Notice).
          ◌≡◌ {A = Server W} (record s { boards = r.0; rtsp = after_notices to_string s.rtsp r.1 })
            s)
        (is_beacon datagram) _ _ (λ _. rw h refl) (λ _. refl)

  -- Whatever the discovery finds, and whatever else happens, before the RTSP server is started: its
  -- start leaves it without any relay path; and a Sub-Pi that is online by then gets none by its
  -- further beacons, which change nothing.
  pub early_boards_unrelayed :
      (es : List (Event W)) (a : App W J) (datagram : Bytes) (ip : String)
      → a.discovery.server.rtsp ≡ unmounted
      → a.relaying ≡ false
      → is_registered
          (happen_all net sockets js addresses health probes port_bytes to_string profile es
            a).discovery.server.boards.devices
          (append "SubPi_" ip)
        ≡ true
      → let found =
          happen_all net sockets js addresses health probes port_bytes to_string profile es a in
        let s = (start_relays found).discovery.server in
        (s.rtsp ≡ record { mounted = true; factories = [] })
        × (turn net health probes port_bytes to_string profile (Turn.beacon datagram ip) s ≡ s)
  unfolding start_relays
  early_boards_unrelayed es a datagram ip e off h =
      let found =
        happen_all net sockets js addresses health probes port_bytes to_string profile es a in
      let u = happen_all-Unrelayed es a (e, off) in
      (
        start-mounts (relays found) u.0 u.1,
        known_board datagram ip (start_relays found).discovery.server h,
      )
