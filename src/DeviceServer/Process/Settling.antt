-- ===== src/DeviceServer/Process/Settling.antt =====
-- The DeviceServer's process between two statements: what each step of it keeps.
use device_app.Base.{
  ℕ, ◌≡◌, refl, sym, ◌∙◌, String, List, [], ◌∷◌, Option, none, some, false, not, if_cases, arith,
}
use device_app.Wire.{Bytes}
use device_app.Net.{Net}
use device_app.Net.Listening.{Listener, open_port}
use device_app.Json.{JsonLib}
use device_app.DeviceManager.Monitor.{Health}
use device_app.Onvif.{Probes}
use device_app.Relay.Lifecycle as Life
use device_app.InternalServer.Lifecycle as Port
use device_app.DeviceController.{Manager, owner}
use device_app.DeviceServer.{Turn}
use device_app.DeviceServer.Discovery.{Discovery, start_discovery, stop_discovery}
use device_app.DeviceServer.Process.{
  App, Event, Connections, service, start_relays, stop_relays, start_port, stop_port, stop_manager,
  stop, discovered, connected, happen, happen_all,
}

module _ {W J : Type 0} where
  -- The internal port serves nobody.
  abbrev pub Closed : Port.Service W (Manager J) → Type 0
  Closed s =
      (s.hub.client_fds ≡ [])
      × (s.hub.client_threads ≡ [])
      × (s.server_fd ≡ none)
      × (s.is_running ≡ false)
      × (s.accepting ≡ false)

  -- The threads of the relays and the discovery are there as long as their flags are set.
  abbrev pub Paired : App W J → Type 0
  Paired a =
      (a.looping ≡ a.relaying)
      × (a.discovery.beacon_thread ≡ a.discovery.is_discovering)
      × (a.discovery.scan_thread ≡ a.discovery.is_discovering)
      × (a.discovery.monitor_thread ≡ a.discovery.is_discovering)

  pub record Settled (a : App W J) : Type 0 where
    pub quiet : a.serving ≡ false → Closed (service a)
    pub paired : Paired a

  -- No thread runs, no client is left, and the ports are closed.
  pub record Ended (a : App W J) : Type 0 where
    pub port : Closed (service a)
    pub relaying : a.relaying ≡ false
    pub looping : a.looping ≡ false
    pub is_discovering : a.discovery.is_discovering ≡ false
    pub beacon_thread : a.discovery.beacon_thread ≡ false
    pub scan_thread : a.discovery.scan_thread ≡ false
    pub monitor_thread : a.discovery.monitor_thread ≡ false

  Ended-Settled : (a : App W J) → Ended a → Settled a
  Ended-Settled a h = record {
    quiet = λ off. h.port;
    paired = (
      h.looping ∙ sym h.relaying,
      h.beacon_thread ∙ sym h.is_discovering,
      h.scan_thread ∙ sym h.is_discovering,
      h.monitor_thread ∙ sym h.is_discovering,
    );
  }

  stop_relays-off : (a : App W J) → (stop_relays a).relaying ≡ false
  unfolding stop_relays Life.stop
  stop_relays-off a =
      if_cases (λ (r : Life.RtspService). r.is_running ≡ false) (not a.relaying) _ _
        (λ off. ground (arith, off)) (λ _. refl)

  stop_relays-Paired : (a : App W J) → Paired a → Paired (stop_relays a)
  unfolding stop_relays Life.stop
  stop_relays-Paired a h = (
    if_cases (λ (r : Life.RtspService). r.looping ≡ r.is_running) (not a.relaying) _ _ (λ _. h.0)
        (λ _. refl),
    h.1,
    h.2,
    h.3,
  )

  pub start_relays-Settled : (a : App W J) → Settled a → Settled (start_relays a)
  unfolding start_relays Life.start
  start_relays-Settled a h = record {
    quiet = h.quiet;
    paired = (
      if_cases (λ (r : Life.RtspService). r.looping ≡ r.is_running) a.relaying _ _ (λ _. h.paired.0)
          (λ _. refl),
      h.paired.1,
      h.paired.2,
      h.paired.3,
    );
  }

  pub start_discovery-Settled :
      (a : App W J) → Settled a → Settled (record a { discovery = start_discovery a.discovery })
  unfolding start_discovery
  start_discovery-Settled a h =
      if_cases (λ (d : Discovery W). Settled (record a { discovery = d }))
        a.discovery.is_discovering _ _ (λ _. h)
        (λ _. record { quiet = h.quiet; paired = (h.paired.0, refl, refl, refl) })

  connected-Settled : (c : Connections) (a : App W J) → Settled a → Settled (connected c a)
  unfolding connected
  connected-Settled c a h =
      if_cases Settled a.serving _ _
        (λ on. record { quiet = λ off. ground (arith, on, off); paired = h.paired }) (λ _. h)

  module _ (net : Net W) (sockets : Listener W) (js : JsonLib J)
      (addresses : Option (List (Option String))) where
    abbrev Quiet : Port.Service W (Manager J) → Type 0
    Quiet s = s.is_running ≡ false → Closed s

    stop-Closed :
        (s : Port.Service W (Manager J))
        → Quiet s
        → Closed (Port.stop net js (owner net js addresses) sockets s)
    unfolding Port.stop
    stop-Closed s h = if_cases Closed s.is_running _ _ (λ _. (refl, refl, refl, refl, refl)) h

    opened-Quiet :
        (r : Option ℕ × W) (port : ℕ) (s : Port.Service W (Manager J))
        → Closed s
        → Quiet (Port.opened net js (owner net js addresses) sockets r port s)
    unfolding Port.opened
    opened-Quiet (none, w) port s h off = (h.0, h.1, refl, h.3, h.4)
    opened-Quiet (some fd, w) port s h off = cc off

    start-Quiet :
        (port : ℕ) (s : Port.Service W (Manager J))
        → Quiet s
        → Quiet (Port.start net js (owner net js addresses) sockets port s)
    unfolding Port.start
    start-Quiet port s h =
        if_cases Quiet s.is_running _ _ (λ _. h)
          (λ off. opened-Quiet (open_port net sockets port 3 s.hub.world) port s (h off))

    pub start_port-Settled :
        (a : App W J) → Settled a → Settled (start_port net sockets js addresses a)
    unfolding start_port
    start_port-Settled a h = record {
      quiet = start-Quiet 30000 (service a) h.quiet;
      paired = h.paired;
    }

    module _ (health : Health W) (probes : Probes W) (port_bytes : ℕ → Bytes)
        (to_string : ℕ → String) (profile : ℕ) where
      stop_manager-Paired :
          (last : Option (Bytes × String)) (a : App W J)
          → Paired a
          → Paired (
              stop_manager net sockets js addresses health probes port_bytes to_string profile last
                a)
      unfolding stop_manager stop_discovery
      stop_manager-Paired last a h =
          if_cases (λ (d : Discovery W). Paired (record a { discovery = d }))
            (not a.discovery.is_discovering) _ _ (λ _. h) (λ _. (h.0, refl, refl, refl))

      stop_manager-off :
          (last : Option (Bytes × String)) (a : App W J)
          → (stop_manager net sockets js addresses health probes port_bytes to_string profile last
              a).discovery.is_discovering
            ≡ false
      unfolding stop_manager stop_discovery
      stop_manager-off last a =
          if_cases (λ (d : Discovery W). d.is_discovering ≡ false) (not a.discovery.is_discovering)
            _ _ (λ off. ground (arith, off)) (λ _. refl)

      -- The members stopped one after the other.
      pub stop_members-Ended :
          (last : Option (Bytes × String)) (a : App W J)
          → Settled a
          → Ended (
              stop_manager net sockets js addresses health probes port_bytes to_string profile last
                (stop_relays (stop_port net sockets js addresses a)))
      unfolding stop_manager stop_relays stop_port
      stop_members-Ended last a h =
          let b = stop_port net sockets js addresses a in
          let c = stop_relays b in
          let p = stop_manager-Paired last c (stop_relays-Paired b h.paired) in
          let off = stop_manager-off last c in
          record {
            port = stop-Closed (service a) h.quiet;
            relaying = stop_relays-off b;
            looping = p.0 ∙ stop_relays-off b;
            is_discovering = off;
            beacon_thread = p.1 ∙ off;
            scan_thread = p.2 ∙ off;
            monitor_thread = p.3 ∙ off;
          }

      pub stop-Settled :
          (last : Option (Bytes × String)) (a : App W J)
          → Settled a
          → Settled
              (stop net sockets js addresses health probes port_bytes to_string profile last a)
      unfolding stop
      stop-Settled last a h =
          let b : App W J = record a { is_running = false } in
          if_cases Settled (not a.is_running) _ _ (λ _. h)
            (λ _.
              Ended-Settled _
                (stop_members-Ended last b (record { quiet = h.quiet; paired = h.paired })))

      discovered-Settled :
          (t : Turn W) (a : App W J)
          → Settled a
          → Settled
              (discovered net sockets js addresses health probes port_bytes to_string profile t a)
      unfolding discovered
      discovered-Settled t a h =
          if_cases Settled a.discovery.is_discovering _ _
            (λ _. record { quiet = h.quiet; paired = h.paired }) (λ _. h)

      pub happen_all-Settled :
          (es : List (Event W)) (a : App W J)
          → Settled a
          → Settled
              (happen_all net sockets js addresses health probes port_bytes to_string profile es a)
      unfolding happen_all happen
      happen_all-Settled [] a h = h
      happen_all-Settled (Event.signal last ∷ es) a h =
          happen_all-Settled es
            (stop net sockets js addresses health probes port_bytes to_string profile last a)
            (stop-Settled last a h)
      happen_all-Settled (Event.discovers t ∷ es) a h =
          happen_all-Settled es
            (discovered net sockets js addresses health probes port_bytes to_string profile t a)
            (discovered-Settled t a h)
      happen_all-Settled (Event.connects c ∷ es) a h =
          happen_all-Settled es (connected c a) (connected-Settled c a h)
