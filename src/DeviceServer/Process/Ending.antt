-- ===== src/DeviceServer/Process/Ending.antt =====
-- How the DeviceServer's process comes to its end.
use device_app.Base.{
  ℕ, ◌≡◌, refl, String, List, [], ◌∷◌, Option, Bool, true, false, not, if_cases, arith, ◌||◌,
  Bool-cases, inl, inr,
}
use device_app.Wire.{Bytes}
use device_app.Net.{Net}
use device_app.Net.Listening.{Listener}
use device_app.Json.{JsonLib}
use device_app.DeviceManager.Monitor.{Health}
use device_app.Onvif.{Probes}
use device_app.DeviceServer.Discovery.{start_discovery}
use device_app.DeviceServer.Process.{
  App, Event, Schedule, start_relays, stop_relays, start_port, stop_port, stop_manager, stop,
  discovered, connected, happen, happen_all, is_signal, signals, round_signals, interrupted,
}
use device_app.DeviceServer.Process.Main.{destroyed, main_loop, started, run, device_main, fresh}
use device_app.DeviceServer.Process.Settling.{
  Settled, Ended, start_relays-Settled, start_discovery-Settled, start_port-Settled,
  stop_members-Ended, stop-Settled, happen_all-Settled,
}

module _ {W J : Type 0} (net : Net W) (sockets : Listener W) (js : JsonLib J)
    (addresses : Option (List (Option String))) (health : Health W) (probes : Probes W)
    (port_bytes : ℕ → Bytes) (to_string : ℕ → String) (profile : ℕ) where
  stop-clears :
      (last : Option (Bytes × String)) (a : App W J)
      → (stop net sockets js addresses health probes port_bytes to_string profile last a).is_running
        ≡ false
  unfolding stop stop_manager stop_relays stop_port
  stop-clears last a =
      if_cases (λ (b : App W J). b.is_running ≡ false) (not a.is_running) _ _
        (λ off. ground (arith, off)) (λ _. refl)

  -- A signal is still to come, or the flag is cleared.
  abbrev Flagged : List (Event W) → App W J → Type 0
  Flagged es a = (signals es || not a.is_running) ≡ true

  happen_all-cleared :
      (es : List (Event W)) (a : App W J)
      → Flagged es a
      → (happen_all net sockets js addresses health probes port_bytes to_string profile es
          a).is_running
        ≡ false
  unfolding happen_all happen signals is_signal discovered connected
  happen_all-cleared [] a h = ground (arith, h)
  happen_all-cleared (Event.signal last ∷ es) a h =
      happen_all-cleared es
        (stop net sockets js addresses health probes port_bytes to_string profile last a)
        (ground (arith, stop-clears last a))
  happen_all-cleared (Event.discovers t ∷ es) a h =
      happen_all-cleared es
        (discovered net sockets js addresses health probes port_bytes to_string profile t a)
        (if_cases (Flagged es) a.discovery.is_discovering _ _ (λ _. h) (λ _. h))
  happen_all-cleared (Event.connects c ∷ es) a h =
      happen_all-cleared es (connected c a) (if_cases (Flagged es) a.serving _ _ (λ _. h) (λ _. h))

  main_loop-Settled :
      (rounds : List (List (Event W))) (a : App W J)
      → Settled a
      → Settled
          (main_loop net sockets js addresses health probes port_bytes to_string profile rounds a).1
  unfolding main_loop
  main_loop-Settled [] a h = h
  main_loop-Settled (es ∷ rest) a h =
      if_cases (λ (t : Bool × App W J). Settled t.1) a.is_running _ _
        (λ _.
          main_loop-Settled rest
            (happen_all net sockets js addresses health probes port_bytes to_string profile es a)
            (happen_all-Settled net sockets js addresses health probes port_bytes to_string profile
              es a h))
        (λ _. h)

  main_loop-ends :
      (rounds : List (List (Event W))) (a : App W J)
      → (round_signals rounds || not a.is_running) ≡ true
      → (main_loop net sockets js addresses health probes port_bytes to_string profile rounds a).0
        ≡ false
  unfolding main_loop round_signals
  main_loop-ends [] a h = ground (arith, h)
  main_loop-ends (es ∷ rest) a h =
      if_cases (λ (t : Bool × App W J). t.0 ≡ false) a.is_running _ _
        (λ on.
          main_loop-ends rest
            (happen_all net sockets js addresses health probes port_bytes to_string profile es a)
            (elim (Bool-cases (signals es)) [
              | inl e ↦ ground (arith, happen_all-cleared es a (ground (arith, e)))
              | inr e ↦ ground (arith, h, e, on)
            ]))
        (λ _. refl)

  started-Settled :
      (e : Schedule W) (a : App W J)
      → Settled a
      → Settled (started net sockets js addresses health probes port_bytes to_string profile e a)
  unfolding started
  started-Settled e a h =
      let first =
        happen_all-Settled net sockets js addresses health probes port_bytes to_string profile
          e.at_first (record a { is_running = true })
          (record { quiet = h.quiet; paired = h.paired }) in
      let found =
        happen_all-Settled net sockets js addresses health probes port_bytes to_string profile
          e.after_discovery _ (start_discovery-Settled _ first) in
      let relayed =
        happen_all-Settled net sockets js addresses health probes port_bytes to_string profile
          e.after_relays _ (start_relays-Settled _ found) in
      happen_all-Settled net sockets js addresses health probes port_bytes to_string profile
        e.after_port _ (start_port-Settled net sockets js addresses _ relayed)

  started-cleared :
      (e : Schedule W) (a : App W J)
      → (signals e.at_first
          || signals e.after_discovery
          || signals e.after_relays
          || signals e.after_port)
        ≡ true
      → (started net sockets js addresses health probes port_bytes to_string profile e a).is_running
        ≡ false
  unfolding started start_relays start_port
  started-cleared e a h =
      let first =
        happen_all net sockets js addresses health probes port_bytes to_string profile e.at_first
          (record a { is_running = true }) in
      let d = record first { discovery = start_discovery first.discovery } in
      let found =
        happen_all net sockets js addresses health probes port_bytes to_string profile
          e.after_discovery d in
      let relayed =
        happen_all net sockets js addresses health probes port_bytes to_string profile
          e.after_relays (start_relays found) in
      let c₀ = happen_all-cleared e.at_first (record a { is_running = true }) in
      let c₁ = happen_all-cleared e.after_discovery d in
      let c₂ = happen_all-cleared e.after_relays (start_relays found) in
      happen_all-cleared e.after_port (start_port net sockets js addresses relayed)
        (elim (Bool-cases (signals e.after_port)) [
          | inl p ↦ ground (arith, p)
          | inr p ↦ ground (
            arith,
            p,
            c₂ (elim (Bool-cases (signals e.after_relays)) [
              | inl q ↦ ground (arith, q)
              | inr q ↦ ground (
                arith,
                q,
                c₁ (elim (Bool-cases (signals e.after_discovery)) [
                  | inl r ↦ ground (arith, r)
                  | inr r ↦ ground (arith, c₀ (ground (arith, h, p, q, r)))
                ]),
              )
            ]),
          )
        ])

  -- When each join ends: wherever in the start-up, once run has set its flag, or in the sleeps of
  -- run a SIGINT comes, once or several times, and whatever the threads do before it, main returns,
  -- and then the internal port has no client, no handler and no socket, and no thread of the port,
  -- the relays or the discovery is left but a listener of a Sub-Pi.
  pub interrupted_device_ends :
      (last : Option (Bytes × String)) (e : Schedule W) (w : W)
      → interrupted e ≡ true
      → let r =
          device_main net sockets js addresses health probes port_bytes to_string profile last e
            (fresh {J = J} w) in
        (r.0 ≡ false) × Ended r.1
  unfolding device_main run destroyed interrupted
  interrupted_device_ends last e w i =
      let a : App W J = fresh w in
      let b = started net sockets js addresses health probes port_bytes to_string profile e a in
      let settled = started-Settled e a (record {
        quiet = λ off. (refl, refl, refl, refl, refl);
        paired = (refl, refl, refl, refl);
      }) in
      let ends = main_loop-ends e.rounds b (elim (Bool-cases (round_signals e.rounds)) [
        | inl p ↦ ground (arith, p)
        | inr p ↦ ground (arith, started-cleared e a (ground (arith, i, p)))
      ]) in
      let c =
        (main_loop net sockets js addresses health probes port_bytes to_string profile e.rounds
          b).1 in
      rw ends (
        refl,
        stop_members-Ended net sockets js addresses health probes port_bytes to_string profile last
            (stop net sockets js addresses health probes port_bytes to_string profile last c)
            (stop-Settled net sockets js addresses health probes port_bytes to_string profile last c
              (main_loop-Settled e.rounds b settled)),
      )
