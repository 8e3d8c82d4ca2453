-- ===== src/Client/Process/Ending.antt =====
-- How the ClientServer's process comes to its end.
use device_app.Base.{
  ◌≡◌, refl, sym, String, List, [], ◌∷◌, Option, none, some, Bool, true, false, not, ◌||◌, if_cases,
  Bool-cases, inl, inr, arith,
}
use mathlib.Core.Path.{subst}
use device_app.Base.Map.{find}
use device_app.Wire.{Bytes}
use device_app.Net.{Net}
use device_app.Net.Listening.{Listener}
use device_app.Json.{JsonLib}
use device_app.Auth.{Sqlite}
use device_app.Qt.{SecureSession, QtServer}
use device_app.Qt.Lifecycle.{Stopped}
use device_app.Client.{broadcast_round}
use device_app.Tls.Context.{ContextLib, init_tls}
use device_app.Client.Process.{
  App, Event, Schedule, service, start_link, signals, round_signals, start_port, happen_all,
  interrupted,
}
use device_app.Client.Process.Main.{main_loop, started, run, client_main, fresh}
use device_app.Client.Process.Stopping.{stopped-Held, moved-Stopped}
use device_app.Client.Process.Settling.{
  Settled, happen_all-Settled, happen_all-Unserved, happen_all-cleared, start_link-Settled,
  start_link-Unserved, start_port-Settled, Unserved, RoundsFit, ScheduleFits,
}
use device_app.Client.Process.Leftovers.{Ended, destroyed-Ended}
use device_app.Client.Process.Rounds.{sent, sent-Reachable, sent-none}

module _ {W S J D C : Type 0} (net : Net W) (sockets : Listener W) (tls : SecureSession S)
    (js : JsonLib J) (sql : Sqlite D) (sha256 : String → Bytes) where
  abbrev after_round : J → App W S J D C → App W S J D C
  after_round status a = record a {
    link = record a.link { client = sent net tls js sql sha256 status a.link.client };
  }

  round-Settled :
      (status : J) (a : App W S J D C)
      → Settled net sockets a
      → Settled net sockets (after_round status a)
  unfolding broadcast_round
  round-Settled status a h = record {
    held = record {
      reachable =
          λ on. sent-Reachable net tls js sql sha256 status a.link.client (h.held.reachable on);
      quiet = λ off.
          let q = h.held.quiet off in
          let st = sent net tls js sql sha256 status a.link.client in
          subst
            (λ (t : QtServer S).
              Stopped net sockets (record (service a) { qt = t; world = st.world }))
            (sym (sent-none net tls js sql sha256 status a.link.client q.client_fds))
            (moved-Stopped net sockets (service a) st.world q);
    };
    linked = h.linked;
  }

  module _ (contexts : ContextLib C) where
    main_loop-Settled :
        (rounds : List (J × List (Event W S J D))) (a : App W S J D C)
        → RoundsFit rounds
        → Settled net sockets a
        → Settled net sockets (main_loop net sockets tls js sql sha256 contexts rounds a).1
    unfolding main_loop
    main_loop-Settled [] a f h = h
    main_loop-Settled ((status, es) ∷ rest) a f h =
        if_cases (λ (t : Bool × App W S J D C). Settled net sockets t.1) a.is_running _ _
          (λ _.
            main_loop-Settled rest (happen_all net sockets es (after_round status a)) f.1
              (happen_all-Settled net sockets es _ f.0 (round-Settled status a h)))
          (λ _. h)

    main_loop-ends :
        (rounds : List (J × List (Event W S J D))) (a : App W S J D C)
        → (round_signals rounds || not a.is_running) ≡ true
        → (main_loop net sockets tls js sql sha256 contexts rounds a).0 ≡ false
    unfolding main_loop round_signals
    main_loop-ends [] a h = ground (arith, h)
    main_loop-ends ((status, es) ∷ rest) a h =
        let b = happen_all net sockets es (after_round status a) in
        if_cases (λ (t : Bool × App W S J D C). t.0 ≡ false) a.is_running _ _
          (λ on. main_loop-ends rest b (elim (Bool-cases (signals es)) [
            | inl e ↦ ground (
              arith,
              happen_all-cleared net sockets es (after_round status a) (ground (arith, e)),
            )
            | inr e ↦ ground (arith, h, e, on)
          ]))
          (λ _. refl)

    started-Settled :
        (e : Schedule W S J D) (a : App W S J D C)
        → ScheduleFits e
        → Unserved net sockets a
        → Settled net sockets a
        → Settled net sockets (started net sockets tls js sql sha256 contexts e a)
    unfolding started
    started-Settled e a f u h =
        let linked = happen_all net sockets e.after_link (start_link a) in
        let u₁ =
          happen_all-Unserved net sockets e.after_link (start_link a)
            (start_link-Unserved net sockets a u) in
        let h₁ =
          happen_all-Settled net sockets e.after_link (start_link a) f.after_link
            (start_link-Settled net sockets a h) in
        let ctx = (init_tls contexts "Server/server.crt" "Server/server.key" "Server/ca.crt").1 in
        let b : App W S J D C = record linked { tls_ctx = ctx } in
        let h₂ =
          happen_all-Settled net sockets e.after_tls b f.after_tls
            (record { held = h₁.held; linked = h₁.linked }) in
        let u₂ = happen_all-Unserved net sockets e.after_tls b u₁ in
        happen_all-Settled net sockets e.after_port _ f.after_port
          (start_port-Settled net sockets _ u₂ h₂)

    started-cleared :
        (e : Schedule W S J D) (a : App W S J D C)
        → (signals e.after_link || signals e.after_tls || signals e.after_port || not a.is_running)
          ≡ true
        → (started net sockets tls js sql sha256 contexts e a).is_running ≡ false
    unfolding started start_link start_port
    started-cleared e a h =
        let linked = happen_all net sockets e.after_link (start_link a) in
        let ctx = (init_tls contexts "Server/server.crt" "Server/server.key" "Server/ca.crt").1 in
        let b : App W S J D C = record linked { tls_ctx = ctx } in
        let secured = happen_all net sockets e.after_tls b in
        let c₁ = happen_all-cleared net sockets e.after_link (start_link a) in
        let c₂ = happen_all-cleared net sockets e.after_tls b in
        happen_all-cleared net sockets e.after_port (start_port net sockets secured)
          (elim (Bool-cases (signals e.after_port)) [
            | inl p ↦ ground (arith, p)
            | inr p ↦ elim (Bool-cases (signals e.after_tls)) [
              | inl t ↦ ground (arith, c₂ (ground (arith, t)))
              | inr t ↦ ground (arith, p, c₂ (ground (arith, c₁ (ground (arith, h, p, t)))))
            ]
          ])

    started_first :
        (e : Schedule W S J D) (auth : Bool × Option D) (a : App W S J D C)
        → ScheduleFits e
        → interrupted e ≡ true
        → Unserved net sockets a
        → Settled net sockets a
        → let r = run net sockets tls js sql sha256 contexts e auth a in
          (r.0 ≡ false) × Settled net sockets r.1
    unfolding run interrupted
    started_first e (true, some d) a f i u h =
        let first = happen_all net sockets e.at_first (record a { is_running = true }) in
        let h₁ =
          happen_all-Settled net sockets e.at_first (record a { is_running = true }) f.at_first
            (record { held = h.held; linked = h.linked }) in
        let u₁ = happen_all-Unserved net sockets e.at_first (record a { is_running = true }) u in
        let c₁ = happen_all-cleared net sockets e.at_first (record a { is_running = true }) in
        let client = record first.link.client { db = d } in
        let b : App W S J D C = record first { link = record first.link { client = client } } in
        let c₂ = started-cleared e b in
        (
          main_loop-ends e.rounds _ (elim (Bool-cases (round_signals e.rounds)) [
            | inl p ↦ ground (arith, p)
            | inr p ↦ ground (
              arith,
              c₂ (elim (Bool-cases (signals e.at_first)) [
                | inl t ↦ ground (arith, c₁ (ground (arith, t)))
                | inr t ↦ ground (arith, i, p, t)
              ]),
            )
          ]),
          main_loop-Settled e.rounds _ f.rounds
              (started-Settled e b f u₁ (record { held = h₁.held; linked = h₁.linked })),
        )
    started_first e (true, none) a f i u h = (
      refl,
      happen_all-Settled net sockets e.at_first _ f.at_first
          (record { held = h.held; linked = h.linked }),
    )
    started_first e (false, db) a f i u h = (
      refl,
      happen_all-Settled net sockets e.at_first _ f.at_first
          (record { held = h.held; linked = h.linked }),
    )

    -- When each join ends: wherever in the start-up, once run has set its flag, or in the pauses of
    -- the main loop a SIGINT comes, once or several times, if the other threads bring about only
    -- reachable tables of the Qt port, main returns, whatever the database, OpenSSL and the sockets
    -- answer, and then nothing is left of the clients, the port and the TLS context, and neither
    -- server nor link runs a thread.
    pub interrupted_main_ends :
        (close_database : D → D) (empty : J) (unopened : D) (e : Schedule W S J D)
        (auth : Bool × Option D) (w : W)
        → ScheduleFits e
        → interrupted e ≡ true
        → let r =
            client_main net sockets tls js sql sha256 contexts close_database e auth
              (fresh empty unopened w) in
          (r.0 ≡ false) × Ended net sockets r.1
    unfolding client_main find
    interrupted_main_ends close_database empty unopened e auth w f i =
        let a : App W S J D C = fresh empty unopened w in
        let closed : Stopped net sockets (service a) = record {
          client_fds = refl;
          client_roles = λ g. refl;
          tls_sessions = refl;
          client_threads = refl;
          server_fd = refl;
          is_running = refl;
        } in
        let (ends, h) =
          started_first e auth a f i (refl, refl)
            (record { held = stopped-Held net sockets (service a) closed; linked = refl }) in
        let b = (run net sockets tls js sql sha256 contexts e auth a).1 in
        rw ends (refl, destroyed-Ended net sockets close_database b h)
