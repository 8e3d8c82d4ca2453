-- ===== src/Client/Process/Stopping.antt =====
-- The Qt port's start and stop as steps between what it serves and nothing.
use device_app.Base.{
  ℕ, ◌≡◌, refl, Option, none, some, true, false, if_cases, Bool-cases, inl, inr, arith,
}
use mathlib.Core.Path.{subst}
use device_app.Net.{Net}
use device_app.Net.Listening.{Listener, open_port}
use device_app.Qt.Clients.{no_clients, Reachable}
use device_app.Qt.Lifecycle as Port
use device_app.Qt.Lifecycle.{Stopped, stop-Stopped}

module _ {W S : Type 0} (net : Net W) (sockets : Listener W) where
  -- A port that serves has reachable tables, another nothing of a client.
  pub record Held (s : Port.Service W S) : Type 0 where
    pub reachable : s.is_running ≡ true → Reachable s.qt
    pub quiet : s.is_running ≡ false → Stopped net sockets s

  pub stopped-Held : (s : Port.Service W S) → Stopped net sockets s → Held s
  stopped-Held s h = record { reachable = λ on. ground (arith, on, h.is_running); quiet = λ off. h }

  pub moved-Stopped :
      (s : Port.Service W S) (w : W)
      → Stopped net sockets s
      → Stopped net sockets (record s { world = w })
  moved-Stopped s w h = record {
    client_fds = h.client_fds;
    client_roles = h.client_roles;
    tls_sessions = h.tls_sessions;
    client_threads = h.client_threads;
    server_fd = h.server_fd;
    is_running = h.is_running;
  }

  pub moved-Held : (s : Port.Service W S) (w : W) → Held s → Held (record s { world = w })
  moved-Held s w h = record {
    reachable = h.reachable;
    quiet = λ off. moved-Stopped s w (h.quiet off);
  }

  pub stop-idle : (s : Port.Service W S) → s.is_running ≡ false → s ≡ Port.stop net sockets s
  unfolding Port.stop
  stop-idle s off =
      if_cases (λ t. s ≡ t) s.is_running _ _ (λ on. ground (arith, on, off)) (λ _. refl)

  pub stop-Held : (s : Port.Service W S) → Held s → Stopped net sockets (Port.stop net sockets s)
  stop-Held s h = elim (Bool-cases s.is_running) [
    | inl on ↦ stop-Stopped net sockets s (h.reachable on) on
    | inr off ↦ subst (Stopped net sockets) (stop-idle s off) (h.quiet off)
  ]

  pub opened-Held :
      (fd : Option ℕ) (s : Port.Service W S)
      → s.qt ≡ no_clients
      → Stopped net sockets s
      → Held (Port.opened net sockets fd s)
  unfolding Port.opened
  opened-Held none s e h = stopped-Held _ (record {
    client_fds = h.client_fds;
    client_roles = h.client_roles;
    tls_sessions = h.tls_sessions;
    client_threads = h.client_threads;
    server_fd = refl;
    is_running = h.is_running;
  })
  opened-Held (some fd) s e h = record {
    reachable = λ on. rw e Reachable.start;
    quiet = λ off. cc off;
  }

  pub start-Held :
      (port : ℕ) (s : Port.Service W S)
      → s.is_running ≡ false
      → s.qt ≡ no_clients
      → Held s
      → Held (Port.start net sockets port s)
  unfolding Port.start
  start-Held port s off e h =
      let (fd, w') = open_port net sockets port 5 s.world in
      let q = h.quiet off in
      if_cases Held s.is_running _ _ (λ _. h)
        (λ _.
          opened-Held fd (record s { port = port; world = w' }) e
            (record {
              client_fds = q.client_fds;
              client_roles = q.client_roles;
              tls_sessions = q.tls_sessions;
              client_threads = q.client_threads;
              server_fd = q.server_fd;
              is_running = q.is_running;
            }))
