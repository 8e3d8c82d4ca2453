-- ===== src/Qt/Lifecycle.antt =====
-- The start and the stop of the Qt port, QtCommServer::start and stop of
-- ClientServer/src/QtCommServer.cpp.
use device_app.Base.{
  ℕ, ◌≡◌, refl, ap, ◌∙◌, List, [], ◌∷◌, Option, none, some, Bool, true, false, ◌&&◌, not, elem,
  nat_key, if◌then◌else◌, arith, nat_eq_iff, remove, Bool-cases, inl, inr, if_cases,
}
use device_app.Base.Map.{find, erase, find-erase}
use device_app.Net.{Net}
use device_app.Net.Listening.{Listener, open_port, close_port}
use device_app.Qt.{QtServer, end_client}
use device_app.Qt.Clients.{Reachable, Reachable-IsTracked}

pub record Service (W S : Type 0) : Type 0 where
  pub qt : QtServer S
  pub server_fd : Option ℕ
  pub port : ℕ
  pub is_running : Bool
  -- the thread of `acceptLoop` is joinable
  pub accepting : Bool
  pub world : W

module _ {W : Type 0} (net : Net W) (sockets : Listener W) where
  close_clients : List ℕ → W → W
  close_clients [] w = w
  close_clients (fd ∷ fds) w = close_clients fds (net.close (sockets.shutdown w fd) fd)

module _ {W S : Type 0} (net : Net W) (sockets : Listener W) where
  unfoldable pub opened : Option ℕ → Service W S → Service W S
  opened none s = record s { server_fd = none }
  opened (some fd) s = record s { server_fd = some fd; is_running = true; accepting = true }

  unfoldable pub start : ℕ → Service W S → Service W S
  unfolding opened
  start port s =
      let (fd, w') = open_port net sockets port 5 s.world in
      let started = opened fd (record s { port = port; world = w' }) in
      if s.is_running then s else started

  -- The join of a handler: one that has not ended before leaves its loop, since its recv fails.
  join_handler : ℕ → Service W S → Service W S
  join_handler fd s =
      if elem fd s.qt.finished_fds
      then s
      else record s { qt = end_client fd s.qt; world = net.close s.world fd }

  join_handlers : List ℕ → Service W S → Service W S
  unfolding join_handler
  join_handlers [] s = s
  join_handlers (fd ∷ fds) s = join_handlers fds (join_handler fd s)

  -- The port and the clients closed, the sessions gone.
  shut : Service W S → Service W S
  unfolding close_clients
  shut s = record s {
    is_running = false;
    server_fd = none;
    accepting = false;
    qt = record s.qt { client_fds = []; tls_sessions = [] };
    world = close_clients net sockets s.qt.client_fds (close_port net sockets s.server_fd s.world);
  }

  -- The accept thread ends at its failing accept(2), the handlers at their failing recv(2).
  unfoldable pub stop : Service W S → Service W S
  unfolding shut join_handlers
  stop s =
      let joined = join_handlers s.qt.client_threads (shut s) in
      if s.is_running then record joined { qt = record joined.qt { client_threads = [] } } else s

  -- What the joins make of the tables.
  record Emptied (s : Service W S) : Type 0 where
    fds : s.qt.client_fds ≡ []
    sessions : s.qt.tls_sessions ≡ []
    port : s.server_fd ≡ none
    idle : s.is_running ≡ false

  join_handler-Emptied : (fd : ℕ) (s : Service W S) → Emptied s → Emptied (join_handler fd s)
  unfolding join_handler end_client erase
  join_handler-Emptied fd s h =
      if_cases Emptied (elem fd s.qt.finished_fds) _ _ (λ _. h)
        (λ _. record {
          fds = ap (remove fd) h.fds;
          sessions = ap (erase fd) h.sessions;
          port = h.port;
          idle = h.idle;
        })

  join_handlers-Emptied :
      (fds : List ℕ) (s : Service W S) → Emptied s → Emptied (join_handlers fds s)
  unfolding join_handlers
  join_handlers-Emptied [] s h = h
  join_handlers-Emptied (fd ∷ fds) s h =
      join_handlers-Emptied fds (join_handler fd s) (join_handler-Emptied fd s h)

  find-join_handlers :
      (fds : List ℕ) (g : ℕ) (s : Service W S)
      → find g (join_handlers fds s).qt.client_roles
        ≡ (if elem g fds && not (elem g s.qt.finished_fds) then none else find g s.qt.client_roles)
  unfolding join_handlers join_handler end_client
  find-join_handlers [] g s = refl
  find-join_handlers (fd ∷ fds) g s = elim (Bool-cases (elem fd s.qt.finished_fds)) [
    | inl e ↦ rw (e, join_handlers) (ground (arith, find-join_handlers fds g s, nat_eq_iff g fd, e))
    | inr e ↦
        let s' : Service W S = record s { qt = end_client fd s.qt; world = net.close s.world fd } in
        rw (e, join_handlers)
          (ground (
            arith,
            find-join_handlers fds g s',
            find-erase fd g s.qt.client_roles,
            nat_eq_iff g fd,
            nat_eq_iff fd g,
            e,
          ))
  ]

  -- Nothing of a client is left, and the port is closed.
  pub record Stopped (s : Service W S) : Type 0 where
    pub client_fds : s.qt.client_fds ≡ []
    pub client_roles : (g : ℕ) → find g s.qt.client_roles ≡ none
    pub tls_sessions : s.qt.tls_sessions ≡ []
    pub client_threads : s.qt.client_threads ≡ []
    pub server_fd : s.server_fd ≡ none
    pub is_running : s.is_running ≡ false

  -- Stopping the running Qt port, from any reachable state of its tables, leaves no client, role,
  -- session or thread in them, and the port closed.
  pub stop-Stopped : (s : Service W S) → Reachable s.qt → s.is_running ≡ true → Stopped (stop s)
  unfolding stop shut
  stop-Stopped s r on =
      let t = Reachable-IsTracked s.qt r in
      let e =
        join_handlers-Emptied s.qt.client_threads (shut s)
          (record { fds = refl; sessions = refl; port = refl; idle = refl }) in
      rw on (record {
        client_fds = e.fds;
        client_roles = λ g.
            find-join_handlers s.qt.client_threads g (shut s)
            ∙ ground (arith, t.roles g, t.threads g, t.apart g);
        tls_sessions = e.sessions;
        client_threads = refl;
        server_fd = e.port;
        is_running = e.idle;
      })
