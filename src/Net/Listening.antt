-- ===== src/Net/Listening.antt =====
-- The listening socket of a server, as QtCommServer::start and InternalServer::start open it.
use device_app.Base.{ℕ, Option, none, some, Bool, if◌then◌else◌}
use device_app.Net.{Net}

pub record Listener (W : Type 0) : Type 0 where
  -- socket(AF_INET, SOCK_STREAM, 0)
  pub socket : W → Option ℕ × W
  -- setsockopt(fd, SOL_SOCKET, SO_REUSEADDR, …)
  pub reuse_address : W → ℕ → W
  -- bind to a port, and listen with a backlog: whether they returned 0
  pub bind : W → ℕ → ℕ → Bool × W
  pub listen : W → ℕ → ℕ → Bool × W
  -- shutdown(fd, SHUT_RDWR)
  pub shutdown : W → ℕ → W

module _ {W : Type 0} (net : Net W) (sockets : Listener W) where
  bound : ℕ → ℕ → ℕ → W → Option ℕ × W
  bound port backlog fd w =
      let (is_bound, w₁) = sockets.bind w fd port in
      let (listens, w₂) = sockets.listen w₁ fd backlog in
      if is_bound
      then (if listens then (some fd, w₂) else (none, net.close w₂ fd))
      else (none, net.close w₁ fd)

  -- `none`: a call failed, and a socket that was there is closed again.
  pub open_port : ℕ → ℕ → W → Option ℕ × W
  unfolding bound
  open_port port backlog w =
      let (fd, w') = sockets.socket w in
      elim fd [
        | none ↦ (none, w')
        | some server_fd ↦ bound port backlog server_fd (sockets.reuse_address w' server_fd)
      ]

  pub close_port : Option ℕ → W → W
  close_port none w = w
  close_port (some fd) w = net.close (sockets.shutdown w fd) fd
