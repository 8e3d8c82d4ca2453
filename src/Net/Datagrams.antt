-- ===== src/Net/Datagrams.antt =====
-- The UDP sockets of DeviceServer/src/SubPiManager.cpp and OnvifScanner.cpp.
use device_app.Base.{ℕ, String, Option, Bool}

pub record Datagrams (W : Type 0) : Type 0 where
  -- socket(AF_INET, SOCK_DGRAM, 0)
  pub socket : W → Option ℕ × W
  -- bind to a port of any address: whether it returned 0
  pub bind : W → ℕ → ℕ → Bool × W
  -- setsockopt(fd, SOL_SOCKET, SO_RCVTIMEO, …), in seconds
  pub set_timeout : W → ℕ → ℕ → W
  -- setsockopt(fd, IPPROTO_IP, IP_ADD_MEMBERSHIP, …): whether it returned 0
  pub join_group : W → ℕ → String → Bool × W
  -- sendto of a text to an address and a port, whose result nobody looks at
  pub sendto : W → ℕ → String → String → ℕ → W
