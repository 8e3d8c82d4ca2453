-- ===== src/Net.antt =====
-- common/NetUtil.h over the kernel's sockets. `send` and `recv` are parameters.
pub mod Transfer
pub mod Receiving
pub mod Reliable
pub mod Listening
pub mod Datagrams
use device_app.Base.{
  ℕ, zero, suc, ◌-◌, ◌≤◌, ◌≡◌, List, [], ◌∷◌, ◌++◌, Option, none, some, Bool, true, false, length,
  drop, take, get_or, if◌then◌else◌, nat_eq,
}
use device_app.Wire.{Bytes}

-- The system calls on one process's descriptors, over a state `W` of the kernel and the peers.
pub record Net (W : Type 0) : Type 0 where
  -- ssize_t send(fd, bytes, MSG_NOSIGNAL): `none` is a negative result
  pub send : W → ℕ → Bytes → Option ℕ × W
  -- ssize_t recv(fd, _, n, 0): `none` is a negative result, the empty list is 0
  pub recv : W → ℕ → ℕ → Option Bytes × W
  -- int close(fd)
  pub close : W → ℕ → W

-- select(2) on one socket for reading, with a timeout.
pub data Ready : Type 0 where
  failed timed_out readable : Ready

-- What send(2) and recv(2) document. `sent w fd` is all that the kernel has taken for `fd`, and
-- `incoming w fd` what the peer's stream still holds.
pub record NetLaws {W : Type 0} (net : Net W) : Type 0 where
  pub sent : W → ℕ → Bytes
  pub incoming : W → ℕ → Bytes
  pub sent-send :
      (w : W) (fd g : ℕ) (bs : Bytes)
      → sent (net.send w fd bs).1 g
        ≡ (if nat_eq fd g then sent w g ++ take (get_or (net.send w fd bs).0 0) bs else sent w g)
  pub recv_le : (w : W) (fd n : ℕ) (bs : Bytes) → (net.recv w fd n).0 ≡ some bs → length bs ≤ n
  pub incoming-recv :
      (w : W) (fd n : ℕ)
      → incoming w fd ≡ get_or (net.recv w fd n).0 [] ++ incoming (net.recv w fd n).1 fd
  pub sent-recv : (w : W) (fd n g : ℕ) → sent (net.recv w fd n).1 g ≡ sent w g

module _ {W : Type 0} (net : Net W) (fd : ℕ) where
  -- The `while` of `sendExact` over the bytes that are left; `none` is no C++ result, the fuel ran out.
  unfoldable pub send_loop : ℕ → Bytes → W → Option (Bool × W)
  send_loop fuel [] w = some (true, w)
  send_loop zero (b ∷ bs) w = none
  send_loop (suc fuel) (b ∷ bs) w =
      let (r, w') = net.send w fd (b ∷ bs) in
      elim r [
        | none ↦ some (false, w')
        | some zero ↦ some (false, w')
        | some (suc n) ↦ send_loop fuel (drop n bs) w'
      ]

  pub send_exact : Bytes → W → Bool × W
  send_exact bs w = get_or (send_loop (length bs) bs w) (false, w)

  -- The `while` of `recvExact`: what is still wanted, and what has come.
  unfoldable pub recv_loop : ℕ → ℕ → Bytes → W → Option (Option Bytes × W)
  recv_loop fuel zero acc w = some (some acc, w)
  recv_loop zero (suc m) acc w = none
  recv_loop (suc fuel) (suc m) acc w =
      let (r, w') = net.recv w fd (suc m) in
      elim r [
        | none ↦ some (none, w')
        | some [] ↦ some (none, w')
        | some (b ∷ bs) ↦ recv_loop fuel (m - length bs) (acc ++ (b ∷ bs)) w'
      ]

  pub recv_exact : ℕ → W → Option Bytes × W
  recv_exact len w = get_or (recv_loop len len [] w) (none, w)

  -- `if (!sendExact(fd, part)) return false;` for each part in turn, and `return true`. An empty
  -- part makes no call, as under `if (!part.empty())`.
  unfoldable pub send_parts : List Bytes → W → Bool × W
  send_parts [] w = (true, w)
  send_parts (part ∷ parts) w =
      let (sent, w') = send_exact part w in
      let rest = send_parts parts w' in if sent then rest else (false, w')

abbrev pub join : List Bytes → Bytes
join [] = []
join (part ∷ parts) = part ++ join parts
