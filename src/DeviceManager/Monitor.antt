-- ===== src/DeviceManager/Monitor.antt =====
-- The monitoring thread of DeviceServer/src/DeviceManager.cpp: its loop, and the stages of a round.
pub mod Sweep
pub mod Checks
use device_app.Base.{
  ℕ, zero, suc, String, List, [], ◌∷◌, ◌++◌, Option, none, some, Bool, true, false, ◌&&◌, not, ◌==◌,
  text_key, if◌then◌else◌, is_some,
}
use device_app.Base.Map.{Map, find, insert}
use device_app.Device.{DeviceType, DeviceInfo, is_sub_pi}
use device_app.DeviceManager.{Devices, Notice}

-- The answer of a non-blocking call: a count, or an error with its `errno`.
pub data Answer : Type 0 where
  count : ℕ → Answer
  again : Answer
  error : Answer

-- The system calls of the health checks, and the atomic flag `is_discovering_` as a read of it finds it.
pub record Health (W : Type 0) : Type 0 where
  pub is_discovering : W → Bool × W
  -- recv(fd, buffer, 1, MSG_PEEK | MSG_DONTWAIT)
  pub peek : W → Option ℕ → Answer × W
  -- send(fd, nullptr, 0, MSG_NOSIGNAL | MSG_DONTWAIT)
  pub probe : W → Option ℕ → Answer × W
  -- socket(AF_INET, SOCK_STREAM, 0)
  pub socket : W → Option ℕ × W
  -- connect to an address and a port, with the socket's send timeout: whether it returned 0
  pub connect : W → ℕ → String → ℕ → Bool × W
  pub close : W → ℕ → W

pub record CheckTarget : Type 0 where
  pub id : String
  pub ip : String
  pub type : DeviceType
  pub fd : Option ℕ

-- Stage 1, under the lock: what is online.
pub check_targets : Devices → List CheckTarget
check_targets [] = []
check_targets ((id, info) ∷ rest) =
    if not info.is_online
    then check_targets rest
    else record { id = id; ip = info.ip; type = info.type; fd = info.command_socket_fd }
      ∷ check_targets rest

-- A closed connection answers 0 to a peek; an error other than EAGAIN ends it too.
pub peek_alive : Answer → Bool
peek_alive (Answer.count n) = elim n [ zero ↦ false | suc m ↦ true ]
peek_alive Answer.again = true
peek_alive Answer.error = false

pub probe_alive : Answer → Bool
probe_alive (Answer.count n) = true
probe_alive Answer.again = true
probe_alive Answer.error = false

module _ {W : Type 0} (health : Health W) where
  pub sub_pi_alive : Option ℕ → W → Bool × W
  unfolding peek_alive probe_alive
  sub_pi_alive fd w =
      let (peeked, w₁) = health.peek w fd in
      if peek_alive peeked
      then (let (probed, w₂) = health.probe w₁ fd in (probe_alive probed, w₂))
      else (false, w₁)

  pub check_tcp_port : String → ℕ → W → Bool × W
  check_tcp_port ip port w =
      let (sock, w₁) = health.socket w in
      elim sock [
        | none ↦ (false, w₁)
        | some fd ↦
            (let (connected, w₂) = health.connect w₁ fd ip port in (connected, health.close w₂ fd))
      ]

  -- `ip_check_cache[ip]`, filled by one check of port 554 per address
  pub cached_check : String → Map String Bool → W → Bool × Map String Bool × W
  cached_check ip cache w = elim (find ip cache) [
    | some result ↦ (result, cache, w)
    | none ↦ (let (result, w') = check_tcp_port ip 554 w in (result, insert ip result cache, w'))
  ]

  -- One target: whether it is alive, and the cache and the world after.
  unfoldable pub check_kind :
      DeviceType → CheckTarget → Map String Bool → W → Bool × Map String Bool × W
  check_kind DeviceType.sub_pi target cache w =
      let (alive, w') = sub_pi_alive target.fd w in (alive, cache, w')
  check_kind DeviceType.hanwha target cache w = cached_check target.ip cache w

  abbrev pub check_target : CheckTarget → Map String Bool → W → Bool × Map String Bool × W
  check_target target cache w = check_kind target.type target cache w

  -- Stage 2, without the lock: the ids of the targets that failed. Clearing the flag ends it early.
  pub check_all : List CheckTarget → Map String Bool → W → List String × W
  check_all [] cache w = ([], w)
  check_all (target ∷ rest) cache w =
      let (running, w₁) = health.is_discovering w in
      let (alive, cache', w₂) = check_target target cache w₁ in
      let (failed, w₃) = check_all rest cache' w₂ in
      if not running then ([], w₁) else ((if alive then failed else target.id ∷ failed), w₃)

pub record Swept (W : Type 0) : Type 0 where
  pub devices : Devices
  pub removed_ids : List String
  pub world : W

abbrev pub offline : DeviceInfo → DeviceInfo
offline info = record info {
  is_online = false;
  command_socket_fd = if is_sub_pi info.type then none else info.command_socket_fd;
}

unfoldable pub removed_notices : List String → List Notice
removed_notices [] = []
removed_notices (id ∷ ids) = Notice.removed id ∷ removed_notices ids

-- The callbacks of a round: each removal, a change if there was one, and the push of every round.
unfoldable pub round_notices : List String → List Notice
unfolding removed_notices
round_notices [] = Notice.changed ∷ []
round_notices (id ∷ ids) = removed_notices (id ∷ ids) ++ (Notice.changed ∷ Notice.changed ∷ [])

module _ {W : Type 0} (health : Health W) where
  close_command : DeviceInfo → W → W
  close_command info w = elim info.command_socket_fd [
    | none ↦ w
    | some fd ↦ if is_sub_pi info.type then health.close w fd else w
  ]

  -- Stage 3, under the lock again, over the registry as it is by then.
  unfoldable pub take_offline : String → Swept W → Swept W
  unfolding close_command
  take_offline id s = elim (find id s.devices) [
    | none ↦ s
    | some info ↦ if not info.is_online then s else record {
      devices = insert id (offline info) s.devices;
      removed_ids = s.removed_ids ++ (id ∷ []);
      world = close_command info s.world;
    }
  ]

  unfoldable pub take_all_offline : List String → Swept W → Swept W
  take_all_offline [] s = s
  take_all_offline (id ∷ ids) s = take_all_offline ids (take_offline id s)

  -- One round of the loop after its sleep, when no other thread takes the lock between the stages.
  unfoldable pub monitor_round : Devices → W → Swept W × List Notice
  monitor_round devices w =
      let (failed, w₁) = check_all health (check_targets devices) [] w in
      let s : Swept W =
        take_all_offline failed (record { devices = devices; removed_ids = []; world = w₁ }) in
      (s, round_notices s.removed_ids)

  -- The loop; each element is what its two tests of the flag find, before and after the sleep.
  unfoldable pub monitor_loop : List (Bool × Bool) → Devices → W → Devices × List Notice × W
  unfolding monitor_round
  monitor_loop [] devices w = (devices, [], w)
  monitor_loop ((false, awake) ∷ rest) devices w = (devices, [], w)
  monitor_loop ((true, false) ∷ rest) devices w = (devices, [], w)
  monitor_loop ((true, true) ∷ rest) devices w =
      let (s, notices) = monitor_round devices w in
      let (devices', more, w') = monitor_loop rest s.devices s.world in
      (devices', notices ++ more, w')
