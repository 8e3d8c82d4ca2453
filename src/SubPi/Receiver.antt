-- ===== src/SubPi/Receiver.antt =====
-- The thread of SubPiManager::runBeaconReceiver in DeviceServer/src/SubPiManager.cpp: its socket, and
-- the loop that takes the datagrams.
use device_app.Base.{
  ℕ, String, List, [], ◌∷◌, ◌++◌, Option, none, some, Bool, true, false, if◌then◌else◌, is_empty,
}
use device_app.Wire.{Bytes}
use device_app.Net.{Net}
use device_app.Net.Datagrams.{Datagrams}
use device_app.DeviceManager.{Notice}
use device_app.DeviceManager.Monitor.{Health}
use device_app.SubPi.Beacon.{Boards, beacon_turn}

module _ {W : Type 0} (net : Net W) (health : Health W) (udp : Datagrams W)
    (to_string : ℕ → Bytes) where
  -- What recvfrom gave, at most 1023 bytes: `none` is an error or the timeout of a second. A datagram
  -- without bytes is passed over.
  unfoldable pub datagram_turn : Option (Bytes × String) → Boards W → Boards W × List Notice
  datagram_turn none s = (s, [])
  datagram_turn (some (datagram, sender_ip)) s =
      if is_empty datagram then (s, []) else beacon_turn net health to_string datagram sender_ip s

  abbrev pub armed : ℕ → Boards W → Boards W
  armed sockfd s = record s { world = udp.set_timeout s.world sockfd 1 }

  -- The loop; each element is a test of the flag and what recvfrom then gives. false beside the
  -- state: it has ended.
  unfoldable pub receive_loop :
      ℕ → List (Bool × Option (Bytes × String)) → Boards W → Bool × Boards W × List Notice
  unfolding datagram_turn
  receive_loop sockfd [] s = (true, s, [])
  receive_loop sockfd ((false, received) ∷ rest) s = (false, s, [])
  receive_loop sockfd ((true, received) ∷ rest) s =
      let (s₁, notices) = datagram_turn received (armed sockfd s) in
      let (on, s₂, more) = receive_loop sockfd rest s₁ in (on, s₂, notices ++ more)

  unfoldable pub closed_after : ℕ → Bool × Boards W × List Notice → Bool × Boards W × List Notice
  closed_after sockfd (true, s, notices) = (true, s, notices)
  closed_after sockfd (false, s, notices) =
      (false, record s { world = net.close s.world sockfd }, notices)

  -- The socket on port 10001, without which the thread ends at once.
  unfoldable pub run_beacon_receiver :
      List (Bool × Option (Bytes × String)) → Boards W → Bool × Boards W × List Notice
  unfolding receive_loop closed_after
  run_beacon_receiver rounds s =
      let (sock, w₁) = udp.socket s.world in
      elim sock [
        | none ↦ (false, record s { world = w₁ }, [])
        | some sockfd ↦
            (let (is_bound, w₂) = udp.bind w₁ sockfd 10001 in
              if is_bound
              then closed_after sockfd (receive_loop sockfd rounds (record s { world = w₂ }))
              else (false, record s { world = net.close w₂ sockfd }, []))
      ]
