-- ===== src/SubPi/Beacon/Ports.antt =====
-- The ports that the beacon receiver of DeviceServer/src/SubPiManager.cpp hands out.
use device_app.Base.{
  ℕ, ◌+◌, ◌<◌, ◌≡◌, refl, String, List, [], none, some, true, false, if◌then◌else◌, if_cases, ◌==◌,
  text_key, arith, Option-cases, inl, inr, eq_iff, Bool-cases,
}
use mathlib.Core.Option.{some-injective}
use device_app.Base.Map.{find, find-insert}
use device_app.Wire.{Bytes}
use device_app.Net.{Net}
use device_app.Device.{DeviceInfo, is_sub_pi}
use device_app.DeviceManager.{Devices, Notice, is_registered, on_sub_pi_found}
use device_app.DeviceManager.Monitor.{Health}
use device_app.SubPi.Beacon.{
  Boards, request_start_stream, board_found, beacon_turn, new_board, is_beacon,
  cleanup_finished_threads,
}
use Prim.Native.String.{◌++◌ as append}

-- Every port of a Sub-Pi was handed out before the next one, and to one id only.
pub record IsPorted (devices : Devices) (next : ℕ) : Type 0 where
  pub below :
      (a : String) (d : DeviceInfo)
      → find a devices ≡ some d
      → is_sub_pi d.type ≡ true
      → d.udp_listen_port < next
  pub apart :
      (a b : String) (d e : DeviceInfo)
      → find a devices ≡ some d
      → find b devices ≡ some e
      → is_sub_pi d.type ≡ true
      → is_sub_pi e.type ≡ true
      → d.udp_listen_port ≡ e.udp_listen_port
      → a ≡ b

-- A board that was not online leaves one entry with the port that it was asked for.
pub on_sub_pi_found-find :
    (devices : Devices) (info : DeviceInfo)
    → is_registered devices info.id ≡ false
    → info.is_online ≡ true
    → (d : DeviceInfo) × (d.udp_listen_port ≡ info.udp_listen_port)
      × (d.is_online ≡ true)
      × ((c : String)
          → find c (on_sub_pi_found devices info).0
            ≡ (if info.id == c then some d else find c devices))
unfolding on_sub_pi_found is_registered
on_sub_pi_found-find devices info off on = elim (Option-cases (find info.id devices)) [
  | inl e ↦ (info, refl, on, λ c. rw (e, on_sub_pi_found) (find-insert info.id c info devices))
  | inr (d, e) ↦
      let recovered : DeviceInfo = record d {
        is_online = true;
        command_socket_fd = info.command_socket_fd;
        udp_listen_port = info.udp_listen_port;
      } in
      let down : d.is_online ≡ false = rw (e, is_registered) at off in
      (
        recovered,
        refl,
        refl,
        λ c. rw (e, on_sub_pi_found, down) (find-insert info.id c recovered devices),
      )
]

new_port-IsPorted :
    (devices devices' : Devices) (next : ℕ) (id : String) (d : DeviceInfo)
    → IsPorted devices next
    → d.udp_listen_port ≡ next
    → ((c : String) → find c devices' ≡ (if id == c then some d else find c devices))
    → IsPorted devices' (next + 1)
new_port-IsPorted devices devices' next id d p port found = record {
  below = λ a x e k. elim (Bool-cases (id == a)) [
    | inl q ↦ ground (arith, found a, some-injective d x)
    | inr q ↦ ground (arith, found a, p.below a x)
  ];
  apart = λ a b x y e f k l same. elim (Bool-cases (id == a)) [
    | inl q ↦ elim (Bool-cases (id == b)) [
      | inl r ↦ ground (arith, eq_iff id a, eq_iff id b)
      | inr r ↦ ground (arith, found a, found b, some-injective d x, p.below b y)
    ]
    | inr q ↦ elim (Bool-cases (id == b)) [
      | inl r ↦ ground (arith, found a, found b, some-injective d y, p.below a x)
      | inr r ↦ p.apart a b x y (ground (arith, found a)) (ground (arith, found b)) k l same
    ]
  ];
}

module _ {W : Type 0} (net : Net W) (health : Health W) (to_string : ℕ → Bytes) where
  abbrev pub Ported : Boards W → Type 0
  Ported s = IsPorted s.devices s.next_port

  board_found-Ported :
      (ip : String) (fd : ℕ) (s : Boards W)
      → is_registered s.devices (append "SubPi_" ip) ≡ false
      → Ported s
      → Ported (board_found net health to_string ip fd s).0
  unfolding board_found cleanup_finished_threads
  board_found-Ported ip fd s off p =
      let info = new_board net health to_string ip s.next_port fd in
      let (d, port, on, found) = on_sub_pi_found-find s.devices info off refl in
      new_port-IsPorted s.devices _ s.next_port info.id d p port found

  -- A turn leaves the registry alone, or a board that was not online took the connection.
  pub beacon_turn-cases {ℓ} :
      (P : Boards W × List Notice → Type ℓ) (datagram : Bytes) (sender_ip : String) (s : Boards W)
      → ((w : W) → P (record s { world = w }, []))
      → ((fd : ℕ) (w : W)
          → is_registered s.devices (append "SubPi_" sender_ip) ≡ false
          → P (board_found net health to_string sender_ip fd (record s { world = w })))
      → P (beacon_turn net health to_string datagram sender_ip s)
  unfolding beacon_turn
  beacon_turn-cases P datagram sender_ip s same found =
      let w' : W = (request_start_stream net health to_string sender_ip s.next_port s.world).1 in
      if_cases P (is_beacon datagram) _ _
        (λ _.
          if_cases P (is_registered s.devices (append "SubPi_" sender_ip)) _ _ (λ _. same s.world)
            (λ off.
              elim (request_start_stream net health to_string sender_ip s.next_port s.world).0
                as (λ o. P (elim o [
                  | none ↦ (record s { world = w' }, [])
                  | some fd ↦
                      board_found net health to_string sender_ip fd (record s { world = w' })
                ])) [ none ↦ same w' | some fd ↦ found fd w' off ]))
        (λ _. same s.world)

  -- Whatever datagram comes from whatever address, and whether or not the board takes the
  -- connection: if no two Sub-Pis of the registry held one port and their ports lay below the next
  -- one, it stays so.
  pub beacon_turn-Ported :
      (datagram : Bytes) (sender_ip : String) (s : Boards W)
      → Ported s
      → Ported (beacon_turn net health to_string datagram sender_ip s).0
  beacon_turn-Ported datagram sender_ip s p =
      beacon_turn-cases (λ (r : Boards W × List Notice). Ported r.0) datagram sender_ip s (λ _. p)
        (λ fd w off. board_found-Ported sender_ip fd (record s { world = w }) off p)
