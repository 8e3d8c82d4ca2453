-- ===== src/DeviceServer.antt =====
-- The threads of the DeviceServer on their shared state, as DeviceServer/src/DeviceController.cpp
-- connects them: beacons, camera scans and sweeps write the registry, and the relays hear of it.
pub mod Entries
pub mod Sound
pub mod Interleaving
pub mod Relaying
pub mod Discovery
pub mod Threads
pub mod Process
pub mod Events
use device_app.Base.{ℕ, String, List, [], ◌∷◌, ◌++◌, true}
use device_app.Base.Map.{Map}
use device_app.Wire.{Bytes}
use device_app.Net.{Net}
use device_app.DeviceManager.{Notice, on_hanwha_found}
use device_app.DeviceManager.Monitor.{Health, take_all_offline, removed_notices}
use device_app.SubPi.Beacon.{Boards, beacon_turn}
use device_app.Onvif.{Probes, channel, scan_round}
use device_app.Relay.{Rtsp, after_notice, after_notices}

-- The registry and the beacon receiver's state with the world that all threads share, the scanner's
-- failure counts, and the relays.
pub record Server (W : Type 0) : Type 0 where
  pub boards : Boards W
  pub sunapi_fail_count : Map String ℕ
  pub rtsp : Rtsp

-- What a thread does to the registry.
pub data Turn (W : Type 0) : Type 0 where
  -- the beacon receiver takes a datagram from an address
  beacon : Bytes → String → Turn W
  -- a round of the scanner, with these replies, while no other thread takes its turn
  scan : List (String × String) → Turn W
  -- a scan reports a channel of a camera, with its URL, between turns of other threads
  channel_found : String → ℕ → String → Turn W
  -- the monitor takes the devices that failed its checks offline
  sweep : List String → Turn W
  -- anything else happens to the world
  elsewhere : W → Turn W

-- No device is known yet, and the RTSP server has its table of mount points.
abbrev pub started : {W : Type 0} → W → Server W
started w = record {
  boards = record { devices = []; next_port = 15001; listeners = []; finished_ids = []; world = w };
  sunapi_fail_count = [];
  rtsp = record { mounted = true; factories = [] };
}

-- `port_bytes` and `to_string` are std::to_string, as bytes and as text.
module _ {W : Type 0} (net : Net W) (health : Health W) (probes : Probes W) (port_bytes : ℕ → Bytes)
    (to_string : ℕ → String) (profile : ℕ) where
  -- A turn's work on the registry, and the callbacks that it makes when it has released the lock.
  unfoldable pub registry_section : Turn W → Server W → Server W × List Notice
  registry_section (Turn.beacon datagram ip) s =
      let (boards', notices) = beacon_turn net health port_bytes datagram ip s.boards in
      (record s { boards = boards' }, notices)
  registry_section (Turn.scan replies) s =
      let (scanner, notices) = scan_round probes to_string profile replies (record {
        devices = s.boards.devices;
        sunapi_fail_count = s.sunapi_fail_count;
        world = s.boards.world;
      }) in
      (
        record {
          boards = record s.boards { devices = scanner.devices; world = scanner.world };
          sunapi_fail_count = scanner.sunapi_fail_count;
          rtsp = s.rtsp;
        },
        notices,
      )
  registry_section (Turn.channel_found ip i url) s =
      let (devices', notices) = on_hanwha_found s.boards.devices (channel to_string ip i url) in
      (record s { boards = record s.boards { devices = devices' } }, notices)
  registry_section (Turn.sweep ids) s =
      let swept =
        take_all_offline health ids
          (record { devices = s.boards.devices; removed_ids = []; world = s.boards.world }) in
      (
        record s { boards = record s.boards { devices = swept.devices; world = swept.world } },
        removed_notices swept.removed_ids,
      )
  registry_section (Turn.elsewhere w) s = (record s { boards = record s.boards { world = w } }, [])

  -- A turn whose callbacks are made before any other turn.
  unfoldable pub turn : Turn W → Server W → Server W
  unfolding registry_section
  turn t s =
      let (s', notices) = registry_section t s in
      record s' { rtsp = after_notices to_string s'.rtsp notices }

  -- What the server comes to after it started, whichever threads take their turns, in any order, each with
  -- its callbacks before the next.
  pub data Reachable : Server W → Type 0 where
    start : (w : W) → Reachable (started w)
    step : {s : Server W} (t : Turn W) → Reachable s → Reachable (turn t s)

  -- The same while callbacks wait for their threads to make them: `waiting` are those of each turn
  -- that has released the lock, and any of the threads makes its next one.
  pub data Interleaved : Server W → List (List Notice) → Type 0 where
    start : (w : W) → Interleaved (started w) []
    release :
        {s : Server W} {waiting : List (List Notice)} (t : Turn W)
        → Interleaved s waiting
        → Interleaved (registry_section t s).0 ((registry_section t s).1 ∷ waiting)
    callback :
        {s : Server W} (before after : List (List Notice)) (n : Notice) (ns : List Notice)
        → Interleaved s (before ++ ((n ∷ ns) ∷ after))
        → Interleaved (record s { rtsp = after_notice to_string s.rtsp n }) (before ++ (ns ∷ after))
