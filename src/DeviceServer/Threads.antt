-- ===== src/DeviceServer/Threads.antt =====
-- The three threads of DeviceServer/src/DeviceManager.cpp's discovery, each with its own loop, beside
-- the turns of the DeviceServer.
use device_app.Base.{ℕ, String, List, Option, Bool}
use device_app.Wire.{Bytes}
use device_app.Net.{Net}
use device_app.Net.Datagrams.{Datagrams}
use device_app.DeviceManager.{Devices, Notice}
use device_app.DeviceManager.Monitor.{Health, monitor_loop}
use device_app.SubPi.Beacon.{Boards}
use device_app.SubPi.Receiver.{run_beacon_receiver}
use device_app.Onvif.{Probes, Scanner}
use device_app.Onvif.Scanning.{run_scan}
use device_app.Relay.{after_notices}
use device_app.DeviceServer.{Server}

-- A thread of the discovery, with what the system gives it: for each round whether the flag is set,
-- and the datagram, the replies, or the flag after the sleep.
pub data Thread : Type 0 where
  receiver : List (Bool × Option (Bytes × String)) → Thread
  scanner : List (Bool × List (String × String)) → Thread
  monitor : List (Bool × Bool) → Thread

module _ {W : Type 0} (to_string : ℕ → String) where
  -- The callbacks reach the relays.
  abbrev with_boards : Server W → Boards W → List Notice → Server W
  with_boards s boards notices = record s {
    boards = boards;
    rtsp = after_notices to_string s.rtsp notices;
  }

  abbrev with_scanner : Server W → Scanner W → List Notice → Server W
  with_scanner s found notices = record {
    boards = record s.boards { devices = found.devices; world = found.world };
    sunapi_fail_count = found.sunapi_fail_count;
    rtsp = after_notices to_string s.rtsp notices;
  }

  abbrev with_devices : Server W → Devices → List Notice → W → Server W
  with_devices s devices notices w = record s {
    boards = record s.boards { devices = devices; world = w };
    rtsp = after_notices to_string s.rtsp notices;
  }

abbrev scanner_of : {W : Type 0} → Server W → Scanner W
scanner_of s = record {
  devices = s.boards.devices;
  sunapi_fail_count = s.sunapi_fail_count;
  world = s.boards.world;
}

module _ {W : Type 0} (net : Net W) (health : Health W) (udp : Datagrams W) (probes : Probes W)
    (port_bytes : ℕ → Bytes) (to_string : ℕ → String) (profile : ℕ) where
  -- A thread on its own, from its start or in the middle of its life.
  unfoldable pub run_thread : Thread → Server W → Server W
  run_thread (Thread.receiver rounds) s =
      let (on, boards', notices) = run_beacon_receiver net health udp port_bytes rounds s.boards in
      with_boards to_string s boards' notices
  run_thread (Thread.scanner rounds) s =
      let (on, found, notices) = run_scan net udp probes to_string profile rounds (scanner_of s) in
      with_scanner to_string s found notices
  run_thread (Thread.monitor rounds) s =
      let (devices', notices, w') = monitor_loop health rounds s.boards.devices s.boards.world in
      with_devices to_string s devices' notices w'
