-- ===== src/DeviceServer/Discovery.antt =====
-- startDiscovery and stopDiscovery of DeviceServer/src/DeviceManager.cpp, with the start and stop of
-- its two scanners.
use device_app.Base.{
  [], ℕ, String, Option, none, some, Bool, true, false, not, if◌then◌else◌, if_cases,
}
use device_app.Wire.{Bytes}
use device_app.Net.{Net}
use device_app.DeviceManager.Monitor.{Health}
use device_app.SubPi.Beacon.Stop.{stop, last_turn}
use device_app.Onvif.{Probes}
use device_app.Relay.{after_notices}
use device_app.DeviceServer.{Server, Turn, turn, registry_section}
use device_app.DeviceServer.Sound.{Sound, turn-Sound}

-- Whether each thread is joinable.
pub record Discovery (W : Type 0) : Type 0 where
  pub server : Server W
  pub is_discovering : Bool
  pub beacon_thread : Bool
  pub scan_thread : Bool
  pub monitor_thread : Bool

module _ {W : Type 0} where
  unfoldable pub start_discovery : Discovery W → Discovery W
  start_discovery d = if d.is_discovering then d else record d {
    is_discovering = true;
    beacon_thread = true;
    scan_thread = true;
    monitor_thread = true;
  }

module _ {W : Type 0} (net : Net W) (health : Health W) (port_bytes : ℕ → Bytes)
    (to_string : ℕ → String) where
  -- `last` is the datagram that the beacon receiver is at work on; the last turns of the scanner and
  -- the monitor come before.
  unfoldable pub stopped_server : Option (Bytes × String) → Server W → Server W
  stopped_server last s =
      let (boards', notices) = stop net health port_bytes last s.boards in
      record s { boards = boards'; rtsp = after_notices to_string s.rtsp notices }

  unfoldable pub stop_discovery : Option (Bytes × String) → Discovery W → Discovery W
  unfolding stopped_server
  stop_discovery last d = if not d.is_discovering then d else record d {
    server = stopped_server last d.server;
    is_discovering = false;
    beacon_thread = false;
    scan_thread = false;
    monitor_thread = false;
  }

  module _ (probes : Probes W) (profile : ℕ) where
    stopped-Sound :
        (last : Option (Bytes × String)) (s : Server W)
        → Sound net health probes port_bytes to_string profile s
        → Sound net health probes port_bytes to_string profile (stopped_server last s)
    unfolding stopped_server stop last_turn turn registry_section after_notices
    stopped-Sound none s h = record {
      consistent = h.consistent;
      followed = h.followed;
      ported = h.ported;
    }
    stopped-Sound (some (datagram, ip)) s h =
        turn-Sound net health probes port_bytes to_string profile (Turn.beacon datagram ip)
          (record s { boards = record s.boards { listeners = [] } })
          (record { consistent = h.consistent; followed = h.followed; ported = h.ported })

    -- A stop of the discovery, too, leaves the registry consistent, the relays in step with it, and
    -- the ports apart.
    pub stop_discovery-Sound :
        (last : Option (Bytes × String)) (d : Discovery W)
        → Sound net health probes port_bytes to_string profile d.server
        → Sound net health probes port_bytes to_string profile (stop_discovery last d).server
    unfolding stop_discovery
    stop_discovery-Sound last d h =
        if_cases
          (λ (r : Discovery W). Sound net health probes port_bytes to_string profile r.server)
          (not d.is_discovering) _ _ (λ _. h) (λ _. stopped-Sound last d.server h)
