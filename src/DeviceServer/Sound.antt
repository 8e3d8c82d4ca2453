-- ===== src/DeviceServer/Sound.antt =====
-- The registry, the ports and the relays of the DeviceServer through the turns of its threads.
use device_app.Base.{ℕ, ◌≡◌, refl, String, List, [], ◌∷◌, ◌++◌, text_key}
use device_app.Base.Map.{find}
use device_app.Wire.{Bytes}
use device_app.Net.{Net}
use device_app.DeviceManager.{Devices, Notice, on_hanwha_found}
use device_app.DeviceManager.Registry.{IsConsistent, Event}
use device_app.DeviceManager.Monitor.{Health}
use device_app.SubPi.Beacon.{Boards, beacon_turn, board_found, new_board, cleanup_finished_threads}
use device_app.SubPi.Beacon.Ports.{IsPorted, beacon_turn-cases, beacon_turn-Ported}
use device_app.Onvif.{Probes, channel}
use device_app.Relay.{Rtsp, after_notice, after_notices}
use device_app.Relay.Following.{Follows, after, Follows-both}
use device_app.Onvif.Reports.{scan_round-kept}
use device_app.DeviceServer.Entries.{
  new_board-IsFound, channel-IsFound, channel-IsPorted, sweep-IsPorted,
}
use device_app.DeviceServer.{Server, Turn, started, turn, registry_section, Reachable}

pub after_notices-append :
    (to_string : ℕ → String) (s : Rtsp) (a b : List Notice)
    → after_notices to_string s (a ++ b) ≡ after_notices to_string (after_notices to_string s a) b
unfolding after_notices
after_notices-append to_string s [] b = refl
after_notices-append to_string s (n ∷ a) b =
    after_notices-append to_string (after_notice to_string s n) a b

module _ {W : Type 0} (net : Net W) (health : Health W) (probes : Probes W) (port_bytes : ℕ → Bytes)
    (to_string : ℕ → String) (profile : ℕ) where
  -- The registry is consistent, the relays follow it, and no two Sub-Pis hold one port.
  pub record Sound (s : Server W) : Type 0 where
    pub consistent : IsConsistent s.boards.devices
    pub followed : Follows to_string s.rtsp s.boards.devices
    pub ported : IsPorted s.boards.devices s.boards.next_port

  pub started-Sound : (w : W) → Sound (started w)
  unfolding find
  started-Sound w = record {
    consistent = tt;
    followed = record { mounted = refl; relays = λ c. refl };
    ported = record { below = λ a d e k. cc e; apart = λ a b d x e f k l same. cc e };
  }

  beacon-followed :
      (datagram : Bytes) (ip : String) (s : Server W)
      → Sound s
      → let r = beacon_turn net health port_bytes datagram ip s.boards in
        IsConsistent r.0.devices
        × Follows to_string (after_notices to_string s.rtsp r.1) r.0.devices
  unfolding board_found cleanup_finished_threads after after_notices
  beacon-followed datagram ip s h =
      beacon_turn-cases net health port_bytes
        (λ (r : Boards W × List Notice).
          IsConsistent r.0.devices
          × Follows to_string (after_notices to_string s.rtsp r.1) r.0.devices)
        datagram ip s.boards (λ w. (h.consistent, h.followed))
        (λ fd w off.
          Follows-both to_string health s.boards.devices s.rtsp w
            (Event.beacon (new_board net health port_bytes ip s.boards.next_port fd))
            (new_board-IsFound net health port_bytes ip s.boards.next_port fd)
            (h.consistent, h.followed))

  -- What a report leaves as it should be.
  abbrev Agree : ℕ → Devices → Rtsp → Type 0
  Agree next devices rtsp =
      IsConsistent devices × Follows to_string rtsp devices × IsPorted devices next

  channel-Agree :
      (next : ℕ) (w : W) (devices : Devices) (rtsp : Rtsp) (ip : String) (i : ℕ) (url : String)
      → Agree next devices rtsp
      → let d = on_hanwha_found devices (channel to_string ip i url) in
        Agree next d.0 (after_notices to_string rtsp d.1)
  unfolding after
  channel-Agree next w devices rtsp ip i url (c, f, p) =
      let info = channel to_string ip i url in
      let found = channel-IsFound to_string ip i url in
      let (c', f') = Follows-both to_string health devices rtsp w (Event.scan info) found (c, f) in
      (c', f', channel-IsPorted to_string devices info next c found p)

  pub turn-Sound :
      (t : Turn W) (s : Server W)
      → Sound s
      → Sound (turn net health probes port_bytes to_string profile t s)
  unfolding turn registry_section after after_notices
  turn-Sound (Turn.elsewhere w) s h = record {
    consistent = h.consistent;
    followed = h.followed;
    ported = h.ported;
  }
  turn-Sound (Turn.sweep ids) s h =
      let (c, f) =
        Follows-both to_string health s.boards.devices s.rtsp s.boards.world (Event.sweep ids) tt
          (h.consistent, h.followed) in
      record {
        consistent = c;
        followed = f;
        ported =
            sweep-IsPorted health ids s.boards.devices s.boards.world s.boards.next_port h.ported;
      }
  turn-Sound (Turn.channel_found ip i url) s h =
      let (c, f, p) =
        channel-Agree s.boards.next_port s.boards.world s.boards.devices s.rtsp ip i url
          (h.consistent, h.followed, h.ported) in
      record { consistent = c; followed = f; ported = p }
  turn-Sound (Turn.scan replies) s h =
      let next = s.boards.next_port in
      let (c, f, p) =
        scan_round-kept (after_notices to_string) (λ r. refl) (after_notices-append to_string)
          (Agree next) to_string (channel-Agree next s.boards.world) probes profile replies
          (record {
            devices = s.boards.devices;
            sunapi_fail_count = s.sunapi_fail_count;
            world = s.boards.world;
          })
          s.rtsp (h.consistent, h.followed, h.ported) in
      record { consistent = c; followed = f; ported = p }
  turn-Sound (Turn.beacon datagram ip) s h =
      let (c, f) = beacon-followed datagram ip s h in
      record {
        consistent = c;
        followed = f;
        ported = beacon_turn-Ported net health port_bytes datagram ip s.boards h.ported;
      }

  -- Once the DeviceServer has started and the RTSP server has its mount points, whichever beacons,
  -- rounds of the camera scan, single reports of a round, and sweeps over any ids come, in any
  -- order, each with its callbacks made before the next registry section of another thread, with
  -- anything else happening to the world between them: the registry is consistent, the relay paths
  -- are exactly those of the online Sub-Pis with the ports that the registry holds, and no two
  -- Sub-Pis hold one port.
  pub reachable-Sound :
      (s : Server W) → Reachable net health probes port_bytes to_string profile s → Sound s
  reachable-Sound s (Reachable.start w) = started-Sound w
  reachable-Sound s (Reachable.step {s = s₀} t r) = turn-Sound t s₀ (reachable-Sound s₀ r)
