-- ===== src/DeviceServer/Interleaving.antt =====
-- The registry of the DeviceServer while callbacks are made late: DeviceServer/src/DeviceManager.cpp
-- makes them after it has released its lock.
use device_app.Base.{ℕ, String, List}
use device_app.Wire.{Bytes}
use device_app.Net.{Net}
use device_app.DeviceManager.{Notice}
use device_app.DeviceManager.Registry.{IsConsistent}
use device_app.DeviceManager.Monitor.{Health}
use device_app.SubPi.Beacon.Ports.{IsPorted}
use device_app.Onvif.{Probes}
use device_app.Relay.{Rtsp}
use device_app.DeviceServer.{Server, Turn, registry_section, turn, Interleaved}
use device_app.DeviceServer.Sound.{Sound, turn-Sound, started-Sound}

module _ {W : Type 0} (net : Net W) (health : Health W) (probes : Probes W) (port_bytes : ℕ → Bytes)
    (to_string : ℕ → String) (profile : ℕ) where
  -- Had the callbacks been made at once, all would be sound; what they do to the relays does not
  -- reach the registry.
  abbrev Shadowed : Server W → Type 0
  Shadowed s =
      (r : Rtsp) × Sound net health probes port_bytes to_string profile (record s { rtsp = r })

  kept :
      (t : Turn W) (s : Server W)
      → Sound net health probes port_bytes to_string profile s
      → Sound net health probes port_bytes to_string profile
          (turn net health probes port_bytes to_string profile t s)
  kept = turn-Sound net health probes port_bytes to_string profile

  release-Shadowed :
      (t : Turn W) (s : Server W)
      → Shadowed s
      → Shadowed (registry_section net health probes port_bytes to_string profile t s).0
  unfolding turn registry_section
  release-Shadowed (Turn.beacon datagram ip) s (r, h) =
      (_, kept (Turn.beacon datagram ip) (record s { rtsp = r }) h)
  release-Shadowed (Turn.scan replies) s (r, h) =
      (_, kept (Turn.scan replies) (record s { rtsp = r }) h)
  release-Shadowed (Turn.channel_found ip i url) s (r, h) =
      (_, kept (Turn.channel_found ip i url) (record s { rtsp = r }) h)
  release-Shadowed (Turn.sweep ids) s (r, h) = (_, kept (Turn.sweep ids) (record s { rtsp = r }) h)
  release-Shadowed (Turn.elsewhere w) s (r, h) =
      (_, kept (Turn.elsewhere w) (record s { rtsp = r }) h)

  interleaved-Shadowed :
      (s : Server W) (waiting : List (List Notice))
      → Interleaved net health probes port_bytes to_string profile s waiting
      → Shadowed s
  interleaved-Shadowed s waiting (Interleaved.start w) =
      (_, started-Sound net health probes port_bytes to_string profile w)
  interleaved-Shadowed s waiting (Interleaved.release {s = s₀} {waiting = ws} t i) =
      release-Shadowed t s₀ (interleaved-Shadowed s₀ ws i)
  interleaved-Shadowed s waiting (Interleaved.callback {s = s₀} before after n ns i) =
      interleaved-Shadowed s₀ _ i

  -- However late the threads make the callbacks of their turns, and in whatever order the callbacks
  -- of different threads come between the registry sections of others: the registry is consistent,
  -- and no two Sub-Pis hold one port or one that is still to be handed out. Of the relays nothing
  -- is said then.
  pub interleaved_registry :
      (s : Server W) (waiting : List (List Notice))
      → Interleaved net health probes port_bytes to_string profile s waiting
      → IsConsistent s.boards.devices × IsPorted s.boards.devices s.boards.next_port
  interleaved_registry s waiting i =
      let (r, h) = interleaved-Shadowed s waiting i in (h.consistent, h.ported)
