-- ===== src/SubPi/Beacon/Stop.antt =====
-- SubPiManager::stop of DeviceServer/src/SubPiManager.cpp, after the discovery flag was cleared: it
-- joins the listeners and clears their table before it joins the beacon receiver, which may be in
-- the middle of its last turn. The joins of the listeners are taken to end.
use device_app.Base.{
  ℕ, String, List, [], Option, none, some, Bool, ◌&&◌, not, if◌then◌else◌, is_some, is_empty,
  text_key,
}
use device_app.Wire.{Bytes}
use device_app.Net.{Net}
use device_app.DeviceManager.{Notice, is_registered}
use device_app.DeviceManager.Monitor.{Health}
use device_app.SubPi.Beacon.{Boards, beacon_turn, is_beacon, request_start_stream}
use Prim.Native.String.{◌++◌ as append}

-- When the beacon receiver puts its last listener into the table, against the loop of joins: where the
-- loop has yet to come, where it has been, or when the table was cleared.
pub data Moment : Type 0 where
  ahead behind after_clear : Moment

module _ {W : Type 0} (net : Net W) (health : Health W) (to_string : ℕ → Bytes) where
  unfoldable pub last_turn : Option (Bytes × String) → Boards W → Boards W × List Notice
  last_turn none s = (s, [])
  last_turn (some (datagram, ip)) s = beacon_turn net health to_string datagram ip s

  -- `last` is the datagram that the beacon receiver is at work on, if any, and it puts a listener
  -- into the table only when that is cleared.
  unfoldable pub stop : Option (Bytes × String) → Boards W → Boards W × List Notice
  unfolding last_turn
  stop last s = last_turn last (record s { listeners = [] })

  -- The threads that are in the table when it is cleared have not been joined: std::terminate.
  cleared : Boards W × List Notice → Option (Boards W × List Notice)
  cleared (s, notices) = if is_empty s.listeners then some (s, notices) else none

  -- Whenever it does so; `none` is std::terminate.
  unfoldable pub stop_at :
      Moment → Option (Bytes × String) → Boards W → Option (Boards W × List Notice)
  unfolding last_turn stop cleared
  stop_at Moment.ahead last s =
      let (s', notices) = last_turn last s in some (record s' { listeners = [] }, notices)
  stop_at Moment.behind last s = cleared (last_turn last (record s { listeners = [] }))
  stop_at Moment.after_clear last s = some (stop last s)

  -- The datagram is a beacon of a board that is not online and takes the connection.
  abbrev pub is_taken : Bytes → String → Boards W → Bool
  is_taken datagram ip s =
      is_beacon datagram
      && (not (is_registered s.devices (append "SubPi_" ip))
          && is_some (request_start_stream net health to_string ip s.next_port s.world).0)

  -- What is left of the listeners, unless the process is terminated.
  abbrev pub listeners_left : Option (Boards W × List Notice) → Option (List String)
  listeners_left none = none
  listeners_left (some (s, notices)) = some s.listeners
