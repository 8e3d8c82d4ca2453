-- ===== src/DeviceServer/Events/Through.antt =====
-- From the text that a Sub-Pi sends to the broadcast to the Qt clients, through both servers.
use device_app.Base.{
  ℕ, ◌*◌, ◌≤◌, ◌<◌, ◌≡◌, refl, ap, ◌∙◌, String, List, [], ◌++◌, Option, some, true, length, elem,
  nat_key,
}
use device_app.Wire.{MessageType, Bytes, header_be}
use device_app.Net.{Ready, Net, NetLaws, join}
use device_app.Net.Reliable.{IsHealthy, IsFed}
use device_app.Json.{JsonLib, JsonTextLaws}
use device_app.Auth.{Sqlite}
use device_app.Qt.{SecureSession}
use device_app.SubPi.{tagged, passed_on}
use device_app.SubPi.Arrival.{ai_frame_heard}
use device_app.InternalServer.{Hub, frame, broadcast_ai_event}
use device_app.InternalServer.Push.{IsDistinct, pushes_reach_healthy}
use device_app.DeviceController.{Manager, owner}
use device_app.Client.{ClientServer, on_ai_event}
use device_app.Client.Link.{handle_incoming, pushed}
use device_app.Client.Link.Arrival.{frame_arrives}
use device_app.DeviceServer.Events.{forward, event_turn}

module _ {W J : Type 0} (net : Net W) (law : NetLaws net) (js : JsonLib J)
    (addresses : Option (List (Option String))) (device_id : String) where
  -- An AI event that a Sub-Pi sends comes to be, after one turn of its listener, on the connection of
  -- each ClientServer that takes bytes.
  pub ai_event_pushed :
      (text rest : Bytes) (body event : J) (fd errors g : ℕ) (hub : Hub W (Manager J))
      → IsFed law fd
      → 0 < length text
      → length text ≤ 1024 * 1024
      → js.parse text ≡ some body
      → tagged net js device_id body ≡ some event
      → law.incoming hub.world fd ≡ header_be MessageType.ai (length text) ++ (text ++ rest)
      → IsDistinct hub.client_fds
      → IsHealthy law g
      → elem g hub.client_fds ≡ true
      → (hub' : Hub W (Manager J)) × (event_turn net js addresses device_id fd Ready.readable errors
            hub
          ≡ some (true, 0, hub'))
        × (law.sent hub'.world g ≡ law.sent hub.world g ++ join (frame net js MessageType.ai event))
  unfolding event_turn forward passed_on
  ai_event_pushed text rest body event fd errors g hub fed some_text short parsed named e d healthy
        on =
      let (w', left, silent, heard) =
        ai_frame_heard net law js device_id text rest body event fd errors hub.world fed some_text
          short parsed named e in
      let read : Hub W (Manager J) = record hub { world = w' } in
      let sent =
        (pushes_reach_healthy net law js (owner net js addresses) event [] read g d healthy on).0 in
      (
        broadcast_ai_event net js (owner net js addresses) event read,
        rw (heard, event_turn) refl,
        sent ∙ ap (λ (b : Bytes). b ++ join (frame net js MessageType.ai event)) (silent g),
      )

  module _ {V S D : Type 0} (net' : Net V) (law' : NetLaws net') (tls : SecureSession S)
      (text_law : JsonTextLaws js) (sql : Sqlite D) (sha256 : String → Bytes) where
    -- When a Sub-Pi sends the text of an AI event, not empty and of at most 1 MB, and the event
    -- with the Sub-Pi's id and address in it is of at most 1 MB too: one turn of the listener puts
    -- a frame on the connection of a ClientServer that takes bytes, and a ClientServer that has
    -- that frame next in its stream broadcasts this very event to its Qt clients after one wait,
    -- however the two kernels cut the bytes up.
    pub ai_event_reaches_qt :
        (text rest : Bytes) (body event : J) (fd errors g : ℕ) (hub : Hub W (Manager J))
        (after : Bytes) (c : ℕ) (st : ClientServer V S J D)
        → IsFed law fd
        → 0 < length text
        → length text ≤ 1024 * 1024
        → js.parse text ≡ some body
        → tagged net js device_id body ≡ some event
        → law.incoming hub.world fd ≡ header_be MessageType.ai (length text) ++ (text ++ rest)
        → IsDistinct hub.client_fds
        → IsHealthy law g
        → elem g hub.client_fds ≡ true
        → IsFed law' c
        → length (js.dump event) ≤ 1024 * 1024
        → law'.incoming st.world c ≡ join (frame net js MessageType.ai event) ++ after
        → (hub' : Hub W (Manager J)) × (v : V) × (event_turn net js addresses device_id fd
              Ready.readable errors hub
            ≡ some (true, 0, hub'))
          × (law.sent hub'.world g
              ≡ law.sent hub.world g ++ join (frame net js MessageType.ai event))
          × (handle_incoming net' tls js sql sha256 Ready.readable c st
              ≡ some (true, on_ai_event net' tls js sql sha256 event (record st { world = v })))
          × (law'.incoming v c ≡ after)
    unfolding pushed
    ai_event_reaches_qt text rest body event fd errors g hub after c st fed some_text short parsed
          named e d healthy on fed' fits e' =
        let (hub', turned, sent) =
          ai_event_pushed text rest body event fd errors g hub fed some_text short parsed named e d
            healthy on in
        let (v, left, waited) =
          frame_arrives net' law' tls js text_law sql sha256 MessageType.ai event after c st fed' tt
            fits e' in
        (hub', v, turned, sent, waited, left)
