-- ===== src/Qt/Handler.antt =====
-- QtCommServer::clientHandler of ClientServer/src/QtCommServer.cpp. The callback `on_message_` is a
-- parameter, since the server does not know its owner; `E` is the state that the owner adds. `none`
-- is an exception that the handler does not catch.
pub mod Handshake
pub mod Cleanup
pub mod Received
use device_app.Base.{
  ℕ, ◌+◌, ◌*◌, ◌≡◌, List, [], ◌∷◌, Option, none, some, Bool, true, false, ◌>>=◌, if◌then◌else◌, ltb,
  is_empty, nat_key, get_or,
}
use device_app.Base.Map.{find, insert}
use device_app.Wire.{MessageType, Bytes, PacketHeader, header_size, read_header_le}
use device_app.Net.{Net, recv_exact}
use device_app.Json.{JsonLib}
use device_app.Qt.{SecureSession, QtServer, send_raw, send_message, end_client}

pub record Host (W S E : Type 0) : Type 0 where
  pub qt : QtServer S
  pub owner : E
  pub world : W

-- How a turn of the loop ends: `continue`, or `break`.
pub data Flow : Type 0 where
  next leave : Flow

-- What a run of the handler came to: it waits for a packet, has ended after its clean-up, has
-- returned without it, or ended the process by an exception.
pub data Outcome (W S E : Type 0) : Type 0 where
  waiting ended abandoned : Host W S E → Outcome W S E
  thrown : Outcome W S E

abbrev pub is_handshake_type : MessageType → Bool
is_handshake_type MessageType.handshake = true
is_handshake_type _ = false

module _ {W : Type 0} (net : Net W) where
  read_body : ℕ → PacketHeader → W → Option (MessageType × Bytes) × W
  read_body fd header w =
      let (buf, w') = recv_exact net fd header.body_length w in
      if ltb (1024 * 1024) header.body_length
      then (none, w)
      else (elim buf [ none ↦ none | some b ↦ some (header.type, b) ], w')

  -- A header and its body, `none` where the loop breaks. A body of length 0 is read by no call.
  pub read_packet : ℕ → W → Option (MessageType × Bytes) × W
  unfolding read_body
  read_packet fd w =
      let (bytes, w') = recv_exact net fd header_size w in
      elim (bytes >>= read_header_le) [ none ↦ (none, w') | some header ↦ read_body fd header w' ]

module _ {W S J E : Type 0} (net : Net W) (tls : SecureSession S) (js : JsonLib J)
    (on_message : ℕ → MessageType → J → Host W S E → Option (Host W S E)) where
  deliver : ℕ → MessageType → J → Host W S E → Option (Flow × Host W S E)
  deliver fd type body st = do st' ← on_message fd type body st; some (Flow.next, st')

  parse_failed : ℕ → Host W S E → Host W S E
  parse_failed fd st =
      let message = js.object_of (("error", js.string "JSON parse error") ∷ []) in
      let (ok, qt', world') = send_message net tls js fd MessageType.fail message st.qt st.world in
      record st { qt = qt'; world = world' }

  parse_and_deliver : ℕ → MessageType → Bytes → Host W S E → Option (Flow × Host W S E)
  unfolding deliver parse_failed
  parse_and_deliver fd type plain st = elim (js.parse plain) [
    | none ↦ some (Flow.next, parse_failed fd st)
    | some body ↦ deliver fd type body st
  ]

  -- Without TLS an empty body is the empty object.
  plain_turn : ℕ → MessageType → Bytes → Host W S E → Option (Flow × Host W S E)
  unfolding deliver parse_and_deliver
  plain_turn fd type [] st = deliver fd type (js.object_of []) st
  plain_turn fd type (b ∷ bs) st = parse_and_deliver fd type (b ∷ bs) st

  abbrev pub store : ℕ → S → Host W S E → Host W S E
  store fd session st = record st {
    qt = record st.qt { tls_sessions = insert fd session st.qt.tls_sessions };
  }

  -- A handshake packet goes into the session, and what the session answers goes back in the clear.
  handshake_turn : ℕ → S → Bytes → Host W S E → Host W S E
  handshake_turn fd session buf st =
      let (plain, fed) = tls.decrypt session buf in
      let (response, session') = tls.get_handshake_data fed in
      let (ok, world') = send_raw net tls js fd MessageType.handshake response st.world in
      let stored = store fd session' st in
      if is_empty response then stored else record stored { world = world' }

  cipher_turn : ℕ → S → MessageType → Bytes → Host W S E → Option (Flow × Host W S E)
  unfolding parse_and_deliver
  cipher_turn fd session type buf st =
      let (plain, session') = tls.decrypt session buf in
      let stored = store fd session' st in
      let handled = parse_and_deliver fd type plain stored in
      if is_empty plain then some (Flow.next, stored) else handled

  session_turn : ℕ → S → MessageType → Bytes → Host W S E → Option (Flow × Host W S E)
  unfolding handshake_turn cipher_turn
  session_turn fd session type buf st =
      let ciphered = cipher_turn fd session type buf st in
      if tls.is_handshake_done session
      then ciphered
      else if is_handshake_type type
      then some (Flow.next, handshake_turn fd session buf st)
      else some (Flow.leave, st)

  secure_turn : ℕ → MessageType → Bytes → Host W S E → Option (Flow × Host W S E)
  unfolding session_turn
  secure_turn fd type buf st = elim (find fd st.qt.tls_sessions) [
    | none ↦ some (Flow.leave, st)
    | some session ↦ session_turn fd session type buf st
  ]

  packet_turn : ℕ → Bool → Option (MessageType × Bytes) → Host W S E → Option (Flow × Host W S E)
  unfolding secure_turn plain_turn
  packet_turn fd tls_enabled none st = some (Flow.leave, st)
  packet_turn fd true (some (type, buf)) st = secure_turn fd type buf st
  packet_turn fd false (some (type, buf)) st = plain_turn fd type buf st

  -- One turn of the loop.
  pub client_turn : ℕ → Bool → Host W S E → Option (Flow × Host W S E)
  unfolding packet_turn
  client_turn fd tls_enabled st =
      let (packet, world') = read_packet net fd st.world in
      packet_turn fd tls_enabled packet (record st { world = world' })

  leave_client : ℕ → Host W S E → Host W S E
  leave_client fd st = record st { qt = end_client fd st.qt; world = net.close st.world fd }

  -- The `while`; the list is what each test of `is_running_` finds.
  pub client_loop : ℕ → Bool → List Bool → Host W S E → Outcome W S E
  unfolding leave_client
  client_loop fd tls_enabled [] st = Outcome.waiting st
  client_loop fd tls_enabled (false ∷ flags) st = Outcome.ended (leave_client fd st)
  client_loop fd tls_enabled (true ∷ flags) st = elim (client_turn fd tls_enabled st) [
    | none ↦ Outcome.thrown
    | some (Flow.leave, st') ↦ Outcome.ended (leave_client fd st')
    | some (Flow.next, st') ↦ client_loop fd tls_enabled flags st'
  ]

  -- tls_sessions_.emplace(client_fd, …) keeps a session that is there.
  emplaced : ℕ → S → Host W S E → S
  emplaced fd fresh st = get_or (find fd st.qt.tls_sessions) fresh

  -- The handler of a new client; a session that is not valid makes it close the socket and return.
  pub client_handler : ℕ → Bool → S → List Bool → Host W S E → Outcome W S E
  unfolding client_loop emplaced
  client_handler fd false fresh flags st = client_loop fd false flags st
  client_handler fd true fresh flags st =
      let session = emplaced fd fresh st in
      let opened = store fd session st in
      let looped = client_loop fd true flags opened in
      if tls.is_valid session
      then looped
      else Outcome.abandoned (record opened { world = net.close opened.world fd })
