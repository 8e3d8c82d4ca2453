-- ===== src/Qt/Handler/Handshake.antt =====
-- What a client can do before its TLS handshake is done.
use device_app.Base.{
  ℕ, ◌≡◌, ◌≢◌, refl, ◌∙◌, Option, none, some, true, false, ◌>>=◌, ◌*◌, ltb, is_empty, nat_key,
  if_cases,
}
use device_app.Base.Map.{find}
use device_app.Wire.{MessageType, Bytes, header_size, read_header_le}
use device_app.Net.{Net, NetLaws, recv_exact}
use device_app.Net.Transfer.{send_parts-Delivers}
use device_app.Net.Receiving.{recv_exact-Receives}
use device_app.Json.{JsonLib}
use device_app.Qt.{SecureSession, send_raw}
use device_app.Qt.Handler.{
  Host, Flow, is_handshake_type, read_body, read_packet, handshake_turn, session_turn, secure_turn,
  packet_turn, client_turn,
}

module _ {W : Type 0} (net : Net W) (law : NetLaws net) where
  pub read_packet-silent :
      (fd : ℕ) (w : W) (g : ℕ) → law.sent (read_packet net fd w).1 g ≡ law.sent w g
  unfolding read_packet read_body
  read_packet-silent fd w g =
      let w' = (recv_exact net fd header_size w).1 in
      elim ((recv_exact net fd header_size w).0 >>= read_header_le)
        as (λ o.
          let r : Option (MessageType × Bytes) × W = elim o [
            | none ↦ (none, w')
            | some header ↦ read_body net fd header w'
          ] in
          law.sent r.1 g ≡ law.sent w g) [
            | none ↦ (recv_exact-Receives net law fd header_size w).silent g
            | some header ↦
                if_cases (λ (r : Option (MessageType × Bytes) × W). law.sent r.1 g ≡ law.sent w g)
                  (ltb (1024 * 1024) header.body_length) _ _
                  (λ _. (recv_exact-Receives net law fd header_size w).silent g)
                  (λ _.
                    (recv_exact-Receives net law fd header.body_length w').silent g
                    ∙ (recv_exact-Receives net law fd header_size w).silent g)
          ]

module _ {W S J E : Type 0} (net : Net W) (law : NetLaws net) (tls : SecureSession S)
    (js : JsonLib J) (on_message : ℕ → MessageType → J → Host W S E → Option (Host W S E)) where
  -- The owner's state, the clients, their roles, and what others were sent are as they were.
  pub record Unheard (fd : ℕ) (st st' : Host W S E) : Type 0 where
    pub owner : st'.owner ≡ st.owner
    pub fds : st'.qt.client_fds ≡ st.qt.client_fds
    pub roles : st'.qt.client_roles ≡ st.qt.client_roles
    pub others : (g : ℕ) → fd ≢ g → law.sent st'.world g ≡ law.sent st.world g

  Unheard-refl : (fd : ℕ) (st : Host W S E) → Unheard fd st st
  Unheard-refl fd st = record { owner = refl; fds = refl; roles = refl; others = λ g h. refl }

  handshake_turn-Unheard :
      (fd : ℕ) (session : S) (buf : Bytes) (st : Host W S E)
      → Unheard fd st (handshake_turn net tls js on_message fd session buf st)
  unfolding handshake_turn send_raw
  handshake_turn-Unheard fd session buf st =
      if_cases (Unheard fd st) (is_empty (tls.get_handshake_data (tls.decrypt session buf).1).0) _ _
        (λ _. record { owner = refl; fds = refl; roles = refl; others = λ g h. refl })
        (λ _. record {
          owner = refl;
          fds = refl;
          roles = refl;
          others = λ g h. (send_parts-Delivers net law fd _ st.world).others g h;
        })

  abbrev pub Passes : ℕ → Host W S E → Option (Flow × Host W S E) → Type 0
  Passes fd st o = (r : Flow × Host W S E) × (o ≡ some r) × Unheard fd st r.1

  session_turn-Passes :
      (fd : ℕ) (session : S) (type : MessageType) (buf : Bytes) (st : Host W S E)
      → tls.is_handshake_done session ≡ false
      → Passes fd st (session_turn net tls js on_message fd session type buf st)
  unfolding session_turn
  session_turn-Passes fd session type buf st pending =
      rw (pending, session_turn)
        (if_cases (Passes fd st) (is_handshake_type type) _ _
          (λ _. (_, refl, handshake_turn-Unheard fd session buf st))
          (λ _. (_, refl, Unheard-refl fd st)))

  packet_turn-Passes :
      (fd : ℕ) (session : S) (packet : Option (MessageType × Bytes)) (st : Host W S E)
      → find fd st.qt.tls_sessions ≡ some session
      → tls.is_handshake_done session ≡ false
      → Passes fd st (packet_turn net tls js on_message fd true packet st)
  unfolding packet_turn secure_turn
  packet_turn-Passes fd session none st found pending = (_, refl, Unheard-refl fd st)
  packet_turn-Passes fd session (some (type, buf)) st found pending =
      rw (found, secure_turn) (session_turn-Passes fd session type buf st pending)

  -- While a client's handshake is not done, a turn of its handler ends without an exception,
  -- whatever packet comes and whatever the callback would do with it: the owner's state, the
  -- clients and their roles stay as they are, and no other client is sent anything.
  pub turn_before_handshake :
      (fd : ℕ) (session : S) (st : Host W S E)
      → find fd st.qt.tls_sessions ≡ some session
      → tls.is_handshake_done session ≡ false
      → Passes fd st (client_turn net tls js on_message fd true st)
  unfolding client_turn
  turn_before_handshake fd session st found pending =
      let packet = (read_packet net fd st.world).0 in
      let read : Host W S E = record st { world = (read_packet net fd st.world).1 } in
      let (r, e, u) = packet_turn-Passes fd session packet read found pending in
      (
        r,
        e,
        record {
          owner = u.owner;
          fds = u.fds;
          roles = u.roles;
          others = λ g h. u.others g h ∙ read_packet-silent net law fd st.world g;
        },
      )
