-- ===== src/Qt/Handler/Received.antt =====
-- A client's encrypted message, from the stream to the callback.
use device_app.Base.{
  ℕ, ◌*◌, ◌≤◌, ◌≡◌, ◌≢◌, refl, ap, [], ◌∷◌, ◌++◌, Option, some, true, false, ◌>>=◌, ltb, length,
  arith, is_empty, nat_key,
}
use device_app.Base.Map.{find}
use device_app.Wire.{MessageType, Bytes, header_size, header_le}
use device_app.Wire.Codec.{IsTyped, read_header_le-header_le, length-header_le}
use device_app.Net.{Net, NetLaws, recv_exact}
use device_app.Net.Reliable.{IsFed, recv_exact-some}
use device_app.Json.{JsonLib, JsonTextLaws}
use device_app.Qt.{SecureSession}
use device_app.Qt.Handler.{
  Host, Flow, store, read_body, read_packet, deliver, parse_and_deliver, cipher_turn, session_turn,
  secure_turn, packet_turn, client_turn,
}
use mathlib.Core.Path.{subst}

module _ {W : Type 0} (net : Net W) (law : NetLaws net) (fd : ℕ) where
  -- A whole frame in the stream.
  read_packet-frame :
      (type : MessageType) (buf rest : Bytes) (w : W)
      → IsFed law fd
      → IsTyped type
      → length buf ≤ 1024 * 1024
      → law.incoming w fd ≡ header_le type (length buf) ++ (buf ++ rest)
      → (w' : W) × (law.incoming w' fd ≡ rest) × (read_packet net fd w ≡ (some (type, buf), w'))
  unfolding read_packet read_body
  read_packet-frame type buf rest w fed typed small e =
      let n = length buf in
      let (got, left) =
        subst
          (λ k.
            ((recv_exact net fd k w).0 ≡ some (header_le type n))
            × (law.incoming (recv_exact net fd k w).1 fd ≡ buf ++ rest))
          (length-header_le type n)
          (recv_exact-some net law fd (header_le type n) (buf ++ rest) w fed e) in
      let w₁ : W = (recv_exact net fd header_size w).1 in
      let (body, gone) = recv_exact-some net law fd buf rest w₁ fed left in
      let fits : ltb (1024 * 1024) n ≡ false = ground arith in
      (
        (recv_exact net fd n w₁).1,
        gone,
        rw
            (
              read_packet,
              got,
              read_header_le-header_le type n typed (omega (arith, small)),
              read_body,
              fits,
              body,
            )
            refl,
      )

nonempty : (bs : Bytes) → bs ≢ [] → is_empty bs ≡ false
nonempty [] h = absurd (h refl)
nonempty (b ∷ bs) h = refl

module _ {W S J E : Type 0} (net : Net W) (law : NetLaws net) (tls : SecureSession S)
    (js : JsonLib J) (text_law : JsonTextLaws js)
    (on_message : ℕ → MessageType → J → Host W S E → Option (Host W S E)) where
  dump_some : (body : J) → is_empty (js.dump body) ≡ false
  dump_some body = nonempty (js.dump body) (text_law.dump-ne-nil body)

  -- A frame whose body the session decrypts to the text of a value.
  pub cipher_frame_delivered :
      (fd : ℕ) (type : MessageType) (body : J) (cipher rest : Bytes) (session session' : S)
      (st : Host W S E)
      → IsFed law fd
      → IsTyped type
      → length cipher ≤ 1024 * 1024
      → law.incoming st.world fd ≡ header_le type (length cipher) ++ (cipher ++ rest)
      → find fd st.qt.tls_sessions ≡ some session
      → tls.is_handshake_done session ≡ true
      → tls.decrypt session cipher ≡ (js.dump body, session')
      → (w : W) × (law.incoming w fd ≡ rest)
        × (client_turn net tls js on_message fd true st ≡ (
            on_message fd type body
              (store net tls js on_message fd session' (record st { world = w }))
            >>= (λ st'. some (Flow.next, st'))))
  unfolding client_turn packet_turn secure_turn session_turn cipher_turn parse_and_deliver deliver
  cipher_frame_delivered fd type body cipher rest session session' st fed typed small e found done
        opened =
      let (w, gone, packet) =
        read_packet-frame net law fd type cipher rest st.world fed typed small e in
      let text : is_empty (js.dump body) ≡ false = dump_some body in
      (
        w,
        gone,
        rw
            (
              client_turn,
              packet,
              packet_turn,
              secure_turn,
              found,
              session_turn,
              done,
              cipher_turn,
              opened,
              text,
              parse_and_deliver,
              text_law.parse-dump body,
            )
            (rw (ap (λ r. r.1) opened) refl),
      )
