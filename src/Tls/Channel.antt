-- ===== src/Tls/Channel.antt =====
-- A Qt client and the Qt port over their two sessions: crypt/tls.hpp under the handler and the sends
-- of ClientServer/src/QtCommServer.cpp.
use device_app.Base.{
  ℕ, ◌*◌, ◌≤◌, ◌<◌, ◌≡◌, ◌≢◌, refl, ap, ◌∙◌, [], ◌∷◌, ◌++◌, Option, some, true, ◌>>=◌, length,
  nat_key, arith, get_or,
}
use device_app.Base.Map.{find, insert}
use device_app.Wire.{MessageType, Bytes, header_le}
use device_app.Wire.Codec.{IsTyped}
use device_app.Net.{Net, NetLaws}
use device_app.Net.Reliable.{IsFed, IsHealthy}
use device_app.Json.{JsonLib, JsonTextLaws}
use device_app.Qt.{QtServer, send_message}
use device_app.Qt.Secured.{cipher_frame_sent}
use device_app.Qt.Handler.{Host, Flow, store, client_turn}
use device_app.Qt.Handler.Received.{cipher_frame_delivered}
use device_app.Tls.{OpenSsl, Session, encrypt, decrypt, secure_session, is_handshake_done}
use device_app.Tls.Whole.{TlsLaws, Idle, carried}

positive : (bs : Bytes) → bs ≢ [] → 0 < length bs
positive [] h = absurd (h refl)
positive (b ∷ bs) h = omega arith

module _ {C N M E H W J : Type 0} (lib : OpenSsl C N M E H) (laws : TlsLaws lib) (ctx : Option C)
    (heaps : ℕ → H) (bound : Session E → Bytes → ℕ) (net : Net W) (law : NetLaws net)
    (js : JsonLib J) (text_law : JsonTextLaws js) where
  -- Under what OpenSSL documents of a connected pair of sessions with nothing on the way:
  -- sendMessage to a client whose connection takes bytes returns true and puts a header and a
  -- cipher on the wire, which the client's session, with more fuel than the text has bytes,
  -- decrypts to the text of the JSON value; the session that encrypted it is kept for the client,
  -- and nothing is then on the way.
  pub reply_heard :
      (fd fuel : ℕ) (type : MessageType) (body : J) (a b : E) (s : QtServer (Session E)) (w : W)
      → IsHealthy law fd
      → find fd s.tls_sessions ≡ some (some a)
      → Idle lib laws a b
      → length (js.dump body) < fuel
      → let r = send_message net (secure_session lib ctx heaps bound) js fd type body s w in
        (cipher : Bytes) × (a' : E) × (b' : E) × (r.0 ≡ true)
        × (law.sent r.2 fd ≡ law.sent w fd ++ (header_le type (length cipher) ++ cipher))
        × (decrypt lib fuel cipher (some b) ≡ some (js.dump body, some b'))
        × (r.1.tls_sessions ≡ insert fd (some a') s.tls_sessions)
        × Idle lib laws a' b'
  unfolding secure_session is_handshake_done
  reply_heard fd fuel type body a b s w healthy found idle short =
      let p = js.dump body in
      let (cipher, a', b', sealed, opened, some_bytes, idle') =
        carried lib laws fuel a b p idle (positive p (text_law.dump-ne-nil body)) short in
      let (ok, kept, sent) =
        cipher_frame_sent net law (secure_session lib ctx heaps bound) js fd type body cipher
          (some a) (some a') s w healthy found (laws.linked-finished a b idle.0).0 sealed
          some_bytes in
      (cipher, a', b', ok, sent, opened, kept, idle')

  module _ {O : Type 0}
      (on_message : ℕ
        → MessageType
        → J
        → Host W (Session E) O
        → Option (Host W (Session E) O)) where
    -- Under what OpenSSL documents of a connected pair of sessions with nothing on the way: when a
    -- client's session has encrypted the text of a JSON value, and that as one frame of at most 1
    -- MB, of a type that is named or above 0x0b, is the next in the stream of a connection whose
    -- reads give bytes while there are some, one turn of the handler, its read loop allowed more
    -- reads than the text has bytes, takes exactly that frame, however its bytes are cut up, hands
    -- that type and that value to the callback, and goes on if the callback returns; nothing is
    -- then on the way.
    pub request_heard :
        (fd : ℕ) (type : MessageType) (body : J) (rest : Bytes) (a b : E)
        (st : Host W (Session E) O)
        → IsFed law fd
        → IsTyped type
        → find fd st.qt.tls_sessions ≡ some (some b)
        → Idle lib laws a b
        → let cipher = (encrypt lib (js.dump body) (some a)).0 in
          length cipher ≤ 1024 * 1024
          → length (js.dump body) < bound (some b) cipher
          → law.incoming st.world fd ≡ header_le type (length cipher) ++ (cipher ++ rest)
          → let tls = secure_session lib ctx heaps bound in
            (w : W) × (a' : E) × (b' : E) × (law.incoming w fd ≡ rest)
            × ((encrypt lib (js.dump body) (some a)).1 ≡ some a')
            × (client_turn net tls js on_message fd true st ≡ (
                on_message fd type body
                  (store net tls js on_message fd (some b') (record st { world = w }))
                >>= (λ st'. some (Flow.next, st'))))
            × Idle lib laws a' b'
    unfolding secure_session is_handshake_done
    request_heard fd type body rest a b st fed typed found idle small short e =
        let p = js.dump body in
        let tls = secure_session lib ctx heaps bound in
        let sent = (encrypt lib p (some a)).0 in
        let (cipher, a', b', sealed, opened, some_bytes, idle') =
          carried lib laws (bound (some b) sent) a b p idle (positive p (text_law.dump-ne-nil body))
            short in
        let same : sent ≡ cipher = ap (λ r. r.0) sealed in
        let got : tls.decrypt (some b) sent ≡ (p, some b') =
          ap (λ o. get_or o ([], some b))
            (ap (λ c. decrypt lib (bound (some b) sent) c (some b)) same ∙ opened) in
        let (w, gone, done) =
          cipher_frame_delivered net law tls js text_law on_message fd type body sent rest (some b)
            (some b') st fed typed small e found (laws.linked-finished a b idle.0).1 got in
        (w, a', b', gone, ap (λ r. r.1) sealed, done, idle')
