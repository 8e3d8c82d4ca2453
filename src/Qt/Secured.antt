-- ===== src/Qt/Secured.antt =====
-- What sendMessage puts on the wire once a client's handshake is done.
use device_app.Base.{
  ℕ, ◌≡◌, refl, ap, ◌∙◌, [], ◌∷◌, ◌++◌, some, true, false, length, is_empty, nat_key, append-nil,
}
use device_app.Base.Map.{find, insert}
use device_app.Wire.{MessageType, Bytes, header_le}
use device_app.Net.{Net, NetLaws}
use device_app.Net.Reliable.{IsHealthy, send_parts-true, send_parts-sent}
use device_app.Json.{JsonLib}
use device_app.Qt.{SecureSession, QtServer, send_raw, send_cipher, secured, send_message}

module _ {W S J : Type 0} (net : Net W) (law : NetLaws net) (tls : SecureSession S)
    (js : JsonLib J) where
  -- The header and the cipher, and nothing of the text itself; the session moves on.
  pub cipher_frame_sent :
      (fd : ℕ) (type : MessageType) (body : J) (cipher : Bytes) (session session' : S)
      (s : QtServer S) (w : W)
      → IsHealthy law fd
      → find fd s.tls_sessions ≡ some session
      → tls.is_handshake_done session ≡ true
      → tls.encrypt session (js.dump body) ≡ (cipher, session')
      → is_empty cipher ≡ false
      → let r = send_message net tls js fd type body s w in
        (r.0 ≡ true)
        × (r.1.tls_sessions ≡ insert fd session' s.tls_sessions)
        × (law.sent r.2 fd ≡ law.sent w fd ++ (header_le type (length cipher) ++ cipher))
  unfolding send_message secured send_cipher send_raw
  cipher_frame_sent fd type body cipher session session' s w healthy found done sealed some_bytes =
      let parts = header_le type (length cipher) ∷ cipher ∷ [] in
      rw (send_message, found, secured, done, sealed, send_cipher, some_bytes)
        (
          send_parts-true net law fd parts w healthy,
          refl,
          send_parts-sent net law fd parts w healthy
              ∙ ap (λ t. law.sent w fd ++ (header_le type (length cipher) ++ t))
                  (append-nil cipher),
        )
