-- ===== src/Dtls/Agreement.antt =====
-- The sessions of crypt/dtls.hpp beside those of crypt/tls.hpp, on the same OpenSSL.
use device_app.Base.{
  ℕ, zero, suc, ◌≡◌, refl, [], ◌∷◌, ◌++◌, Option, none, some, true, false, is_empty,
}
use device_app.Wire.{Bytes}
use device_app.Tls as Tls
use device_app.Tls.{OpenSsl, Session, buffer_size}
use device_app.Dtls.{
  DtlsCalls, encrypt, decrypt, decrypted, read_all, kept, kept_plain, flush_write_bio, shaken,
}

module _ {C N M E H : Type 0} (lib : OpenSsl C N M E H) (calls : DtlsCalls N M E) where
  read_all-agrees : (fuel : ℕ) (e : E) → read_all lib calls fuel e ≡ Tls.read_all lib fuel e
  unfolding read_all Tls.read_all
  read_all-agrees zero e = refl
  read_all-agrees (suc fuel) e =
      let e' = (lib.ssl_read e buffer_size).1 in
      elim (lib.ssl_read e buffer_size).0
        as (λ bytes.
          ◌≡◌ {A = Option (Bytes × E)}
            (elim bytes [
              | [] ↦ some ([], e')
              | b ∷ bs ↦ elim (read_all lib calls fuel e') [
                | none ↦ none
                | some (more, e″) ↦ some ((b ∷ bs) ++ more, e″)
              ]
            ])
            (elim bytes [
              | [] ↦ some ([], e')
              | b ∷ bs ↦ elim (Tls.read_all lib fuel e') [
                | none ↦ none
                | some (more, e″) ↦ some ((b ∷ bs) ++ more, e″)
              ]
            ])) [ [] ↦ refl | b ∷ bs ↦ rw (read_all-agrees fuel e') refl ]

  -- On a session whose handshake is done, while SSL_write succeeds, both encrypt alike.
  pub encrypt-agrees :
      (p : Bytes) (e : E)
      → is_empty p ≡ false
      → lib.is_init_finished e ≡ true
      → (lib.ssl_write e p).0 ≡ true
      → encrypt lib calls p (some e) ≡ Tls.encrypt lib p (some e)
  unfolding encrypt Tls.encrypt Tls.written_out kept Tls.kept flush_write_bio Tls.flush_write_bio
  encrypt-agrees p e some_bytes done ok = rw (some_bytes, done, ok) refl

  -- While BIO_write succeeds, both decrypt alike, in the handshake and after it.
  pub decrypt-agrees :
      (fuel : ℕ) (buffer : Bytes) (e : E)
      → is_empty buffer ≡ false
      → (lib.bio_write e buffer).0 ≡ true
      → decrypt lib calls fuel buffer (some e) ≡ Tls.decrypt lib fuel buffer (some e)
  unfolding decrypt decrypted kept_plain shaken Tls.decrypt Tls.decrypted Tls.kept_plain Tls.shaken
  decrypt-agrees fuel buffer e some_bytes ok =
      rw (some_bytes, ok, Tls.decrypted, decrypted, read_all-agrees fuel) refl
