-- ===== src/Dtls.antt =====
-- crypt/dtls.hpp: DTLS over two memory BIOs, read as if its declarations and definitions stood in one
-- namespace. OpenSSL is the parameter of Tls.antt with what only this header calls.
pub mod Agreement
use device_app.Base.{
  ℕ, zero, suc, String, List, [], ◌∷◌, ◌++◌, Option, none, some, Bool, true, false, not, ltb,
  is_some, is_empty, get_or, if◌then◌else◌, ◌||◌,
}
use device_app.Wire.{Bytes}
use device_app.Tls.{OpenSsl, Session, buffer_size}
use device_app.Tls.Context.{Verify, ContextLib, certified, keyed, verified}
use Prim.Native.String.{◌++◌ as append}

-- The calls on an SSL object with its BIOs that crypt/tls.hpp does without.
pub record DtlsCalls (N M E : Type 0) : Type 0 where
  -- SSL_set_bio of what BIO_new gave, null or not, with the end of a BIO giving -1
  pub set_bio : N → Option M → Option M → E
  pub set_link_mtu : E → ℕ → E
  -- SSL_set_accept_state or SSL_set_connect_state
  pub set_state : E → Bool → E
  -- SSL_CIPHER_get_name of SSL_get_current_cipher
  pub current_cipher : E → Option String

-- The calls on a context, for the methods of DTLS.
pub record CipherLib (C : Type 0) : Type 0 where
  pub set_ciphersuites : C → String → C
  pub set_cipher_list : C → String → C

module _ {C : Type 0} (lib : ContextLib C) (ciphers : CipherLib C) where
  apply_cipher_suites : C → C
  apply_cipher_suites ctx =
      ciphers.set_cipher_list
        (ciphers.set_ciphersuites ctx
          "TLS_AES_256_GCM_SHA384:TLS_CHACHA20_POLY1305_SHA256:TLS_AES_128_GCM_SHA256")
        (append "ECDHE-ECDSA-AES256-GCM-SHA384:ECDHE-RSA-AES256-GCM-SHA384:" (
          append "ECDHE-ECDSA-CHACHA20-POLY1305:ECDHE-RSA-CHACHA20-POLY1305:"
            "ECDHE-ECDSA-AES128-GCM-SHA256:ECDHE-RSA-AES128-GCM-SHA256"))

  -- A failed load is only logged.
  context : Option C → Verify → Option String → Option String → Option String → Option C
  unfolding apply_cipher_suites
  context none mode certfile keyfile cafile = none
  context (some ctx) mode certfile keyfile cafile = some (
      verified lib mode cafile
        (keyed lib keyfile (certified lib certfile (apply_cipher_suites ctx))))

  pub server_context : Option String → Option String → Option String → Option C
  unfolding context
  server_context certfile keyfile cafile =
      context lib.server_ctx Verify.peer_required certfile keyfile cafile

  pub client_context : Option String → Option String → Option String → Option C
  unfolding context
  client_context certfile keyfile cafile =
      context lib.client_ctx Verify.peer certfile keyfile cafile

module _ {C N M E H : Type 0} (lib : OpenSsl C N M E H) (calls : DtlsCalls N M E) where
  -- The BIOs are not looked at; 1200 bytes go into a datagram.
  joined_ssl : Option N → Bool → H → Session E × H
  joined_ssl none is_server h = (none, h)
  joined_ssl (some ssl) is_server h =
      let (read_bio, h₁) = lib.bio_new h in
      let (write_bio, h₂) = lib.bio_new h₁ in
      let e = calls.set_link_mtu (calls.set_bio ssl read_bio write_bio) 1200 in
      (some (calls.set_state e is_server), h₂)

  -- Session(ctx, isServer); SSL_new of a null context gives null.
  unfoldable pub session : Option C → Bool → H → Session E × H
  unfolding joined_ssl
  session none is_server h = (none, h)
  session (some ctx) is_server h = let (ssl, h') = lib.ssl_new ctx h in joined_ssl ssl is_server h'

  unfoldable pub cleanup : Session E → H → Session E × H
  cleanup none h = (none, h)
  cleanup (some e) h = (none, lib.ssl_free e h)

  pub move_construct : Session E → Session E × Session E
  move_construct other = (other, none)

  -- operator=(Session &&) from another object: this one, the other, and the heap.
  pub move_assign : Session E → Session E → H → Session E × Session E × H
  unfolding cleanup
  move_assign this other h = (other, none, (cleanup this h).1)

  abbrev pub is_valid : Session E → Bool
  is_valid s = is_some s

  pub is_handshake_done : Session E → Bool
  is_handshake_done none = false
  is_handshake_done (some e) = lib.is_init_finished e

  pub get_negotiated_cipher : Session E → String
  unfolding is_handshake_done
  get_negotiated_cipher none = "Not Negotiated Yet"
  get_negotiated_cipher (some e) =
      if not (lib.is_init_finished e)
      then "Not Negotiated Yet"
      else get_or (calls.current_cipher e) "Unknown"

  unfoldable pub flush_write_bio : E → Bytes × E
  flush_write_bio e =
      let pending = lib.bio_pending e in if ltb 0 pending then lib.bio_read e pending else ([], e)

  unfoldable pub kept : Bytes × E → Bytes × Session E
  kept (out, e) = (out, some e)

  unfoldable pub shaken : E → E
  shaken e = if not (lib.is_init_finished e) then lib.do_handshake e else e

  -- Handshake(incoming): what came goes into the read BIO first.
  unfoldable pub handshake : Bytes → Session E → Bytes × Session E
  unfolding flush_write_bio shaken kept
  handshake incoming none = ([], none)
  handshake incoming (some e) =
      let fed = if not (is_empty incoming) then (lib.bio_write e incoming).1 else e in
      kept (flush_write_bio (shaken fed))

  -- A failed SSL_write is only logged, and what the write BIO holds goes out all the same.
  unfoldable pub encrypt : Bytes → Session E → Bytes × Session E
  unfolding flush_write_bio kept
  encrypt buffer none = ([], none)
  encrypt buffer (some e) =
      if not (lib.is_init_finished e) || is_empty buffer
      then ([], some e)
      else kept (flush_write_bio (lib.ssl_write e buffer).1)

  -- The loop of SSL_read, on fuel; `none`: the fuel is used up.
  unfoldable pub read_all : ℕ → E → Option (Bytes × E)
  read_all zero e = none
  read_all (suc fuel) e =
      let (bytes, e') = lib.ssl_read e buffer_size in
      let rest = read_all fuel e' in
      elim bytes [
        | [] ↦ some ([], e')
        | b ∷ bs ↦ elim rest [ none ↦ none | some (more, e″) ↦ some ((b ∷ bs) ++ more, e″) ]
      ]

  unfoldable pub kept_plain : Option (Bytes × E) → Option (Bytes × Session E)
  kept_plain none = none
  kept_plain (some (plain, e)) = some (plain, some e)

  -- After the bytes are in the read BIO.
  unfoldable pub decrypted : ℕ → E → Option (Bytes × Session E)
  unfolding read_all kept_plain shaken
  decrypted fuel e =
      let ready = shaken e in
      let plain = kept_plain (read_all fuel ready) in
      if lib.is_init_finished ready then plain else some ([], some ready)

  -- The result of BIO_write is not looked at.
  unfoldable pub decrypt : ℕ → Bytes → Session E → Option (Bytes × Session E)
  unfolding decrypted
  decrypt fuel buffer none = some ([], none)
  decrypt fuel buffer (some e) =
      let plain = decrypted fuel (lib.bio_write e buffer).1 in
      if is_empty buffer then some ([], some e) else plain
