-- ===== src/Tls.antt =====
-- crypt/tls.hpp: TLS over two memory BIOs. OpenSSL is a parameter: `E` is an SSL object together with
-- the BIOs that SSL_set_bio gave it. A result that the code only logs is not modelled.
pub mod Context
pub mod Whole
pub mod Heap
pub mod Channel
use device_app.Base.{
  ℕ, zero, suc, ◌≡◌, List, [], ◌∷◌, ◌++◌, Option, none, some, Bool, true, false, not, ltb, get_or,
  is_some, if◌then◌else◌,
}
use device_app.Wire.{Bytes}
use device_app.Qt.{SecureSession}

-- OpenSSL's calls on a context `C`, a fresh SSL object `N`, a memory BIO `M` and the heap `H`.
pub record OpenSsl (C N M E H : Type 0) : Type 0 where
  pub ssl_new : C → H → Option N × H
  -- BIO_new(BIO_s_mem())
  pub bio_new : H → Option M × H
  pub bio_free : M → H → H
  pub ssl_free_new : N → H → H
  -- SSL_free of an SSL object that owns its BIOs
  pub ssl_free : E → H → H
  -- SSL_set_bio of a read and a write BIO whose end gives -1, and the accept or connect state
  pub joined : N → M → M → Bool → E
  pub is_init_finished : E → Bool
  pub do_handshake : E → E
  -- BIO_write to the read BIO: whether the result was positive
  pub bio_write : E → Bytes → Bool × E
  -- SSL_read into a buffer of a size; no bytes: the result was not positive
  pub ssl_read : E → ℕ → Bytes × E
  -- SSL_write: whether the result was positive
  pub ssl_write : E → Bytes → Bool × E
  -- BIO_pending and BIO_read of the write BIO; no bytes: the result was not positive
  pub bio_pending : E → ℕ
  pub bio_read : E → ℕ → Bytes × E

abbrev pub buffer_size : ℕ
buffer_size = 4096

-- `none`: `ssl` is null, and so are the BIOs.
abbrev pub Session : Type 0 → Type 0
Session E = Option E

module _ {C N M E H : Type 0} (lib : OpenSsl C N M E H) where
  -- ~Session, and the first act of a move assignment
  unfoldable pub cleanup : Session E → H → Session E × H
  cleanup none h = (none, h)
  cleanup (some e) h = (none, lib.ssl_free e h)

  freed : Option M → H → H
  freed none h = h
  freed (some bio) h = lib.bio_free bio h

  -- The BIOs as they were made; if one is missing, the other and the SSL object go.
  with_bios : N → Bool → Option M → Option M → H → Session E × H
  unfolding freed
  with_bios ssl is_server (some read_bio) (some write_bio) h =
      (some (lib.joined ssl read_bio write_bio is_server), h)
  with_bios ssl is_server none write_bio h = (none, lib.ssl_free_new ssl (freed write_bio h))
  with_bios ssl is_server (some read_bio) none h =
      (none, lib.ssl_free_new ssl (lib.bio_free read_bio h))

  joined_ssl : Option N → Bool → H → Session E × H
  unfolding with_bios
  joined_ssl none is_server h = (none, h)
  joined_ssl (some ssl) is_server h =
      let (read_bio, h₁) = lib.bio_new h in
      let (write_bio, h₂) = lib.bio_new h₁ in with_bios ssl is_server read_bio write_bio h₂

  -- Session(ctx, isServer), a null context included.
  unfoldable pub session : Option C → Bool → H → Session E × H
  unfolding joined_ssl
  session none is_server h = (none, h)
  session (some ctx) is_server h = let (ssl, h') = lib.ssl_new ctx h in joined_ssl ssl is_server h'

  -- Session(Session &&): the new session, and what stays of the other.
  pub move_construct : Session E → Session E × Session E
  move_construct other = (other, none)

  -- operator=(Session &&) from another object: this one, the other, and the heap.
  unfoldable pub move_assign : Session E → Session E → H → Session E × Session E × H
  unfolding cleanup
  move_assign this other h = (other, none, (cleanup this h).1)

  abbrev pub is_valid : Session E → Bool
  is_valid s = is_some s

  unfoldable pub is_handshake_done : Session E → Bool
  is_handshake_done none = false
  is_handshake_done (some e) = lib.is_init_finished e

  unfoldable pub flush_write_bio : E → Bytes × E
  flush_write_bio e =
      let pending = lib.bio_pending e in if ltb 0 pending then lib.bio_read e pending else ([], e)

  unfoldable pub kept : Bytes × E → Bytes × Session E
  kept (out, e) = (out, some e)

  -- SSL_do_handshake while the handshake is not done.
  unfoldable pub shaken : E → E
  shaken e = if not (lib.is_init_finished e) then lib.do_handshake e else e

  unfoldable pub handshake : Session E → Bytes × Session E
  unfolding flush_write_bio kept
  handshake none = ([], none)
  handshake (some e) = kept (flush_write_bio (shaken e))

  -- The loop of SSL_read, on fuel; `none`: the fuel is used up.
  unfoldable pub read_all : ℕ → E → Option (Bytes × E)
  read_all zero e = none
  read_all (suc fuel) e =
      let (bytes, e') = lib.ssl_read e buffer_size in
      let rest = read_all fuel e' in
      elim bytes [
        | [] ↦ some ([], e')
        | b ∷ bs ↦ elim rest [ none ↦ none | some (more, e″) ↦ some ((b ∷ bs) ++ more, e″) ]
      ]

  unfoldable pub kept_plain : Option (Bytes × E) → Option (Bytes × Session E)
  kept_plain none = none
  kept_plain (some (plain, e)) = some (plain, some e)

  -- After the bytes are in the read BIO.
  unfoldable pub decrypted : ℕ → E → Option (Bytes × Session E)
  unfolding read_all kept_plain
  decrypted fuel e =
      let ready = shaken e in
      let plain = kept_plain (read_all fuel ready) in
      if lib.is_init_finished ready then plain else some ([], some ready)

  unfoldable pub decrypt : ℕ → Bytes → Session E → Option (Bytes × Session E)
  unfolding decrypted
  decrypt fuel buffer none = some ([], none)
  decrypt fuel buffer (some e) =
      let (written, e') = lib.bio_write e buffer in
      let plain = decrypted fuel e' in if written then plain else some ([], some e')

  unfoldable pub written_out : Bool × E → Bytes × Session E
  unfolding flush_write_bio kept
  written_out (true, e) = kept (flush_write_bio e)
  written_out (false, e) = ([], some e)

  unfoldable pub encrypt : Bytes → Session E → Bytes × Session E
  unfolding written_out
  encrypt buffer none = ([], none)
  encrypt buffer (some e) =
      let sealed = written_out (lib.ssl_write e buffer) in
      if not (lib.is_init_finished e) then ([], some e) else sealed

  unfoldable pub get_handshake_data : Session E → Bytes × Session E
  unfolding flush_write_bio kept
  get_handshake_data none = ([], none)
  get_handshake_data (some e) = kept (flush_write_bio e)

  -- What the Qt port takes of a session: `heaps` draws the heap, `bound` how often it reads.
  pub secure_session : Option C → (ℕ → H) → (Session E → Bytes → ℕ) → SecureSession (Session E)
  secure_session ctx heaps bound = record {
    create = λ draw. (session ctx true (heaps draw)).0;
    is_valid = is_valid;
    is_handshake_done = is_handshake_done;
    encrypt = λ s buffer. encrypt buffer s;
    decrypt = λ s buffer. get_or (decrypt (bound s buffer) buffer s) ([], s);
    get_handshake_data = get_handshake_data;
  }
