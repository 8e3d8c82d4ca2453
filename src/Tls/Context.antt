-- ===== src/Tls/Context.antt =====
-- ServerContext and ClientContext of crypt/tls.hpp. A failed load is only logged, so each call gives
-- the context on.
use device_app.Base.{String, Option, none, some, Bool, is_some}

pub data Verify : Type 0 where
  -- SSL_VERIFY_NONE, SSL_VERIFY_PEER, and that with SSL_VERIFY_FAIL_IF_NO_PEER_CERT
  no_peer peer peer_required : Verify

pub record ContextLib (C : Type 0) : Type 0 where
  -- SSL_CTX_new of the server's or the client's method
  pub server_ctx : Option C
  pub client_ctx : Option C
  pub use_certificate_file : C → String → C
  pub use_private_key_file : C → String → C
  pub set_verify : C → Verify → C
  pub load_verify_locations : C → String → C

module _ {C : Type 0} (lib : ContextLib C) where
  unfoldable pub certified : Option String → C → C
  certified none ctx = ctx
  certified (some certfile) ctx = lib.use_certificate_file ctx certfile

  unfoldable pub keyed : Option String → C → C
  keyed none ctx = ctx
  keyed (some keyfile) ctx = lib.use_private_key_file ctx keyfile

  -- `mode` is asked for if there is a CA file.
  unfoldable pub verified : Verify → Option String → C → C
  verified mode none ctx = lib.set_verify ctx Verify.no_peer
  verified mode (some cafile) ctx = lib.load_verify_locations (lib.set_verify ctx mode) cafile

  context : Option C → Verify → Option String → Option String → Option String → Option C
  unfolding certified keyed verified
  context none mode certfile keyfile cafile = none
  context (some ctx) mode certfile keyfile cafile =
      some (verified mode cafile (keyed keyfile (certified certfile ctx)))

  pub server_context : Option String → Option String → Option String → Option C
  unfolding context
  server_context certfile keyfile cafile =
      context lib.server_ctx Verify.peer_required certfile keyfile cafile

  pub client_context : Option String → Option String → Option String → Option C
  unfolding context
  client_context certfile keyfile cafile =
      context lib.client_ctx Verify.peer certfile keyfile cafile

  -- QtCommServer::initTLS: the result, and `tls_ctx_` after it.
  pub init_tls : String → String → String → Bool × Option C
  init_tls cert_path key_path ca_path =
      let ctx = server_context (some cert_path) (some key_path) (some ca_path) in (is_some ctx, ctx)
