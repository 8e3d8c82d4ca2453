-- ===== src/Client/Process/Leftovers.antt =====
-- What the destructors of main leave of the ClientServer's process.
use device_app.Base.{◌≡◌, refl, ◌∙◌, none, some, false, if_cases}
use device_app.Net.{Net}
use device_app.Net.Listening.{Listener}
use device_app.Qt.Lifecycle.{Stopped}
use device_app.Client.Link.Retry as Retry
use device_app.Client.Process.{App, service, stop_link, stop_port, stop, destroy_auth, destroy_port}
use device_app.Client.Process.Main.{destroyed}
use device_app.Client.Process.Stopping.{stopped-Held, moved-Stopped, stop-Held}
use device_app.Client.Process.Settling.{Settled, stop-Settled, stop_link-Settled, stop_link-off}

module _ {W S J D C : Type 0} (net : Net W) (sockets : Listener W) where
  -- Nothing runs any more, and nothing of a client, of the TLS context or of the port is left.
  pub record Ended (a : App W S J D C) : Type 0 where
    pub port : Stopped net sockets (service a)
    pub link : a.link.is_running ≡ false
    pub thread : a.link.connecting ≡ false
    pub tls_ctx : a.tls_ctx ≡ none

  pub stop_link-Stopped :
      (a : App W S J D C)
      → Stopped net sockets (service a)
      → Stopped net sockets (service (stop_link net sockets a))
  unfolding stop_link Retry.stop Retry.hung_up
  stop_link-Stopped a h =
      if_cases
        (λ (l : Retry.LinkService W S J D). Stopped net sockets (service (record a { link = l })))
        a.link.is_running _ _
        (λ _.
          elim a.link.client.current_fd
            as (λ o. Stopped net sockets (
              service (record a {
                link = record a.link {
                  is_running = false;
                  connecting = false;
                  client = Retry.hung_up net sockets o a.link.client;
                };
              }))) [ none ↦ h | some fd ↦ moved-Stopped net sockets (service a) _ h ])
        (λ _. h)

  pub stop_link-tls_ctx : (a : App W S J D C) → (stop_link net sockets a).tls_ctx ≡ a.tls_ctx
  unfolding stop_link
  stop_link-tls_ctx a = refl

  pub destroyed-Ended :
      (close_database : D → D) (a : App W S J D C)
      → Settled net sockets a
      → Ended (destroyed net sockets close_database a)
  unfolding destroyed stop_port destroy_auth destroy_port
  destroyed-Ended close_database a h =
      let b = stop net sockets a in
      let k = stop-Settled net sockets a h in
      let client = record b.link.client { db = close_database b.link.client.db } in
      let c : App W S J D C = record b { link = record b.link { client = client } } in
      let d : App W S J D C = record (stop_port net sockets c) { tls_ctx = none } in
      let settled : Settled net sockets d = record {
        held = stopped-Held net sockets _ (stop-Held net sockets (service c) k.held);
        linked = k.linked;
      } in
      let e = stop_link-Settled net sockets d settled in
      record {
        port = stop_link-Stopped d (stop-Held net sockets (service c) k.held);
        link = stop_link-off net sockets d;
        thread = e.linked ∙ stop_link-off net sockets d;
        tls_ctx = stop_link-tls_ctx d;
      }
