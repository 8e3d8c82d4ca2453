-- ===== src/Qt/Clients/Sends.antt =====
-- The sends and broadcasts of ClientServer/src/QtCommServer.cpp, as steps of the clients' tables.
use device_app.Base.{
  ℕ, ◌≡◌, refl, String, List, [], ◌∷◌, Option, none, some, Bool, true, elem, nat_key, arith,
  nat_eq_iff, is_empty, if_cases,
}
use device_app.Base.Map.{find, insert}
use device_app.Wire.{MessageType, Bytes}
use device_app.Net.{Net}
use device_app.Json.{JsonLib}
use device_app.Qt.{
  SecureSession, QtServer, send_message, send_cipher, send_raw, secured, send_selected, send_each,
  broadcast_to_role, broadcast_by_role,
}
use device_app.Qt.Clients.{Reachable}

module _ {W S J : Type 0} (net : Net W) (tls : SecureSession S) (js : JsonLib J) where
  -- A step that leaves the list of clients alone.
  record Sent (s s' : QtServer S) : Type 0 where
    reachable : Reachable s'
    fds : s'.client_fds ≡ s.client_fds

  cipher-Sent :
      (fd : ℕ) (type : MessageType) (sealed : Bytes × S) (s : QtServer S) (w : W)
      → Reachable s
      → elem fd s.client_fds ≡ true
      → Sent s (send_cipher net tls js fd type sealed s w).1
  unfolding send_cipher
  cipher-Sent fd type (cipher, session) s w r on =
      let s' : QtServer S = record s { tls_sessions = insert fd session s.tls_sessions } in
      let sent : Sent s s' = record {
        reachable = Reachable.ciphered fd session r on;
        fds = refl;
      } in
      if_cases (λ (t : Bool × QtServer S × W). Sent s t.1) (is_empty cipher) _ _ (λ _. sent)
        (λ _. sent)

  send_message-Sent :
      (fd : ℕ) (type : MessageType) (body : J) (s : QtServer S) (w : W)
      → Reachable s
      → elem fd s.client_fds ≡ true
      → Sent s (send_message net tls js fd type body s w).1
  unfolding send_message
  send_message-Sent fd type body s w r on =
      elim (secured net tls js (find fd s.tls_sessions))
        as (λ o.
          let t : Bool × QtServer S × W = elim o [
            | some session ↦ send_cipher net tls js fd type (tls.encrypt session (js.dump body)) s w
            | none ↦ (let (ok, w') = send_raw net tls js fd type (js.dump body) w in (ok, s, w'))
          ] in
          Sent s t.1) [
            | none ↦ record { reachable = r; fds = refl }
            | some session ↦ cipher-Sent fd type (tls.encrypt session (js.dump body)) s w r on
          ]

  send_selected-Sent :
      (fd : ℕ) (type : MessageType) (chosen : Option J) (s : QtServer S) (w : W)
      → Reachable s
      → elem fd s.client_fds ≡ true
      → Sent s (send_selected net tls js fd type chosen s w).0
  unfolding send_selected
  send_selected-Sent fd type none s w r on = record { reachable = r; fds = refl }
  send_selected-Sent fd type (some body) s w r on = send_message-Sent fd type body s w r on

  send_each-Reachable :
      (fds : List ℕ) (type : MessageType) (chosen : ℕ → Option J) (s : QtServer S) (w : W)
      → Reachable s
      → ((g : ℕ) → elem g fds ≡ true → elem g s.client_fds ≡ true)
      → Reachable (send_each net tls js fds type chosen s w).0
  unfolding send_each
  send_each-Reachable [] type chosen s w r on = r
  send_each-Reachable (fd ∷ fds) type chosen s w r on =
      let (s', w') = send_selected net tls js fd type (chosen fd) s w in
      let first =
        send_selected-Sent fd type (chosen fd) s w r (on fd (ground (arith, nat_eq_iff fd fd))) in
      send_each-Reachable fds type chosen s' w' first.reachable
        (λ g h. rw first.fds (on g (ground (arith, h))))

  pub broadcast_to_role-Reachable :
      (type : MessageType) (body : J) (min_role : String) (s : QtServer S) (w : W)
      → Reachable s
      → Reachable (broadcast_to_role net tls js type body min_role s w).0
  unfolding broadcast_to_role
  broadcast_to_role-Reachable type body min_role s w r =
      send_each-Reachable s.client_fds type _ s w r (λ g h. h)

  pub broadcast_by_role-Reachable :
      (type : MessageType) (user_body admin_body : J) (s : QtServer S) (w : W)
      → Reachable s
      → Reachable (broadcast_by_role net tls js type user_body admin_body s w).0
  unfolding broadcast_by_role
  broadcast_by_role-Reachable type user_body admin_body s w r =
      send_each-Reachable s.client_fds type _ s w r (λ g h. h)

  send_each-none :
      (fds : List ℕ) (type : MessageType) (chosen : ℕ → Option J) (s : QtServer S) (w : W)
      → fds ≡ []
      → (send_each net tls js fds type chosen s w).0 ≡ s
  unfolding send_each
  send_each-none [] type chosen s w e = refl
  send_each-none (fd ∷ fds) type chosen s w e = cc e

  pub broadcast_to_role-none :
      (type : MessageType) (body : J) (min_role : String) (s : QtServer S) (w : W)
      → s.client_fds ≡ []
      → (broadcast_to_role net tls js type body min_role s w).0 ≡ s
  unfolding broadcast_to_role
  broadcast_to_role-none type body min_role s w e = send_each-none s.client_fds type _ s w e

  pub broadcast_by_role-none :
      (type : MessageType) (user_body admin_body : J) (s : QtServer S) (w : W)
      → s.client_fds ≡ []
      → (broadcast_by_role net tls js type user_body admin_body s w).0 ≡ s
  unfolding broadcast_by_role
  broadcast_by_role-none type user_body admin_body s w e = send_each-none s.client_fds type _ s w e
