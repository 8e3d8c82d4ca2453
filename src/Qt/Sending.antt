-- ===== src/Qt/Sending.antt =====
-- What sending leaves alone in the server: the clients and their roles.
use device_app.Base.{
  ℕ, ◌≡◌, refl, ◌∙◌, List, [], ◌∷◌, Option, none, some, Bool, true, false, if◌then◌else◌,
  Option-cases, inl, inr, nat_key,
}
use device_app.Base.Map.{find}
use device_app.Wire.{MessageType}
use device_app.Net.{Net}
use device_app.Json.{JsonLib}
use device_app.Qt.{
  SecureSession, QtServer, send_raw, send_cipher, secured, send_message, send_each, broadcast,
}

module _ {W S J : Type 0} (net : Net W) (tls : SecureSession S) (js : JsonLib J) where
  abbrev Keeps : QtServer S → QtServer S → Type 0
  Keeps s s' = s'.client_roles ≡ s.client_roles

  either-Keeps :
      (b : Bool) (s s' : QtServer S) (ok : Bool) (w w' : W)
      → Keeps s s'
      → let r : Bool × QtServer S × W = if b then (false, s', w) else (ok, s', w') in Keeps s r.1
  either-Keeps true s s' ok w w' h = h
  either-Keeps false s s' ok w w' h = h

  pub client_roles-send_message :
      (fd : ℕ) (type : MessageType) (body : J) (s : QtServer S) (w : W)
      → (send_message net tls js fd type body s w).1.client_roles ≡ s.client_roles
  unfolding send_message
  client_roles-send_message fd type body s w =
      elim (secured net tls js (find fd s.tls_sessions))
        as (λ o.
          let r : Bool × QtServer S × W = elim o [
            | none ↦
                (let sent = send_raw net tls js fd type (js.dump body) w in (sent.0, s, sent.1))
            | some session ↦ send_cipher net tls js fd type (tls.encrypt session (js.dump body)) s w
          ] in
          Keeps s r.1) [ none ↦ refl | some session ↦ either-Keeps _ s _ _ w _ refl ]

  client_roles-send_each :
      (fds : List ℕ) (type : MessageType) (chosen : ℕ → Option J) (s : QtServer S) (w : W)
      → (send_each net tls js fds type chosen s w).0.client_roles ≡ s.client_roles
  unfolding send_each
  client_roles-send_each [] type chosen s w = refl
  client_roles-send_each (fd ∷ fds) type chosen s w = elim (Option-cases (chosen fd)) [
    | inl e ↦ rw (e, send_each) (client_roles-send_each fds type chosen s w)
    | inr (body, e) ↦
        let r = send_message net tls js fd type body s w in
        rw (e, send_each)
          (client_roles-send_each fds type chosen r.1 r.2
            ∙ client_roles-send_message fd type body s w)
  ]

  pub client_roles-broadcast :
      (type : MessageType) (body : J) (s : QtServer S) (w : W)
      → (broadcast net tls js type body s w).0.client_roles ≡ s.client_roles
  unfolding broadcast
  client_roles-broadcast type body s w = client_roles-send_each s.client_fds type _ s w
