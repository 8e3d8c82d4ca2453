-- ===== src/Qt/Broadcast.antt =====
-- Who receives what: the tests of the broadcasts, and the descriptors that a broadcast writes to.
use device_app.Base.{
  ℕ, ◌≡◌, ◌≢◌, refl, ◌∙◌, String, List, [], ◌∷◌, Option, none, some, Bool, true, false, ◌||◌, ◌==◌,
  nat_key, text_key, if◌then◌else◌, arith, Option-cases, if_cases, inl, inr, ◌⊎◌,
}
use device_app.Base.Map.{find, insert}
use device_app.Wire.{MessageType, Bytes}
use device_app.Net.{Net, NetLaws, send_parts}
use device_app.Net.Transfer.{send_parts-Delivers}
use device_app.Json.{JsonLib}
use device_app.Qt.{
  SecureSession, QtServer, send_raw, send_cipher, secured, send_message, send_each, to_role,
  by_role, body_for, role_admits, broadcast_to_role, broadcast_by_role, send_image_message,
  send_image_cipher, image_each, broadcast_image, logged_in, image_parts,
}

module _ {W S J : Type 0} (net : Net W) (law : NetLaws net) (tls : SecureSession S)
    (js : JsonLib J) where
  -- A step of the server that writes to one descriptor only, and keeps clients and roles.
  pub record Targets (fd : ℕ) (s : QtServer S) (w : W) (s' : QtServer S) (w' : W) : Type 0 where
    pub others : (g : ℕ) → fd ≢ g → law.sent w' g ≡ law.sent w g
    pub fds : s'.client_fds ≡ s.client_fds
    pub roles : s'.client_roles ≡ s.client_roles

  send_raw_others :
      (fd g : ℕ) (parts : List Bytes) (w : W)
      → fd ≢ g
      → law.sent (send_parts net fd parts w).1 g ≡ law.sent w g
  send_raw_others fd g parts w h = (send_parts-Delivers net law fd parts w).others g h

  abbrev Reaches : ℕ → QtServer S → W → Bool × QtServer S × W → Type 0
  Reaches fd s w (ok, s', w') = Targets fd s w s' w'

  abbrev Results : Type 0
  Results = Bool × QtServer S × W

  cipher_result :
      (fd : ℕ) (parts : List Bytes) (session : S) (b : Bool) (s : QtServer S) (w : W)
      → let s' : QtServer S = record s { tls_sessions = insert fd session s.tls_sessions } in
        let sent = send_parts net fd parts w in
        Reaches fd s w (if b then (false, s', w) else (sent.0, s', sent.1))
  cipher_result fd parts session true s w = record {
    others = λ g h. refl;
    fds = refl;
    roles = refl;
  }
  cipher_result fd parts session false s w = record {
    others = λ g h. send_raw_others fd g parts w h;
    fds = refl;
    roles = refl;
  }

  pub send_message-Targets :
      (fd : ℕ) (type : MessageType) (body : J) (s : QtServer S) (w : W)
      → Reaches fd s w (send_message net tls js fd type body s w)
  unfolding send_message
  send_message-Targets fd type body s w =
      elim (secured net tls js (find fd s.tls_sessions))
        as (λ o. Reaches fd s w (elim o [
          | none ↦ (let sent = send_raw net tls js fd type (js.dump body) w in (sent.0, s, sent.1))
          | some session ↦ send_cipher net tls js fd type (tls.encrypt session (js.dump body)) s w
        ])) [
          | none ↦ record { others = λ g h. send_raw_others fd g _ w h; fds = refl; roles = refl }
          | some session ↦ cipher_result fd _ _ _ s w
        ]

  pub send_image_message-Targets :
      (fd : ℕ) (meta : J) (jpeg : Bytes) (s : QtServer S) (w : W)
      → Reaches fd s w (send_image_message net tls js fd meta jpeg s w)
  unfolding send_image_message
  send_image_message-Targets fd meta jpeg s w =
      elim (secured net tls js (find fd s.tls_sessions))
        as (λ o. Reaches fd s w (elim o [
          | none ↦
              (let sent =
                  send_parts net fd (image_parts net tls js MessageType.image (js.dump meta) jpeg)
                    w in
                (sent.0, s, sent.1))
          | some session ↦
              send_image_cipher net tls js fd jpeg (tls.encrypt session (js.dump meta)) s w
        ])) [
          | none ↦ record { others = λ g h. send_raw_others fd g _ w h; fds = refl; roles = refl }
          | some session ↦ cipher_result fd _ _ _ s w
        ]

  -- A loop over clients writes nothing to a descriptor for which its test chooses nothing.
  send_each-private :
      (fds : List ℕ) (type : MessageType) (chosen : ℕ → Option J) (g : ℕ) (s : QtServer S) (w : W)
      → chosen g ≡ none
      → law.sent (send_each net tls js fds type chosen s w).1 g ≡ law.sent w g
  unfolding send_each
  send_each-private [] type chosen g s w h = refl
  send_each-private (fd ∷ fds) type chosen g s w h = elim (Option-cases (chosen fd)) [
    | inl e ↦ rw (e, send_each) (send_each-private fds type chosen g s w h)
    | inr (body, e) ↦
        let r = send_message net tls js fd type body s w in
        rw (e, send_each)
          (send_each-private fds type chosen g r.1 r.2 h
            ∙ (send_message-Targets fd type body s w).others g (λ q. cc))
  ]

  image_each-private :
      (fds : List ℕ) (meta : J) (jpeg : Bytes) (g : ℕ) (s : QtServer S) (w : W)
      → logged_in net tls js (find g s.client_roles) ≡ false
      → law.sent (image_each net tls js fds meta jpeg s w).1 g ≡ law.sent w g
  unfolding image_each
  image_each-private [] meta jpeg g s w h = refl
  image_each-private (fd ∷ fds) meta jpeg g s w h =
      let r = send_image_message net tls js fd meta jpeg s w in
      let t = send_image_message-Targets fd meta jpeg s w in
      if_cases (λ (r : QtServer S × W). law.sent r.1 g ≡ law.sent w g)
        (logged_in net tls js (find fd s.client_roles)) _ _
        (λ e. image_each-private fds meta jpeg g r.1 r.2 (rw t.roles h) ∙ t.others g (λ q. cc))
        (λ e. image_each-private fds meta jpeg g s w h)

  -- The roles that the account manager grants.
  abbrev pub is_member : Option String → Bool
  is_member none = false
  is_member (some role) = role == "user" || role == "admin"

  abbrev pub is_administrator : Option String → Bool
  is_administrator none = false
  is_administrator (some role) = role == "admin"

  role_admits-member :
      (o : Option String) (min_role : String)
      → is_member o ≡ false
      → role_admits net tls js min_role o ≡ false
  unfolding role_admits
  role_admits-member none min_role h = refl
  role_admits-member (some role) min_role h = ground arith

  role_admits-administrator :
      (o : Option String) → is_administrator o ≡ false → role_admits net tls js "admin" o ≡ false
  unfolding role_admits
  role_admits-administrator none h = refl
  role_admits-administrator (some role) h = ground arith

  body_for-member :
      (o : Option String) (a b : J) → is_member o ≡ false → body_for net tls js a b o ≡ none
  unfolding body_for
  body_for-member none a b h = refl
  body_for-member (some role) a b h = ground arith

  -- A client that never logged in: no role, or the empty one.
  abbrev pub IsStranger : Option String → Type 0
  IsStranger role = (role ≡ none) ⊎ (role ≡ some "")

  IsStranger-member :
      (o : Option String) → IsStranger o → (is_member o ≡ false) × (logged_in net tls js o ≡ false)
  unfolding logged_in
  IsStranger-member o (inl e) = rw e (refl, refl)
  IsStranger-member o (inr e) = rw e (refl, refl)

  -- Whatever the network does, broadcastToRole, broadcastByRole and broadcastImage write nothing to
  -- a client that never logged in.
  pub strangers_receive_nothing :
      (s : QtServer S) (w : W) (g : ℕ) (type : MessageType) (body other : J) (min_role : String)
      (jpeg : Bytes)
      → IsStranger (find g s.client_roles)
      → (law.sent (broadcast_to_role net tls js type body min_role s w).1 g ≡ law.sent w g)
        × (law.sent (broadcast_by_role net tls js type body other s w).1 g ≡ law.sent w g)
        × (law.sent (broadcast_image net tls js body jpeg s w).1 g ≡ law.sent w g)
  unfolding broadcast_to_role broadcast_by_role broadcast_image to_role by_role
  strangers_receive_nothing s w g type body other min_role jpeg h =
      let (outside, silent) = IsStranger-member (find g s.client_roles) h in
      (
        send_each-private s.client_fds type _ g s w
            (rw (role_admits-member (find g s.client_roles) min_role outside)),
        send_each-private s.client_fds type _ g s w
            (body_for-member (find g s.client_roles) body other outside),
        image_each-private s.client_fds body jpeg g s w silent,
      )

  -- Whatever the network does, broadcastToRole with the role admin writes nothing to a client with
  -- another role or none.
  pub admin_broadcast_private :
      (s : QtServer S) (w : W) (g : ℕ) (type : MessageType) (body : J)
      → is_administrator (find g s.client_roles) ≡ false
      → law.sent (broadcast_to_role net tls js type body "admin" s w).1 g ≡ law.sent w g
  unfolding broadcast_to_role to_role
  admin_broadcast_private s w g type body h =
      send_each-private s.client_fds type _ g s w
        (rw (role_admits-administrator (find g s.client_roles) h))
