-- ===== src/InternalServer/Push.antt =====
-- Whom a push reaches.
use device_app.Base.{
  append_assoc, ℕ, ◌≡◌, refl, sym, ap, ◌∙◌, List, [], ◌∷◌, ◌++◌, some, true, false, elem, nat_key,
  arith, Bool-cases, inl, inr, nat_eq_iff, ◌==◌,
}
use device_app.Wire.{MessageType, Bytes}
use device_app.Net.{Net, NetLaws, send_parts, join}
use device_app.Net.Transfer.{send_parts-Delivers}
use device_app.Net.Reliable.{IsHealthy, send_parts-sent}
use device_app.Json.{JsonLib}
use device_app.InternalServer.{
  welcome, answer, send_message, Hub, Owner, frame, image_frame, push_each, push,
  broadcast_ai_event, broadcast_meta_event, broadcast_camera_list, broadcast_image_event,
}

-- No descriptor is listed twice.
abbrev pub IsDistinct : List ℕ → Type 0
IsDistinct [] = Unit {0}
IsDistinct (fd ∷ fds) = (elem fd fds ≡ false) × IsDistinct fds

module _ {W J : Type 0} (net : Net W) (law : NetLaws net) (js : JsonLib J) where
  push_each-others :
      (fds : List ℕ) (parts : List Bytes) (w : W) (g : ℕ)
      → elem g fds ≡ false
      → law.sent (push_each net js fds parts w) g ≡ law.sent w g
  unfolding push_each
  push_each-others [] parts w g h = refl
  push_each-others (fd ∷ fds) parts w g h =
      push_each-others fds parts (send_parts net fd parts w).1 g (ground arith)
      ∙ (send_parts-Delivers net law fd parts w).others g (λ q. ground (arith, nat_eq_iff g fd))

  push_each-healthy :
      (fds : List ℕ) (parts : List Bytes) (w : W) (g : ℕ)
      → IsDistinct fds
      → IsHealthy law g
      → elem g fds ≡ true
      → law.sent (push_each net js fds parts w) g ≡ law.sent w g ++ join parts
  unfolding push_each
  push_each-healthy [] parts w g d h on = cc
  push_each-healthy (fd ∷ fds) parts w g d h on =
      let w' : W = (send_parts net fd parts w).1 in
      elim (Bool-cases (g == fd)) [
        | inl e ↦
            let same = (nat_eq_iff g fd).0 e in
            push_each-others fds parts w' g (rw same d.0)
            ∙ (rw (sym same) (send_parts-sent net law g parts w h))
        | inr e ↦
            push_each-healthy fds parts w' g d.1 h (ground arith)
            ∙ ap (λ x. x ++ join parts)
                ((send_parts-Delivers net law fd parts w).others g
                  (λ q. ground (arith, nat_eq_iff g fd)))
      ]

module _ {W J E : Type 0} (net : Net W) (law : NetLaws net) (js : JsonLib J)
    (owner : Owner W J E) where
  -- The descriptor was sent the bytes, and nothing else.
  abbrev pub Gains : ℕ → Bytes → Hub W E → Hub W E → Type 0
  Gains g bytes hub hub' = law.sent hub'.world g ≡ law.sent hub.world g ++ bytes

  abbrev pub Spares : ℕ → Hub W E → Hub W E → Type 0
  Spares g hub hub' = law.sent hub'.world g ≡ law.sent hub.world g

  -- If no descriptor is listed twice, each broadcast of an AI, sensor, camera list or image message
  -- gives a listed client whose connection takes bytes the whole message, once, whatever happens on
  -- the other connections.
  pub pushes_reach_healthy :
      (event : J) (jpeg : Bytes) (hub : Hub W E) (g : ℕ)
      → IsDistinct hub.client_fds
      → IsHealthy law g
      → elem g hub.client_fds ≡ true
      → Gains g
          (join (frame net js MessageType.ai event))
          hub
          (broadcast_ai_event net js owner event hub)
        × Gains g
            (join (frame net js MessageType.meta event))
            hub
            (broadcast_meta_event net js owner event hub)
        × Gains g
            (join (frame net js MessageType.camera (owner.get_camera_list hub.owner)))
            hub
            (broadcast_camera_list net js owner hub)
        × Gains g
            (join (image_frame net js event jpeg))
            hub
            (broadcast_image_event net js owner event jpeg hub)
  unfolding broadcast_ai_event broadcast_meta_event broadcast_camera_list broadcast_image_event push
  pushes_reach_healthy event jpeg hub g d h on =
      let all = λ (parts : List Bytes).
        push_each-healthy net law js hub.client_fds parts hub.world g d h on in
      (all _, all _, all _, all _)

  -- No broadcast of an AI, sensor, camera list or image message writes to a descriptor that is not
  -- listed.
  pub pushes_spare_unlisted :
      (event : J) (jpeg : Bytes) (hub : Hub W E) (g : ℕ)
      → elem g hub.client_fds ≡ false
      → Spares g hub (broadcast_ai_event net js owner event hub)
        × Spares g hub (broadcast_meta_event net js owner event hub)
        × Spares g hub (broadcast_camera_list net js owner hub)
        × Spares g hub (broadcast_image_event net js owner event jpeg hub)
  unfolding broadcast_ai_event broadcast_meta_event broadcast_camera_list broadcast_image_event push
  pushes_spare_unlisted event jpeg hub g off =
      let all =
        λ (parts : List Bytes). push_each-others net law js hub.client_fds parts hub.world g off in
      (all _, all _, all _, all _)

  -- A new client whose connection takes bytes is greeted with the camera list and the device
  -- status, whole and in that order, when the status list can be built.
  pub welcome_sent :
      (fd : ℕ) (status : J) (hub : Hub W E)
      → IsHealthy law fd
      → owner.get_device_status hub.owner ≡ some status
      → (hub' : Hub W E) × (welcome net js owner fd hub ≡ some hub')
        × Gains fd
            (join (frame net js MessageType.camera (owner.get_camera_list hub.owner))
              ++ join (frame net js MessageType.available status))
            hub
            hub'
  unfolding welcome answer send_message
  welcome_sent fd status hub h e =
      let cameras = frame net js MessageType.camera (owner.get_camera_list hub.owner) in
      let avail = frame net js MessageType.available status in
      let w₁ : W = (send_parts net fd cameras hub.world).1 in
      let greeted : Hub W E = record hub { world = (send_parts net fd avail w₁).1 } in
      (
        greeted,
        rw (e, welcome) refl,
        send_parts-sent net law fd avail w₁ h
            ∙ ap (λ x. x ++ join avail) (send_parts-sent net law fd cameras hub.world h)
            ∙ append_assoc (law.sent hub.world fd) (join cameras) (join avail),
      )
