-- ===== src/Client/Link/Arrival.antt =====
-- From the frames that DeviceServer/src/InternalServer.cpp writes to the caches that
-- ClientServer/src/InternalClient.cpp keeps.
use device_app.Base.{
  ℕ, ◌*◌, ◌≤◌, ◌<◌, ◌^◌, ◌≡◌, refl, ap, ◌∙◌, [], ◌∷◌, ◌++◌, some, true, false, ◌>>=◌, ltb, nat_eq,
  length, arith, append_assoc, append-nil,
}
use device_app.Wire.{MessageType, Bytes, header_size, header_be}
use device_app.Wire.Codec.{IsTyped, read_header_be-header_be, length-header_be}
use device_app.Net.{Ready, Net, NetLaws, recv_exact, join}
use device_app.Net.Reliable.{IsFed, recv_exact-some}
use device_app.Json.{JsonLib, JsonTextLaws}
use device_app.Auth.{Sqlite}
use device_app.Qt.{SecureSession}
use device_app.InternalServer.{frame}
use device_app.Client.{ClientServer}
use device_app.Client.Link.{
  pushed, dispatch_push_event, body_arrives, handle_incoming, receive_pushes,
}
use Prim.Native.String.{String}
use mathlib.Core.Path.{subst}

module _ {W S J D : Type 0} (net : Net W) (law : NetLaws net) (tls : SecureSession S)
    (js : JsonLib J) (text_law : JsonTextLaws js) (sql : Sqlite D) (sha256 : String → Bytes) where
  -- A body that the client accepts.
  abbrev pub Fits : J → Type 0
  Fits body = length (js.dump body) ≤ 1024 * 1024

  dump_positive : (body : J) → nat_eq (length (js.dump body)) 0 ≡ false
  dump_positive body =
      elim (js.dump body) as (λ t. js.dump body ≡ t → nat_eq (length t) 0 ≡ false) [
        | [] ↦ λ e. absurd (text_law.dump-ne-nil body e)
        | b ∷ bs ↦ λ e. ground arith
      ]
        refl

  body_accepted :
      (type : MessageType) (body : J) (rest : Bytes) (fd : ℕ) (st : ClientServer W S J D)
      → IsFed law fd
      → Fits body
      → law.incoming st.world fd ≡ js.dump body ++ rest
      → (w : W) × (law.incoming w fd ≡ rest)
        × (body_arrives net tls js sql sha256 fd
              (record { type = type; body_length = length (js.dump body) })
              st
            ≡ (pushed net tls js sql sha256 fd type body (record st { world = w })
                >>= (λ st'. some (true, st'))))
  unfolding body_arrives dispatch_push_event
  body_accepted type body rest fd st fed fits e =
      let (got, left) = recv_exact-some net law fd (js.dump body) rest st.world fed e in
      let big : ltb (1024 * 1024) (length (js.dump body)) ≡ false = ground arith in
      (
        (recv_exact net fd (length (js.dump body)) st.world).1,
        left,
        rw (dump_positive body, big, got, dispatch_push_event, text_law.parse-dump body) refl,
      )

  -- On a connection whose reads give bytes while there are some, one wait over a frame of the
  -- DeviceServer, of a type that is named or above 0x0b and with at most 1 MB of text, takes
  -- exactly that frame off the stream, whatever pieces it comes in, and does what its type asks for
  -- with the value that was sent.
  pub frame_arrives :
      (type : MessageType) (body : J) (rest : Bytes) (fd : ℕ) (st : ClientServer W S J D)
      → IsFed law fd
      → IsTyped type
      → Fits body
      → law.incoming st.world fd ≡ join (frame net js type body) ++ rest
      → (w : W) × (law.incoming w fd ≡ rest)
        × (handle_incoming net tls js sql sha256 Ready.readable fd st ≡ (
            pushed net tls js sql sha256 fd type body (record st { world = w })
            >>= (λ st'. some (true, st'))))
  unfolding handle_incoming
  frame_arrives type body rest fd st fed typed fits e =
      let n = length (js.dump body) in
      let small : n < 2 ^ 32 = omega (arith, fits) in
      let split : law.incoming st.world fd ≡ header_be type n ++ (js.dump body ++ rest) =
        e
        ∙ append_assoc (header_be type n) (js.dump body ++ []) rest
        ∙ ap (λ x. header_be type n ++ (x ++ rest)) (append-nil (js.dump body)) in
      let (got, left) =
        subst
          (λ k.
            ((recv_exact net fd k st.world).0 ≡ some (header_be type n))
            × (law.incoming (recv_exact net fd k st.world).1 fd ≡ js.dump body ++ rest))
          (length-header_be type n)
          (recv_exact-some net law fd (header_be type n) (js.dump body ++ rest) st.world fed
            split) in
      let read : ClientServer W S J D = record st {
        world = (recv_exact net fd header_size st.world).1;
      } in
      let (w, gone, done) = body_accepted type body rest fd read fed fits left in
      (w, gone, rw (handle_incoming, got, read_header_be-header_be type n typed small) done)

  -- On a connection whose reads give bytes while there are some, two frames, a camera list and a
  -- device status of at most 1 MB of text each, become the two caches after two waits, however
  -- their bytes are cut up; what follows them stays in the stream, and nothing else of the
  -- ClientServer changes.
  pub greeting_fills_caches :
      (cameras status : J) (rest : Bytes) (fd : ℕ) (st : ClientServer W S J D)
      → IsFed law fd
      → Fits cameras
      → Fits status
      → law.incoming st.world fd
        ≡ join (frame net js MessageType.camera cameras)
          ++ (join (frame net js MessageType.available status) ++ rest)
      → (w : W) × (law.incoming w fd ≡ rest)
        × (receive_pushes net tls js sql sha256 fd
              ((true, Ready.readable) ∷ (true, Ready.readable) ∷ [])
              st
            ≡ some (
              true,
              record st { cached_cameras = cameras; cached_device_status = status; world = w },
            ))
  unfolding receive_pushes pushed
  greeting_fills_caches cameras status rest fd st fed a b e =
      let (w₁, left, one) = frame_arrives MessageType.camera cameras _ fd st fed tt a e in
      let seen : ClientServer W S J D = record st { cached_cameras = cameras; world = w₁ } in
      let (w, gone, two) = frame_arrives MessageType.available status rest fd seen fed tt b left in
      (w, gone, rw (receive_pushes, one, two) refl)
