-- ===== src/SubPi/Arrival.antt =====
-- A frame of a Sub-Pi, as the listener of DeviceServer/src/SubPiManager.cpp takes it.
use device_app.Base.{
  ℕ, ◌*◌, ◌≤◌, ◌<◌, ◌^◌, ◌≡◌, refl, ◌∙◌, String, ◌++◌, some, false, ltb, nat_eq, length, arith,
}
use mathlib.Core.Path.{subst}
use device_app.Wire.{MessageType, Bytes, header_size, header_be}
use device_app.Wire.Codec.{read_header_be-header_be, length-header_be}
use device_app.Net.{Ready, Net, NetLaws, recv_exact}
use device_app.Net.Receiving.{recv_exact-Receives}
use device_app.Net.Reliable.{IsFed, recv_exact-some}
use device_app.Json.{JsonLib}
use device_app.SubPi.{tagged, passed_on, handle, body_turn, packet_turn, listen_turn, Heard}

module _ {W J : Type 0} (net : Net W) (law : NetLaws net) (js : JsonLib J)
    (device_id : String) where
  -- A text of at most 1 MB that is an event arrives as one, with the Sub-Pi's id and address in it.
  pub ai_frame_heard :
      (text rest : Bytes) (body event : J) (fd errors : ℕ) (w : W)
      → IsFed law fd
      → 0 < length text
      → length text ≤ 1024 * 1024
      → js.parse text ≡ some body
      → tagged net js device_id body ≡ some event
      → law.incoming w fd ≡ header_be MessageType.ai (length text) ++ (text ++ rest)
      → (w' : W) × (law.incoming w' fd ≡ rest)
        × ((g : ℕ) → law.sent w' g ≡ law.sent w g)
        × (listen_turn net js device_id fd Ready.readable errors w
            ≡ some (passed_on net js device_id (Heard.ai event) w'))
  unfolding listen_turn packet_turn body_turn handle
  ai_frame_heard text rest body event fd errors w fed some_text short parsed named e =
      let n = length text in
      let small : n < 2 ^ 32 = omega (arith, short) in
      let w₁ : W = (recv_exact net fd header_size w).1 in
      let (got, left) =
        subst
          (λ k.
            ((recv_exact net fd k w).0 ≡ some (header_be MessageType.ai n))
            × (law.incoming (recv_exact net fd k w).1 fd ≡ text ++ rest))
          (length-header_be MessageType.ai n)
          (recv_exact-some net law fd (header_be MessageType.ai n) (text ++ rest) w fed e) in
      let (got', left') = recv_exact-some net law fd text rest w₁ fed left in
      let present : nat_eq n 0 ≡ false = ground (arith, some_text) in
      let small_body : ltb (1024 * 1024) n ≡ false = ground (arith, short) in
      (
        (recv_exact net fd n w₁).1,
        left',
        λ g.
            (recv_exact-Receives net law fd n w₁).silent g
            ∙ (recv_exact-Receives net law fd header_size w).silent g,
        rw
            (
              listen_turn,
              got,
              read_header_be-header_be MessageType.ai n tt small,
              packet_turn,
              present,
              small_body,
              got',
              body_turn,
              parsed,
              handle,
              named,
            )
            refl,
      )
