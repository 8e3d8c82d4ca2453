-- ===== src/SubPi/Listener.antt =====
-- What the listener passes on, and when it gives up.
use device_app.Base.{
  ℕ, suc, leb, if◌then◌else◌, ◌&&◌, Bool-cases, ◌*◌, ◌<◌, ◌≡◌, refl, ◌||◌, not, String, List, [],
  ◌∷◌, Option, none, some, Bool, true, false, ◌>>=◌, >>=-eq-some, ltb, nat_eq, arith, if_cases,
  if-eq, inl, inr, text_key,
}
use mathlib.Core.Path.{subst}
use device_app.Wire.{MessageType, Bytes, PacketHeader, header_size, read_header_be}
use device_app.Net.{Ready, Net, recv_exact}
use device_app.Json.{JsonLib, JsonSetLaws}
use device_app.SubPi.{
  Heard, Step, address_of, tagged, quiet, broken, passed_on, unparsed, picture, handle,
  is_parsed_type, body_turn, packet_turn, listen_turn, listen, hear,
}

-- What `parse` gives is an exception.
unfoldable pub is_no_json : {J : Type 0} → Option J → Bool
is_no_json none = true
is_no_json (some json) = false

module _ {W J : Type 0} (net : Net W) (js : JsonLib J) (law : JsonSetLaws js)
    (device_id : String) where
  -- The event says from which Sub-Pi it is.
  abbrev pub IsNamed : J → Type 0
  IsNamed event =
      (js.value_string event "device_id" "" ≡ some device_id)
      × (js.value_string event "ip" "" ≡ some (address_of device_id))

  abbrev pub IsPassed : Option (Heard J) → Type 0
  IsPassed none = Unit {0}
  IsPassed (some (Heard.ai event)) = IsNamed event
  IsPassed (some (Heard.available status)) = Unit {0}
  IsPassed (some (Heard.meta event)) = IsNamed event
  IsPassed (some (Heard.image event jpeg)) = IsNamed event

  -- The turn takes a whole message of a type that is parsed, of 1 byte to 1 MB, that is no JSON.
  unfoldable pub is_bad : ℕ → Ready → W → Bool
  is_bad fd Ready.failed w = false
  is_bad fd Ready.timed_out w = false
  is_bad fd Ready.readable w =
      let (head, w') = recv_exact net fd header_size w in
      elim (head >>= read_header_be) [
        | none ↦ false
        | some header ↦
            if nat_eq header.body_length 0 || ltb (1024 * 1024) header.body_length
            then false
            else elim (recv_exact net fd header.body_length w').0 [
              | none ↦ false
              | some text ↦
                  is_parsed_type net js device_id header.type && is_no_json (js.parse text)
            ]
      ]

  -- Bad messages in a row: a callback ends the row, all else leaves it as it is.
  unfoldable pub in_a_row : ℕ → Bool → Option (Heard J) → ℕ
  in_a_row n true heard = suc n
  in_a_row n false none = n
  in_a_row n false (some event) = 0

  -- The count of a turn is that of the bad messages in a row, and the third ends the loop, so a turn
  -- that goes on has seen less.
  pub record IsSound (bad : Bool) (errors : ℕ) (step : Step W J) : Type 0 where
    pub named : IsPassed step.heard
    pub counted : step.error_count ≡ in_a_row errors bad step.heard
    pub bounded : (not step.goes_on || ltb step.error_count 3) ≡ true
    pub lasting : (not bad || (step.goes_on || leb 3 step.error_count)) ≡ true

  abbrev pub AllSound : Bool → ℕ → Option (Step W J) → Type 0
  AllSound bad errors none = Unit {0}
  AllSound bad errors (some step) = IsSound bad errors step

  AllSound-bind :
      {A : Type 0} (errors : ℕ) (m : Option A) (f : A → Option (Step W J))
      → ((a : A) → m ≡ some a → AllSound false errors (f a))
      → AllSound false errors (m >>= f)
  AllSound-bind errors none f h = tt
  AllSound-bind errors (some a) f h = h a refl

  tagged-IsNamed : (json event : J) → tagged net js device_id json ≡ some event → IsNamed event
  unfolding tagged
  tagged-IsNamed json event h =
      let (named, e, e') = >>=-eq-some (js.set json "device_id" (js.string device_id)) _ h in
      (
        law.value_string-set_other named event "ip" "device_id" (address_of device_id) device_id ""
            (law.value_string-set json named "device_id" device_id "" e) e',
        law.value_string-set named event "ip" (address_of device_id) "" e',
      )

  quiet-IsSound :
      (errors : ℕ) (w : W) → errors < 3 → IsSound false errors (quiet net js device_id errors w)
  unfolding quiet in_a_row
  quiet-IsSound errors w h = record {
    named = tt;
    counted = refl;
    bounded = ground arith;
    lasting = refl;
  }

  broken-IsSound : (errors : ℕ) (w : W) → IsSound false errors (broken net js device_id errors w)
  unfolding broken in_a_row
  broken-IsSound errors w = record { named = tt; counted = refl; bounded = refl; lasting = refl }

  unparsed-IsSound : (errors : ℕ) (w : W) → IsSound true errors (unparsed net js device_id errors w)
  unfolding unparsed in_a_row
  unparsed-IsSound errors w = record {
    named = tt;
    counted = omega arith;
    bounded = ground arith;
    lasting = ground arith;
  }

  picture-AllSound :
      (fd errors : ℕ) (event : J) (w : W)
      → errors < 3
      → IsNamed event
      → AllSound false errors (picture net js device_id fd errors event w)
  unfolding picture passed_on in_a_row
  picture-AllSound fd errors event w h n =
      AllSound-bind errors (js.value_u32 event "jpeg_size" 0) _ (λ size e.
        if_cases (AllSound false errors) (nat_eq size 0 || ltb (10 * 1024 * 1024) size) _ _
          (λ _. quiet-IsSound errors w h)
          (λ _.
            elim (recv_exact net fd size w).0
              as (λ o. AllSound false errors (elim o [
                | none ↦ some (broken net js device_id errors (recv_exact net fd size w).1)
                | some bytes ↦ js.value_number event "frame_index" >>= (λ a.
                    js.value_number event "total_frames" >>= (λ b. some (
                      passed_on net js device_id (Heard.image event bytes)
                        (recv_exact net fd size w).1)))
              ])) [
                | none ↦ broken-IsSound errors _
                | some bytes ↦ AllSound-bind errors (js.value_number event "frame_index") _ (λ a _.
                    AllSound-bind errors (js.value_number event "total_frames") _
                      (λ b _. record { named = n; counted = refl; bounded = refl; lasting = refl }))
              ]))

  handle-AllSound :
      (fd : ℕ) (type : MessageType) (errors : ℕ) (json : J) (w : W)
      → errors < 3
      → AllSound false errors (handle net js device_id fd type errors json w)
  unfolding handle passed_on in_a_row
  handle-AllSound fd MessageType.ai errors json w h =
      AllSound-bind errors (tagged net js device_id json) _ (λ event e. record {
        named = tagged-IsNamed json event e;
        counted = refl;
        bounded = refl;
        lasting = refl;
      })
  handle-AllSound fd MessageType.meta errors json w h =
      AllSound-bind errors (tagged net js device_id json) _ (λ event e. record {
        named = tagged-IsNamed json event e;
        counted = refl;
        bounded = refl;
        lasting = refl;
      })
  handle-AllSound fd MessageType.image errors json w h =
      AllSound-bind errors (tagged net js device_id json) _
        (λ event e. picture-AllSound fd errors event w h (tagged-IsNamed json event e))
  handle-AllSound fd MessageType.available errors json w h =
      AllSound-bind errors (js.value_number json "cpu") _ (λ a _.
        AllSound-bind errors (js.value_number json "memory") _ (λ b _.
          AllSound-bind errors (js.value_number json "temp") _
            (λ c _. record { named = tt; counted = refl; bounded = refl; lasting = refl })))
  handle-AllSound fd _ errors json w h = quiet-IsSound errors w h

  body_turn-AllSound :
      (fd : ℕ) (type : MessageType) (errors : ℕ) (text : Bytes) (w : W)
      → errors < 3
      → AllSound
          (is_parsed_type net js device_id type && is_no_json (js.parse text))
          errors
          (body_turn net js device_id fd type errors text w)
  unfolding body_turn is_no_json
  body_turn-AllSound fd type errors text w h =
      elim (Bool-cases (is_parsed_type net js device_id type)) [
        | inl e ↦
            rw e
              (elim (js.parse text)
                as (λ o. AllSound (is_no_json o) errors (elim o [
                  | none ↦ some (unparsed net js device_id errors w)
                  | some json ↦ handle net js device_id fd type errors json w
                ])) [
                  | none ↦ unparsed-IsSound errors w
                  | some json ↦ handle-AllSound fd type errors json w h
                ])
        | inr e ↦ rw e (quiet-IsSound errors w h)
      ]

  abbrev is_bad_packet : ℕ → PacketHeader → W → Bool
  is_bad_packet fd header w =
      if nat_eq header.body_length 0 || ltb (1024 * 1024) header.body_length
      then false
      else elim (recv_exact net fd header.body_length w).0 [
        | none ↦ false
        | some text ↦ is_parsed_type net js device_id header.type && is_no_json (js.parse text)
      ]

  packet_turn-AllSound :
      (fd : ℕ) (header : PacketHeader) (errors : ℕ) (w : W)
      → errors < 3
      → AllSound
          (is_bad_packet fd header w)
          errors
          (packet_turn net js device_id fd header errors w)
  unfolding packet_turn
  packet_turn-AllSound fd header errors w h =
      let w' : W = (recv_exact net fd header.body_length w).1 in
      elim (Bool-cases (nat_eq header.body_length 0 || ltb (1024 * 1024) header.body_length)) [
        | inl e ↦ rw e (quiet-IsSound errors w h)
        | inr e ↦
            rw e
              (elim (recv_exact net fd header.body_length w).0
                as (λ o.
                  AllSound
                    (elim o [
                      | none ↦ false
                      | some text ↦
                          is_parsed_type net js device_id header.type && is_no_json (js.parse text)
                    ])
                    errors
                    (elim o [
                      | none ↦ some (broken net js device_id errors w')
                      | some bytes ↦ body_turn net js device_id fd header.type errors bytes w'
                    ])) [
                      | none ↦ broken-IsSound errors w'
                      | some bytes ↦ body_turn-AllSound fd header.type errors bytes w' h
                    ])
      ]

  -- Whatever a Sub-Pi sends, after a turn that returns and began with a count of less than three:
  -- an AI, image or sensor event that was passed on carries the Sub-Pi's id and the address in it;
  -- the count is one more exactly after a whole message of a parsed type that is no JSON, zero
  -- after an event was passed on, and else as before; the loop goes on only with less than three,
  -- and such a message ends it only as the third.
  pub listen_turn-AllSound :
      (fd : ℕ) (ready : Ready) (errors : ℕ) (w : W)
      → errors < 3
      → AllSound (is_bad fd ready w) errors (listen_turn net js device_id fd ready errors w)
  unfolding listen_turn is_bad
  listen_turn-AllSound fd Ready.failed errors w h = broken-IsSound errors w
  listen_turn-AllSound fd Ready.timed_out errors w h = quiet-IsSound errors w h
  listen_turn-AllSound fd Ready.readable errors w h =
      let w' : W = (recv_exact net fd header_size w).1 in
      elim ((recv_exact net fd header_size w).0 >>= read_header_be)
        as (λ o.
          AllSound (elim o [ none ↦ false | some header ↦ is_bad_packet fd header w' ]) errors
            (elim o [
              | none ↦ some (broken net js device_id errors w')
              | some header ↦ packet_turn net js device_id fd header errors w'
            ])) [
              | none ↦ broken-IsSound errors w'
              | some header ↦ packet_turn-AllSound fd header errors w' h
            ]

  -- The bad messages in a row at the end of a run, by what each turn reads; the world is handed on as
  -- the listener does.
  unfoldable pub bad_in_a_row : (Heard J → W → W) → ℕ → List (Bool × Ready) → ℕ → W → ℕ
  unfolding in_a_row is_bad
  bad_in_a_row on_event fd [] n w = n
  bad_in_a_row on_event fd ((on, ready) ∷ rest) n w =
      elim (listen_turn net js device_id fd ready n w) [
        | none ↦ n
        | some step ↦
            bad_in_a_row on_event fd rest (in_a_row n (is_bad fd ready w) step.heard)
              (hear net js device_id on_event step.heard step.world)
      ]

  -- However long it runs, a listener that goes on holds as its count exactly the number of messages
  -- in a row, by what came from the socket, that were whole, of a type that is parsed and no JSON,
  -- since the last event that was passed on and on top of the count it began with; and the number
  -- is less than three when it began so.
  pub listen_bounded :
      (on_event : Heard J → W → W) (fd : ℕ) (rounds : List (Bool × Ready)) (errors errors' : ℕ)
      (w w' : W)
      → errors < 3
      → listen net js device_id on_event fd rounds errors w ≡ some (true, errors', w')
      → (bad_in_a_row on_event fd rounds errors w ≡ errors') × (errors' < 3)
  unfolding listen bad_in_a_row
  listen_bounded on_event fd [] errors errors' w w' h e = (ground arith, ground arith)
  listen_bounded on_event fd ((false, ready) ∷ rest) errors errors' w w' h e = ground arith
  listen_bounded on_event fd ((true, ready) ∷ rest) errors errors' w w' h e =
      let (step, made, e₁) = >>=-eq-some (listen_turn net js device_id fd ready errors w) _ e in
      let sound : IsSound (is_bad fd ready w) errors step =
        subst (AllSound (is_bad fd ready w) errors) made
          (listen_turn-AllSound fd ready errors w h) in
      elim (if-eq step.goes_on _ _ e₁) [
        | inl (on, e₂) ↦
            rw (made, bad_in_a_row, ← sound.counted)
              (listen_bounded on_event fd rest step.error_count errors' _ w'
                (ground (arith, sound.bounded)) e₂)
        | inr (off, e₂) ↦ ground arith
      ]
