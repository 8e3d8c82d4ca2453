-- ===== src/Client/Link/Retry/Holding.antt =====
-- Which connection the InternalClient of ClientServer/src/InternalClient.cpp sends its commands on.
use device_app.Base.{
  ℕ, ◌*◌, ◌≡◌, refl, ◌&&◌, ◌||◌, String, List, [], ◌∷◌, Option, none, some, Bool, true, false,
  ◌>>=◌, arith, if_cases, if◌then◌else◌, ltb, nat_eq,
}
use device_app.Wire.{MessageType, Bytes, PacketHeader, header_size, read_header_be}
use device_app.Net.{Ready, Net, recv_exact}
use device_app.Json.{JsonLib}
use device_app.Auth.{Sqlite}
use device_app.Qt.{SecureSession}
use device_app.Client.{ClientServer, on_ai_event, on_image_event, on_meta_event}
use device_app.Client.Link.{
  image_push, pushed, dispatch_push_event, body_arrives, handle_incoming, receive_pushes,
  disconnect, connection,
}
use device_app.Client.Link.Retry.{Attempt, Standing, still_on, attempt, connection_loop}

module _ {W S J D : Type 0} (net : Net W) (tls : SecureSession S) (js : JsonLib J) (sql : Sqlite D)
    (sha256 : String → Bytes) where
  -- The descriptor and the accounts are these.
  abbrev Same : Option ℕ → D → ClientServer W S J D → Type 0
  Same fd d st = (st.current_fd ≡ fd) × (st.db ≡ d)

  abbrev SameIf : Option ℕ → D → Option (ClientServer W S J D) → Type 0
  SameIf fd d none = Unit {0}
  SameIf fd d (some st) = Same fd d st

  abbrev SameAfter : Option ℕ → D → Option (Bool × ClientServer W S J D) → Type 0
  SameAfter fd d none = Unit {0}
  SameAfter fd d (some (b, st)) = Same fd d st

  image_push-Same :
      (c : Option ℕ) (d : D) (fd : ℕ) (meta : J) (st : ClientServer W S J D)
      → Same c d st
      → SameIf c d (image_push net tls js sql sha256 fd meta st)
  unfolding image_push on_image_event
  image_push-Same c d fd meta st h =
      elim (js.value_u32 meta "jpeg_size" 0)
        as (λ o. SameIf c d (
          o >>= (λ size.
            let r = recv_exact net fd size st.world in
            let read : ClientServer W S J D = record st { world = r.1 } in
            let handled : ClientServer W S J D = elim r.0 [
              | none ↦ read
              | some bytes ↦ on_image_event net tls js sql sha256 meta bytes read
            ] in
            some (if ltb 0 size && ltb size (10 * 1024 * 1024) then handled else st)))) [
              | none ↦ tt
              | some size ↦
                  if_cases (Same c d) (ltb 0 size && ltb size (10 * 1024 * 1024)) _ _
                    (λ _.
                      elim (recv_exact net fd size st.world).0
                        as (λ o. Same c d (elim o [
                          | none ↦ record st { world = (recv_exact net fd size st.world).1 }
                          | some bytes ↦
                              on_image_event net tls js sql sha256 meta bytes
                                (record st { world = (recv_exact net fd size st.world).1 })
                        ])) [ none ↦ h | some bytes ↦ h ])
                    (λ _. h)
            ]

  pushed-Same :
      (c : Option ℕ) (d : D) (fd : ℕ) (type : MessageType) (body : J) (st : ClientServer W S J D)
      → Same c d st
      → SameIf c d (pushed net tls js sql sha256 fd type body st)
  unfolding pushed on_ai_event on_meta_event
  pushed-Same c d fd MessageType.camera body st h = h
  pushed-Same c d fd MessageType.available body st h = h
  pushed-Same c d fd MessageType.ai body st h = h
  pushed-Same c d fd MessageType.image body st h = image_push-Same c d fd body st h
  pushed-Same c d fd MessageType.meta body st h = h
  pushed-Same c d fd _ body st h = h

  dispatched-Same :
      (c : Option ℕ) (d : D) (fd : ℕ) (type : MessageType) (text : Bytes)
      (st : ClientServer W S J D)
      → Same c d st
      → SameIf c d (dispatch_push_event net tls js sql sha256 fd type text st)
  unfolding dispatch_push_event
  dispatched-Same c d fd type text st h =
      elim (js.parse text)
        as (λ o.
          SameIf c d (elim o [
            | none ↦ some st
            | some body ↦ pushed net tls js sql sha256 fd type body st
          ])) [ none ↦ h | some body ↦ pushed-Same c d fd type body st h ]

  went_on :
      (c : Option ℕ) (d : D) (o : Option (ClientServer W S J D))
      → SameIf c d o
      → SameAfter c d (o >>= (λ st. some (true, st)))
  went_on c d none h = tt
  went_on c d (some st) h = h

  body_arrives-Same :
      (c : Option ℕ) (d : D) (fd : ℕ) (header : PacketHeader) (st : ClientServer W S J D)
      → Same c d st
      → SameAfter c d (body_arrives net tls js sql sha256 fd header st)
  unfolding body_arrives
  body_arrives-Same c d fd header st h =
      let read : ClientServer W S J D = record st {
        world = (recv_exact net fd header.body_length st.world).1;
      } in
      if_cases (SameAfter c d) (nat_eq header.body_length 0 || ltb (1024 * 1024) header.body_length)
        _ _ (λ _. h)
        (λ _.
          elim (recv_exact net fd header.body_length st.world).0
            as (λ o. SameAfter c d (elim o [
              | none ↦ some (false, read)
              | some bytes ↦
                  dispatch_push_event net tls js sql sha256 fd header.type bytes read
                  >>= (λ st'. some (true, st'))
            ])) [
              | none ↦ h
              | some bytes ↦ went_on c d _ (dispatched-Same c d fd header.type bytes read h)
            ])

  handle_incoming-Same :
      (c : Option ℕ) (d : D) (ready : Ready) (fd : ℕ) (st : ClientServer W S J D)
      → Same c d st
      → SameAfter c d (handle_incoming net tls js sql sha256 ready fd st)
  unfolding handle_incoming
  handle_incoming-Same c d Ready.failed fd st h = h
  handle_incoming-Same c d Ready.timed_out fd st h = h
  handle_incoming-Same c d Ready.readable fd st h =
      let read : ClientServer W S J D = record st {
        world = (recv_exact net fd header_size st.world).1;
      } in
      elim ((recv_exact net fd header_size st.world).0 >>= read_header_be)
        as (λ o. SameAfter c d (elim o [
          | none ↦ some (false, read)
          | some header ↦ body_arrives net tls js sql sha256 fd header read
        ])) [ none ↦ h | some header ↦ body_arrives-Same c d fd header read h ]

  receive_pushes-Same :
      (c : Option ℕ) (d : D) (fd : ℕ) (rounds : List (Bool × Ready)) (st : ClientServer W S J D)
      → Same c d st
      → SameAfter c d (receive_pushes net tls js sql sha256 fd rounds st)
  unfolding receive_pushes
  receive_pushes-Same c d fd [] st h = h
  receive_pushes-Same c d fd ((false, ready) ∷ rest) st h = h
  receive_pushes-Same c d fd ((true, ready) ∷ rest) st h =
      go (λ st' k. receive_pushes-Same c d fd rest st' k)
        (handle_incoming net tls js sql sha256 ready fd st) (handle_incoming-Same c d ready fd st h)
    where
      go :
          ((st' : ClientServer W S J D)
            → Same c d st'
            → SameAfter c d (receive_pushes net tls js sql sha256 fd rest st'))
          → (o : Option (Bool × ClientServer W S J D)) → SameAfter c d o
          → SameAfter c d (elim o [
            | none ↦ none
            | some (false, st') ↦ some (false, st')
            | some (true, st') ↦ receive_pushes net tls js sql sha256 fd rest st'
          ])
      go more none k = tt
      go more (some (false, st')) k = k
      go more (some (true, st')) k = more st' k

  -- The turn is a connection by this descriptor.
  abbrev pub takes : ℕ → Attempt → Bool
  takes fd (Attempt.accepted fd' rounds) = nat_eq fd' fd
  takes fd _ = false

  abbrev pub offers : ℕ → List (Bool × Attempt) → Bool
  offers fd [] = false
  offers fd ((running, a) ∷ rest) = takes fd a || offers fd rest

  -- On a connection the descriptor is one that a turn gave, and there is none otherwise.
  abbrev pub Held : (ℕ → Bool) → Standing → Option ℕ → Type 0
  Held offered Standing.connected c = (fd : ℕ) × (c ≡ some fd) × (offered fd ≡ true)
  Held offered Standing.pausing c = c ≡ none
  Held offered Standing.stopped c = c ≡ none

  abbrev pub HeldIf : (ℕ → Bool) → D → Option (Standing × ClientServer W S J D) → Type 0
  HeldIf offered d none = Unit {0}
  HeldIf offered d (some (standing, st)) = Held offered standing st.current_fd × (st.db ≡ d)

  given_up-Held :
      (fd : ℕ) (rounds : List (Bool × Ready)) (d : D) (o : Option (Bool × ClientServer W S J D))
      → SameAfter (some fd) d o
      → HeldIf
          (λ g. takes g (Attempt.accepted fd rounds))
          d
          ((o >>= (λ r. some (disconnect net tls js sql sha256 fd r)))
            >>= (λ r. some (still_on net tls js sql sha256 r)))
  unfolding disconnect still_on
  given_up-Held fd rounds d none h = tt
  given_up-Held fd rounds d (some (true, st)) h = ((fd, h.0, ground arith), h.1)
  given_up-Held fd rounds d (some (false, st)) h = (refl, h.1)

  attempt-Held :
      (a : Attempt) (st : ClientServer W S J D)
      → st.current_fd ≡ none
      → HeldIf (λ g. takes g a) st.db (attempt net tls js sql sha256 a st)
  unfolding attempt connection
  attempt-Held Attempt.no_socket st h = (h, refl)
  attempt-Held (Attempt.refused fd) st h = (h, refl)
  attempt-Held (Attempt.accepted fd rounds) st h = given_up-Held fd rounds st.db _ (
      receive_pushes-Same (some fd) st.db fd rounds (record st { current_fd = some fd })
        (refl, refl))

  weaker :
      (offered more : ℕ → Bool) (d : D) (o : Option (Standing × ClientServer W S J D))
      → ((g : ℕ) → offered g ≡ true → more g ≡ true)
      → HeldIf offered d o
      → HeldIf more d o
  weaker offered more d none f h = tt
  weaker offered more d (some (Standing.connected, st)) f ((fd, c, e), k) = ((fd, c, f fd e), k)
  weaker offered more d (some (Standing.pausing, st)) f h = h
  weaker offered more d (some (Standing.stopped, st)) f h = h

  -- From no connection, through any turns of connectionLoop, sockets that cannot be made,
  -- connections refused, and connections with anything arriving on them until they are lost, unless
  -- an exception ends it: on a connection the client holds a descriptor that one of the turns gave,
  -- in a pause and after the end it holds none, so that commands are then sent nowhere; and the
  -- accounts are as before.
  pub loop_holds :
      (turns : List (Bool × Attempt)) (st : ClientServer W S J D)
      → st.current_fd ≡ none
      → HeldIf (λ g. offers g turns) st.db (connection_loop net tls js sql sha256 turns st)
  unfolding connection_loop
  loop_holds [] st h = (h, refl)
  loop_holds ((false, a) ∷ rest) st h = (h, refl)
  loop_holds ((true, a) ∷ rest) st h =
      go (λ st' e. loop_holds rest st' e) (attempt net tls js sql sha256 a st) (attempt-Held a st h)
    where
      go :
          ((st' : ClientServer W S J D)
            → st'.current_fd ≡ none
            → HeldIf (λ g. offers g rest) st'.db (connection_loop net tls js sql sha256 rest st'))
          → (o : Option (Standing × ClientServer W S J D)) → HeldIf (λ g. takes g a) st.db o
          → HeldIf
              (λ g. takes g a || offers g rest)
              st.db
              (elim o [
                | none ↦ none
                | some (Standing.stopped, st') ↦ some (Standing.stopped, st')
                | some (Standing.pausing, st') ↦ connection_loop net tls js sql sha256 rest st'
                | some (Standing.connected, st') ↦ some (Standing.connected, st')
              ])
      go more none k = tt
      go more (some (Standing.stopped, st')) k = k
      go more (some (Standing.connected, st')) ((fd, c, e), k) = ((fd, c, ground (arith, e)), k)
      go more (some (Standing.pausing, st')) k = rw (← k.1) (
          weaker (λ g. offers g rest) (λ g. takes g a || offers g rest) st'.db _
            (λ g e. ground (arith, e)) (more st' k.0))
