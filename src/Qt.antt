-- ===== src/Qt.antt =====
-- ClientServer/src/QtCommServer.cpp: the clients of the Qt port, their roles, and what is sent to them.
-- Each function is one critical section or one call; a lock that it holds is not modelled.
pub mod Sending
pub mod Broadcast
pub mod Handler
pub mod Clients
pub mod Accepting
pub mod Lifecycle
pub mod Secured
use device_app.Base.{
  ℕ, zero, suc, ◌≡◌, String, List, [], ◌∷◌, ◌++◌, Option, none, some, Bool, true, false, ◌&&◌, ◌||◌,
  not, ◌==◌, nat_key, text_key, if◌then◌else◌, length, remove, remove_all, elem, is_empty,
}
use device_app.Base.Map.{Map, find, insert, erase}
use device_app.Wire.{MessageType, Bytes, header_le}
use device_app.Net.{Net, send_parts}
use device_app.Json.{JsonLib}

-- crypt/tls.hpp as the server uses it: `S` is a session, OpenSSL's state within it included.
pub record SecureSession (S : Type 0) : Type 0 where
  -- Session(tls_ctx_, true), by the draw of what OpenSSL gives
  pub create : ℕ → S
  pub is_valid : S → Bool
  pub is_handshake_done : S → Bool
  pub encrypt : S → Bytes → Bytes × S
  pub decrypt : S → Bytes → Bytes × S
  pub get_handshake_data : S → Bytes × S

pub record QtServer (S : Type 0) : Type 0 where
  pub client_fds : List ℕ
  pub client_roles : Map ℕ String
  pub tls_sessions : Map ℕ S
  pub finished_fds : List ℕ
  -- the descriptors whose handler threads `client_threads_` holds
  pub client_threads : List ℕ

module _ {W S J : Type 0} (net : Net W) (tls : SecureSession S) (js : JsonLib J) where
  -- The session to encrypt with: one whose handshake is done.
  secured : Option S → Option S
  secured none = none
  secured (some session) = if tls.is_handshake_done session then some session else none

  pub send_raw : ℕ → MessageType → Bytes → W → Bool × W
  send_raw fd type payload w = send_parts net fd (header_le type (length payload) ∷ payload ∷ []) w

  send_cipher : ℕ → MessageType → Bytes × S → QtServer S → W → Bool × QtServer S × W
  unfolding send_raw
  send_cipher fd type (cipher, session) s w =
      let s' : QtServer S = record s { tls_sessions = insert fd session s.tls_sessions } in
      let (ok, w') = send_raw fd type cipher w in
      if is_empty cipher then (false, s', w) else (ok, s', w')

  -- Encrypted if the client's handshake is done, else in the clear.
  pub send_message : ℕ → MessageType → J → QtServer S → W → Bool × QtServer S × W
  unfolding secured send_cipher send_raw
  send_message fd type body s w =
      let body_str = js.dump body in
      elim (secured (find fd s.tls_sessions)) [
        | some session ↦ send_cipher fd type (tls.encrypt session body_str) s w
        | none ↦ (let (ok, w') = send_raw fd type body_str w in (ok, s, w'))
      ]

  -- One client of a broadcast, if it is to have a message.
  send_selected : ℕ → MessageType → Option J → QtServer S → W → QtServer S × W
  send_selected fd type none s w = (s, w)
  send_selected fd type (some body) s w =
      let (ok, s', w') = send_message fd type body s w in (s', w')

  -- `for (int fd : client_fds_)`, with what the loop's tests give each client.
  send_each : List ℕ → MessageType → (ℕ → Option J) → QtServer S → W → QtServer S × W
  unfolding send_selected
  send_each [] type chosen s w = (s, w)
  send_each (fd ∷ fds) type chosen s w =
      let (s', w') = send_selected fd type (chosen fd) s w in send_each fds type chosen s' w'

  pub broadcast : MessageType → J → QtServer S → W → QtServer S × W
  unfolding send_each
  broadcast type body s w = send_each s.client_fds type (λ fd. some body) s w

  role_admits : String → Option String → Bool
  role_admits min_role none = false
  role_admits min_role (some role) =
      if role == ""
      then false
      else if min_role == "user" && (role == "user" || role == "admin")
      then true
      else (min_role == "admin" && role == "admin")

  pub to_role : String → J → Map ℕ String → ℕ → Option J
  unfolding role_admits
  to_role min_role body roles fd = if role_admits min_role (find fd roles) then some body else none

  pub broadcast_to_role : MessageType → J → String → QtServer S → W → QtServer S × W
  unfolding send_each to_role
  broadcast_to_role type body min_role s w =
      send_each s.client_fds type (to_role min_role body s.client_roles) s w

  body_for : J → J → Option String → Option J
  body_for user_body admin_body none = none
  body_for user_body admin_body (some role) =
      if role == ""
      then none
      else if role == "admin"
      then some admin_body
      else if role == "user"
      then some user_body
      else none

  pub by_role : J → J → Map ℕ String → ℕ → Option J
  unfolding body_for
  by_role user_body admin_body roles fd = body_for user_body admin_body (find fd roles)

  pub broadcast_by_role : MessageType → J → J → QtServer S → W → QtServer S × W
  unfolding send_each by_role
  broadcast_by_role type user_body admin_body s w =
      send_each s.client_fds type (by_role user_body admin_body s.client_roles) s w

  image_parts : MessageType → Bytes → Bytes → List Bytes
  image_parts type meta jpeg = header_le type (length meta) ∷ meta ∷ jpeg ∷ []

  send_image_cipher : ℕ → Bytes → Bytes × S → QtServer S → W → Bool × QtServer S × W
  unfolding image_parts
  send_image_cipher fd jpeg (cipher, session) s w =
      let s' : QtServer S = record s { tls_sessions = insert fd session s.tls_sessions } in
      let (ok, w') = send_parts net fd (image_parts MessageType.image cipher jpeg) w in
      if is_empty cipher then (false, s', w) else (ok, s', w')

  -- The metadata is encrypted as in `sendMessage`, the picture never.
  pub send_image_message : ℕ → J → Bytes → QtServer S → W → Bool × QtServer S × W
  unfolding secured send_image_cipher image_parts
  send_image_message fd meta jpeg s w =
      let meta_str = js.dump meta in
      elim (secured (find fd s.tls_sessions)) [
        | some session ↦ send_image_cipher fd jpeg (tls.encrypt session meta_str) s w
        | none ↦
            (let (ok, w') = send_parts net fd (image_parts MessageType.image meta_str jpeg) w in
              (ok, s, w'))
      ]

  logged_in : Option String → Bool
  logged_in none = false
  logged_in (some role) = not (role == "")

  image_each : List ℕ → J → Bytes → QtServer S → W → QtServer S × W
  unfolding logged_in
  image_each [] meta jpeg s w = (s, w)
  image_each (fd ∷ fds) meta jpeg s w =
      let (ok, s', w') = send_image_message fd meta jpeg s w in
      let sent = image_each fds meta jpeg s' w' in
      let passed = image_each fds meta jpeg s w in
      if logged_in (find fd s.client_roles) then sent else passed

  pub broadcast_image : J → Bytes → QtServer S → W → QtServer S × W
  unfolding image_each
  broadcast_image meta jpeg s w = image_each s.client_fds meta jpeg s w

module _ {S : Type 0} where
  unfoldable pub set_client_role : ℕ → String → QtServer S → QtServer S
  set_client_role fd role s = record s { client_roles = insert fd role s.client_roles }

  pub get_client_count : QtServer S → ℕ
  get_client_count s = length s.client_fds

  -- push_back, in its lock scope.
  abbrev pub listed : ℕ → QtServer S → QtServer S
  listed fd s = record s { client_fds = s.client_fds ++ (fd ∷ []) }

  -- The handler thread. `none`: the slot of the descriptor still holds a joinable thread, on which the
  -- move assignment calls std::terminate.
  abbrev pub started_thread : ℕ → QtServer S → Option (QtServer S)
  started_thread fd s =
      if elem fd s.client_threads
      then none
      else some (record s { client_threads = fd ∷ s.client_threads })

  -- A connection that `acceptLoop` took, with no other thread's scope between the two.
  unfoldable pub accept_client : ℕ → QtServer S → Option (QtServer S)
  accept_client fd s = started_thread fd (listed fd s)

  -- The three lock scopes at the end of a handler.
  abbrev pub unlisted : ℕ → QtServer S → QtServer S
  unlisted fd s = record s {
    client_fds = remove fd s.client_fds;
    client_roles = erase fd s.client_roles;
  }

  abbrev pub without_session : ℕ → QtServer S → QtServer S
  without_session fd s = record s { tls_sessions = erase fd s.tls_sessions }

  abbrev pub marked_finished : ℕ → QtServer S → QtServer S
  marked_finished fd s = record s {
    finished_fds = if elem fd s.finished_fds then s.finished_fds else fd ∷ s.finished_fds;
  }

  -- The end of a handler, after its close(client_fd), with no other thread's scope between its own.
  unfoldable pub end_client : ℕ → QtServer S → QtServer S
  end_client fd s = marked_finished fd (without_session fd (unlisted fd s))

  unfoldable pub cleanup_finished_threads : QtServer S → QtServer S
  cleanup_finished_threads s = record s {
    finished_fds = [];
    client_threads = remove_all s.finished_fds s.client_threads;
  }
