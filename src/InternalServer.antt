-- ===== src/InternalServer.antt =====
-- DeviceServer/src/InternalServer.cpp: the port at which the ClientServer connects, and what is
-- pushed to it. The callbacks are the record `Owner` over the state `E` of the device controller;
-- each of them is set before the server starts. `none` is an exception that nothing catches.
pub mod Push
pub mod Lifecycle
pub mod Accepting
use device_app.Base.{
  ℕ, ◌*◌, ◌&&◌, List, [], ◌∷◌, ◌++◌, Option, none, some, Bool, true, false, ◌>>=◌, if◌then◌else◌,
  ltb, length, remove, remove_all, elem, nat_key, not,
}
use device_app.Wire.{MessageType, Bytes, PacketHeader, header_size, header_be, read_header_be}
use device_app.Net.{Net, send_parts, recv_exact}
use device_app.Json.{JsonLib}

pub record Owner (W J E : Type 0) : Type 0 where
  pub get_camera_list : E → J
  pub get_device_status : E → Option J
  pub on_device_command : J → E → W → Option (E × W)

pub record Hub (W E : Type 0) : Type 0 where
  pub client_fds : List ℕ
  pub finished_fds : List ℕ
  pub client_threads : List ℕ
  pub owner : E
  pub world : W

module _ {W J : Type 0} (net : Net W) (js : JsonLib J) where
  abbrev pub frame : MessageType → J → List Bytes
  frame type body = let body_str = js.dump body in header_be type (length body_str) ∷ body_str ∷ []

  abbrev pub image_frame : J → Bytes → List Bytes
  image_frame meta jpeg =
      let meta_str = js.dump meta in
      header_be MessageType.image (length meta_str) ∷ meta_str ∷ jpeg ∷ []

  pub send_message : ℕ → MessageType → J → W → Bool × W
  send_message fd type body w = send_parts net fd (frame type body) w

  pub send_image_message : ℕ → J → Bytes → W → Bool × W
  send_image_message fd meta jpeg w = send_parts net fd (image_frame meta jpeg) w

  -- `for (int fd : client_fds_)`; a failed send is not looked at.
  pub push_each : List ℕ → List Bytes → W → W
  push_each [] parts w = w
  push_each (fd ∷ fds) parts w = push_each fds parts (send_parts net fd parts w).1

module _ {W J E : Type 0} (net : Net W) (js : JsonLib J) (owner : Owner W J E) where
  push : MessageType → J → Hub W E → Hub W E
  push type body hub = record hub {
    world = push_each net js hub.client_fds (frame net js type body) hub.world;
  }

  pub broadcast_ai_event : J → Hub W E → Hub W E
  unfolding push
  broadcast_ai_event event hub = push MessageType.ai event hub

  pub broadcast_meta_event : J → Hub W E → Hub W E
  unfolding push
  broadcast_meta_event sensor_data hub = push MessageType.meta sensor_data hub

  pub broadcast_camera_list : Hub W E → Hub W E
  unfolding push
  broadcast_camera_list hub = push MessageType.camera (owner.get_camera_list hub.owner) hub

  pub broadcast_device_status : Hub W E → Option (Hub W E)
  unfolding push
  broadcast_device_status hub = do
    device_status ← owner.get_device_status hub.owner
    some (push MessageType.available device_status hub)

  pub broadcast_image_event : J → Bytes → Hub W E → Hub W E
  broadcast_image_event meta jpeg hub = record hub {
    world = push_each net js hub.client_fds (image_frame net js meta jpeg) hub.world;
  }

  answer : ℕ → MessageType → J → Hub W E → Hub W E
  unfolding send_message
  answer fd type body hub = record hub { world = (send_message net js fd type body hub.world).1 }

  -- The welcome push, before the loop.
  pub welcome : ℕ → Hub W E → Option (Hub W E)
  unfolding answer
  welcome fd hub = do
    let greeted = answer fd MessageType.camera (owner.get_camera_list hub.owner) hub
    device_status ← owner.get_device_status greeted.owner
    some (answer fd MessageType.available device_status greeted)

  handle : ℕ → MessageType → J → Hub W E → Option (Hub W E)
  unfolding answer
  handle fd MessageType.camera body hub =
      some (answer fd MessageType.camera (owner.get_camera_list hub.owner) hub)
  handle fd MessageType.available body hub = do
    device_status ← owner.get_device_status hub.owner
    some (answer fd MessageType.available device_status hub)
  handle fd MessageType.device body hub = do
    r ← owner.on_device_command body hub.owner hub.world
    some (record hub { owner = r.0; world = r.1 })
  handle fd _ body hub = some hub

  -- How a turn ends: `break`, or the next turn.
  pub data Turn : Type 0 where
    left went_on : Hub W E → Turn

  body_turn : ℕ → MessageType → Bytes → Hub W E → Option Turn
  unfolding handle
  body_turn fd type buf hub = elim (js.parse buf) [
    | none ↦ some (went_on hub)
    | some body ↦ (do hub' ← handle fd type body hub; some (went_on hub'))
  ]

  -- A body is read if its length is between 1 and 1 MB less one byte; else it is taken for the empty
  -- object, and its bytes stay in the stream.
  request_turn : ℕ → PacketHeader → Hub W E → Option Turn
  unfolding body_turn handle
  request_turn fd header hub =
      let (buf, world') = recv_exact net fd header.body_length hub.world in
      let read : Hub W E = record hub { world = world' } in
      let with_body : Option Turn = elim buf [
        | none ↦ some (left read)
        | some bs ↦ body_turn fd header.type bs read
      ] in
      let without_body : Option Turn =
        handle fd header.type (js.object_of []) hub >>= (λ hub'. some (went_on hub')) in
      if ltb 0 header.body_length && ltb header.body_length (1024 * 1024)
      then with_body
      else without_body

  pub client_turn : ℕ → Hub W E → Option Turn
  unfolding request_turn
  client_turn fd hub =
      let (bytes, world') = recv_exact net fd header_size hub.world in
      let read : Hub W E = record hub { world = world' } in
      elim (bytes >>= read_header_be) [
        | none ↦ some (left read)
        | some header ↦ request_turn fd header read
      ]

  -- After the loop.
  pub end_client : ℕ → Hub W E → Hub W E
  end_client fd hub = record hub {
    client_fds = remove fd hub.client_fds;
    finished_fds = if elem fd hub.finished_fds then hub.finished_fds else fd ∷ hub.finished_fds;
    world = net.close hub.world fd;
  }

  -- The loop and what comes after it; each element is a test of `is_running_`.
  pub client_loop : ℕ → List Bool → Hub W E → Option Turn
  unfolding client_turn end_client
  client_loop fd [] hub = some (went_on hub)
  client_loop fd (false ∷ flags) hub = some (left (end_client fd hub))
  client_loop fd (true ∷ flags) hub = elim (client_turn fd hub) [
    | none ↦ none
    | some (left hub') ↦ some (left (end_client fd hub'))
    | some (went_on hub') ↦ client_loop fd flags hub'
  ]

  pub client_handler : ℕ → List Bool → Hub W E → Option Turn
  unfolding welcome client_loop
  client_handler fd flags hub = do greeted ← welcome fd hub; client_loop fd flags greeted

  -- `none`: std::terminate, for a thread assigned over a joinable one.
  pub accept_client : ℕ → Hub W E → Option (Hub W E)
  accept_client fd hub =
      if elem fd hub.client_threads
      then none
      else some (record hub {
        client_fds = hub.client_fds ++ (fd ∷ []);
        client_threads = fd ∷ hub.client_threads;
      })

pub cleanup_finished_threads : {W E : Type 0} → Hub W E → Hub W E
cleanup_finished_threads hub = record hub {
  finished_fds = [];
  client_threads = remove_all hub.finished_fds hub.client_threads;
}
