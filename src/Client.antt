-- ===== src/Client.antt =====
-- ClientServer/src/ClientController.cpp: the messages of the Qt clients, the callbacks of the
-- internal client, and one round of the main loop. `none` is an exception that nothing catches.
pub mod Link
pub mod Access
pub mod Requests
pub mod Process
use device_app.Base.{
  ℕ, String, List, [], ◌∷◌, Option, none, some, Bool, true, false, ◌==◌, text_key, if◌then◌else◌,
  length, ◌>>=◌,
}
use device_app.Wire.{MessageType, Bytes, header_be}
use device_app.Net.{Net, send_parts}
use device_app.Json.{JsonLib}
use device_app.Auth.{Sqlite, login_user, register_user, list_pending_users, approve_user}
use device_app.Qt.{
  SecureSession, QtServer, send_message, broadcast, broadcast_to_role, broadcast_by_role,
  broadcast_image, set_client_role,
}

pub record ClientServer (W S J D : Type 0) : Type 0 where
  pub qt : QtServer S
  pub db : D
  -- InternalClient: the caches, and the socket to the DeviceServer, `none` for -1
  pub cached_cameras : J
  pub cached_device_status : J
  pub current_fd : Option ℕ
  pub world : W

module _ {W S J D : Type 0} (net : Net W) (tls : SecureSession S) (js : JsonLib J) (sql : Sqlite D)
    (sha256 : String → Bytes) where
  -- qt_server_.sendMessage(fd, type, body), whose result the controller drops
  unfoldable pub reply : ℕ → MessageType → J → ClientServer W S J D → ClientServer W S J D
  reply fd type body st =
      let (ok, qt', world') = send_message net tls js fd type body st.qt st.world in
      record st { qt = qt'; world = world' }

  -- InternalClient::sendDeviceCommand
  pub send_device_command : J → ClientServer W S J D → ClientServer W S J D
  send_device_command body st = elim st.current_fd [
    | none ↦ st
    | some fd ↦
        (let body_str = js.dump body in
          let (ok, world') =
            send_parts net fd (header_be MessageType.device (length body_str) ∷ body_str ∷ [])
              st.world in
          record st { world = world' })
  ]

  unfoldable pub on_login : ℕ → J → ClientServer W S J D → Option (ClientServer W S J D)
  unfolding reply
  on_login fd body st = do
    username ← js.value_string body "id" ""
    password ← js.value_string body "pw" ""
    let result = login_user js sql sha256 username password st.db
    granted ← js.value_bool result "success" false
    if granted
        then (do
          state ← js.value_string result "state" "user"
          let tagged = record st { qt = set_client_role fd state st.qt }
          some (
              reply fd MessageType.camera tagged.cached_cameras
                (reply fd MessageType.success result tagged)))
        else some (reply fd MessageType.fail result st)

  unfoldable pub on_register : ℕ → Bytes → J → ClientServer W S J D → Option (ClientServer W S J D)
  unfolding reply
  on_register fd random body st = do
    username ← js.value_string body "id" ""
    email ← js.value_string body "email" ""
    password ← js.value_string body "pw" ""
    let r = register_user js sql sha256 random username email password st.db
    ok ← js.value_bool r.0 "success" false
    some (
        reply fd (if ok then MessageType.success else MessageType.fail) r.0
          (record st { db = r.1 }))

  unfoldable pub on_approve : ℕ → J → ClientServer W S J D → Option (ClientServer W S J D)
  unfolding reply
  on_approve fd body st = do
    target ← js.value_string body "target_id" ""
    let r = approve_user js sql sha256 target st.db
    ok ← js.value_bool r.0 "success" false
    some (
        reply fd (if ok then MessageType.success else MessageType.fail) r.0
          (record st { db = r.1 }))

  unfoldable pub on_assign : ℕ → Bytes → J → ClientServer W S J D → Option (ClientServer W S J D)
  unfolding on_register on_approve reply
  on_assign fd random body st = do
    action ← js.value_string body "action" ""
    if action == "register"
        then on_register fd random body st
        else if action == "list_pending"
        then some (reply fd MessageType.assign (list_pending_users js sql sha256 st.db) st)
        else if action == "approve"
        then on_approve fd body st
        else some (
            reply fd MessageType.fail (js.object_of (("error", js.string "Unknown action") ∷ []))
              st)

  -- `random` is what /dev/urandom gives if the message registers an account.
  unfoldable pub on_qt_message :
      ℕ → Bytes → MessageType → J → ClientServer W S J D → Option (ClientServer W S J D)
  unfolding on_login on_assign send_device_command reply
  on_qt_message fd random MessageType.login body st = on_login fd body st
  on_qt_message fd random MessageType.assign body st = on_assign fd random body st
  on_qt_message fd random MessageType.device body st = some (send_device_command body st)
  on_qt_message fd random MessageType.camera body st =
      some (reply fd MessageType.camera st.cached_cameras st)
  on_qt_message fd random MessageType.ai body st =
      let (qt', world') = broadcast net tls js MessageType.ai body st.qt st.world in
      some (record st { qt = qt'; world = world' })
  on_qt_message fd random _ body st =
      some (reply fd MessageType.ack (js.object_of (("message", js.string "received") ∷ [])) st)

  -- One round of the main loop; `status` is the system monitor's.
  pub broadcast_round : J → ClientServer W S J D → ClientServer W S J D
  broadcast_round status st =
      let (qt₁, w₁) =
        broadcast_to_role net tls js MessageType.camera st.cached_cameras "user" st.qt st.world in
      let user_avail = js.object_of (("devices", st.cached_device_status) ∷ []) in
      let admin_avail =
        js.object_of (("server", status) ∷ ("devices", st.cached_device_status) ∷ []) in
      let (qt₂, w₂) =
        broadcast_by_role net tls js MessageType.available user_avail admin_avail qt₁ w₁ in
      record st { qt = qt₂; world = w₂ }

  -- The callbacks for what the DeviceServer pushes.
  pub on_ai_event : J → ClientServer W S J D → ClientServer W S J D
  on_ai_event event st =
      let (qt', world') = broadcast net tls js MessageType.ai event st.qt st.world in
      record st { qt = qt'; world = world' }

  pub on_image_event : J → Bytes → ClientServer W S J D → ClientServer W S J D
  on_image_event meta jpeg st =
      let (qt', world') = broadcast_image net tls js meta jpeg st.qt st.world in
      record st { qt = qt'; world = world' }

  pub on_meta_event : J → ClientServer W S J D → ClientServer W S J D
  on_meta_event sensor_data st =
      let (qt', world') = broadcast net tls js MessageType.meta sensor_data st.qt st.world in
      record st { qt = qt'; world = world' }
