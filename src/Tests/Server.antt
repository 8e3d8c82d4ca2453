-- ===== src/Tests/Server.antt =====
-- The ClientServer at concrete inputs.
use device_app.Base.{
  ◌≡◌, inl, refl, String, List, [], ◌∷◌, none, some, Bool, true, false, text_key, nat_key, filter,
  eq_iff, arith,
}
use device_app.Base.Map.{find}
use device_app.Wire.{MessageType}
use device_app.Net.Transfer
use device_app.Net.Transfer.{Delivers}
use device_app.Net.Receiving
use device_app.Net.Receiving.{Receives}
use device_app.Net.{send_parts, recv_exact}
use device_app.Auth.{
  User, c_str, names, failure, success, login_user, register_user, approve_user, hash_password,
  hex_text, hex_digit, new_user, generate_salt, login_row, check_login, approve_reply,
}
use device_app.Auth.Login
use device_app.Auth.Login.{login, granted, opens}
use device_app.Auth.Accounts
use device_app.Auth.Accounts.{Request, after_requests, is_admin}
use device_app.Qt.{QtServer, broadcast_to_role, broadcast_by_role, broadcast_image, set_client_role}
use device_app.Qt.Broadcast
use device_app.Client.{ClientServer, on_qt_message, on_login, reply}
use device_app.Client.Access
use device_app.Client.Requests
use device_app.Client.Requests.{accounts}
use device_app.Client.Access.{Changes, roles}
use device_app.Tests.Models.{
  Wires, wires, wires-laws, quiet, Value, leaf, object, text, flag, values, values-laws, table,
  table-laws, sessions, digest,
}

-- Client 7 is an administrator, 8 has not logged in.
abbrev server : QtServer Bool
server = record {
  client_fds = 7 ∷ 8 ∷ [];
  client_roles = (7, "admin") ∷ [];
  tls_sessions = [];
  finished_fds = [];
  client_threads = [];
}

abbrev salted : String
salted = "0a"

abbrev beta : User
beta = record {
  username = "beta";
  email = "b@x";
  password = "04";
  salt = salted;
  role = "user";
  created = "";
}

send_parts-Delivers_example :
    Delivers wires-laws 7
      (1 ∷ 2 ∷ 3 ∷ 4 ∷ 5 ∷ 6 ∷ [])
      quiet
      (send_parts wires 7 ((1 ∷ 2 ∷ 3 ∷ 4 ∷ 5 ∷ []) ∷ (6 ∷ []) ∷ []) quiet)
send_parts-Delivers_example =
    Transfer.send_parts-Delivers wires wires-laws 7 ((1 ∷ 2 ∷ 3 ∷ 4 ∷ 5 ∷ []) ∷ (6 ∷ []) ∷ []) quiet

recv_exact-Receives_example : Receives wires-laws 7 3 quiet (recv_exact wires 7 3 quiet)
recv_exact-Receives_example = Receiving.recv_exact-Receives wires wires-laws 7 3 quiet

strangers_receive_nothing_example :
    ((broadcast_to_role wires sessions values MessageType.camera
          (leaf (flag true))
          "user"
          server
          quiet).1.taken
        8
      ≡ [])
    × ((broadcast_by_role wires sessions values MessageType.camera
            (leaf (flag true))
            (leaf (flag false))
            server
            quiet).1.taken
          8
        ≡ [])
    × ((broadcast_image wires sessions values (leaf (flag true)) (1 ∷ []) server quiet).1.taken 8
        ≡ [])
unfolding find wires-laws
strangers_receive_nothing_example =
    Broadcast.strangers_receive_nothing wires wires-laws sessions values server quiet 8
      MessageType.camera (leaf (flag true)) (leaf (flag false)) "user" (1 ∷ []) (inl refl)

after_requests_keep_example :
    (filter is_admin (after_requests values table digest (beta ∷ []) (Request.approve "gamma" ∷ []))
      ≡ [])
    × (filter
          (names "beta")
          (after_requests values table digest (beta ∷ []) (Request.approve "gamma" ∷ []))
        ≡ beta ∷ [])
unfolding table-laws c_str
after_requests_keep_example =
    Accounts.after_requests_keep values table table-laws digest (beta ∷ [])
      (Request.approve "gamma" ∷ []) "beta" (λ e. ground (arith, eq_iff "gamma" "beta"), tt)

login_exact_example :
    values.value_bool (login_user values table digest "beta" "pw" (beta ∷ [])) "success" false
    ≡ some true
unfolding table-laws hash_password hex_text hex_digit login_user login_row check_login
login_exact_example =
    Login.login_exact values table digest values-laws table-laws "beta" "pw" (beta ∷ [])

registration_workflow_example :
    let d₁ = (register_user values table digest (10 ∷ []) "nova" "n@x" "pw" (beta ∷ [])).1 in
    let (reply, d₂) = approve_user values table digest "nova" d₁ in
    (login values table table-laws digest "nova" "pw" d₁ ≡ failure values "관리자 승인 대기 중입니다.")
    × (reply ≡ success values "nova 승인 완료")
    × (login values table table-laws digest "nova" "pw" d₂
        ≡ granted values table digest "user" "nova")
unfolding table-laws register_user new_user hash_password hex_text hex_digit generate_salt
    approve_user approve_reply
registration_workflow_example =
    Login.registration_workflow values table table-laws digest (10 ∷ []) "nova" "n@x" "pw"
      (beta ∷ []) 1 refl (λ d. refl) refl refl

abbrev client_server : ClientServer Wires Bool Value (List User)
client_server = record {
  qt = server;
  db = beta ∷ [];
  cached_cameras = leaf (flag false);
  cached_device_status = leaf (flag false);
  current_fd = none;
  world = quiet;
}

abbrev login_body : Value
login_body = object (("id", text "beta") ∷ ("pw", text "pw") ∷ [])

abbrev after_login : ClientServer Wires Bool Value (List User)
after_login =
    let result = login_user values table digest "beta" "pw" (beta ∷ []) in
    let tagged = record client_server { qt = set_client_role 8 "user" server } in
    reply wires sessions values table digest 8 MessageType.camera (leaf (flag false))
      (reply wires sessions values table digest 8 MessageType.success result tagged)

roles_by_login_example :
    Changes wires sessions values table digest 8 MessageType.login login_body client_server
      after_login
unfolding on_qt_message on_login login_user login_row check_login hash_password hex_text hex_digit
    find
roles_by_login_example =
    Access.roles_by_login wires sessions values table digest 8 [] MessageType.login login_body
      client_server after_login refl

abbrev approve_body : Value
approve_body = object (("action", text "approve") ∷ ("target_id", text "beta") ∷ [])

accounts_ignore_roles_example :
    accounts wires sessions values table digest (
      on_qt_message wires sessions values table digest 8 [] MessageType.assign approve_body
        (record client_server { qt = after_login.qt }))
    ≡ accounts wires sessions values table digest (
        on_qt_message wires sessions values table digest 8 [] MessageType.assign approve_body
          client_server)
accounts_ignore_roles_example =
    Requests.accounts_ignore_roles wires sessions values table digest 8 [] approve_body
      client_server after_login.qt
