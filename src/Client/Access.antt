-- ===== src/Client/Access.antt =====
-- How a client comes by a role, and what roles are not asked for.
use device_app.Base.{
  ℕ, ◌≡◌, refl, sym, ap, ◌∙◌, ◌⊎◌, inl, inr, String, some, true, false, ◌==◌, nat_key, text_key,
  if◌then◌else◌, arith, >>=-eq-some, if-eq,
}
use mathlib.Core.Option.{some-injective}
use device_app.Base.Map.{Map, insert}
use device_app.Wire.{MessageType, Bytes}
use device_app.Net.{Net}
use device_app.Json.{JsonLib}
use device_app.Auth.{Sqlite, login_user, register_user, approve_user, list_pending_users}
use device_app.Qt.{SecureSession, QtServer, set_client_role}
use device_app.Qt.Sending.{client_roles-send_message, client_roles-broadcast}
use device_app.Client.{
  ClientServer, reply, on_login, on_register, on_approve, on_assign, send_device_command,
  on_qt_message,
}

module _ {W S J D : Type 0} (net : Net W) (tls : SecureSession S) (js : JsonLib J) (sql : Sqlite D)
    (sha256 : String → Bytes) where
  abbrev pub roles : ClientServer W S J D → Map ℕ String
  roles st = st.qt.client_roles

  roles-reply :
      (fd : ℕ) (type : MessageType) (body : J) (st : ClientServer W S J D)
      → roles (reply net tls js sql sha256 fd type body st) ≡ roles st
  unfolding reply
  roles-reply fd type body st = client_roles-send_message net tls js fd type body st.qt st.world

  -- The credentials in the body succeed with the role.
  pub record Granted (body : J) (d : D) (role : String) : Type 0 where
    pub username : String
    pub password : String
    pub sent_username : js.value_string body "id" "" ≡ some username
    pub sent_password : js.value_string body "pw" "" ≡ some password
    pub accepted :
        js.value_bool (login_user js sql sha256 username password d) "success" false ≡ some true
    pub state :
        js.value_string (login_user js sql sha256 username password d) "state" "user" ≡ some role

  abbrev pub Changes : ℕ → MessageType → J → ClientServer W S J D → ClientServer W S J D → Type 0
  Changes fd type body st st' =
      (roles st' ≡ roles st)
      ⊎ ((role : String) × (type ≡ MessageType.login)
          × Granted body st.db role
          × (roles st' ≡ insert fd role (roles st)))

  set_role :
      (fd : ℕ) (role : String) (s : QtServer S)
      → (set_client_role fd role s).client_roles ≡ insert fd role s.client_roles
  unfolding set_client_role
  set_role fd role s = refl

  login-Changes :
      (fd : ℕ) (body : J) (st st' : ClientServer W S J D)
      → on_login net tls js sql sha256 fd body st ≡ some st'
      → Changes fd MessageType.login body st st'
  unfolding on_login
  login-Changes fd body st st' h =
      let (username, sent_username, h₁) = >>=-eq-some (js.value_string body "id" "") _ h in
      let (password, sent_password, h₂) = >>=-eq-some (js.value_string body "pw" "") _ h₁ in
      let (granted, accepted, h₃) =
        >>=-eq-some
          (js.value_bool (login_user js sql sha256 username password st.db) "success" false) _ h₂ in
      elim (if-eq granted _ _ h₃) [
        | inl (yes_granted, e) ↦
            (let result = login_user js sql sha256 username password st.db in
              let (role, state, e') = >>=-eq-some (js.value_string result "state" "user") _ e in
              let tagged : ClientServer W S J D = record st {
                qt = set_client_role fd role st.qt;
              } in
              inr (
                role,
                refl,
                record {
                  username = username;
                  password = password;
                  sent_username = sent_username;
                  sent_password = sent_password;
                  accepted = accepted ∙ ap some yes_granted;
                  state = state;
                },
                ap roles (sym (some-injective _ _ e'))
                    ∙ roles-reply fd MessageType.camera st.cached_cameras
                        (reply net tls js sql sha256 fd MessageType.success result tagged)
                    ∙ roles-reply fd MessageType.success result tagged
                    ∙ set_role fd role st.qt,
              ))
        | inr (_, e) ↦
            inl (ap roles (sym (some-injective _ _ e)) ∙ roles-reply fd MessageType.fail _ st)
      ]

  register_changes :
      (fd : ℕ) (random : Bytes) (body : J) (st st' : ClientServer W S J D)
      → on_register net tls js sql sha256 fd random body st ≡ some st'
      → roles st' ≡ roles st
  unfolding on_register
  register_changes fd random body st st' h =
      let (username, _, h₁) = >>=-eq-some (js.value_string body "id" "") _ h in
      let (email, _, h₂) = >>=-eq-some (js.value_string body "email" "") _ h₁ in
      let (password, _, h₃) = >>=-eq-some (js.value_string body "pw" "") _ h₂ in
      let r = register_user js sql sha256 random username email password st.db in
      let (ok, _, e) = >>=-eq-some (js.value_bool r.0 "success" false) _ h₃ in
      let stored : ClientServer W S J D = record st { db = r.1 } in
      ap roles (sym (some-injective _ _ e))
      ∙ roles-reply fd (if ok then MessageType.success else MessageType.fail) r.0 stored

  approve_changes :
      (fd : ℕ) (body : J) (st st' : ClientServer W S J D)
      → on_approve net tls js sql sha256 fd body st ≡ some st'
      → roles st' ≡ roles st
  unfolding on_approve
  approve_changes fd body st st' h =
      let (target, _, h₁) = >>=-eq-some (js.value_string body "target_id" "") _ h in
      let r = approve_user js sql sha256 target st.db in
      let (ok, _, e) = >>=-eq-some (js.value_bool r.0 "success" false) _ h₁ in
      let stored : ClientServer W S J D = record st { db = r.1 } in
      ap roles (sym (some-injective _ _ e))
      ∙ roles-reply fd (if ok then MessageType.success else MessageType.fail) r.0 stored

  assign_changes :
      (fd : ℕ) (random : Bytes) (body : J) (st st' : ClientServer W S J D)
      → on_assign net tls js sql sha256 fd random body st ≡ some st'
      → roles st' ≡ roles st
  unfolding on_assign
  assign_changes fd random body st st' h =
      let (action, _, h₁) = >>=-eq-some (js.value_string body "action" "") _ h in
      elim (if-eq (action == "register") _ _ h₁) [
        | inl (_, e) ↦ register_changes fd random body st st' e
        | inr (_, e) ↦ elim (if-eq (action == "list_pending") _ _ e) [
          | inl (_, e₁) ↦
              ap roles (sym (some-injective _ _ e₁))
              ∙ roles-reply fd MessageType.assign (list_pending_users js sql sha256 st.db) st
          | inr (_, e₁) ↦ elim (if-eq (action == "approve") _ _ e₁) [
            | inl (_, e₂) ↦ approve_changes fd body st st' e₂
            | inr (_, e₂) ↦
                ap roles (sym (some-injective _ _ e₂)) ∙ roles-reply fd MessageType.fail _ st
          ]
        ]
      ]

  roles-send_device_command :
      (body : J) (st : ClientServer W S J D)
      → roles (send_device_command net tls js sql sha256 body st) ≡ roles st
  unfolding send_device_command
  roles-send_device_command body st = ground arith

  -- A message changes the role of nobody but its own sender, and of the sender only if it carries
  -- credentials that loginUser accepts: then the sender's role becomes the one in that answer.
  pub roles_by_login :
      (fd : ℕ) (random : Bytes) (type : MessageType) (body : J) (st st' : ClientServer W S J D)
      → on_qt_message net tls js sql sha256 fd random type body st ≡ some st'
      → Changes fd type body st st'
  unfolding on_qt_message
  roles_by_login fd random MessageType.login body st st' h = login-Changes fd body st st' h
  roles_by_login fd random MessageType.assign body st st' h =
      inl (assign_changes fd random body st st' h)
  roles_by_login fd random MessageType.device body st st' h =
      inl (ap roles (sym (some-injective _ _ h)) ∙ roles-send_device_command body st)
  roles_by_login fd random MessageType.camera body st st' h = inl (
      ap roles (sym (some-injective _ _ h))
      ∙ roles-reply fd MessageType.camera st.cached_cameras st)
  roles_by_login fd random MessageType.ai body st st' h = inl (
      ap roles (sym (some-injective _ _ h))
      ∙ client_roles-broadcast net tls js MessageType.ai body st.qt st.world)
  roles_by_login fd random _ body st st' h =
      inl (ap roles (sym (some-injective _ _ h)) ∙ roles-reply fd MessageType.ack _ st)
