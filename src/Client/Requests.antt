-- ===== src/Client/Requests.antt =====
-- What the account requests of a client depend on.
use device_app.Base.{
  ℕ, ◌≡◌, refl, String, Option, none, some, Bool, true, false, ◌==◌, text_key, if◌then◌else◌, ◌>>=◌,
}
use device_app.Wire.{MessageType, Bytes}
use device_app.Net.{Net}
use device_app.Json.{JsonLib}
use device_app.Auth.{Sqlite, register_user, approve_user}
use device_app.Qt.{SecureSession, QtServer}
use device_app.Client.{ClientServer, reply, on_register, on_approve, on_assign, on_qt_message}

module _ {W S J D : Type 0} (net : Net W) (tls : SecureSession S) (js : JsonLib J) (sql : Sqlite D)
    (sha256 : String → Bytes) where
  -- The account table that a request leaves.
  abbrev pub accounts : Option (ClientServer W S J D) → Option D
  accounts none = none
  accounts (some st) = some st.db

  accounts-bind :
      {A : Type 0} (m : Option A) (f g : A → Option (ClientServer W S J D))
      → ((a : A) → accounts (f a) ≡ accounts (g a))
      → accounts (m >>= f) ≡ accounts (m >>= g)
  accounts-bind none f g h = refl
  accounts-bind (some a) f g h = h a

  accounts-if :
      (b : Bool) (x x' y y' : Option (ClientServer W S J D))
      → accounts x ≡ accounts x'
      → accounts y ≡ accounts y'
      → accounts (if b then x else y) ≡ accounts (if b then x' else y')
  accounts-if true x x' y y' h k = h
  accounts-if false x x' y y' h k = k

  register_same :
      (fd : ℕ) (random : Bytes) (body : J) (st : ClientServer W S J D) (qt : QtServer S)
      → accounts (on_register net tls js sql sha256 fd random body (record st { qt = qt }))
        ≡ accounts (on_register net tls js sql sha256 fd random body st)
  unfolding on_register reply
  register_same fd random body st qt = accounts-bind (js.value_string body "id" "") _ _ (λ username.
      accounts-bind (js.value_string body "email" "") _ _ (λ email.
        accounts-bind (js.value_string body "pw" "") _ _ (λ password.
          accounts-bind
            (js.value_bool (register_user js sql sha256 random username email password st.db).0
              "success" false)
            _ _ (λ ok. refl))))

  approve_same :
      (fd : ℕ) (body : J) (st : ClientServer W S J D) (qt : QtServer S)
      → accounts (on_approve net tls js sql sha256 fd body (record st { qt = qt }))
        ≡ accounts (on_approve net tls js sql sha256 fd body st)
  unfolding on_approve reply
  approve_same fd body st qt = accounts-bind (js.value_string body "target_id" "") _ _ (λ target.
      accounts-bind (js.value_bool (approve_user js sql sha256 target st.db).0 "success" false) _ _
        (λ ok. refl))

  -- What a registration, an approval or a list request makes of the accounts, and whether it
  -- throws, depends neither on the roles nor on anything else that the Qt server keeps of the
  -- clients.
  pub accounts_ignore_roles :
      (fd : ℕ) (random : Bytes) (body : J) (st : ClientServer W S J D) (qt : QtServer S)
      → accounts (
          on_qt_message net tls js sql sha256 fd random MessageType.assign body
            (record st { qt = qt }))
        ≡ accounts (on_qt_message net tls js sql sha256 fd random MessageType.assign body st)
  unfolding on_qt_message on_assign reply
  accounts_ignore_roles fd random body st qt =
      accounts-bind (js.value_string body "action" "") _ _ (λ action.
        accounts-if (action == "register") _ _ _ _ (register_same fd random body st qt) (
          accounts-if (action == "list_pending") _ _ _ _ refl
            (accounts-if (action == "approve") _ _ _ _ (approve_same fd body st qt) refl)))
