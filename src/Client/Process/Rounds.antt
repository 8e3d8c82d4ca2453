-- ===== src/Client/Process/Rounds.antt =====
-- A round of the main loop as steps of the clients' tables.
use device_app.Base.{◌≡◌, ap, ◌∙◌, String, []}
use device_app.Wire.{Bytes}
use device_app.Net.{Net}
use device_app.Json.{JsonLib}
use device_app.Auth.{Sqlite}
use device_app.Qt.{SecureSession, QtServer}
use device_app.Qt.Clients.{Reachable}
use device_app.Qt.Clients.Sends.{
  broadcast_to_role-Reachable, broadcast_by_role-Reachable, broadcast_to_role-none,
  broadcast_by_role-none,
}
use device_app.Wire.{MessageType}
use device_app.Client.{ClientServer, broadcast_round}

module _ {W S J D : Type 0} (net : Net W) (tls : SecureSession S) (js : JsonLib J) (sql : Sqlite D)
    (sha256 : String → Bytes) where
  -- The two broadcasts of a round.
  abbrev pub sent : J → ClientServer W S J D → ClientServer W S J D
  sent status st = broadcast_round net tls js sql sha256 status st

  pub sent-Reachable :
      (status : J) (st : ClientServer W S J D) → Reachable st.qt → Reachable (sent status st).qt
  unfolding broadcast_round
  sent-Reachable status st r =
      broadcast_by_role-Reachable net tls js _ _ _ _ _
        (broadcast_to_role-Reachable net tls js _ _ _ st.qt st.world r)

  pub sent-none :
      (status : J) (st : ClientServer W S J D) → st.qt.client_fds ≡ [] → (sent status st).qt ≡ st.qt
  unfolding broadcast_round
  sent-none status st e =
      let first =
        broadcast_to_role-none net tls js MessageType.camera st.cached_cameras "user" st.qt st.world
          e in
      broadcast_by_role-none net tls js _ _ _ _ _ (ap (λ (q : QtServer S). q.client_fds) first ∙ e)
      ∙ first
