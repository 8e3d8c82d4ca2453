-- ===== src/Client/Process/Early.antt =====
-- A signal before the start-up of the ClientServer is over, as ClientServer/src/ClientController.cpp
-- takes it.
use device_app.Base.{◌≡◌, false}
use device_app.Net.{Net}
use device_app.Net.Listening.{Listener}
use device_app.Client.Link.Retry as Retry
use device_app.Client.Process.{App}

module _ {W S J D C : Type 0} (net : Net W) (sockets : Listener W) where
  -- The flag stays cleared, and the link as it runs.
  abbrev Ignores : App W S J D C → App W S J D C → Type 0
  Ignores a b = (b.link.is_running ≡ a.link.is_running) × (b.is_running ≡ false)
