-- ===== src/DeviceServer/Events.antt =====
-- What the events of a Sub-Pi come to: the callbacks that DeviceServer/src/DeviceManager.cpp and
-- DeviceServer/src/DeviceController.cpp put between the listener and the internal port.
pub mod Through
use device_app.Base.{ℕ, String, List, [], ◌∷◌, Option, none, some, Bool, true, false, ◌>>=◌}
use device_app.Net.{Ready, Net}
use device_app.Json.{JsonLib}
use device_app.SubPi.{Heard, listen_turn}
use device_app.DeviceManager.{on_available_event}
use device_app.InternalServer.{Hub, broadcast_ai_event, broadcast_meta_event, broadcast_image_event}
use device_app.DeviceController.{Manager, owner}

module _ {W J : Type 0} (net : Net W) (js : JsonLib J) (addresses : Option (List (Option String)))
    (device_id : String) where
  -- The device manager passes an event on, and the controller has it broadcast; a status is cached.
  unfoldable pub forward : Heard J → Hub W (Manager J) → Hub W (Manager J)
  forward (Heard.ai event) hub = broadcast_ai_event net js (owner net js addresses) event hub
  forward (Heard.image meta jpeg) hub =
      broadcast_image_event net js (owner net js addresses) meta jpeg hub
  forward (Heard.meta sensor_data) hub =
      broadcast_meta_event net js (owner net js addresses) sensor_data hub
  forward (Heard.available status) hub = record hub {
    owner = record hub.owner {
      device_status = on_available_event js hub.owner.device_status device_id status;
    };
  }

  unfoldable pub forwarded : Option (Heard J) → Hub W (Manager J) → Hub W (Manager J)
  unfolding forward
  forwarded none hub = hub
  forwarded (some event) hub = forward event hub

  -- A turn of the listener on `fd` with what its callbacks do: whether it goes on, its count of
  -- errors, and the server after it.
  unfoldable pub event_turn :
      ℕ → Ready → ℕ → Hub W (Manager J) → Option (Bool × ℕ × Hub W (Manager J))
  unfolding forwarded
  event_turn fd ready errors hub = do
    step ← listen_turn net js device_id fd ready errors hub.world
    some (step.goes_on, step.error_count, forwarded step.heard (record hub { world = step.world }))
