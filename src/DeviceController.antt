-- ===== src/DeviceController.antt =====
-- DeviceServer/src/DeviceController.cpp: the camera list, the motor callback, and the callbacks that
-- the internal port gets.
pub mod Urls
use device_app.Base.{
  String, List, [], ◌∷◌, Option, none, some, Bool, true, false, ◌&&◌, not, map, ◌>>=◌, ◌==◌,
  text_key, if◌then◌else◌,
}
use device_app.Base.Map.{Map}
use device_app.Net.{Net}
use device_app.Json.{JsonLib}
use device_app.Device.{DeviceInfo, DeviceType, is_sub_pi}
use device_app.DeviceManager.{Devices, get_device_list, get_device_status_list, send_motor_command}
use device_app.InternalServer.{Owner}
use Prim.Native.String.{◌++◌ as append}

-- The addresses that getifaddrs lists, in text; `none` for one that is not IPv4. No list: it failed.
first_lan : List (Option String) → String
first_lan [] = "127.0.0.1"
first_lan (none ∷ rest) = first_lan rest
first_lan (some ip ∷ rest) = if not (ip == "127.0.0.1") then ip else first_lan rest

unfoldable pub get_local_ip : Option (List (Option String)) → String
unfolding first_lan
get_local_ip none = "127.0.0.1"
get_local_ip (some addresses) = first_lan addresses

unfoldable pub listed_url : String → DeviceInfo → String
listed_url local_ip dev =
    if is_sub_pi dev.type
    then append "rtsp://" (append local_ip (append ":8554/" dev.id))
    else dev.source_url

module _ {J : Type 0} (js : JsonLib J) where
  camera_entry : String → DeviceInfo → J
  camera_entry local_ip dev = js.object_of (
      ("is_online", js.boolean dev.is_online)
      ∷ ("ip", js.string dev.ip)
      ∷ ("source_url", js.string (listed_url local_ip dev))
      ∷ ("type", js.string (if is_sub_pi dev.type then "SUB_PI" else "HANWHA"))
      ∷ [])

  pub build_camera_list_json : Option (List (Option String)) → Devices → J
  unfolding camera_entry
  build_camera_list_json addresses devices =
      js.array_of (map (camera_entry (get_local_ip addresses)) (get_device_list devices))

-- `devices_` and `device_status_`
pub record Manager (J : Type 0) : Type 0 where
  pub devices : Devices
  pub device_status : Map String J

module _ {W J : Type 0} (net : Net W) (js : JsonLib J)
    (addresses : Option (List (Option String))) where
  pub on_device_command : J → Manager J → W → Option (Manager J × W)
  on_device_command body manager w = do
    ip ← js.value_string body "device" ""
    motor ← js.value_string body "motor" ""
    let sent = send_motor_command net js manager.devices ip motor w
    some (if not (ip == "") && not (motor == "") then (manager, sent.1) else (manager, w))

  -- What DeviceController::run gives the internal port.
  abbrev pub owner : Owner W J (Manager J)
  owner = record {
    get_camera_list = λ manager. build_camera_list_json js addresses manager.devices;
    get_device_status = λ manager. get_device_status_list js manager.devices manager.device_status;
    on_device_command = on_device_command;
  }
