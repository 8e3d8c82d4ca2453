-- ===== src/Relay.antt =====
-- The relay paths of DeviceServer/src/RtspServer.cpp, and how DeviceServer/src/DeviceController.cpp
-- lets them follow the registry. GStreamer's table of mount points is a map from paths to the
-- launch lines of their factories.
pub mod Paths
pub mod Following
pub mod Lifecycle
pub mod MainLoop
use device_app.Base.{ℕ, String, List, [], ◌∷◌, Bool, true, false, if◌then◌else◌, text_key}
use device_app.Base.Map.{Map, insert, erase}
use device_app.Device.{DeviceInfo, is_sub_pi}
use device_app.DeviceManager.{Notice}
use Prim.Native.String.{◌++◌ as append}

pub record Rtsp : Type 0 where
  -- `mounts_` is not null
  pub mounted : Bool
  pub factories : Map String String

abbrev pub path_of : String → String
path_of id = append "/" id

unfoldable pub remove_relay_path : String → Rtsp → Rtsp
remove_relay_path id s =
    if s.mounted then record s { factories = erase (path_of id) s.factories } else s

-- `to_string` is std::to_string.
module _ (to_string : ℕ → String) where
  unfoldable pub pipeline_str : DeviceInfo → String
  pipeline_str info = append "( udpsrc port=" (
      append (to_string info.udp_listen_port)
        " buffer-size=2097152 caps=\"application/x-rtp, media=(string)video, clock-rate=(int)90000, encoding-name=(string)H264, payload=96\" ! queue max-size-buffers=200 max-size-bytes=10485760 max-size-time=0 ! rtph264depay ! queue max-size-buffers=200 max-size-bytes=10485760 max-size-time=0 ! h264parse config-interval=-1 ! rtph264pay name=pay0 pt=96 config-interval=1 )")

  -- Only Sub-Pis are relayed; a factory that is there is removed first.
  unfoldable pub add_relay_path : DeviceInfo → Rtsp → Rtsp
  unfolding remove_relay_path
  add_relay_path info s =
      let cleared = remove_relay_path info.id s in
      if s.mounted
      then (if is_sub_pi info.type
          then record cleared {
            factories = insert (path_of info.id) (pipeline_str info) cleared.factories;
          }
          else s)
      else s

  -- The callbacks that DeviceController::run sets; `changed` pushes lists and leaves the relays alone.
  unfoldable pub after_notice : Rtsp → Notice → Rtsp
  unfolding add_relay_path remove_relay_path
  after_notice s (Notice.registered info) = add_relay_path info s
  after_notice s (Notice.removed id) = remove_relay_path id s
  after_notice s Notice.changed = s

  unfoldable pub after_notices : Rtsp → List Notice → Rtsp
  unfolding after_notice
  after_notices s [] = s
  after_notices s (n ∷ ns) = after_notices (after_notice s n) ns
