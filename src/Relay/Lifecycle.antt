-- ===== src/Relay/Lifecycle.antt =====
-- RtspServer::start and stop of DeviceServer/src/RtspServer.cpp. The thread of the main loop is a
-- flag here; stop takes the join to end, and Relay/MainLoop.antt says when it does.
use device_app.Base.{Bool, true, false, not, [], if◌then◌else◌}
use device_app.Relay.{Rtsp}

pub record RtspService : Type 0 where
  pub rtsp : Rtsp
  pub is_running : Bool
  -- `loop_thread_` is joinable
  pub looping : Bool

-- The server object and its mount points are made once.
unfoldable pub mounted_rtsp : Rtsp → Rtsp
mounted_rtsp s = if s.mounted then s else record { mounted = true; factories = [] }

unfoldable pub start : RtspService → RtspService
unfolding mounted_rtsp
start s =
    if s.is_running
    then s
    else record { rtsp = mounted_rtsp s.rtsp; is_running = true; looping = true }

-- The mount points go with the server object.
unfoldable pub stop : RtspService → RtspService
stop s = if not s.is_running then s else record {
  rtsp = record { mounted = false; factories = [] };
  is_running = false;
  looping = false;
}
