-- ===== src/DeviceController/Urls.antt =====
-- The URLs of the camera list.
use device_app.Base.{ℕ, ◌≡◌, refl, ap, ◌∙◌, String, some, true, text_key}
use device_app.Base.Map.{find, All-find}
use device_app.Device.{DeviceInfo, is_sub_pi}
use device_app.DeviceManager.{Devices}
use device_app.DeviceManager.Registry.{EntryFits, IsConsistent}
use device_app.Relay.{Rtsp, path_of, pipeline_str}
use device_app.Relay.Following.{Follows}
use device_app.DeviceController.{listed_url}
use Prim.Native.String.{◌++◌ as append}
use text.Mathlib.TextLemmas.{append_assoc}

-- While the relays follow a consistent registry, the URL that the camera list gives for an online
-- Sub-Pi names port 8554 of the server and a path at which the RTSP server relays that Sub-Pi's
-- port.
pub listed_url_is_relayed :
    (to_string : ℕ → String) (local_ip id : String) (d : DeviceInfo) (devices : Devices) (s : Rtsp)
    → IsConsistent devices
    → Follows to_string s devices
    → find id devices ≡ some d
    → is_sub_pi d.type ≡ true
    → d.is_online ≡ true
    → (listed_url local_ip d ≡ append "rtsp://" (append local_ip (append ":8554" (path_of id))))
      × (find (path_of id) s.factories ≡ some (pipeline_str to_string d))
unfolding listed_url
listed_url_is_relayed to_string local_ip id d devices s c f e k on =
    let key = (All-find EntryFits id d devices c e).key in
    (
      rw (k, key) (ap (λ x. append "rtsp://" (append local_ip x)) (append_assoc ":8554" "/" id)),
      f.relays id ∙ rw (e, k, on) refl,
    )
