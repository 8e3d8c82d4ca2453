-- ===== src/DeviceServer/Relaying.antt =====
-- A new Sub-Pi through the parts of the DeviceServer: its command, its entry, its relay and its URL.
use device_app.Base.{String, ◌++◌, text_key}
use device_app.Net.{Net}
use device_app.DeviceServer.Sound.{Sound}
use Prim.Native.String.{◌++◌ as append}
