-- ===== src/Device.antt =====
-- The device structures of common/Common.h.
use device_app.Base.{ℕ, String, Bool, true, false, Option}

pub data DeviceType : Type 0 where
  hanwha sub_pi : DeviceType

-- `none` is the descriptor -1.
pub record DeviceInfo : Type 0 where
  pub id : String
  pub ip : String
  pub type : DeviceType
  pub is_online : Bool
  pub source_url : String
  pub udp_listen_port : ℕ
  pub command_socket_fd : Option ℕ

abbrev pub is_sub_pi : DeviceType → Bool
is_sub_pi DeviceType.sub_pi = true
is_sub_pi DeviceType.hanwha = false
