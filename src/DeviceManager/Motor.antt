-- ===== src/DeviceManager/Motor.antt =====
-- Whom a motor command reaches.
use device_app.Base.{
  ℕ, String, ◌≡◌, refl, ◌⊎◌, inl, inr, [], ◌∷◌, none, some, true, false, text_key, arith,
  Option-cases, eq_iff, length,
}
use device_app.Wire.{MessageType, Bytes, header_be}
use device_app.Net.{Net, NetLaws, join}
use device_app.Net.Transfer.{Delivers, send_parts-Delivers}
use device_app.Json.{JsonLib}
use device_app.Device.{DeviceType, DeviceInfo, is_sub_pi}
use device_app.DeviceManager.{Devices, find_command_fd, send_motor_command, motor_body}
use device_app.DeviceManager.Registry.{IsConsistent}

-- Some entry of the registry satisfies the predicate.
abbrev pub Some : (DeviceInfo → Type 0) → Devices → Type 0
Some P [] = ⊥
Some P ((id, d) ∷ rest) = P d ⊎ Some P rest

-- An online Sub-Pi at the address.
abbrev pub Target : String → DeviceInfo → Type 0
Target ip d = (d.type ≡ DeviceType.sub_pi) × (d.is_online ≡ true) × (d.ip ≡ ip)

is_sub_pi_eq : (t : DeviceType) → is_sub_pi t ≡ true → t ≡ DeviceType.sub_pi
is_sub_pi_eq DeviceType.sub_pi h = refl
is_sub_pi_eq DeviceType.hanwha h = cc

find_command_fd-some :
    (ip : String) (fd : ℕ) (devices : Devices)
    → find_command_fd ip devices ≡ some fd
    → Some (λ d. Target ip d × (d.command_socket_fd ≡ some fd)) devices
unfolding find_command_fd
find_command_fd-some ip fd [] h = cc
find_command_fd-some ip fd ((id, d) ∷ rest) h =
    ground (arith, eq_iff d.ip ip, is_sub_pi_eq d.type, find_command_fd-some ip fd rest)

find_command_fd-none :
    (ip : String) (devices : Devices)
    → IsConsistent devices
    → find_command_fd ip devices ≡ none
    → ¬ Some (Target ip) devices
unfolding find_command_fd
find_command_fd-none ip [] c h s = elim s [ ]
find_command_fd-none ip ((id, d) ∷ rest) (fits, c) h s =
    ground (arith, eq_iff d.ip ip, fits.socket, find_command_fd-none ip rest c)

module _ {W J : Type 0} (net : Net W) (law : NetLaws net) (js : JsonLib J) where
  abbrev pub motor_frame : String → String → Bytes
  motor_frame ip motor =
      let body = motor_body net js ip motor in
      join (header_be MessageType.device (length body) ∷ body ∷ [])

  -- In a consistent registry a motor command goes, as one DEVICE frame of which a failing send may
  -- cut off the end, down the command socket of an online Sub-Pi with the wanted address and to no
  -- other descriptor; if there is no such Sub-Pi, and only then, it is refused and nothing is sent.
  pub motor_delivered_or_refused :
      (devices : Devices) (ip motor : String) (w : W)
      → IsConsistent devices
      → let r = send_motor_command net js devices ip motor w in
        ((fd : ℕ) × Some (λ d. Target ip d × (d.command_socket_fd ≡ some fd)) devices
          × Delivers law fd (motor_frame ip motor) w r)
        ⊎ ((¬ Some (Target ip) devices) × (r ≡ (false, w)))
  unfolding send_motor_command
  motor_delivered_or_refused devices ip motor w c =
      elim (Option-cases (find_command_fd ip devices)) [
        | inl e ↦ inr (find_command_fd-none ip devices c e, rw (e, send_motor_command))
        | inr (fd, e) ↦
            rw (e, send_motor_command)
              (inl (fd, find_command_fd-some ip fd devices e, send_parts-Delivers net law fd _ w))
      ]
