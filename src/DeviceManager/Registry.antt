-- ===== src/DeviceManager/Registry.antt =====
-- The registry's invariant, what each callback does to it, and whom a motor command can reach.
use device_app.Base.{
  String, ◌≡◌, sym, ap, ◌∙◌, inl, inr, List, [], ◌∷◌, Bool, true, ◌&&◌, not, text_key, is_some, All,
  arith, Option-cases, if_cases,
}
use device_app.Base.Map.{find, All-insert, All-find}
use device_app.Device.{DeviceType, DeviceInfo, is_sub_pi}
use device_app.DeviceManager.{Devices, Notice, on_sub_pi_found, on_hanwha_found}
use device_app.DeviceManager.Monitor.{Swept, Health, offline, take_offline, take_all_offline}
use text.Mathlib.Text.{starts_with}

-- Ids of Sub-Pis begin with "SubPi_".
unfoldable pub names_sub_pi : String → Bool
names_sub_pi id = starts_with id "SubPi_"

-- An entry's key is its id, the id tells the type, and a command socket is held exactly by an
-- online Sub-Pi.
pub record EntryFits (e : String × DeviceInfo) : Type 0 where
  pub key : e.1.id ≡ e.0
  pub kind : is_sub_pi e.1.type ≡ names_sub_pi e.0
  pub socket : is_some e.1.command_socket_fd ≡ (is_sub_pi e.1.type && e.1.is_online)

abbrev pub IsConsistent : Devices → Type 0
IsConsistent devices = All EntryFits devices

-- What a scanner hands over: an online device that fits its id.
abbrev pub IsFound : DeviceType → DeviceInfo → Type 0
IsFound t info = (info.is_online ≡ true) × (info.type ≡ t) × EntryFits (info.id, info)

recover_fits :
    (info existing : DeviceInfo)
    → IsFound DeviceType.sub_pi info
    → EntryFits (info.id, existing)
    → EntryFits (
      info.id,
      record existing {
        is_online = true;
        command_socket_fd = info.command_socket_fd;
        udp_listen_port = info.udp_listen_port;
      },
    )
recover_fits info existing f e = record {
  key = e.key;
  kind = e.kind;
  socket = cc (f.0, f.2.kind, f.2.socket, e.kind);
}

pub on_sub_pi_found-IsConsistent :
    (devices : Devices) (info : DeviceInfo)
    → IsConsistent devices
    → IsFound DeviceType.sub_pi info
    → IsConsistent (on_sub_pi_found devices info).0
unfolding on_sub_pi_found
on_sub_pi_found-IsConsistent devices info h f = elim (Option-cases (find info.id devices)) [
  | inl e ↦ rw (e, on_sub_pi_found) (All-insert EntryFits info.id info devices h f.2)
  | inr (d, e) ↦
      rw (e, on_sub_pi_found)
        (if_cases (λ (r : Devices × List Notice). IsConsistent r.0) (not d.is_online) _ _
          (λ _.
            All-insert EntryFits info.id _ devices h
              (recover_fits info d f (All-find EntryFits info.id d devices h e)))
          (λ _. h))
]

again_fits :
    (info existing : DeviceInfo)
    → IsFound DeviceType.hanwha info
    → EntryFits (info.id, existing)
    → EntryFits (info.id, record existing { is_online = true })
again_fits info existing f e = record {
  key = e.key;
  kind = e.kind;
  socket = ground (arith, e.kind ∙ sym f.2.kind ∙ ap is_sub_pi f.1);
}

pub on_hanwha_found-IsConsistent :
    (devices : Devices) (info : DeviceInfo)
    → IsConsistent devices
    → IsFound DeviceType.hanwha info
    → IsConsistent (on_hanwha_found devices info).0
unfolding on_hanwha_found
on_hanwha_found-IsConsistent devices info h f = elim (Option-cases (find info.id devices)) [
  | inl e ↦ rw (e, on_hanwha_found) (All-insert EntryFits info.id info devices h f.2)
  | inr (d, e) ↦
      rw (e, on_hanwha_found)
        (if_cases (λ (r : Devices × List Notice). IsConsistent r.0) (not d.is_online) _ _
          (λ _.
            All-insert EntryFits info.id _ devices h
              (again_fits info d f (All-find EntryFits info.id d devices h e)))
          (λ _. h))
]

offline_fits :
    (id : String) (info : DeviceInfo) → EntryFits (id, info) → EntryFits (id, offline info)
offline_fits id info e = record { key = e.key; kind = e.kind; socket = ground (arith, e.socket) }

module _ {W : Type 0} (health : Health W) where
  take_offline-IsConsistent :
      (id : String) (s : Swept W)
      → IsConsistent s.devices
      → IsConsistent (take_offline health id s).devices
  unfolding take_offline
  take_offline-IsConsistent id s h = elim (Option-cases (find id s.devices)) [
    | inl e ↦ rw (e, take_offline) h
    | inr (d, e) ↦
        rw (e, take_offline)
          (if_cases (λ (r : Swept W). IsConsistent r.devices) (not d.is_online) _ _ (λ _. h)
            (λ _.
              All-insert EntryFits id _ s.devices h
                (offline_fits id d (All-find EntryFits id d s.devices h e))))
  ]

  pub take_all_offline-IsConsistent :
      (ids : List String) (s : Swept W)
      → IsConsistent s.devices
      → IsConsistent (take_all_offline health ids s).devices
  unfolding take_all_offline
  take_all_offline-IsConsistent [] s h = h
  take_all_offline-IsConsistent (id ∷ ids) s h =
      take_all_offline-IsConsistent ids (take_offline health id s)
        (take_offline-IsConsistent id s h)

-- The critical sections of the threads that write the registry.
pub data Event : Type 0 where
  beacon : DeviceInfo → Event
  scan : DeviceInfo → Event
  sweep : List String → Event

abbrev pub FromScanner : Event → Type 0
FromScanner (beacon info) = IsFound DeviceType.sub_pi info
FromScanner (scan info) = IsFound DeviceType.hanwha info
FromScanner (sweep ids) = Unit {0}

module _ {W : Type 0} (health : Health W) where
  pub after_event : Devices → W → Event → Devices
  after_event devices w (beacon info) = (on_sub_pi_found devices info).0
  after_event devices w (scan info) = (on_hanwha_found devices info).0
  after_event devices w (sweep ids) =
      (take_all_offline health ids
        (record { devices = devices; removed_ids = []; world = w })).devices

  pub after_events : Devices → List (W × Event) → Devices
  after_events devices [] = devices
  after_events devices ((w, e) ∷ rest) = after_events (after_event devices w e) rest

  after_event-IsConsistent :
      (devices : Devices) (w : W) (e : Event)
      → FromScanner e
      → IsConsistent devices
      → IsConsistent (after_event devices w e)
  unfolding after_event
  after_event-IsConsistent devices w (beacon info) f h =
      on_sub_pi_found-IsConsistent devices info h f
  after_event-IsConsistent devices w (scan info) f h = on_hanwha_found-IsConsistent devices info h f
  after_event-IsConsistent devices w (sweep ids) f h = take_all_offline-IsConsistent health ids _ h

  -- Whatever the order in which sweeps over any ids, and beacons and scans of online devices that
  -- fit their ids, take the lock, starting from a consistent registry, each entry stays under its
  -- own id with the type that its id names, and holds a command socket exactly while it is an
  -- online Sub-Pi.
  pub after_events-IsConsistent :
      (devices : Devices) (es : List (W × Event))
      → IsConsistent devices
      → All (λ e. FromScanner e.1) es
      → IsConsistent (after_events devices es)
  unfolding after_events
  after_events-IsConsistent devices [] h f = h
  after_events-IsConsistent devices ((w, e) ∷ rest) h f =
      after_events-IsConsistent (after_event devices w e) rest
        (after_event-IsConsistent devices w e f.0 h) f.1
