-- ===== src/Relay/Following.antt =====
-- The relay paths and the registry, through the callbacks of DeviceServer/src/DeviceController.cpp.
use device_app.Base.{
  ℕ, ◌≡◌, refl, ap, ◌∙◌, ◌⊎◌, inl, inr, String, List, [], ◌∷◌, Option, none, some, Bool, true, ◌&&◌,
  if◌then◌else◌, ◌==◌, text_key, arith, Option-cases, eq_iff, Bool-cases, elem, All,
}
use device_app.Base.Map.{find, find-insert, All-find}
use device_app.Device.{DeviceInfo, is_sub_pi}
use device_app.DeviceManager.{Devices, Notice, is_registered, on_sub_pi_found, on_hanwha_found}
use device_app.DeviceManager.Registry.{
  EntryFits, IsConsistent, Event, FromScanner, on_sub_pi_found-IsConsistent,
  on_hanwha_found-IsConsistent, take_all_offline-IsConsistent,
}
use device_app.DeviceManager.Monitor.{Health, take_all_offline, removed_notices}
use device_app.DeviceManager.Monitor.Sweep.{sweep_exact, gone}
use device_app.Relay.Paths.{find-add_relay_path, mounted-add_relay_path, relays-removed}
use device_app.Relay.{Rtsp, path_of, pipeline_str, after_notice, after_notices}

module _ (to_string : ℕ → String) where
  -- The factory that an entry calls for.
  abbrev pub wanted : Option DeviceInfo → Option String
  wanted none = none
  wanted (some d) =
      if is_sub_pi d.type && d.is_online then some (pipeline_str to_string d) else none

  -- The relay paths are those of the online Sub-Pis, each with the port of its entry.
  pub record Follows (s : Rtsp) (devices : Devices) : Type 0 where
    pub mounted : s.mounted ≡ true
    pub relays : (c : String) → find (path_of c) s.factories ≡ wanted (find c devices)

  -- What a discovery callback made of the registry, and the callbacks that it made.
  abbrev pub Found : Devices → String → Devices × List Notice → Type 0
  Found devices id r =
      (r ≡ (devices, []))
      ⊎ ((d : DeviceInfo) × (d.id ≡ id)
          × (d.is_online ≡ true)
          × (wanted (find id devices) ≡ none)
          × (r.1 ≡ Notice.registered d ∷ Notice.changed ∷ [])
          × ((c : String) → find c r.0 ≡ (if id == c then some d else find c devices)))

  on_sub_pi_found-Found :
      (devices : Devices) (info : DeviceInfo)
      → IsConsistent devices
      → info.is_online ≡ true
      → Found devices info.id (on_sub_pi_found devices info)
  unfolding on_sub_pi_found
  on_sub_pi_found-Found devices info h on = elim (Option-cases (find info.id devices)) [
    | inl e ↦ inr (
      info,
      refl,
      on,
      rw e refl,
      rw (e, on_sub_pi_found) refl,
      λ c. rw (e, on_sub_pi_found) (find-insert info.id c info devices),
    )
    | inr (d, e) ↦
        let key = (All-find EntryFits info.id d devices h e).key in
        let recovered : DeviceInfo = record d {
          is_online = true;
          command_socket_fd = info.command_socket_fd;
          udp_listen_port = info.udp_listen_port;
        } in
        elim (Bool-cases d.is_online) [
          | inl up ↦ inl (rw (e, on_sub_pi_found, up) refl)
          | inr down ↦ inr (
            recovered,
            key,
            refl,
            rw e (ground arith),
            rw (e, on_sub_pi_found, down) refl,
            λ c. rw (e, on_sub_pi_found, down) (find-insert info.id c recovered devices),
          )
        ]
  ]

  pub on_hanwha_found-Found :
      (devices : Devices) (info : DeviceInfo)
      → IsConsistent devices
      → info.is_online ≡ true
      → Found devices info.id (on_hanwha_found devices info)
  unfolding on_hanwha_found
  on_hanwha_found-Found devices info h on = elim (Option-cases (find info.id devices)) [
    | inl e ↦ inr (
      info,
      refl,
      on,
      rw e refl,
      rw (e, on_hanwha_found) refl,
      λ c. rw (e, on_hanwha_found) (find-insert info.id c info devices),
    )
    | inr (d, e) ↦
        let key = (All-find EntryFits info.id d devices h e).key in
        let recovered : DeviceInfo = record d { is_online = true } in
        elim (Bool-cases d.is_online) [
          | inl up ↦ inl (rw (e, on_hanwha_found, up) refl)
          | inr down ↦ inr (
            recovered,
            key,
            refl,
            rw e (ground arith),
            rw (e, on_hanwha_found, down) refl,
            λ c. rw (e, on_hanwha_found, down) (find-insert info.id c recovered devices),
          )
        ]
  ]

  Found-Follows :
      (devices : Devices) (id : String) (r : Devices × List Notice) (s : Rtsp)
      → Found devices id r
      → Follows s devices
      → Follows (after_notices to_string s r.1) r.0
  unfolding after_notices after_notice
  Found-Follows devices id r s (inl e) f = rw (ap (λ p. p.0) e, ap (λ p. p.1) e, after_notices) f
  Found-Follows devices id r s (inr (d, same, up, off, notices, found)) f =
      rw (notices, after_notices)
        (record {
          mounted = mounted-add_relay_path to_string d s ∙ f.mounted;
          relays = λ c.
              find-add_relay_path to_string d s c f.mounted
              ∙ rw (found c) (ground (arith, same, up, off, f.relays c, eq_iff id c));
        })

  -- The relay of one entry after a sweep.
  swept_relay :
      (b : Bool) (o : Option DeviceInfo) (devices : Devices) (c : String) (s : Rtsp)
      → find c devices ≡ o
      → find (path_of c) s.factories ≡ wanted o
      → (if b && is_registered devices c then none else find (path_of c) s.factories)
        ≡ wanted (if b then gone o else o)
  unfolding is_registered
  swept_relay b none devices c s e f = ground (arith, e, f)
  swept_relay b (some d) devices c s e f = ground (arith, e, f)

  -- The registry and the relays after a callback of a scanner, or after a sweep over failed devices,
  -- when its notices are dealt with before the next.
  module _ {W : Type 0} (health : Health W) where
    unfoldable pub after : Devices × Rtsp → W → Event → Devices × Rtsp
    after (devices, s) w (Event.beacon info) =
        let r = on_sub_pi_found devices info in (r.0, after_notices to_string s r.1)
    after (devices, s) w (Event.scan info) =
        let r = on_hanwha_found devices info in (r.0, after_notices to_string s r.1)
    after (devices, s) w (Event.sweep ids) =
        let r =
          take_all_offline health ids (record { devices = devices; removed_ids = []; world = w }) in
        (r.devices, after_notices to_string s (removed_notices r.removed_ids))

    pub after_all : Devices × Rtsp → List (W × Event) → Devices × Rtsp
    after_all p [] = p
    after_all p ((w, e) ∷ rest) = after_all (after p w e) rest

    sweep-Follows :
        (ids : List String) (devices : Devices) (w : W) (s : Rtsp)
        → Follows s devices
        → let r =
            take_all_offline health ids
              (record { devices = devices; removed_ids = []; world = w }) in
          Follows (after_notices to_string s (removed_notices r.removed_ids)) r.devices
    sweep-Follows ids devices w s f =
        let r =
          take_all_offline health ids (record { devices = devices; removed_ids = []; world = w }) in
        let gone_relays = relays-removed to_string r.removed_ids s f.mounted in
        record {
          mounted = gone_relays.0;
          relays = λ c.
              let (found, named) = sweep_exact health ids devices w c in
              gone_relays.1 c
              ∙ rw (found, named)
                  (swept_relay (elem c ids) (find c devices) devices c s refl (f.relays c));
        }

    pub Follows-both :
        (devices : Devices) (s : Rtsp) (w : W) (e : Event)
        → FromScanner e
        → IsConsistent devices × Follows s devices
        → IsConsistent (after (devices, s) w e).0
          × Follows (after (devices, s) w e).1 (after (devices, s) w e).0
    unfolding after
    Follows-both devices s w (Event.beacon info) g (c, f) = (
      on_sub_pi_found-IsConsistent devices info c g,
      Found-Follows devices info.id _ s (on_sub_pi_found-Found devices info c g.0) f,
    )
    Follows-both devices s w (Event.scan info) g (c, f) = (
      on_hanwha_found-IsConsistent devices info c g,
      Found-Follows devices info.id _ s (on_hanwha_found-Found devices info c g.0) f,
    )
    Follows-both devices s w (Event.sweep ids) g (c, f) =
        (take_all_offline-IsConsistent health ids _ c, sweep-Follows ids devices w s f)

    -- From a consistent registry that the relays follow, through beacons and scans of online
    -- devices that fit their ids and sweeps over any ids, in any order, each with its callbacks
    -- made before the next, the relay paths remain exactly those of the online Sub-Pis, each with
    -- the port that the registry holds for it.
    pub relays_follow_registry :
        (devices : Devices) (s : Rtsp) (es : List (W × Event))
        → IsConsistent devices
        → Follows s devices
        → All (λ e. FromScanner e.1) es
        → Follows (after_all (devices, s) es).1 (after_all (devices, s) es).0
    unfolding after_all
    relays_follow_registry devices s [] c f g = f
    relays_follow_registry devices s ((w, e) ∷ rest) c f g =
        let (c', f') = Follows-both devices s w e g.0 (c, f) in
        relays_follow_registry (after (devices, s) w e).0 (after (devices, s) w e).1 rest c' f' g.1
