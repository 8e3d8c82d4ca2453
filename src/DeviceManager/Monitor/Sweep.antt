-- ===== src/DeviceManager/Monitor/Sweep.antt =====
-- Stage 3 of a monitoring round: which entries change, and which ids are reported.
use device_app.Base.{
  elem-append, String, ◌≡◌, refl, inl, inr, List, [], ◌∷◌, Option, none, some, ◌&&◌, ◌||◌, not,
  ◌==◌, text_key, if◌then◌else◌, elem, arith, Bool-cases, Option-cases, eq_iff, if_cases,
}
use device_app.Base.Map.{find, find-insert}
use device_app.Device.{DeviceInfo}
use device_app.DeviceManager.{Devices, is_registered}
use device_app.DeviceManager.Monitor.{Swept, Health, offline, take_offline, take_all_offline}

-- An entry after it was taken offline; an offline one stays as it is.
abbrev pub gone : Option DeviceInfo → Option DeviceInfo
gone none = none
gone (some d) = some (if not d.is_online then d else offline d)

gone_idem : (o : Option DeviceInfo) → gone (gone o) ≡ gone o
gone_idem none = refl
gone_idem (some d) = ground arith

module _ {W : Type 0} (health : Health W) where
  find-take_offline :
      (id c : String) (s : Swept W)
      → find c (take_offline health id s).devices
        ≡ (if id == c then gone (find c s.devices) else find c s.devices)
  unfolding take_offline
  find-take_offline id c s = elim (Option-cases (find id s.devices)) [
    | inl e ↦
        rw (e, take_offline)
          (elim (Bool-cases (id == c)) [
            | inl same ↦ rw same (ground (arith, eq_iff id c))
            | inr other ↦ rw other refl
          ])
    | inr (d, e) ↦
        rw (e, take_offline)
          (elim (Bool-cases (id == c)) [
            | inl same ↦
                rw same (ground (arith, eq_iff id c, find-insert id c (offline d) s.devices))
            | inr other ↦ rw other (ground (arith, find-insert id c (offline d) s.devices))
          ])
  ]

  find-take_all_offline :
      (ids : List String) (c : String) (s : Swept W)
      → find c (take_all_offline health ids s).devices
        ≡ (if elem c ids then gone (find c s.devices) else find c s.devices)
  unfolding take_all_offline
  find-take_all_offline [] c s = refl
  find-take_all_offline (id ∷ ids) c s = ground (
    arith,
    eq_iff id c,
    eq_iff c id,
    find-take_all_offline ids c (take_offline health id s),
    find-take_offline id c s,
    gone_idem (find c s.devices),
  )

  is_registered-take_offline :
      (id c : String) (s : Swept W)
      → is_registered (take_offline health id s).devices c
        ≡ (not (id == c) && is_registered s.devices c)
  unfolding is_registered
  is_registered-take_offline id c s = ground (arith, find-take_offline id c s, eq_iff id c)

  elem-take_offline :
      (id c : String) (s : Swept W)
      → elem c (take_offline health id s).removed_ids
        ≡ (elem c s.removed_ids || (id == c && is_registered s.devices c))
  unfolding take_offline is_registered
  elem-take_offline id c s = elim (Option-cases (find id s.devices)) [
    | inl e ↦ rw (e, take_offline) (ground (arith, eq_iff id c, e))
    | inr (d, e) ↦
        rw (e, take_offline)
          (if_cases
            (λ (r : Swept W).
              elem c r.removed_ids
              ≡ (elem c s.removed_ids || (id == c && is_registered s.devices c)))
            (not d.is_online) _ _ (λ off. ground (arith, eq_iff id c, e))
            (λ on.
              ground (arith, eq_iff id c, eq_iff c id, e, elem-append c s.removed_ids (id ∷ []))))
  ]

  elem-take_all_offline :
      (ids : List String) (c : String) (s : Swept W)
      → elem c (take_all_offline health ids s).removed_ids
        ≡ (elem c s.removed_ids || (elem c ids && is_registered s.devices c))
  unfolding take_all_offline
  elem-take_all_offline [] c s = ground arith
  elem-take_all_offline (id ∷ ids) c s = ground (
    arith,
    eq_iff id c,
    eq_iff c id,
    elem-take_all_offline ids c (take_offline health id s),
    elem-take_offline id c s,
    is_registered-take_offline id c s,
  )

  -- After a sweep over any ids, with repetitions or unknown ones among them: exactly the entries
  -- that the sweep names are offline, a Sub-Pi's without its command socket, every other entry is
  -- as it was, and the ids reported as removed are exactly the named ones that were online.
  pub sweep_exact :
      (ids : List String) (devices : Devices) (w : W) (c : String)
      → let s =
          take_all_offline health ids (record { devices = devices; removed_ids = []; world = w }) in
        (find c s.devices ≡ (if elem c ids then gone (find c devices) else find c devices))
        × (elem c s.removed_ids ≡ (elem c ids && is_registered devices c))
  sweep_exact ids devices w c = (find-take_all_offline ids c _, elem-take_all_offline ids c _)
