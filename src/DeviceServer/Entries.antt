-- ===== src/DeviceServer/Entries.antt =====
-- What the DeviceServer's threads write into the registry: the entries' ids, kinds and ports.
use device_app.Base.{
  ℕ, ◌≡◌, refl, sym, ap, ◌∙◌, inl, inr, String, List, [], Option, none, some, Bool, true, false,
  if◌then◌else◌, ◌==◌, text_key, nat_eq, Bool-cases, eq_iff, elem,
}
use mathlib.Core.Option.{some-injective}
use device_app.Base.Map.{find, All-find}
use device_app.Wire.{Bytes}
use device_app.Net.{Net}
use device_app.Device.{DeviceType, DeviceInfo, is_sub_pi}
use device_app.DeviceManager.{Devices, on_hanwha_found}
use device_app.DeviceManager.Registry.{
  EntryFits, IsConsistent, IsFound, names_sub_pi, on_hanwha_found-IsConsistent,
}
use device_app.DeviceManager.Monitor.{Health, take_all_offline}
use device_app.DeviceManager.Monitor.Sweep.{sweep_exact, gone}
use device_app.SubPi.Beacon.{new_board}
use device_app.SubPi.Beacon.Ports.{IsPorted}
use device_app.Onvif.{channel}
use device_app.Relay.Following.{on_hanwha_found-Found}
use text.Mathlib.Text.{starts_with}
use text.Mathlib.TextEquality.{starts_with_iff}
use text.Mathlib.TextPositions.{starts_with-append}
use text.Mathlib.TextLemmas.{cons-append, head-eq_of_cons-eq}
use Prim.Native.Char.{Char, code}
use Prim.Native.String.{◌++◌ as append}

pub new_board-IsFound :
    {W : Type 0} (net : Net W) (health : Health W) (port_bytes : ℕ → Bytes) (ip : String)
    (port fd : ℕ)
    → IsFound DeviceType.sub_pi (new_board net health port_bytes ip port fd)
unfolding names_sub_pi
new_board-IsFound net health port_bytes ip port fd =
    (refl, refl, record { key = refl; kind = sym (starts_with-append "SubPi_" ip); socket = refl })

no_sub_pi : (t : String) → names_sub_pi (append "Hanwha_" t) ≡ false
unfolding names_sub_pi
no_sub_pi t = elim (Bool-cases (starts_with (append "Hanwha_" t) "SubPi_")) [
  | inl e ↦
      let (u, same) = (starts_with_iff (append "Hanwha_" t) "SubPi_").0 e in
      let heads : Path Char "S" "H" =
        head-eq_of_cons-eq (sym (cons-append "S" "ubPi_" u) ∙ same ∙ cons-append "H" "anwha_" t) in
      let apart : true ≡ false = ap (λ c. nat_eq (code c) 83) heads in cc apart
  | inr e ↦ e
]

pub channel-IsFound :
    (to_string : ℕ → String) (ip : String) (i : ℕ) (url : String)
    → IsFound DeviceType.hanwha (channel to_string ip i url)
channel-IsFound to_string ip i url =
    (refl, refl, record { key = refl; kind = sym (no_sub_pi _); socket = refl })

-- A change that gives no Sub-Pi another port, and makes none.
kept-IsPorted :
    (devices devices' : Devices) (next : ℕ)
    → IsPorted devices next
    → ((c : String) (d : DeviceInfo)
        → find c devices' ≡ some d
        → is_sub_pi d.type ≡ true
        → (e : DeviceInfo) × (find c devices ≡ some e)
          × (is_sub_pi e.type ≡ true)
          × (e.udp_listen_port ≡ d.udp_listen_port))
    → IsPorted devices' next
kept-IsPorted devices devices' next p old = record {
  below = λ a d e k. let (d₀, e₀, k₀, same) = old a d e k in rw (sym same) (p.below a d₀ e₀ k₀);
  apart = λ a b d x e f k l same.
      let (d₀, e₀, k₀, same₀) = old a d e k in
      let (x₀, f₀, l₀, same₁) = old b x f l in
      p.apart a b d₀ x₀ e₀ f₀ k₀ l₀ (same₀ ∙ same ∙ sym same₁);
}

-- What a sweep leaves of an entry keeps its kind and its port.
swept_port :
    (b : Bool) (o : Option DeviceInfo) (d : DeviceInfo)
    → (if b then gone o else o) ≡ some d
    → is_sub_pi d.type ≡ true
    → (e : DeviceInfo) × (o ≡ some e)
      × (is_sub_pi e.type ≡ true)
      × (e.udp_listen_port ≡ d.udp_listen_port)
swept_port true none d h k = cc h
swept_port false none d h k = cc h
swept_port false (some e) d h k = (e, refl, cc (some-injective e d h, k), cc (some-injective e d h))
swept_port true (some e) d h k = elim (Bool-cases e.is_online) [
  | inl on ↦
      let same = some-injective _ d (rw on at h) in
      (e, refl, ap (λ x. is_sub_pi x.type) same ∙ k, ap (λ x. x.udp_listen_port) same)
  | inr off ↦
      let same = some-injective _ d (rw off at h) in
      (e, refl, ap (λ x. is_sub_pi x.type) same ∙ k, ap (λ x. x.udp_listen_port) same)
]

module _ {W : Type 0} (health : Health W) where
  pub sweep-IsPorted :
      (ids : List String) (devices : Devices) (w : W) (next : ℕ)
      → IsPorted devices next
      → IsPorted
          (take_all_offline health ids
            (record { devices = devices; removed_ids = []; world = w })).devices
          next
  sweep-IsPorted ids devices w next p = kept-IsPorted devices _ next p (λ c d e k.
      let (found, named) = sweep_exact health ids devices w c in
      swept_port (elem c ids) (find c devices) d (sym found ∙ e) k)

pub channel-IsPorted :
    (to_string : ℕ → String) (devices : Devices) (info : DeviceInfo) (next : ℕ)
    → IsConsistent devices
    → IsFound DeviceType.hanwha info
    → IsPorted devices next
    → IsPorted (on_hanwha_found devices info).0 next
channel-IsPorted to_string devices info next h f p =
    let camera : names_sub_pi info.id ≡ false = sym f.2.kind ∙ ap is_sub_pi f.1 in
    elim (on_hanwha_found-Found to_string devices info h f.0) [
      | inl e ↦ rw (ap (λ r. r.0) e) p
      | inr (d, same, up, off, notices, found) ↦ kept-IsPorted devices _ next p (λ c x e k.
          elim (Bool-cases (info.id == c)) [
            | inl q ↦
                let fits =
                  All-find EntryFits c x _ (on_hanwha_found-IsConsistent devices info h f) e in
                let named = ap names_sub_pi ((eq_iff info.id c).0 q) in
                cc (camera, named, fits.kind, k)
            | inr q ↦ (x, sym (rw q at (found c)) ∙ e, k, refl)
          ])
    ]
