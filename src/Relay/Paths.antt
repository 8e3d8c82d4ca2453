-- ===== src/Relay/Paths.antt =====
-- The relay paths after a callback.
use device_app.Base.{
  ℕ, ◌≡◌, refl, ◌∙◌, String, List, [], ◌∷◌, none, some, true, ◌&&◌, if◌then◌else◌, ◌==◌, text_key,
  arith, eq_iff, elem,
}
use device_app.Base.Map.{find, erase, find-insert, find-erase}
use device_app.Device.{DeviceInfo, is_sub_pi}
use device_app.DeviceManager.Monitor.{removed_notices}
use device_app.Relay.{
  Rtsp, path_of, remove_relay_path, pipeline_str, add_relay_path, after_notice, after_notices,
}
use Prim.Native.String.{◌++◌ as append}
use text.Mathlib.TextLemmas.{append_cancel_left}

pub path_test : (a b : String) → (path_of a == path_of b) ≡ (a == b)
path_test a b =
    ground (arith, eq_iff a b, eq_iff (append "/" a) (append "/" b), append_cancel_left "/" a b)

pub mounted-remove_relay_path :
    (id : String) (s : Rtsp) → (remove_relay_path id s).mounted ≡ s.mounted
unfolding remove_relay_path
mounted-remove_relay_path id s = ground arith

pub find-remove_relay_path :
    (id : String) (s : Rtsp) (c : String)
    → s.mounted ≡ true
    → find (path_of c) (remove_relay_path id s).factories
      ≡ (if id == c then none else find (path_of c) s.factories)
unfolding remove_relay_path
find-remove_relay_path id s c on =
    ground (arith, on, path_test id c, find-erase (path_of id) (path_of c) s.factories)

module _ (to_string : ℕ → String) where
  pub find-add_relay_path :
      (d : DeviceInfo) (s : Rtsp) (c : String)
      → s.mounted ≡ true
      → find (path_of c) (add_relay_path to_string d s).factories ≡ (
          if is_sub_pi d.type && (d.id == c)
          then some (pipeline_str to_string d)
          else find (path_of c) s.factories)
  unfolding add_relay_path remove_relay_path
  find-add_relay_path d s c on =
      rw (on, add_relay_path)
        (ground (
          arith,
          path_test d.id c,
          on,
          find-insert (path_of d.id) (path_of c) (pipeline_str to_string d)
              (erase (path_of d.id) s.factories),
          find-erase (path_of d.id) (path_of c) s.factories,
        ))

  pub mounted-add_relay_path :
      (d : DeviceInfo) (s : Rtsp) → (add_relay_path to_string d s).mounted ≡ s.mounted
  unfolding add_relay_path remove_relay_path
  mounted-add_relay_path d s = ground arith

  pub relays-removed :
      (ids : List String) (s : Rtsp)
      → s.mounted ≡ true
      → let s' = after_notices to_string s (removed_notices ids) in
        (s'.mounted ≡ true)
        × ((c : String)
            → find (path_of c) s'.factories
              ≡ (if elem c ids then none else find (path_of c) s.factories))
  unfolding removed_notices after_notices after_notice
  relays-removed [] s on = (on, λ c. refl)
  relays-removed (id ∷ ids) s on =
      let more =
        relays-removed ids (remove_relay_path id s) (mounted-remove_relay_path id s ∙ on) in
      (
        more.0,
        λ c. more.1 c ∙ ground (arith, eq_iff id c, eq_iff c id, find-remove_relay_path id s c on),
      )
