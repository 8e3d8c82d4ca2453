-- ===== src/Onvif/Blocking.antt =====
-- The failure counts of the scanner in DeviceServer/src/OnvifScanner.cpp.
use device_app.Base.{
  ℕ, ◌+◌, ◌≡◌, refl, ap, String, List, [], ◌∷◌, ◌++◌, Bool, true, leb, ◌==◌, text_key, arith,
  Bool-cases, Option-cases, inl, inr, eq_iff, if_cases, is_empty, not, filter,
}
use device_app.Base.Map.{Map, find, find-insert}
use device_app.DeviceManager.{Notice, is_registered}
use device_app.Onvif.{
  Probes, Scanner, failures, touched, queried, found_address, probe_replies, reply_turn,
  get_rtsp_urls,
}
use device_app.Onvif.Text.{contains}
use Prim.Native.String.{◌++◌ as append}

-- The address has failed.
unfoldable pub is_blocked : String → Map String ℕ → Bool
is_blocked ip counts = leb 1 (failures ip counts)

touched-blocked :
    (ip : String) (counts : Map String ℕ) → is_blocked ip counts ≡ true → touched ip counts ≡ counts
unfolding touched is_blocked
touched-blocked ip counts h = elim (Option-cases (find ip counts)) [
  | inl e ↦ ground (arith, e)
  | inr (n, e) ↦ rw (e, touched) refl
]

is_blocked-touched :
    (ip c : String) (counts : Map String ℕ)
    → is_blocked ip counts ≡ true
    → is_blocked ip (touched c counts) ≡ true
unfolding touched is_blocked
is_blocked-touched ip c counts h = elim (Option-cases (find c counts)) [
  | inl e ↦ rw (e, touched) (ground (arith, find-insert c ip 0 counts, eq_iff c ip, e))
  | inr (n, e) ↦ rw (e, touched) h
]

module _ {W : Type 0} (probes : Probes W) (to_string : ℕ → String) (profile : ℕ) where
  found_address-blocked :
      (ip : String) (s : Scanner W)
      → is_blocked ip s.sunapi_fail_count ≡ true
      → found_address probes to_string profile ip s ≡ (s, [])
  unfolding found_address is_blocked
  found_address-blocked ip s h =
      if_cases (λ (r : Scanner W × List Notice). r ≡ (s, []))
        (is_registered s.devices (append "Hanwha_" (append ip "_CH_0"))) _ _ (λ _. refl)
        (λ _. rw h (
          ap (λ c. (record s { sunapi_fail_count = c }, []))
            (touched-blocked ip s.sunapi_fail_count h)))

  abbrev Blocked : String → Scanner W × List Notice → Type 0
  Blocked ip r = is_blocked ip r.0.sunapi_fail_count ≡ true

  queried-Blocked :
      (ip c : String) (s : Scanner W)
      → is_blocked ip s.sunapi_fail_count ≡ true
      → Blocked ip (queried probes to_string profile c s)
  unfolding queried is_blocked
  queried-Blocked ip c s h =
      let n = failures c s.sunapi_fail_count in
      if_cases (Blocked ip) (is_empty (get_rtsp_urls probes to_string profile c s.world).0) _ _
        (λ _. ground (arith, find-insert c ip (n + 1) s.sunapi_fail_count, eq_iff c ip)) (λ _. h)

  found_address-Blocked :
      (ip c : String) (s : Scanner W)
      → is_blocked ip s.sunapi_fail_count ≡ true
      → Blocked ip (found_address probes to_string profile c s)
  unfolding found_address
  found_address-Blocked ip c s h =
      let kept = is_blocked-touched ip c s.sunapi_fail_count h in
      if_cases (Blocked ip) (is_registered s.devices (append "Hanwha_" (append c "_CH_0"))) _ _
        (λ _. h)
        (λ _.
          if_cases (Blocked ip) (leb 1 (failures c s.sunapi_fail_count)) _ _ (λ _. kept)
            (λ _. queried-Blocked ip c _ kept))

  abbrev pub from_others : String → List (String × String) → List (String × String)
  from_others ip replies = filter (λ r. not (r.1 == ip)) replies

  reply_turn-Blocked :
      (ip : String) (reply : String × String) (s : Scanner W)
      → is_blocked ip s.sunapi_fail_count ≡ true
      → Blocked ip (reply_turn probes to_string profile reply s)
  unfolding reply_turn
  reply_turn-Blocked ip (response, c) s h =
      if_cases (Blocked ip) (contains "ProbeMatch" response) _ _
        (λ _. found_address-Blocked ip c s h) (λ _. h)

  reply_turn-blocked :
      (ip response c : String) (s : Scanner W)
      → is_blocked ip s.sunapi_fail_count ≡ true
      → (c == ip) ≡ true
      → reply_turn probes to_string profile (response, c) s ≡ (s, [])
  unfolding reply_turn
  reply_turn-blocked ip response c s h same =
      if_cases (λ (r : Scanner W × List Notice). r ≡ (s, [])) (contains "ProbeMatch" response) _ _
        (λ _. rw ((eq_iff c ip).0 same) (found_address-blocked ip s h)) (λ _. refl)

  -- For an address that has failed once, the collection of probe replies does exactly what it would
  -- do without any reply from that address.
  pub probe_replies-blocked :
      (ip : String) (replies : List (String × String)) (s : Scanner W)
      → is_blocked ip s.sunapi_fail_count ≡ true
      → probe_replies probes to_string profile replies s
        ≡ probe_replies probes to_string profile (from_others ip replies) s
  unfolding probe_replies
  probe_replies-blocked ip [] s h = refl
  probe_replies-blocked ip ((response, c) ∷ rest) s h = elim (Bool-cases (c == ip)) [
    | inl same ↦
        rw (same, reply_turn-blocked ip response c s h same) (probe_replies-blocked ip rest s h)
    | inr other ↦
        let r = reply_turn probes to_string profile (response, c) s in
        rw other (
          ap (λ (p : Scanner W × List Notice). (p.0, r.1 ++ p.1))
            (probe_replies-blocked ip rest r.0 (reply_turn-Blocked ip (response, c) s h)))
  ]
