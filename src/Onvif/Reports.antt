-- ===== src/Onvif/Reports.antt =====
-- A round of the scan in DeviceServer/src/OnvifScanner.cpp, as a sequence of reports.
use device_app.Base.{ℕ, ◌+◌, ◌≡◌, sym, String, List, [], ◌∷◌, ◌++◌, leb, if_cases, is_empty}
use device_app.DeviceManager.{Devices, Notice, on_hanwha_found, is_registered}
use device_app.Onvif.{
  Probes, Scanner, channel, report, failures, queried, found_address, reply_turn, probe_replies,
  arp_addresses, arp_fallback_scan, scan_round, get_rtsp_urls,
}
use device_app.Onvif.Text.{contains}
use mathlib.Core.Path.{subst}
use Prim.Native.String.{◌++◌ as append}

-- `after` is what the notices make of a state `R`, and `P` a property of it with the registry.
module _ {R : Type 0} (after : R → List Notice → R) (after-nil : (r : R) → after r [] ≡ r)
    (after-append : (r : R) (a b : List Notice) → after r (a ++ b) ≡ after (after r a) b)
    (P : Devices → R → Type 0) (to_string : ℕ → String)
    (found : (devices : Devices) (r : R) (ip : String) (i : ℕ) (url : String)
      → P devices r
      → let d = on_hanwha_found devices (channel to_string ip i url) in P d.0 (after r d.1)) where
  module _ {W : Type 0} (probes : Probes W) (profile : ℕ) where
    abbrev Kept : R → Scanner W × List Notice → Type 0
    Kept r (s, notices) = P s.devices (after r notices)

    unchanged : (r : R) (devices : Devices) → P devices r → P devices (after r [])
    unchanged r devices h = subst (P devices) (sym (after-nil r)) h

    report-kept :
        (ip : String) (i : ℕ) (urls : List String) (devices : Devices) (r : R)
        → P devices r
        → let d = report probes to_string profile ip i urls devices in P d.0 (after r d.1)
    unfolding report
    report-kept ip i [] devices r h = unchanged r devices h
    report-kept ip i (url ∷ urls) devices r h =
        let d = on_hanwha_found devices (channel to_string ip i url) in
        rw (after-append r d.1 (report probes to_string profile ip (i + 1) urls d.0).1)
          (report-kept ip (i + 1) urls d.0 (after r d.1) (found devices r ip i url h))

    queried-Kept :
        (ip : String) (s : Scanner W) (r : R)
        → P s.devices r
        → Kept r (queried probes to_string profile ip s)
    unfolding queried
    queried-Kept ip s r h =
        let urls = (get_rtsp_urls probes to_string profile ip s.world).0 in
        if_cases (Kept r) (is_empty urls) _ _ (λ _. unchanged r s.devices h)
          (λ _. report-kept ip 0 urls s.devices r h)

    found_address-Kept :
        (ip : String) (s : Scanner W) (r : R)
        → P s.devices r
        → Kept r (found_address probes to_string profile ip s)
    unfolding found_address
    found_address-Kept ip s r h =
        if_cases (Kept r) (is_registered s.devices (append "Hanwha_" (append ip "_CH_0"))) _ _
          (λ _. unchanged r s.devices h)
          (λ _.
            if_cases (Kept r) (leb 1 (failures ip s.sunapi_fail_count)) _ _
              (λ _. unchanged r s.devices h) (λ _. queried-Kept ip _ r h))

    -- One part of a round after another.
    joined :
        (r : R) (first more : List Notice) (devices : Devices)
        → P devices (after (after r first) more)
        → P devices (after r (first ++ more))
    joined r first more devices h = rw (after-append r first more) h

    reply_turn-Kept :
        (reply : String × String) (s : Scanner W) (r : R)
        → P s.devices r
        → Kept r (reply_turn probes to_string profile reply s)
    unfolding reply_turn
    reply_turn-Kept (response, ip) s r h =
        if_cases (Kept r) (contains "ProbeMatch" response) _ _ (λ _. found_address-Kept ip s r h)
          (λ _. unchanged r s.devices h)

    probe_replies-Kept :
        (replies : List (String × String)) (s : Scanner W) (r : R)
        → P s.devices r
        → Kept r (probe_replies probes to_string profile replies s)
    unfolding probe_replies
    probe_replies-Kept [] s r h = unchanged r s.devices h
    probe_replies-Kept (reply ∷ rest) s r h =
        let t = reply_turn probes to_string profile reply s in
        let u = probe_replies probes to_string profile rest t.0 in
        joined r t.1 u.1 u.0.devices
          (probe_replies-Kept rest t.0 (after r t.1) (reply_turn-Kept reply s r h))

    arp_addresses-Kept :
        (ips : List String) (s : Scanner W) (r : R)
        → P s.devices r
        → Kept r (arp_addresses probes to_string profile ips s)
    unfolding arp_addresses
    arp_addresses-Kept [] s r h = unchanged r s.devices h
    arp_addresses-Kept (ip ∷ ips) s r h =
        let (running, w') = probes.is_running s.world in
        let t = found_address probes to_string profile ip (record s { world = w' }) in
        let u = arp_addresses probes to_string profile ips t.0 in
        if_cases (Kept r) running _ _
          (λ _.
            joined r t.1 u.1 u.0.devices
              (arp_addresses-Kept ips t.0 (after r t.1) (found_address-Kept ip _ r h)))
          (λ _. unchanged r s.devices h)

    pub scan_round-kept :
        (replies : List (String × String)) (s : Scanner W) (r : R)
        → P s.devices r
        → let t = scan_round probes to_string profile replies s in P t.0.devices (after r t.1)
    unfolding scan_round arp_fallback_scan
    scan_round-kept replies s r h =
        let t = probe_replies probes to_string profile replies s in
        let u = arp_fallback_scan probes to_string profile t.0 in
        joined r t.1 u.1 u.0.devices
          (arp_addresses-Kept _ _ (after r t.1) (probe_replies-Kept replies s r h))
