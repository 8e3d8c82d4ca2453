-- ===== src/Onvif.antt =====
-- DeviceServer/src/OnvifScanner.cpp: the cameras that answer a probe or stand in the ARP table, the
-- URLs of their channels, and what the device manager is told of them.
pub mod Arp
pub mod Blocking
pub mod Reports
pub mod Scanning
pub mod Text
pub mod Urls
use device_app.Base.{
  ℕ, zero, suc, ◌+◌, ◌&&◌, ◌||◌, String, List, [], ◌∷◌, ◌++◌, Option, none, some, Bool, true, false,
  not, if◌then◌else◌, nat_eq, leb, get_or, is_empty, ◌==◌, text_key,
}
use device_app.Base.Map.{Map, find, insert}
use device_app.Onvif.Arp.{get_hanwha_ips_from_arp}
use device_app.Onvif.Text.{contains, strip_line_ends, pop_newline, with_login, is_refused}
use device_app.Device.{DeviceType, DeviceInfo}
use device_app.DeviceManager.{Devices, Notice, is_registered, on_hanwha_found}
use Prim.Native.String.{◌++◌ as append}
use Prim.Native.Char.{Char, code}
use text.Mathlib.Text.{starts_with}

-- The single mode's URL; the empty text is no URL.
single_url : Option (Option String) → String
single_url none = ""
single_url (some line) =
    let result = pop_newline (get_or line "") in if is_refused result then "" else with_login result

-- What the scanner asks of the system, over a state `W`.
pub record Probes (W : Type 0) : Type 0 where
  pub is_running : W → Bool × W
  -- popen, fgets and pclose of a command: `none` is no pipe, `some none` no line
  pub first_line : W → String → Option (Option String) × W
  -- the command of system(3)
  pub system : W → String → W
  -- the lines of /proc/net/arp; `none`: not open
  pub arp_lines : W → Option (List String) × W

pub record Scanner (W : Type 0) : Type 0 where
  pub devices : Devices
  pub sunapi_fail_count : Map String ℕ
  pub world : W

-- sunapi_fail_count_[ip]: an absent entry comes to be, with 0.
abbrev pub failures : String → Map String ℕ → ℕ
failures ip counts = get_or (find ip counts) 0

unfoldable pub touched : String → Map String ℕ → Map String ℕ
touched ip counts = elim (find ip counts) [ none ↦ insert ip 0 counts | some n ↦ counts ]

abbrev pub channel_id : (ℕ → String) → String → ℕ → String
channel_id to_string ip i = append "Hanwha_" (append ip (append "_CH_" (to_string i)))

abbrev pub channel : (ℕ → String) → String → ℕ → String → DeviceInfo
channel to_string ip i url = record {
  id = channel_id to_string ip i;
  ip = ip;
  type = DeviceType.hanwha;
  is_online = true;
  source_url = url;
  udp_listen_port = 0;
  command_socket_fd = none;
}

-- `to_string` is std::to_string, `profile` is sunapi_profile_.
module _ {W : Type 0} (probes : Probes W) (to_string : ℕ → String) (profile : ℕ) where
  channel_command : String → ℕ → String
  channel_command ip ch =
      append "curl --digest -u admin:5hanwha! -s --connect-timeout 2 \"http://" (
        append ip (
          append "/stw-cgi/media.cgi?msubmenu=streamuri&action=view&Channel=" (
            append (to_string ch) (
              append "&Profile=" (
                append (to_string profile)
                  "&MediaType=Live&Mode=Full&StreamType=RTPUnicast&TransportProtocol=TCP&RTSPOverHTTP=False\" | grep \"URI\" | cut -d'=' -f2")))))

  single_command : String → String
  single_command ip = append "curl --digest -u admin:5hanwha! -s --connect-timeout 2 \"http://" (
      append ip (
        append "/stw-cgi/media.cgi?msubmenu=streamuri&action=view&Profile=" (
          append (to_string profile)
            "&MediaType=Live&Mode=Full&StreamType=RTPUnicast&TransportProtocol=TCP&RTSPOverHTTP=False\" | grep \"URI\" | cut -d'=' -f2")))

  unfoldable pub get_single_rtsp_url : String → W → String × W
  unfolding single_command single_url
  get_single_rtsp_url ip w =
      let (answer, w') = probes.first_line w (single_command ip) in (single_url answer, w')

  unfoldable pub fallback_urls : String → W → List String × W
  unfolding get_single_rtsp_url
  fallback_urls ip w =
      let (url, w') = get_single_rtsp_url ip w in ((if url == "" then [] else url ∷ []), w')

  -- What a channel's answer comes to: no pipe ends the list, a refusal gives `ended`, a URL goes
  -- before those of the later channels.
  channel_answer : Option (Option String) → List String × W → List String × W → W → List String × W
  channel_answer none ended more w = ([], w)
  channel_answer (some line) ended more w =
      let result = strip_line_ends (get_or line "") in
      if is_refused result then ended else (with_login result ∷ more.0, more.1)

  -- The channels from `ch` on, `left` of them: a refusal ends the loop, and at channel 0 the single
  -- mode is tried.
  unfoldable pub channel_urls : ℕ → ℕ → String → W → List String × W
  unfolding channel_command fallback_urls channel_answer
  channel_urls zero ch ip w = ([], w)
  channel_urls (suc left) ch ip w =
      let (answer, w₁) = probes.first_line w (channel_command ip ch) in
      let more = channel_urls left (ch + 1) ip w₁ in
      let ended : List String × W = if nat_eq ch 0 then fallback_urls ip w₁ else ([], w₁) in
      channel_answer answer ended more w₁

  unfoldable pub get_rtsp_urls : String → W → List String × W
  unfolding channel_urls
  get_rtsp_urls ip w = channel_urls 4 0 ip w

  -- The callback for each channel, with the device manager's part of it.
  unfoldable pub report : String → ℕ → List String → Devices → Devices × List Notice
  report ip i [] devices = (devices, [])
  report ip i (url ∷ urls) devices =
      let (devices₁, notices) = on_hanwha_found devices (channel to_string ip i url) in
      let (devices₂, more) = report ip (i + 1) urls devices₁ in (devices₂, notices ++ more)

  queried : String → Scanner W → Scanner W × List Notice
  queried ip s =
      let (urls, w') = get_rtsp_urls ip s.world in
      let (devices', notices) = report ip 0 urls s.devices in
      if is_empty urls
      then (
        record s {
          sunapi_fail_count = insert ip (failures ip s.sunapi_fail_count + 1) s.sunapi_fail_count;
          world = w';
        },
        [],
      )
      else (record s { devices = devices'; world = w' }, notices)

  -- A camera's address: not asked if its first channel is online or it failed before.
  unfoldable pub found_address : String → Scanner W → Scanner W × List Notice
  unfolding touched queried
  found_address ip s =
      let counted : Scanner W = record s { sunapi_fail_count = touched ip s.sunapi_fail_count } in
      if is_registered s.devices (append "Hanwha_" (append ip "_CH_0"))
      then (s, [])
      else if leb 1 (failures ip s.sunapi_fail_count)
      then (counted, [])
      else queried ip counted

  -- The loop of an ARP scan, over the addresses of its table; a cleared flag ends it.
  unfoldable pub arp_addresses : List String → Scanner W → Scanner W × List Notice
  unfolding found_address
  arp_addresses [] s = (s, [])
  arp_addresses (ip ∷ ips) s =
      let (running, w') = probes.is_running s.world in
      let (s₁, notices) = found_address ip (record s { world = w' }) in
      let (s₂, more) = arp_addresses ips s₁ in
      if running then (s₂, notices ++ more) else (record s { world = w' }, [])

  -- A reply: the text up to its first zero byte, and its sender.
  reply_turn : String × String → Scanner W → Scanner W × List Notice
  unfolding found_address
  reply_turn (response, ip) s =
      if contains "ProbeMatch" response then found_address ip s else (s, [])

  -- The replies that came before the timeout.
  unfoldable pub probe_replies : List (String × String) → Scanner W → Scanner W × List Notice
  unfolding reply_turn
  probe_replies [] s = (s, [])
  probe_replies (reply ∷ rest) s =
      let (s₁, notices) = reply_turn reply s in
      let (s₂, more) = probe_replies rest s₁ in (s₂, notices ++ more)

  arp_fallback_scan : Scanner W → Scanner W × List Notice
  unfolding arp_addresses
  arp_fallback_scan s =
      let pinged =
        probes.system s.world "fping -a -g 192.168.0.1 192.168.0.254 -c 1 -q 2>/dev/null" in
      let (lines, w') = probes.arp_lines pinged in
      arp_addresses (get_hanwha_ips_from_arp lines) (record s { world = w' })

  -- One turn of `runScan`'s loop from its first recvfrom to its pause.
  pub scan_round : List (String × String) → Scanner W → Scanner W × List Notice
  unfolding arp_fallback_scan
  scan_round replies s =
      let (s₁, notices) = probe_replies replies s in
      let (s₂, more) = arp_fallback_scan s₁ in (s₂, notices ++ more)
