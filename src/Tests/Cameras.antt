-- ===== src/Tests/Cameras.antt =====
-- The camera scan, and the DeviceServer's threads together, at concrete inputs.
use device_app.Base.{
  List, ℕ, zero, suc, ◌+◌, ◌≡◌, refl, String, [], ◌∷◌, Option, none, some, true, text_key,
}
use device_app.Base.Map.{find}
use device_app.Onvif.{Probes, Scanner, probe_replies}
use device_app.Onvif.Blocking
use device_app.DeviceServer.{Server, Turn, Reachable, started, turn}
use device_app.DeviceServer.Sound
use device_app.SubPi.Beacon.{alive}
use device_app.Tests.Models.{Wires, wires, quiet}
use device_app.Tests.Boards.{answering, digits, text_of_port}

-- The world counts the commands; the first answers a URL, the later ones an error.
abbrev answer_of : ℕ → Option (Option String)
answer_of zero = some (some "rtsp://10.0.0.3/0")
answer_of (suc n) = some (some "Error")

abbrev camera : Probes ℕ
camera = record {
  is_running = λ w. (true, w);
  first_line = λ w command. (answer_of w, w + 1);
  system = λ w command. w;
  arp_lines = λ w. (none, w);
}

-- 10.0.0.3 failed once.
abbrev scanner : Scanner ℕ
scanner = record { devices = []; sunapi_fail_count = ("10.0.0.3", 1) ∷ []; world = 0 }

probe_replies-blocked_example :
    probe_replies camera text_of_port 2
      (("ProbeMatch", "10.0.0.3") ∷ ("ProbeMatch", "10.0.0.4") ∷ [])
      scanner
    ≡ probe_replies camera text_of_port 2 (("ProbeMatch", "10.0.0.4") ∷ []) scanner
unfolding Blocking.is_blocked find
probe_replies-blocked_example =
    Blocking.probe_replies-blocked camera text_of_port 2 "10.0.0.3"
      (("ProbeMatch", "10.0.0.3") ∷ ("ProbeMatch", "10.0.0.4") ∷ []) scanner refl

-- No camera answers, and the ARP table lists one.
abbrev pub silent : Probes Wires
silent = record {
  is_running = λ w. (true, w);
  first_line = λ w command. (some none, w);
  system = λ w command. w;
  arp_lines = λ w. (some ("IP address" ∷ "10.0.0.4 0x1 0x2 e4:30:22:00:00:01 * eth0" ∷ []), w);
}

-- A beacon, a report of a camera's channel, a round of the scan, and a sweep.
abbrev turns : List (Turn Wires)
turns =
    Turn.sweep ("SubPi_10.0.0.2" ∷ "Hanwha_10.0.0.3_CH_0" ∷ [])
    ∷ Turn.scan (("ProbeMatch", "10.0.0.3") ∷ [])
    ∷ Turn.channel_found "10.0.0.3" 0 "rtsp://x"
    ∷ Turn.beacon alive "10.0.0.2"
    ∷ []

-- The last turn first.
abbrev ran : List (Turn Wires) → Server Wires
ran [] = started quiet
ran (t ∷ ts) = turn wires answering silent digits text_of_port 5 t (ran ts)

ran-Reachable :
    (ts : List (Turn Wires)) → Reachable wires answering silent digits text_of_port 5 (ran ts)
ran-Reachable [] = Reachable.start quiet
ran-Reachable (t ∷ ts) = Reachable.step t (ran-Reachable ts)

reachable-Sound_example : Sound.Sound wires answering silent digits text_of_port 5 (ran turns)
reachable-Sound_example =
    Sound.reachable-Sound wires answering silent digits text_of_port 5 (ran turns)
      (ran-Reachable turns)
