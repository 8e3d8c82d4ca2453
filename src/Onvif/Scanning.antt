-- ===== src/Onvif/Scanning.antt =====
-- The thread of OnvifScanner::runScan in DeviceServer/src/OnvifScanner.cpp: its socket, the probe that
-- it multicasts, and the loop of its rounds. A pause takes no time.
use device_app.Base.{ℕ, String, List, [], ◌∷◌, ◌++◌, none, some, Bool, true, false}
use device_app.Net.{Net}
use device_app.Net.Datagrams.{Datagrams}
use device_app.DeviceManager.{Notice}
use device_app.Onvif.{Probes, Scanner, scan_round}
use Prim.Native.String.{◌++◌ as append}

abbrev onvif_probe_msg : String
onvif_probe_msg = append "<?xml version=\"1.0\" encoding=\"UTF-8\"?>" (
    append "<e:Envelope xmlns:e=\"http://www.w3.org/2003/05/soap-envelope\" " (
      append "xmlns:w=\"http://schemas.xmlsoap.org/ws/2004/08/addressing\" " (
        append "xmlns:d=\"http://schemas.xmlsoap.org/ws/2005/04/discovery\" " (
          append "xmlns:dn=\"http://www.onvif.org/ver10/network/wsdl\"><e:Header>" (
            append "<w:MessageID>uuid:84ede3de-7dec-11d0-c360-f01234567890</w:MessageID>" (
              append
                "<w:To e:mustUnderstand=\"true\">urn:schemas-xmlsoap-org:ws:2005:04:discovery</w:To>"
                (append
                  "<w:Action e:mustUnderstand=\"true\">http://schemas.xmlsoap.org/ws/2005/04/discovery/Probe</w:Action>"
                  "</e:Header><e:Body><d:Probe><d:Types>dn:NetworkVideoTransmitter</d:Types></d:Probe></e:Body></e:Envelope>")))))))

module _ {W : Type 0} (net : Net W) (udp : Datagrams W) (probes : Probes W) (to_string : ℕ → String)
    (profile : ℕ) where
  abbrev pub probed : ℕ → Scanner W → Scanner W
  probed sockfd s = record s {
    world = udp.sendto s.world sockfd onvif_probe_msg "239.255.255.250" 3702;
  }

  -- The loop; each element is a test of the flag and the replies that come before recvfrom fails,
  -- with their senders.
  unfoldable pub scan_loop :
      ℕ → List (Bool × List (String × String)) → Scanner W → Bool × Scanner W × List Notice
  scan_loop sockfd [] s = (true, s, [])
  scan_loop sockfd ((false, replies) ∷ rest) s = (false, s, [])
  scan_loop sockfd ((true, replies) ∷ rest) s =
      let (s₁, notices) = scan_round probes to_string profile replies (probed sockfd s) in
      let (on, s₂, more) = scan_loop sockfd rest s₁ in (on, s₂, notices ++ more)

  unfoldable pub closed_after : ℕ → Bool × Scanner W × List Notice → Bool × Scanner W × List Notice
  closed_after sockfd (true, s, notices) = (true, s, notices)
  closed_after sockfd (false, s, notices) =
      (false, record s { world = net.close s.world sockfd }, notices)

  -- A timeout of three seconds, and the multicast group, whether or not it can be joined.
  unfoldable pub prepared : W → ℕ → W
  prepared w sockfd = (udp.join_group (udp.set_timeout w sockfd 3) sockfd "239.255.255.250").1

  unfoldable pub run_scan :
      List (Bool × List (String × String)) → Scanner W → Bool × Scanner W × List Notice
  unfolding scan_loop closed_after prepared
  run_scan rounds s =
      let (sock, w₁) = udp.socket s.world in
      elim sock [
        | none ↦ (false, record s { world = w₁ }, [])
        | some sockfd ↦
            closed_after sockfd (scan_loop sockfd rounds (record s { world = prepared w₁ sockfd }))
      ]
