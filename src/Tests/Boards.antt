-- ===== src/Tests/Boards.antt =====
-- The Sub-Pis, their ports and their relays at concrete inputs.
use device_app.Base.{Bool, false, ℕ, ◌<◌, ◌≡◌, refl, String, [], ◌∷◌, some, true, arith, text_key}
use device_app.Base.Map.{find}
use device_app.Net.{Ready}
use device_app.Wire.{Bytes}
use device_app.DeviceManager.{Devices}
use device_app.DeviceManager.Monitor.{Health, Answer}
use device_app.DeviceManager.Registry.{Event}
use device_app.SubPi.{listen_turn, listen, quiet, hear}
use device_app.SubPi.Listener
use device_app.SubPi.Listener.{AllSound, is_bad, bad_in_a_row}
use device_app.SubPi.Beacon.{Boards, beacon_turn, alive}
use device_app.SubPi.Beacon.Ports
use device_app.SubPi.Beacon.Stop
use device_app.SubPi.Beacon.Ports.{Ported, IsPorted}
use device_app.Relay.{Rtsp, path_of, pipeline_str}
use device_app.Relay.Following
use device_app.Relay.Following.{Follows, after_all}
use device_app.Relay.MainLoop as Loop
use device_app.Relay.MainLoop.{MainLoops, LoopThread, stop_joins}
use device_app.Relay.Paths.{path_test}
use device_app.Tests.Models.{Wires, wires, quiet as silent, values, values_set-laws, dead}
use device_app.Tests.Devices.{board, lens, board_fits, lens_fits}

listen_turn-AllSound_example :
    AllSound wires values values_set-laws "SubPi_10.0.0.2"
      (is_bad wires values values_set-laws "SubPi_10.0.0.2" 7 Ready.readable silent)
      2
      (listen_turn wires values "SubPi_10.0.0.2" 7 Ready.readable 2 silent)
listen_turn-AllSound_example =
    Listener.listen_turn-AllSound wires values values_set-laws "SubPi_10.0.0.2" 7 Ready.readable 2
      silent (omega arith)

listen_bounded_example :
    (bad_in_a_row wires values values_set-laws "SubPi_10.0.0.2"
        (λ event w. w)
        7
        ((true, Ready.timed_out) ∷ [])
        2
        silent
      ≡ 2)
    × (2 < 3)
unfolding listen listen_turn quiet hear
listen_bounded_example =
    Listener.listen_bounded wires values values_set-laws "SubPi_10.0.0.2" (λ event w. w) 7
      ((true, Ready.timed_out) ∷ []) 2 2 silent silent (omega arith) refl

-- Every board answers.
abbrev pub answering : Health Wires
answering = record {
  is_discovering = λ w. (true, w);
  peek = λ w fd. (Answer.again, w);
  probe = λ w fd. (Answer.count 0, w);
  socket = λ w. (some 9, w);
  connect = λ w fd ip port. (true, w);
  close = λ w fd. w;
}

abbrev pub digits : ℕ → Bytes
digits port = 49 ∷ 53 ∷ 48 ∷ 48 ∷ 49 ∷ []

abbrev boards : Boards Wires
boards = record {
  devices = [];
  next_port = 15001;
  listeners = [];
  finished_ids = [];
  world = silent;
}

boards-Ported : IsPorted [] 15001
unfolding find
boards-Ported = record { below = λ a d e k. cc; apart = λ a b d x e f k l same. cc }

beacon_turn-Ported_example :
    Ported wires answering digits (beacon_turn wires answering digits alive "10.0.0.2" boards).0
beacon_turn-Ported_example =
    Ports.beacon_turn-Ported wires answering digits alive "10.0.0.2" boards boards-Ported

abbrev pub text_of_port : ℕ → String
text_of_port port = "5001"

-- The relay of one board that is registered.
abbrev relaying : Rtsp
relaying = record {
  mounted = true;
  factories = (path_of "SubPi_10.0.0.2", pipeline_str text_of_port board) ∷ [];
}

abbrev one : Devices
one = ("SubPi_10.0.0.2", board) ∷ []

relaying-Follows : Follows text_of_port relaying one
unfolding find
relaying-Follows = record {
  mounted = refl;
  relays = λ c. ground (arith, path_test "SubPi_10.0.0.2" c);
}

relays_follow_registry_example :
    let p =
      after_all text_of_port dead
        (one, relaying)
        ((0, Event.sweep ("SubPi_10.0.0.2" ∷ []))
          ∷ (1, Event.scan lens)
          ∷ (2, Event.beacon board)
          ∷ []) in
    Follows text_of_port p.1 p.0
relays_follow_registry_example =
    Following.relays_follow_registry text_of_port dead one relaying
      ((0, Event.sweep ("SubPi_10.0.0.2" ∷ []))
        ∷ (1, Event.scan lens)
        ∷ (2, Event.beacon board)
        ∷ [])
      (board_fits, tt) relaying-Follows
      (tt, ((refl, refl, lens_fits), ((refl, refl, board_fits), tt)))

-- A main loop that is no more than its flag.
abbrev flag_loops : MainLoops Bool
flag_loops = record { new_loop = false; begin = λ l. true; quit = λ l. false; is_running = λ l. l }

stop_joins_begun_example : stop_joins flag_loops 2 (LoopThread.inside true) ≡ true
stop_joins_begun_example =
    Loop.stop_joins_begun flag_loops (λ l. refl) (λ l. refl) (LoopThread.inside true) 1
