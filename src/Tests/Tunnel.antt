-- ===== src/Tests/Tunnel.antt =====
-- A stand-in for OpenSSL whose records are the text itself, and the sessions over it.
use device_app.Base.{
  Option, false, ◌>>=◌, nat_key, ℕ, suc, ◌+◌, ◌-◌, ◌≡◌, refl, sym, ap, [], ◌∷◌, ◌++◌, none, some,
  true, length, is_empty, not, ◌<◌, take, drop, take-append-drop, nat_eq, if◌then◌else◌, arith,
  is_some,
}
use device_app.Wire.{MessageType, Bytes, header_le}
use device_app.Base.Map.{find, insert}
use device_app.Qt.{QtServer, SecureSession, send_message}
use device_app.Qt.Handler.{Host, Flow, store, client_turn}
use device_app.Tls.{
  OpenSsl, Session, session, cleanup, encrypt, decrypt, secure_session, flush_write_bio,
}
use device_app.Tls.Channel
use device_app.Tests.Models.{
  Wires, wires, wires-laws, wires-IsHealthy, wires-IsFed, quiet, bytes_lib, bytes_text-laws,
}
use device_app.Tls.Whole
use device_app.Tls.Whole.{TlsLaws, Idle, exchanged}
use device_app.Tls.Heap
use device_app.Tls.Heap.{HeapLaws}

record Tunnel : Type 0 where
  incoming : Bytes
  outgoing : Bytes

-- The second object of a heap that holds two is not to be had.
abbrev tunnels : OpenSsl ℕ ℕ ℕ Tunnel ℕ
tunnels = record {
  ssl_new = λ c h. (some 0, h + 1);
  bio_new = λ h. if nat_eq h 2 then (none, h) else (some 0, h + 1);
  bio_free = λ m h. h - 1;
  ssl_free_new = λ n h. h - 1;
  ssl_free = λ e h. h - 3;
  joined = λ n r w is_server. record { incoming = []; outgoing = [] };
  is_init_finished = λ e. true;
  do_handshake = λ e. e;
  bio_write = λ e bs. (true, record e { incoming = e.incoming ++ bs });
  ssl_read = λ e n. (take n e.incoming, record e { incoming = drop n e.incoming });
  ssl_write = λ e bs. (not (is_empty bs), record e { outgoing = e.outgoing ++ bs });
  bio_pending = λ e. length e.outgoing;
  bio_read = λ e n. (take n e.outgoing, record e { outgoing = drop n e.outgoing });
}

take-length : (bs : Bytes) → (take (length bs) bs ≡ bs) × (drop (length bs) bs ≡ [])
take-length [] = (refl, refl)
take-length (b ∷ bs) = let (t, d) = take-length bs in (ap (◌∷◌ b) t, d)

take-none : (n : ℕ) (bs : Bytes) → take (suc n) bs ≡ [] → bs ≡ []
take-none n [] h = refl
take-none n (b ∷ bs) h = cc h

append_some : (out p : Bytes) → not (is_empty p) ≡ true → is_empty (out ++ p) ≡ false
append_some [] p h = ground (arith, h)
append_some (b ∷ out) p h = refl

some_text : (p : Bytes) → 0 < length p → not (is_empty p) ≡ true
some_text [] h = absurd (omega arith)
some_text (b ∷ p) h = refl

unfoldable tunnels-laws : TlsLaws tunnels
tunnels-laws = record {
  plain = λ e. e.incoming;
  wire = λ e. e.outgoing;
  pending-wire = λ e. refl;
  read-wire = λ e. take-length e.outgoing;
  read-plain = λ e n. sym (take-append-drop n e.incoming);
  read-none = λ e n h. take-none n e.incoming h;
  wire-write = λ a p ok. append_some a.outgoing p ok;
  Linked = λ a b. Unit {0};
  linked-finished = λ a b k. (refl, refl);
  linked-flush = λ a b n k. tt;
  linked-read = λ a b n k. tt;
  linked-write = λ a b p k silent some_bytes.
      (some_text p some_bytes, refl, ap (λ out. b.incoming ++ (out ++ p)) silent, tt);
}

bio_new_counts : (h : ℕ) → let r = tunnels.bio_new h in r.1 ≡ (if is_some r.0 then h + 1 else h)
bio_new_counts h = ground arith

unfoldable heap-laws : HeapLaws tunnels
heap-laws = record {
  live = λ h. h;
  ssl_new-live = λ c h. refl;
  bio_new-live = bio_new_counts;
  bio_free-live = λ m h. refl;
  ssl_free_new-live = λ n h. refl;
  ssl_free-live = λ e h. refl;
}

abbrev fresh : Tunnel
fresh = record { incoming = []; outgoing = [] }

exchanged-whole_example :
    exchanged tunnels 4 ((1 ∷ 2 ∷ 3 ∷ []) ∷ (4 ∷ []) ∷ []) (some fresh) (some fresh)
    ≡ some ((1 ∷ 2 ∷ 3 ∷ []) ∷ (4 ∷ []) ∷ [])
unfolding tunnels-laws
exchanged-whole_example =
    Whole.exchanged-whole tunnels tunnels-laws 4 ((1 ∷ 2 ∷ 3 ∷ []) ∷ (4 ∷ []) ∷ []) fresh fresh
      (tt, refl, refl) ((omega arith, omega arith), ((omega arith, omega arith), tt))

session_leaks_nothing_example :
    let (s, h) = session tunnels (some 5) true 0 in
    (h ≡ (if is_some s then 0 + 3 else 0)) × ((cleanup tunnels s h).1 ≡ 0)
unfolding heap-laws
session_leaks_nothing_example = Heap.session_leaks_nothing tunnels heap-laws (some 5) true 0

-- The Qt port with client 7, whose handshake is done.
abbrev port : QtServer (Session Tunnel)
port = record {
  client_fds = 7 ∷ [];
  client_roles = [];
  tls_sessions = (7, some fresh) ∷ [];
  finished_fds = [];
  client_threads = 7 ∷ [];
}

abbrev tunnel_sessions : SecureSession (Session Tunnel)
tunnel_sessions = secure_session tunnels (some 5) (λ draw. 0) (λ s bs. 9)

reply_heard_example :
    let r = send_message wires tunnel_sessions bytes_lib 7 MessageType.camera 5 port quiet in
    (cipher : Bytes) × (a' : Tunnel) × (b' : Tunnel) × (r.0 ≡ true)
    × (wires-laws.sent r.2 7
        ≡ wires-laws.sent quiet 7 ++ (header_le MessageType.camera (length cipher) ++ cipher))
    × (decrypt tunnels 2 cipher (some fresh) ≡ some (5 ∷ [], some b'))
    × (r.1.tls_sessions ≡ insert 7 (some a') port.tls_sessions)
    × Idle tunnels tunnels-laws a' b'
unfolding tunnels-laws find
reply_heard_example =
    Channel.reply_heard tunnels tunnels-laws (some 5) (λ draw. 0) (λ s bs. 9) wires wires-laws
      bytes_lib bytes_text-laws 7 2 MessageType.camera 5 fresh fresh port quiet (wires-IsHealthy 7)
      refl (tt, refl, refl) (omega arith)

-- A callback that counts the messages.
abbrev counting :
    ℕ → MessageType → ℕ → Host Wires (Session Tunnel) ℕ → Option (Host Wires (Session Tunnel) ℕ)
counting fd type body st = some (record st { owner = st.owner + 1 })

-- Client 7 has sent a motor command.
abbrev asked : Host Wires (Session Tunnel) ℕ
asked = record {
  qt = port;
  owner = 0;
  world = record quiet { inbox = λ fd. header_le MessageType.device 1 ++ (5 ∷ []) };
}

request_heard_example :
    (w : Wires) × (a' : Tunnel) × (b' : Tunnel) × (wires-laws.incoming w 7 ≡ [])
    × ((encrypt tunnels (5 ∷ []) (some fresh)).1 ≡ some a')
    × (client_turn wires tunnel_sessions bytes_lib counting 7 true asked ≡ (
        counting 7 MessageType.device 5
          (store wires tunnel_sessions bytes_lib counting 7 (some b') (record asked { world = w }))
        >>= (λ st'. some (Flow.next, st'))))
    × Idle tunnels tunnels-laws a' b'
unfolding tunnels-laws find encrypt flush_write_bio header_le wires-laws
request_heard_example =
    Channel.request_heard tunnels tunnels-laws (some 5) (λ draw. 0) (λ s bs. 9) wires wires-laws
      bytes_lib bytes_text-laws counting 7 MessageType.device 5 [] fresh fresh asked (wires-IsFed 7)
      tt refl (tt, refl, refl) (omega arith) (omega arith) refl
