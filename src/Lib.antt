-- ===== src/Lib.antt =====
-- DeviceApp is two servers. The DeviceServer finds Sub-Pi boards by their UDP beacons and Hanwha
-- cameras by ONVIF, keeps a registry of them, checks that they are alive, relays their video by
-- RTSP, and pushes lists and events to the ClientServer over TCP (port 30000). The ClientServer
-- serves Qt clients over TCP with TLS (port 20000): accounts, logins, camera lists, events, and
-- motor commands that go back down to the boards.
--
-- How the parts are modelled. A function of the program becomes a function of the state that it
-- reads and writes; a callback becomes a parameter, or a value in the result where it is called
-- last; a caught error is a value, and `none` in the result of a handler is an exception that
-- nothing catches. A critical section of a lock is one step: what threads interleave is stated
-- over sequences of such steps.
--
-- common/Common.h: Wire.antt, with the encodings of the packed header in Wire/Codec.antt, and
-- Device.antt.
--
-- common/NetUtil.h: Net.antt. sendExact and recvExact are loops on fuel over parameters `send` and
-- `recv`; as fuel they take the number of bytes to move, which Net/Transfer.antt shows to be
-- enough, since each round that goes on moves a byte; it and Net/Receiving.antt say what they
-- transfer. Net/Reliable.antt is about connections that make progress.
--
-- common/json.hpp, a vendored library: Json.antt, a record of the calls that the program makes,
-- with what it documents as laws.
--
-- DeviceServer/src/DeviceManager.cpp: DeviceManager.antt (registry, callbacks, status list,
-- sendMotorCommand), DeviceManager/Monitor.antt (monitorLoop, a round in its three stages); the
-- invariant in DeviceManager/Registry.antt, the health checks in Monitor/Checks.antt, the sweep in
-- Monitor/Sweep.antt, the motor command in DeviceManager/Motor.antt.
--
-- DeviceServer/src/SubPiManager.cpp: SubPi.antt (subPiListener), SubPi/Beacon.antt
-- (runBeaconReceiver with the callbacks of the registry, requestStartStream,
-- cleanupFinishedThreads), SubPi/Beacon/Stop.antt (stop), SubPi/Receiver.antt (the receiver's
-- thread from its socket on); SubPi/Listener.antt, SubPi/Beacon/Ports.antt.
--
-- DeviceServer/src/RtspServer.cpp: Relay.antt, with start and stop in Relay/Lifecycle.antt, and
-- the thread of the main loop with its join in Relay/MainLoop.antt; GStreamer's mount points are a
-- map. Relay/Following.antt, on the lemmas of Relay/Paths.antt, joins it with the registry through
-- the callbacks of DeviceController::run.
--
-- DeviceServer/src/OnvifScanner.cpp: Onvif.antt (one round of runScan, with getRtspUrls and
-- arpFallbackScan), Onvif/Text.antt (the texts that commands answer with), Onvif/Arp.antt
-- (getHanwhaIpsFromArp), Onvif/Scanning.antt (the thread of runScan from its socket on);
-- Onvif/Blocking.antt, Onvif/Urls.antt, Onvif/Reports.antt (a round as a sequence of reports).
--
-- DeviceServer/src/DeviceController.cpp, DeviceController::run: DeviceServer.antt puts the beacon
-- receiver, the camera scan and the monitor on one registry with the relays behind their
-- callbacks, as a relation of turns; a turn's registry section and its callbacks, which the source
-- makes after it has released the lock, are apart there: Reachable makes them before the next
-- turn, Interleaved at any time. DeviceServer/Interleaving.antt is about the latter;
-- DeviceServer/Sound.antt, on DeviceServer/Entries.antt, is the invariant of the former, and
-- DeviceServer/Relaying.antt follows a new Sub-Pi to its relay; DeviceServer/Discovery.antt is
-- startDiscovery and stopDiscovery. DeviceServer/Events.antt has the callbacks for a Sub-Pi's
-- events, on SubPi/Arrival.antt, and Events/Through.antt follows one through both servers.
-- DeviceServer/Threads.antt has the loop of each thread beside the turns. A round of the scan is
-- one turn there, and so is a single report of a channel, since another thread may come between
-- two reports; a beacon is one turn, since only the beacon receiver brings a Sub-Pi online.
--
-- DeviceServer/src/DeviceController.cpp: DeviceController.antt, which fills the callbacks that
-- DeviceServer/src/InternalServer.cpp, InternalServer.antt, takes as the record Owner.
-- InternalServer/Push.antt is about what its broadcasts deliver, InternalServer/Lifecycle.antt is
-- its start and stop, InternalServer/Accepting.antt its accept loop; both servers open their ports
-- by Net/Listening.antt.
--
-- ClientServer/src/InternalClient.cpp: Client/Link.antt, the other end of that connection;
-- Client/Link/Arrival.antt goes from the frames of the one to the caches of the other,
-- Client/Link/Retry.antt is the loop of connectionLoop that connects again, with start and stop,
-- and Retry/Holding.antt is about the descriptor it holds.
--
-- ClientServer/src/QtCommServer.cpp: Qt.antt (the sends and broadcasts, and the tables of
-- clients), Qt/Handler.antt (clientHandler, over the callback on_message_ as a parameter);
-- Qt/Broadcast.antt, Qt/Clients.antt (a step relation for the life of a client),
-- Qt/Handler/Handshake.antt, Qt/Handler/Cleanup.antt, Qt/Clients/Sends.antt (the broadcasts as
-- steps of that relation), Qt/Accepting.antt (acceptLoop), Qt/Lifecycle.antt (start and stop). Its
-- sessions are the record SecureSession.
--
-- crypt/tls.hpp: Tls.antt, which fills SecureSession, over the calls of OpenSSL as a record;
-- Tls/Context.antt (the two contexts, and QtCommServer::initTLS). The read loop of decrypt is on
-- fuel, and Tls/Whole.antt shows that more fuel than bytes to read is enough; Tls/Heap.antt counts
-- what the constructor allocates. Tls/Channel.antt joins the sessions with the Qt port, on
-- Qt/Secured.antt (what is sent) and Qt/Handler/Received.antt (what is received).
--
-- crypt/dtls.hpp: Dtls.antt, over the same record of OpenSSL and what only this header calls, read
-- as if its declarations (namespace DTLS) and definitions (namespace MediaDTLS) stood in one
-- namespace, since the header does not compile as it is and no server includes it;
-- Dtls/Agreement.antt sets it beside Tls.antt.
--
-- ClientServer/src/AuthManager.cpp: Auth.antt, over SQLite, SHA-256 and /dev/urandom as
-- parameters; Auth/Opening.antt (init, seedTestData); Auth/Login.antt, Auth/Accounts.antt.
--
-- ClientServer/src/ClientController.cpp: Client.antt (onQtMessage, the push callbacks, one round
-- of the main loop), Client/Access.antt, Client/Requests.antt.
--
-- ClientServer/src/main.cpp, and run, stop and the destructors of ClientController:
-- Client/Process.antt, where signals and the other threads come between the statements of run,
-- with Client/Process/Main.antt (run, the destructors, main); Client/Process/Stopping.antt,
-- Settling.antt and Rounds.antt are what each step keeps, Leftovers.antt what the destructors
-- leave, Ending.antt and Early.antt where it leads. Every join in a stop is taken to end; whether
-- the thread that is joined wakes up is said only of the main loop of the relays.
-- DeviceServer/src/main.cpp and DeviceController in the same way: DeviceServer/Process.antt, with
-- its children Main, Settling, Ending and Early.
--
-- ClientServer/src/SystemMonitor.cpp: SystemMonitor.antt, over doubles and the answers of the
-- system as parameters; SystemMonitor/Growth.antt. Its status is an argument of a round of the
-- main loop.
--
-- Base.antt and its children hold what the modules share: native-number versions of list
-- functions, tests, std::map as a list of pairs, and lemmas. Tests.antt and its children hold
-- concrete stand-ins for the parameters and instances of the theorems. Loops that run while a flag
-- is set take the list of what each test of the flag finds, so they need no fuel.
--
-- Not modelled: the thread objects themselves, log output, and the timing of sleeps; a signal that
-- comes within a statement of run rather than between two. Locks are taken for granted. A step is
-- a critical section, but for an accept and for the end of a handler in Qt/Clients.antt, which
-- take their scopes in one, and for a turn of the beacon receiver, which takes its look into the
-- registry and its report to it in one.
pub mod Base
pub mod Wire
pub mod Net
pub mod Json
pub mod Device
pub mod DeviceManager
pub mod Auth
pub mod Qt
pub mod Client
pub mod Tests
pub mod InternalServer
pub mod SubPi
pub mod Relay
pub mod DeviceController
pub mod Onvif
pub mod Tls
pub mod Dtls
pub mod DeviceServer
pub mod SystemMonitor
