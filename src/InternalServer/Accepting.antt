-- ===== src/InternalServer/Accepting.antt =====
-- InternalServer::acceptLoop of DeviceServer/src/InternalServer.cpp, with the handlers that end while
-- it waits in accept(2).
use device_app.Base.{
  ℕ, ◌≡◌, refl, List, [], ◌∷◌, Option, none, some, Bool, true, false, ◌&&◌, not, elem, is_some,
  nat_key, arith, elem-remove_all,
}
use device_app.Net.{Net}
use device_app.Json.{JsonLib}
use device_app.InternalServer.{Owner, Hub, accept_client, end_client, cleanup_finished_threads}

module _ {W J E : Type 0} (net : Net W) (js : JsonLib J) (owner : Owner W J E) where
  end_clients : List ℕ → Hub W E → Hub W E
  end_clients [] hub = hub
  end_clients (fd ∷ fds) hub = end_clients fds (end_client net js owner fd hub)

  taken : Option ℕ → Hub W E → Option (Bool × Hub W E)
  taken none hub = some (false, hub)
  taken (some fd) hub = elim (accept_client net js owner fd hub) [
    | none ↦ none
    | some hub' ↦ some (true, hub')
  ]

  -- A turn: the handlers that end in its wait, and what accept gives. false: the loop ends; `none`:
  -- the process does.
  pub accept_turn : List ℕ → Option ℕ → Hub W E → Option (Bool × Hub W E)
  unfolding end_clients taken
  accept_turn ended accepted hub = taken accepted (end_clients ended (cleanup_finished_threads hub))

  -- Each element is a test of `is_running_`, and the turn that follows it.
  pub accept_loop : List (Bool × List ℕ × Option ℕ) → Hub W E → Option (Bool × Hub W E)
  unfolding accept_turn
  accept_loop [] hub = some (true, hub)
  accept_loop ((false, ended, accepted) ∷ rest) hub = some (false, hub)
  accept_loop ((true, ended, accepted) ∷ rest) hub = elim (accept_turn ended accepted hub) [
    | none ↦ none
    | some (false, hub') ↦ some (false, hub')
    | some (true, hub') ↦ accept_loop rest hub'
  ]

  threads-end_clients :
      (fds : List ℕ) (hub : Hub W E) → (end_clients fds hub).client_threads ≡ hub.client_threads
  unfolding end_clients end_client
  threads-end_clients [] hub = refl
  threads-end_clients (fd ∷ fds) hub = threads-end_clients fds (end_client net js owner fd hub)

  taken-accepts :
      (fd : ℕ) (hub : Hub W E) → is_some (taken (some fd) hub) ≡ not (elem fd hub.client_threads)
  unfolding taken accept_client
  taken-accepts fd hub = ground arith

  -- A turn of the accept loop that gets a descriptor ends the process exactly if the thread of an
  -- earlier client of it had not ended when the turn began, whichever handlers end in its wait.
  pub accept_turn_exact :
      (ended : List ℕ) (fd : ℕ) (hub : Hub W E)
      → is_some (accept_turn ended (some fd) hub)
        ≡ not (elem fd hub.client_threads && not (elem fd hub.finished_fds))
  unfolding accept_turn cleanup_finished_threads
  accept_turn_exact ended fd hub =
      let cleaned = cleanup_finished_threads hub in
      rw (taken-accepts fd (end_clients ended cleaned), threads-end_clients ended cleaned)
        (ground (arith, elem-remove_all hub.finished_fds hub.client_threads fd))
