-- ===== src/Qt/Accepting.antt =====
-- QtCommServer::acceptLoop of ClientServer/src/QtCommServer.cpp, with what the handlers do while it
-- waits in accept(2).
use device_app.Base.{ℕ, ◌≡◌, List, [], ◌∷◌, Option, none, some, Bool, true, false, nat_key, elem}
use device_app.Qt.{QtServer, accept_client, end_client, cleanup_finished_threads}

-- What comes of a wait in accept(2): the clients whose handlers end meanwhile, and the descriptor.
pub record Wait : Type 0 where
  pub ended : List ℕ
  pub accepted : Option ℕ

module _ {S : Type 0} where
  unfoldable pub end_clients : List ℕ → QtServer S → QtServer S
  end_clients [] s = s
  end_clients (fd ∷ fds) s = end_clients fds (end_client fd s)

  taken : Option ℕ → QtServer S → Option (Bool × QtServer S)
  taken none s = some (false, s)
  taken (some fd) s = elim (accept_client fd s) [ none ↦ none | some s' ↦ some (true, s') ]

  -- false: the loop ends. `none`: the process does.
  unfoldable pub accept_turn : Wait → QtServer S → Option (Bool × QtServer S)
  unfolding end_clients taken
  accept_turn wait s = taken wait.accepted (end_clients wait.ended (cleanup_finished_threads s))

  -- Each element is a test of `is_running_` and the wait that follows it.
  unfoldable pub accept_loop : List (Bool × Wait) → QtServer S → Option (Bool × QtServer S)
  unfolding accept_turn
  accept_loop [] s = some (true, s)
  accept_loop ((false, wait) ∷ rest) s = some (false, s)
  accept_loop ((true, wait) ∷ rest) s = elim (accept_turn wait s) [
    | none ↦ none
    | some (false, s') ↦ some (false, s')
    | some (true, s') ↦ accept_loop rest s'
  ]

  -- Handlers end once each, of clients that are listed.
  abbrev pub AreListed : List ℕ → QtServer S → Type 0
  AreListed [] s = Unit {0}
  AreListed (fd ∷ fds) s = (elem fd s.client_fds ≡ true) × AreListed fds (end_client fd s)
