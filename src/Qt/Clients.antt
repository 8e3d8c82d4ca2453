-- ===== src/Qt/Clients.antt =====
-- The life of a client in the tables of ClientServer/src/QtCommServer.cpp: its connection, its
-- role, its session, the end of its handler, and the collection of its thread.
pub mod Sends
use device_app.Base.{
  ℕ, ◌≡◌, refl, String, List, [], ◌∷◌, none, some, true, false, ◌&&◌, ◌||◌, not, nat_key, arith,
  is_some, elem, remove, elem-append, elem-remove, elem-remove_all, nat_eq_iff,
}
use device_app.Base.Map.{find, insert, find-insert, find-erase}
use device_app.Qt.{QtServer, accept_client, end_client, set_client_role, cleanup_finished_threads}

abbrev pub no_clients : {S : Type 0} → QtServer S
no_clients = record {
  client_fds = [];
  client_roles = [];
  tls_sessions = [];
  finished_fds = [];
  client_threads = [];
}

-- What the server's threads can make of its tables before a stop, when the kernel hands out no
-- descriptor that is still listed, and no other thread comes between the lock scopes of an accept or
-- of a handler's end.
pub data Reachable {S : Type 0} : QtServer S → Type 0 where
  start : Reachable no_clients
  accepted :
      {s s' : QtServer S} (fd : ℕ)
      → Reachable s
      → elem fd s.client_fds ≡ false
      → accept_client fd s ≡ some s'
      → Reachable s'
  tagged :
      {s : QtServer S} (fd : ℕ) (role : String)
      → Reachable s
      → elem fd s.client_fds ≡ true
      → Reachable (set_client_role fd role s)
  ciphered :
      {s : QtServer S} (fd : ℕ) (session : S)
      → Reachable s
      → elem fd s.client_fds ≡ true
      → Reachable (record s { tls_sessions = insert fd session s.tls_sessions })
  ended :
      {s : QtServer S} (fd : ℕ)
      → Reachable s
      → elem fd s.client_fds ≡ true
      → Reachable (end_client fd s)
  collected : {s : QtServer S} → Reachable s → Reachable (cleanup_finished_threads s)

module _ {S : Type 0} where
  -- Roles and sessions belong to listed clients; a joinable thread belongs to a listed client or to one
  -- that ended since the last collection, and not to both.
  pub record IsTracked (s : QtServer S) : Type 0 where
    pub roles : (g : ℕ) → elem g s.client_fds ≡ false → find g s.client_roles ≡ none
    pub sessions : (g : ℕ) → elem g s.client_fds ≡ false → find g s.tls_sessions ≡ none
    pub threads : (g : ℕ) → elem g s.client_threads ≡ elem g s.client_fds || elem g s.finished_fds
    pub apart : (g : ℕ) → (elem g s.client_fds && elem g s.finished_fds) ≡ false

  accept-IsTracked :
      (fd : ℕ) (s s' : QtServer S) → IsTracked s → accept_client fd s ≡ some s' → IsTracked s'
  unfolding accept_client
  accept-IsTracked fd s s' t h = record {
    roles = λ g off. ground (arith, t.roles g, elem-append g s.client_fds (fd ∷ []));
    sessions = λ g off. ground (arith, t.sessions g, elem-append g s.client_fds (fd ∷ []));
    threads = λ g. ground (arith, t.threads g, elem-append g s.client_fds (fd ∷ []));
    apart = λ g.
        ground
          (arith, t.apart g, t.threads g, nat_eq_iff g fd, elem-append g s.client_fds (fd ∷ []));
  }

  tag-IsTracked :
      (fd : ℕ) (role : String) (s : QtServer S)
      → IsTracked s
      → elem fd s.client_fds ≡ true
      → IsTracked (set_client_role fd role s)
  unfolding set_client_role
  tag-IsTracked fd role s t on = record {
    roles =
        λ g off. ground (arith, t.roles g, find-insert fd g role s.client_roles, nat_eq_iff fd g);
    sessions = t.sessions;
    threads = t.threads;
    apart = t.apart;
  }

  cipher-IsTracked :
      (fd : ℕ) (session : S) (s : QtServer S)
      → IsTracked s
      → elem fd s.client_fds ≡ true
      → IsTracked (record s { tls_sessions = insert fd session s.tls_sessions })
  cipher-IsTracked fd session s t on = record {
    roles = t.roles;
    threads = t.threads;
    apart = t.apart;
    sessions = λ g off.
        ground (arith, t.sessions g, find-insert fd g session s.tls_sessions, nat_eq_iff fd g);
  }

  end-IsTracked :
      (fd : ℕ) (s : QtServer S)
      → IsTracked s
      → elem fd s.client_fds ≡ true
      → IsTracked (end_client fd s)
  unfolding end_client
  end-IsTracked fd s t on = record {
    roles = λ g off.
        ground (arith, t.roles g, find-erase fd g s.client_roles, elem-remove fd g s.client_fds);
    sessions = λ g off.
        ground (arith, t.sessions g, find-erase fd g s.tls_sessions, elem-remove fd g s.client_fds);
    threads = λ g.
        ground
          (arith, t.threads g, elem-remove fd g s.client_fds, nat_eq_iff fd g, nat_eq_iff g fd);
    apart = λ g.
        ground (arith, t.apart g, elem-remove fd g s.client_fds, nat_eq_iff fd g, nat_eq_iff g fd);
  }

  collect-IsTracked : (s : QtServer S) → IsTracked s → IsTracked (cleanup_finished_threads s)
  unfolding cleanup_finished_threads
  collect-IsTracked s t = record {
    roles = t.roles;
    sessions = t.sessions;
    threads = λ g.
        ground (arith, t.threads g, t.apart g, elem-remove_all s.finished_fds s.client_threads g);
    apart = λ g. ground arith;
  }

  -- In every state that is reachable so roles and sessions belong to listed clients, and a joinable thread
  -- belongs to a listed client or to one that ended since the last collection, and not to both.
  pub Reachable-IsTracked : (s : QtServer S) → Reachable s → IsTracked s
  unfolding find
  Reachable-IsTracked s Reachable.start = record {
    roles = λ g h. refl;
    sessions = λ g h. refl;
    threads = λ g. refl;
    apart = λ g. refl;
  }
  Reachable-IsTracked s (Reachable.accepted {s = s₀} fd r off h) =
      accept-IsTracked fd s₀ s (Reachable-IsTracked s₀ r) h
  Reachable-IsTracked s (Reachable.tagged {s = s₀} fd role r on) =
      tag-IsTracked fd role s₀ (Reachable-IsTracked s₀ r) on
  Reachable-IsTracked s (Reachable.ciphered {s = s₀} fd session r on) =
      cipher-IsTracked fd session s₀ (Reachable-IsTracked s₀ r) on
  Reachable-IsTracked s (Reachable.ended {s = s₀} fd r on) =
      end-IsTracked fd s₀ (Reachable-IsTracked s₀ r) on
  Reachable-IsTracked s (Reachable.collected {s = s₀} r) =
      collect-IsTracked s₀ (Reachable-IsTracked s₀ r)

  -- In a reachable state, accepting a descriptor that is not listed starts a handler exactly if no
  -- former client of it ended since the last collection of threads; else the process ends. After a
  -- collection it always starts one. The new client has neither role nor session.
  pub accept_outcome :
      (fd : ℕ) (s : QtServer S)
      → Reachable s
      → elem fd s.client_fds ≡ false
      → (is_some (accept_client fd s) ≡ not (elem fd s.finished_fds))
        × (is_some (accept_client fd (cleanup_finished_threads s)) ≡ true)
        × (find fd s.client_roles ≡ none)
        × (find fd s.tls_sessions ≡ none)
  unfolding accept_client cleanup_finished_threads
  accept_outcome fd s r off =
      let t = Reachable-IsTracked s r in
      (
        ground (arith, t.threads fd),
        ground (arith, t.threads fd, elem-remove_all s.finished_fds s.client_threads fd),
        t.roles fd off,
        t.sessions fd off,
      )
