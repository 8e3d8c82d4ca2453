-- ===== src/Client/Process/Settling.antt =====
-- The ClientServer's process between two statements: what each step of it keeps.
use device_app.Base.{
  ℕ, ◌≡◌, refl, List, [], ◌∷◌, Option, none, some, true, false, not, ◌||◌, if_cases, arith,
}
use mathlib.Core.Path.{subst}
use device_app.Net.{Net}
use device_app.Net.Listening.{Listener}
use device_app.Qt.{QtServer}
use device_app.Qt.Clients.{no_clients, Reachable}
use device_app.Qt.Lifecycle as Port
use device_app.Qt.Lifecycle.{Stopped, stop-Stopped}
use device_app.Client.{ClientServer}
use device_app.Client.Link.Retry as Retry
use device_app.Client.Process.{
  App, Event, Schedule, service, shared, start_link, signals, is_signal, stop_link, start_port,
  stop_port, stop, happen, happen_all,
}
use device_app.Client.Process.Stopping.{
  Held, stopped-Held, moved-Stopped, moved-Held, stop-idle, stop-Held, start-Held,
}

-- The tables that other threads bring about are reachable ones.
module _ {W S J D : Type 0} where
  abbrev pub Fits : List (Event W S J D) → Type 0
  Fits [] = Unit {0}
  Fits (Event.signal ∷ es) = Fits es
  Fits (Event.others st ∷ es) = Reachable st.qt × Fits es

  abbrev pub RoundsFit : List (J × List (Event W S J D)) → Type 0
  RoundsFit [] = Unit {0}
  RoundsFit ((status, es) ∷ rest) = Fits es × RoundsFit rest

  pub record ScheduleFits (e : Schedule W S J D) : Type 0 where
    pub at_first : Fits e.at_first
    pub after_link : Fits e.after_link
    pub after_tls : Fits e.after_tls
    pub after_port : Fits e.after_port
    pub rounds : RoundsFit e.rounds

module _ {W S J D C : Type 0} (net : Net W) (sockets : Listener W) where
  pub record Settled (a : App W S J D C) : Type 0 where
    pub held : Held net sockets (service a)
    pub linked : a.link.connecting ≡ a.link.is_running

  pub hung_up-Settled :
      (fd : Option ℕ) (a : App W S J D C)
      → Settled a
      → Settled (record a {
        link = record a.link {
          is_running = false;
          connecting = false;
          client = Retry.hung_up net sockets fd a.link.client;
        };
      })
  unfolding Retry.hung_up
  hung_up-Settled none a h = record { held = h.held; linked = refl }
  hung_up-Settled (some fd) a h = record {
    held = moved-Held net sockets (service a) _ h.held;
    linked = refl;
  }

  pub stop_link-Settled : (a : App W S J D C) → Settled a → Settled (stop_link net sockets a)
  unfolding stop_link Retry.stop
  stop_link-Settled a h =
      if_cases (λ (l : Retry.LinkService W S J D). Settled (record a { link = l }))
        a.link.is_running _ _ (λ _. hung_up-Settled a.link.client.current_fd a h) (λ _. h)

  pub stop_link-off : (a : App W S J D C) → (stop_link net sockets a).link.is_running ≡ false
  unfolding stop_link Retry.stop
  stop_link-off a =
      if_cases (λ (l : Retry.LinkService W S J D). l.is_running ≡ false) a.link.is_running _ _
        (λ _. refl) (λ off. off)

  pub stop_port-Settled : (a : App W S J D C) → Settled a → Settled (stop_port net sockets a)
  unfolding stop_port
  stop_port-Settled a h = record {
    held = stopped-Held net sockets _ (stop-Held net sockets (service a) h.held);
    linked = h.linked;
  }

  pub stop-Settled : (a : App W S J D C) → Settled a → Settled (stop net sockets a)
  unfolding stop
  stop-Settled a h =
      let b : App W S J D C = record a { is_running = false } in
      if_cases Settled (not a.is_running) _ _ (λ _. h)
        (λ _.
          stop_port-Settled _ (stop_link-Settled b (record { held = h.held; linked = h.linked })))

  pub shared-Settled :
      (st : ClientServer W S J D) (a : App W S J D C)
      → Reachable st.qt
      → Settled a
      → Settled (shared st a)
  unfolding shared
  shared-Settled st a r h = record {
    held = record {
      reachable = λ on. rw on r;
      quiet = λ off.
          if_cases
            (λ (q : QtServer S).
              Stopped net sockets (record (service a) { qt = q; world = st.world }))
            a.serving _ _ (λ on. ground (arith, on, off))
            (λ _. moved-Stopped net sockets (service a) st.world (h.held.quiet off));
    };
    linked = h.linked;
  }

  pub happen_all-Settled :
      (es : List (Event W S J D)) (a : App W S J D C)
      → Fits es
      → Settled a
      → Settled (happen_all net sockets es a)
  unfolding happen_all happen
  happen_all-Settled [] a f h = h
  happen_all-Settled (Event.signal ∷ es) a f h =
      happen_all-Settled es (stop net sockets a) f (stop-Settled a h)
  happen_all-Settled (Event.others st ∷ es) a (r, f) h =
      happen_all-Settled es (shared st a) f (shared-Settled st a r h)

  -- The Qt port was not started yet.
  abbrev pub Unserved : App W S J D C → Type 0
  Unserved a = (a.serving ≡ false) × (a.link.client.qt ≡ no_clients)

  pub stop_link-Unserved : (a : App W S J D C) → Unserved a → Unserved (stop_link net sockets a)
  unfolding stop_link Retry.stop Retry.hung_up
  stop_link-Unserved a h =
      if_cases (λ (l : Retry.LinkService W S J D). Unserved (record a { link = l }))
        a.link.is_running _ _
        (λ _. (
          h.0,
          elim a.link.client.current_fd
              as (λ o. (Retry.hung_up net sockets o a.link.client).qt ≡ no_clients) [
                | none ↦ h.1
                | some fd ↦ h.1
              ],
        ))
        (λ _. h)

  pub stop_port-Unserved : (a : App W S J D C) → Unserved a → Unserved (stop_port net sockets a)
  unfolding stop_port
  stop_port-Unserved a h =
      subst (λ (s : Port.Service W S). (s.is_running ≡ false) × (s.qt ≡ no_clients))
        (stop-idle net sockets (service a) h.0) h

  pub stop-Unserved : (a : App W S J D C) → Unserved a → Unserved (stop net sockets a)
  unfolding stop
  stop-Unserved a h =
      if_cases Unserved (not a.is_running) _ _ (λ _. h)
        (λ _.
          let b : App W S J D C = record a { is_running = false } in
          stop_port-Unserved (stop_link net sockets b) (stop_link-Unserved b h))

  pub happen_all-Unserved :
      (es : List (Event W S J D)) (a : App W S J D C)
      → Unserved a
      → Unserved (happen_all net sockets es a)
  unfolding happen_all happen shared
  happen_all-Unserved [] a h = h
  happen_all-Unserved (Event.signal ∷ es) a h =
      happen_all-Unserved es (stop net sockets a) (stop-Unserved a h)
  happen_all-Unserved (Event.others st ∷ es) a h =
      happen_all-Unserved es (shared st a) (h.0, rw h.0 h.1)

  pub start_port-Settled :
      (a : App W S J D C) → Unserved a → Settled a → Settled (start_port net sockets a)
  unfolding start_port Port.start
  start_port-Settled a u h = record {
    held = start-Held net sockets 20000 (service a) u.0 u.1 h.held;
    linked = h.linked;
  }

  pub start_link-Settled : (a : App W S J D C) → Settled a → Settled (start_link a)
  unfolding start_link Retry.start
  start_link-Settled a h =
      if_cases (λ (l : Retry.LinkService W S J D). Settled (record a { link = l }))
        a.link.is_running _ _ (λ _. h) (λ _. record { held = h.held; linked = refl })

  pub start_link-Unserved : (a : App W S J D C) → Unserved a → Unserved (start_link a)
  unfolding start_link Retry.start
  start_link-Unserved a h =
      if_cases (λ (l : Retry.LinkService W S J D). Unserved (record a { link = l }))
        a.link.is_running _ _ (λ _. h) (λ _. h)

  -- Whether the flag is cleared, and stays so.
  pub stop-clears : (a : App W S J D C) → (stop net sockets a).is_running ≡ false
  unfolding stop stop_port stop_link
  stop-clears a =
      if_cases (λ (b : App W S J D C). b.is_running ≡ false) (not a.is_running) _ _
        (λ off. ground (arith, off)) (λ _. refl)

  pub happen_all-cleared :
      (es : List (Event W S J D)) (a : App W S J D C)
      → (signals es || not a.is_running) ≡ true
      → (happen_all net sockets es a).is_running ≡ false
  unfolding happen_all happen signals is_signal shared
  happen_all-cleared [] a h = ground (arith, h)
  happen_all-cleared (Event.signal ∷ es) a h =
      happen_all-cleared es (stop net sockets a) (ground (arith, stop-clears a))
  happen_all-cleared (Event.others st ∷ es) a h = happen_all-cleared es (shared st a) h
