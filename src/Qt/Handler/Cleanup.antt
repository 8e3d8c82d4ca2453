-- ===== src/Qt/Handler/Cleanup.antt =====
-- What the end of a handler leaves behind.
use device_app.Base.{
  ℕ, ◌≡◌, List, [], ◌∷◌, Option, none, Bool, true, false, elem, nat_key, arith, elem-remove,
  if_cases, Option-cases, inl, inr, nat_eq_iff,
}
use device_app.Base.Map.{find, find-erase}
use device_app.Wire.{MessageType}
use device_app.Net.{Net}
use device_app.Json.{JsonLib}
use device_app.Qt.{SecureSession, QtServer, end_client}
use device_app.Qt.Handler.{
  Host, Flow, Outcome, client_turn, client_loop, client_handler, leave_client, emplaced, store,
}

-- The tables hold nothing of the client, and its thread is marked for collection.
pub record IsGone {S : Type 0} (fd : ℕ) (s : QtServer S) : Type 0 where
  pub unlisted : elem fd s.client_fds ≡ false
  pub no_role : find fd s.client_roles ≡ none
  pub no_session : find fd s.tls_sessions ≡ none
  pub marked : elem fd s.finished_fds ≡ true

end_client-IsGone : {S : Type 0} (fd : ℕ) (s : QtServer S) → IsGone fd (end_client fd s)
unfolding end_client
end_client-IsGone fd s = record {
  unlisted = ground (arith, elem-remove fd fd s.client_fds, nat_eq_iff fd fd);
  no_role = ground (arith, find-erase fd fd s.client_roles, nat_eq_iff fd fd);
  no_session = ground (arith, find-erase fd fd s.tls_sessions, nat_eq_iff fd fd);
  marked = ground (arith, nat_eq_iff fd fd);
}

module _ {W S J E : Type 0} (net : Net W) (tls : SecureSession S) (js : JsonLib J)
    (on_message : ℕ → MessageType → J → Host W S E → Option (Host W S E)) where
  -- How a run may come out, when an ended one must have cleaned up.
  abbrev pub CleansUp : ℕ → Outcome W S E → Type 0
  CleansUp fd (Outcome.waiting st) = Unit {0}
  CleansUp fd (Outcome.ended st) = IsGone fd st.qt
  CleansUp fd (Outcome.abandoned st) = elem fd st.qt.client_fds ≡ true
  CleansUp fd Outcome.thrown = Unit {0}

  left : (fd : ℕ) (st : Host W S E) → IsGone fd (leave_client net tls js on_message fd st).qt
  unfolding leave_client
  left fd st = end_client-IsGone fd st.qt

  client_loop-CleansUp :
      (fd : ℕ) (tls_enabled : Bool) (flags : List Bool) (st : Host W S E)
      → CleansUp fd (client_loop net tls js on_message fd tls_enabled flags st)
  unfolding client_loop
  client_loop-CleansUp fd tls_enabled [] st = tt
  client_loop-CleansUp fd tls_enabled (false ∷ flags) st = left fd st
  client_loop-CleansUp fd tls_enabled (true ∷ flags) st =
      elim (Option-cases (client_turn net tls js on_message fd tls_enabled st)) [
        | inl e ↦ rw (e, client_loop) tt
        | inr ((Flow.leave, st'), e) ↦ rw (e, client_loop) (left fd st')
        | inr ((Flow.next, st'), e) ↦
            rw (e, client_loop) (client_loop-CleansUp fd tls_enabled flags st')
      ]

  -- However the handler of a listed client ends, the tables hold nothing of the client and its
  -- thread is marked for collection; only the return for a session that is not valid leaves the
  -- client listed.
  pub client_handler-CleansUp :
      (fd : ℕ) (tls_enabled : Bool) (fresh : S) (flags : List Bool) (st : Host W S E)
      → elem fd st.qt.client_fds ≡ true
      → CleansUp fd (client_handler net tls js on_message fd tls_enabled fresh flags st)
  unfolding client_handler
  client_handler-CleansUp fd false fresh flags st on = client_loop-CleansUp fd false flags st
  client_handler-CleansUp fd true fresh flags st on =
      let session = emplaced net tls js on_message fd fresh st in
      if_cases (CleansUp fd) (tls.is_valid session) _ _
        (λ _. client_loop-CleansUp fd true flags (store net tls js on_message fd session st))
        (λ _. on)
