-- ===== src/Net/Reliable.antt =====
-- Transfers over a connection that makes progress.
use device_app.Base.{
  ℕ, zero, suc, ◌+◌, ◌-◌, ◌≤◌, ◌≡◌, refl, sym, ap, ◌∙◌, List, [], ◌∷◌, ◌++◌, some, true, length,
  drop, get_or, arith, append-nil, length-append, length-drop,
}
use device_app.Wire.{Bytes}
use device_app.Net.{Net, NetLaws, send_loop, send_exact, send_parts, recv_loop, recv_exact, join}
use device_app.Net.Transfer.{send_parts-Delivers}
use device_app.Net.Receiving.{recv_exact-Receives}

module _ {W : Type 0} {net : Net W} (law : NetLaws net) (fd : ℕ) where
  -- The peer takes bytes: no send of some bytes fails or takes none of them.
  abbrev pub IsHealthy : Type 0
  IsHealthy = (w : W) (b : ℕ) (bs : Bytes) → (n : ℕ) × ((net.send w fd (b ∷ bs)).0 ≡ some (suc n))

  -- While the peer's stream holds bytes, a read gives some of them.
  abbrev pub IsFed : Type 0
  IsFed =
      (w : W) (n b : ℕ) (bs : Bytes)
      → law.incoming w fd ≡ b ∷ bs
      → (c : ℕ) × (cs : Bytes) × ((net.recv w fd (suc n)).0 ≡ some (c ∷ cs))

module _ {W : Type 0} (net : Net W) (law : NetLaws net) (fd : ℕ) where
  send_loop-true :
      (fuel : ℕ) (bs : Bytes) (w : W)
      → IsHealthy law fd
      → length bs ≤ fuel
      → (w' : W) × (send_loop net fd fuel bs w ≡ some (true, w'))
  unfolding send_loop
  send_loop-true fuel [] w h q = (w, refl)
  send_loop-true zero (b ∷ bs) w h q = absurd (omega arith)
  send_loop-true (suc fuel) (b ∷ bs) w h q =
      let (n, e) = h w b bs in
      rw (e, send_loop)
        (send_loop-true fuel (drop n bs) (net.send w fd (b ∷ bs)).1 h
          (omega (arith, length-drop n bs)))

  pub send_exact-true : (bs : Bytes) (w : W) → IsHealthy law fd → (send_exact net fd bs w).0 ≡ true
  unfolding send_exact
  send_exact-true bs w h =
      let (w', e) = send_loop-true (length bs) bs w h (omega arith) in rw (e, send_exact)

  pub send_parts-true :
      (parts : List Bytes) (w : W) → IsHealthy law fd → (send_parts net fd parts w).0 ≡ true
  unfolding send_parts
  send_parts-true [] w h = refl
  send_parts-true (part ∷ parts) w h =
      rw (send_exact-true part w h, send_parts)
        (send_parts-true parts (send_exact net fd part w).1 h)

  -- All parts arrive at a healthy peer.
  pub send_parts-sent :
      (parts : List Bytes) (w : W)
      → IsHealthy law fd
      → law.sent (send_parts net fd parts w).1 fd ≡ law.sent w fd ++ join parts
  send_parts-sent parts w h =
      let d = send_parts-Delivers net law fd parts w in
      d.taken
      ∙ ap (◌++◌ (law.sent w fd))
          (sym (d.split ∙ rw (d.complete (send_parts-true parts w h)) (append-nil d.pre)))

  next_nonempty :
      (bs : Bytes) (m : ℕ) → suc m ≤ length bs → (b : ℕ) × (rest : Bytes) × (bs ≡ b ∷ rest)
  next_nonempty [] m q = absurd (omega arith)
  next_nonempty (b ∷ rest) m q = (b, rest, refl)

  recv_loop-some :
      (fuel need : ℕ) (acc : Bytes) (w : W)
      → IsFed law fd
      → need ≤ fuel
      → need ≤ length (law.incoming w fd)
      → (bs : Bytes) × (w' : W) × (recv_loop net fd fuel need acc w ≡ some (some bs, w'))
  unfolding recv_loop
  recv_loop-some fuel zero acc w h q l = (acc, w, refl)
  recv_loop-some zero (suc m) acc w h q l = absurd (omega arith)
  recv_loop-some (suc fuel) (suc m) acc w h q l =
      let (a, ahead, e) = next_nonempty (law.incoming w fd) m l in
      let (c, cs, r) = h w m a ahead e in
      let w' : W = (net.recv w fd (suc m)).1 in
      let split : law.incoming w fd ≡ (c ∷ cs) ++ law.incoming w' fd =
        law.incoming-recv w fd (suc m) ∙ ap (λ o. get_or o [] ++ law.incoming w' fd) r in
      let measure : length (law.incoming w fd) ≡ length (c ∷ cs) + length (law.incoming w' fd) =
        ap length split ∙ length-append (c ∷ cs) (law.incoming w' fd) in
      rw (r, recv_loop)
        (recv_loop-some fuel (m - length cs) (acc ++ (c ∷ cs)) w' h (omega arith) (omega arith))

  append_same : (a b xs ys : Bytes) → length a ≡ length b → a ++ xs ≡ b ++ ys → (a ≡ b) × (xs ≡ ys)
  append_same [] [] xs ys l e = (refl, e)
  append_same [] (b ∷ bs) xs ys l e = absurd (omega arith)
  append_same (a ∷ us) [] xs ys l e = absurd (omega arith)
  append_same (a ∷ us) (b ∷ bs) xs ys l e =
      let more = append_same us bs xs ys (omega arith) (ap (drop 1) e) in (cc, more.1)

  -- The bytes that are due arrive, and no more are taken.
  pub recv_exact-some :
      (bs rest : Bytes) (w : W)
      → IsFed law fd
      → law.incoming w fd ≡ bs ++ rest
      → let r = recv_exact net fd (length bs) w in (r.0 ≡ some bs) × (law.incoming r.1 fd ≡ rest)
  unfolding recv_exact
  recv_exact-some bs rest w h e =
      let due : length bs ≤ length (law.incoming w fd) =
        rw e (omega (arith, length-append bs rest)) in
      let (got, w', r) = recv_loop-some (length bs) (length bs) [] w h (omega arith) due in
      let run : (recv_exact net fd (length bs) w).0 ≡ some got = rw (r, recv_exact) refl in
      let (l, s) = (recv_exact-Receives net law fd (length bs) w).whole got run in
      let (a, b) =
        append_same got bs (law.incoming (recv_exact net fd (length bs) w).1 fd) rest l
          (sym s ∙ e) in
      (run ∙ ap some a, b)
