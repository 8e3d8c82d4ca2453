-- ===== src/Net/Transfer.antt =====
-- sendExact and recvExact of common/NetUtil.h: the loops end, and what they transfer.
use device_app.Base.{
  ℕ, zero, suc, ◌-◌, ◌≤◌, ◌≡◌, ◌≢◌, refl, sym, ap, ◌∙◌, List, [], ◌∷◌, ◌++◌, append_assoc,
  append-nil, Option, none, some, Bool, true, false, length, length-drop, drop, take,
  take-append-drop, get_or, arith, if_cases,
}
use mathlib.Core.Option.{some-injective}
use mathlib.Core.Path.{subst}
use device_app.Wire.{Bytes}
use device_app.Net.{Net, NetLaws, send_loop, send_exact, recv_loop, send_parts, join}

abbrev pub Ends {ℓ} : {A : Type ℓ} → Option A → Type ℓ
Ends {A} o = (r : A) × (o ≡ some r)

module _ {W : Type 0} (net : Net W) (fd : ℕ) where
  -- With as much fuel as there are bytes the loop of sendExact ends, whatever send answers.
  pub send_loop_total :
      (fuel : ℕ) (bs : Bytes) (w : W) → length bs ≤ fuel → Ends (send_loop net fd fuel bs w)
  unfolding send_loop
  send_loop_total fuel [] w h = ((true, w), refl)
  send_loop_total zero (b ∷ bs) w h = absurd (omega arith)
  send_loop_total (suc fuel) (b ∷ bs) w h =
      let w' : W = (net.send w fd (b ∷ bs)).1 in
      elim (net.send w fd (b ∷ bs)).0
        as (λ o. Ends {A = Bool × W} (elim o [
          | none ↦ some (false, w')
          | some zero ↦ some (false, w')
          | some (suc n) ↦ send_loop net fd fuel (drop n bs) w'
        ])) [
          | none ↦ ((false, w'), refl)
          | some zero ↦ ((false, w'), refl)
          | some (suc n) ↦ send_loop_total fuel (drop n bs) w' (omega (arith, length-drop n bs))
        ]

  -- With as much fuel as bytes are wanted the loop of recvExact ends, whatever recv answers.
  pub recv_loop_total :
      (fuel need : ℕ) (acc : Bytes) (w : W) → need ≤ fuel → Ends (recv_loop net fd fuel need acc w)
  unfolding recv_loop
  recv_loop_total fuel zero acc w h = ((some acc, w), refl)
  recv_loop_total zero (suc m) acc w h = absurd (omega arith)
  recv_loop_total (suc fuel) (suc m) acc w h =
      let w' : W = (net.recv w fd (suc m)).1 in
      elim (net.recv w fd (suc m)).0
        as (λ o. Ends {A = Option Bytes × W} (elim o [
          | none ↦ some (none, w')
          | some [] ↦ some (none, w')
          | some (b ∷ bs) ↦ recv_loop net fd fuel (m - length bs) (acc ++ (b ∷ bs)) w'
        ])) [
          | none ↦ ((none, w'), refl)
          | some [] ↦ ((none, w'), refl)
          | some (b ∷ bs) ↦ recv_loop_total fuel (m - length bs) (acc ++ (b ∷ bs)) w' (omega arith)
        ]

  -- With as much fuel as there are bytes to send, and as are wanted, the loops of sendExact and
  -- recvExact end, whatever send and recv answer.
  pub transfers_end :
      (fuel need : ℕ) (bs acc : Bytes) (w : W)
      → length bs ≤ fuel
      → need ≤ fuel
      → Ends (send_loop net fd fuel bs w) × Ends (recv_loop net fd fuel need acc w)
  transfers_end fuel need bs acc w h k =
      (send_loop_total fuel bs w h, recv_loop_total fuel need acc w k)

-- What a transfer to `fd` did: the kernel has taken a prefix of the bytes, all of them if the
-- answer is true, and nothing for any other descriptor.
pub record Delivers {W : Type 0} {net : Net W} (law : NetLaws net) (fd : ℕ) (bs : Bytes) (w : W)
    (r : Bool × W) : Type 0 where
  pub pre : Bytes
  pub post : Bytes
  pub split : bs ≡ pre ++ post
  pub taken : law.sent r.1 fd ≡ law.sent w fd ++ pre
  pub complete : r.0 ≡ true → post ≡ []
  pub others : (g : ℕ) → fd ≢ g → law.sent r.1 g ≡ law.sent w g

module _ {W : Type 0} (net : Net W) (law : NetLaws net) (fd : ℕ) where
  sent_same :
      (w : W) (bs : Bytes)
      → law.sent (net.send w fd bs).1 fd ≡ law.sent w fd ++ take (get_or (net.send w fd bs).0 0) bs
  sent_same w bs = ground (arith, law.sent-send w fd fd bs)

  sent_other :
      (w : W) (bs : Bytes) (g : ℕ) → fd ≢ g → law.sent (net.send w fd bs).1 g ≡ law.sent w g
  sent_other w bs g h = ground (arith, law.sent-send w fd g bs)

  send_failed :
      (w : W) (bs : Bytes)
      → get_or (net.send w fd bs).0 0 ≡ 0
      → Delivers law fd bs w (false, (net.send w fd bs).1)
  send_failed w bs e = record {
    pre = [];
    post = bs;
    split = refl;
    taken = sent_same w bs ∙ rw e refl;
    complete = λ q. cc;
    others = λ g h. sent_other w bs g h;
  }

  pub Delivers-trans :
      (w v : W) (a b : Bytes) (r : Bool × W)
      → law.sent v fd ≡ law.sent w fd ++ a
      → ((g : ℕ) → fd ≢ g → law.sent v g ≡ law.sent w g)
      → Delivers law fd b v r
      → Delivers law fd (a ++ b) w r
  Delivers-trans w v a b r e o d = record {
    pre = a ++ d.pre;
    post = d.post;
    split = ap (◌++◌ a) d.split ∙ sym (append_assoc a d.pre d.post);
    taken = d.taken ∙ rw (e, append_assoc) refl;
    complete = d.complete;
    others = λ g h. d.others g h ∙ o g h;
  }

  Delivers-result :
      (bs : Bytes) (w : W) (r s : Bool × W)
      → Delivers law fd bs w r
      → some r ≡ some s
      → Delivers law fd bs w s
  Delivers-result bs w r s d e = subst (Delivers law fd bs w) (some-injective r s e) d

  send_loop-Delivers :
      (fuel : ℕ) (bs : Bytes) (w : W) (r : Bool × W)
      → send_loop net fd fuel bs w ≡ some r
      → Delivers law fd bs w r
  unfolding send_loop
  send_loop-Delivers fuel [] w r h =
      Delivers-result [] w (true, w) r
        (record {
          pre = [];
          post = [];
          split = refl;
          taken = sym (append-nil _);
          complete = λ q. refl;
          others = λ g k. refl;
        })
        h
  send_loop-Delivers zero (b ∷ bs) w r h = cc
  send_loop-Delivers (suc fuel) (b ∷ bs) w r h =
      let w' : W = (net.send w fd (b ∷ bs)).1 in
      (elim (net.send w fd (b ∷ bs)).0
          as (λ o.
            (net.send w fd (b ∷ bs)).0 ≡ o
            → elim o [
              | none ↦ some (false, w')
              | some zero ↦ some (false, w')
              | some (suc n) ↦ send_loop net fd fuel (drop n bs) w'
            ]
              ≡ some r
            → Delivers law fd (b ∷ bs) w r) [
              | none ↦ λ e k. Delivers-result _ w _ r (send_failed w (b ∷ bs) (rw e)) k
              | some zero ↦ λ e k. Delivers-result _ w _ r (send_failed w (b ∷ bs) (rw e)) k
              | some (suc n) ↦ λ e k.
                  subst (λ c. Delivers law fd (b ∷ c) w r) (take-append-drop n bs)
                    (Delivers-trans w w' (b ∷ take n bs) (drop n bs) r
                      (sent_same w (b ∷ bs) ∙ rw e refl) (λ g q. sent_other w (b ∷ bs) g q)
                      (send_loop-Delivers fuel (drop n bs) w' r k))
            ])
        refl h

  pub send_exact-Delivers : (bs : Bytes) (w : W) → Delivers law fd bs w (send_exact net fd bs w)
  unfolding send_exact
  send_exact-Delivers bs w =
      let (r, e) = send_loop_total net fd (length bs) bs w (omega arith) in
      rw e (send_loop-Delivers (length bs) bs w r e)

module _ {W : Type 0} (net : Net W) (law : NetLaws net) (fd : ℕ) where
  Delivers-more :
      (a b : Bytes) (w : W) (r : Bool × W)
      → Delivers law fd a w r
      → Delivers law fd (a ++ b) w (false, r.1)
  Delivers-more a b w r d = record {
    pre = d.pre;
    post = d.post ++ b;
    split = ap (λ x. x ++ b) d.split ∙ append_assoc d.pre d.post b;
    taken = d.taken;
    complete = λ q. cc;
    others = d.others;
  }

  Delivers-nil : (w : W) → Delivers law fd [] w (true, w)
  Delivers-nil w = record {
    pre = [];
    post = [];
    split = refl;
    taken = sym (append-nil _);
    complete = λ q. refl;
    others = λ g k. refl;
  }

  -- Of several parts sent in turn the kernel takes a beginning of them all together, the whole if
  -- the result is true, however its sends cut them up; other descriptors are sent nothing.
  pub send_parts-Delivers :
      (parts : List Bytes) (w : W) → Delivers law fd (join parts) w (send_parts net fd parts w)
  unfolding send_parts
  send_parts-Delivers [] w = Delivers-nil w
  send_parts-Delivers (part ∷ parts) w =
      let d = send_exact-Delivers net law fd part w in
      let w' = (send_exact net fd part w).1 in
      if_cases (Delivers law fd (part ++ join parts) w) (send_exact net fd part w).0 _ _
        (λ q.
          Delivers-trans net law fd w w' part (join parts) _
            (d.taken
              ∙ ap (◌++◌ (law.sent w fd)) (sym (d.split ∙ rw (d.complete q) (append-nil d.pre))))
            d.others (send_parts-Delivers parts w'))
        (λ q. Delivers-more part (join parts) w _ d)
