-- ===== src/Net/Receiving.antt =====
-- What recvExact of common/NetUtil.h reads.
use device_app.Base.{
  ℕ, zero, suc, ◌-◌, ◌+◌, ◌≡◌, refl, sym, ap, ◌∙◌, [], ◌∷◌, ◌++◌, append_assoc, Option, none, some,
  length, length-append, arith,
}
use device_app.Wire.{Bytes}
use device_app.Net.{Net, NetLaws, recv_loop, recv_exact}
use device_app.Net.Transfer.{recv_loop_total}

-- What a read of `len` bytes did: on success they are the next `len` bytes of the peer's stream,
-- however they came in pieces; nothing was sent.
pub record Receives {W : Type 0} {net : Net W} (law : NetLaws net) (fd len : ℕ) (w : W)
    (r : Option Bytes × W) : Type 0 where
  pub whole :
      (bs : Bytes)
      → r.0 ≡ some bs
      → (length bs ≡ len) × (law.incoming w fd ≡ bs ++ law.incoming r.1 fd)
  pub silent : (g : ℕ) → law.sent r.1 g ≡ law.sent w g

module _ {W : Type 0} (net : Net W) (law : NetLaws net) (fd : ℕ) where
  recv_loop-whole :
      (fuel need : ℕ) (acc : Bytes) (w w' : W) (bs : Bytes)
      → recv_loop net fd fuel need acc w ≡ some (some bs, w')
      → (length bs ≡ length acc + need) × (acc ++ law.incoming w fd ≡ bs ++ law.incoming w' fd)
  unfolding recv_loop
  recv_loop-whole fuel zero acc w w' bs h = ground arith
  recv_loop-whole zero (suc m) acc w w' bs h = cc
  recv_loop-whole (suc fuel) (suc m) acc w w' bs h =
      let v : W = (net.recv w fd (suc m)).1 in
      (elim (net.recv w fd (suc m)).0
          as (λ o.
            (net.recv w fd (suc m)).0 ≡ o
            → ◌≡◌ {A = Option (Option Bytes × W)}
                (elim o [
                  | none ↦ some (none, v)
                  | some [] ↦ some (none, v)
                  | some (c ∷ cs) ↦ recv_loop net fd fuel (m - length cs) (acc ++ (c ∷ cs)) v
                ])
                (some (some bs, w'))
            → (length bs ≡ length acc + suc m)
              × (acc ++ law.incoming w fd ≡ bs ++ law.incoming w' fd)) [
                | none ↦ λ e k. cc
                | some [] ↦ λ e k. cc
                | some (c ∷ cs) ↦ λ e k.
                    let rest = recv_loop-whole fuel (m - length cs) (acc ++ (c ∷ cs)) v w' bs k in
                    (
                      omega (
                        arith,
                        rest.0,
                        length-append acc (c ∷ cs),
                        law.recv_le w fd (suc m) (c ∷ cs) e,
                      ),
                      ap (◌++◌ acc) (law.incoming-recv w fd (suc m) ∙ rw e refl)
                          ∙ sym (append_assoc acc (c ∷ cs) _)
                          ∙ rest.1,
                    )
              ])
        refl h

  recv_loop-silent :
      (fuel need : ℕ) (acc : Bytes) (w : W) (r : Option Bytes × W)
      → recv_loop net fd fuel need acc w ≡ some r
      → (g : ℕ) → law.sent r.1 g ≡ law.sent w g
  unfolding recv_loop
  recv_loop-silent fuel zero acc w r h g = ground arith
  recv_loop-silent zero (suc m) acc w r h g = cc
  recv_loop-silent (suc fuel) (suc m) acc w r h g =
      let v : W = (net.recv w fd (suc m)).1 in
      (elim (net.recv w fd (suc m)).0
          as (λ o.
            elim o [
              | none ↦ some (none, v)
              | some [] ↦ some (none, v)
              | some (c ∷ cs) ↦ recv_loop net fd fuel (m - length cs) (acc ++ (c ∷ cs)) v
            ]
              ≡ some r
            → law.sent r.1 g ≡ law.sent w g) [
              | none ↦ λ k. ground (arith, law.sent-recv w fd (suc m) g)
              | some [] ↦ λ k. ground (arith, law.sent-recv w fd (suc m) g)
              | some (c ∷ cs) ↦ λ k.
                  recv_loop-silent fuel (m - length cs) (acc ++ (c ∷ cs)) v r k g
                  ∙ law.sent-recv w fd (suc m) g
            ])
        h

  -- A read that succeeds gives as many bytes as were asked for, the next of the peer's stream,
  -- however they came in pieces; nothing is sent.
  pub recv_exact-Receives : (len : ℕ) (w : W) → Receives law fd len w (recv_exact net fd len w)
  unfolding recv_exact
  recv_exact-Receives len w =
      let (r, e) = recv_loop_total net fd len len [] w (omega arith) in
      record {
        whole = λ bs h.
            let all = recv_loop-whole len len [] w r.1 bs (ground arith) in
            (omega (arith, all.0), rw e all.1);
        silent = rw e (recv_loop-silent len len [] w r e);
      }
