-- ===== src/Tls/Whole.antt =====
-- The sessions of crypt/tls.hpp in pairs: one encrypts, the other decrypts.
use device_app.Base.{
  false, is_empty, ℕ, zero, suc, ◌<◌, ◌≡◌, refl, sym, ap, ◌∙◌, List, [], ◌∷◌, ◌++◌, Option, some,
  true, length, length-append, All, arith, ◌⊎◌, inl, inr, ltb, if_cases, ◌>>=◌,
}
use device_app.Wire.{Bytes}
use device_app.Tls.{
  OpenSsl, Session, buffer_size, flush_write_bio, shaken, read_all, decrypt, encrypt, decrypted,
  kept_plain, kept, written_out,
}

-- What OpenSSL documents of a pair of connected SSL objects: `plain` is what SSL_read has yet to give,
-- `wire` what the write BIO holds, and `Linked a b` that the handshake of `a` with `b` is done and `b`
-- has taken all that `a` gave out.
pub record TlsLaws {C N M E H : Type 0} (lib : OpenSsl C N M E H) : Type 1 where
  pub plain : E → Bytes
  pub wire : E → Bytes
  pub pending-wire : (e : E) → lib.bio_pending e ≡ length (wire e)
  pub read-wire :
      (e : E) → let r = lib.bio_read e (length (wire e)) in (r.0 ≡ wire e) × (wire r.1 ≡ [])
  pub read-plain : (e : E) (n : ℕ) → let r = lib.ssl_read e n in plain e ≡ r.0 ++ plain r.1
  pub read-none : (e : E) (n : ℕ) → (lib.ssl_read e (suc n)).0 ≡ [] → plain e ≡ []
  -- A positive SSL_write has put a record into the write BIO.
  pub wire-write :
      (a : E) (p : Bytes)
      → (lib.ssl_write a p).0 ≡ true
      → is_empty (wire (lib.ssl_write a p).1) ≡ false
  pub Linked : E → E → Type 0
  pub linked-finished :
      (a b : E) → Linked a b → (lib.is_init_finished a ≡ true) × (lib.is_init_finished b ≡ true)
  pub linked-flush : (a b : E) (n : ℕ) → Linked a b → Linked (lib.bio_read a n).1 b
  pub linked-read : (a b : E) (n : ℕ) → Linked a b → Linked a (lib.ssl_read b n).1
  -- A positive SSL_write leaves records that the peer's BIO takes and whose text the peer can read.
  pub linked-write :
      (a b : E) (p : Bytes)
      → Linked a b
      → wire a ≡ []
      → 0 < length p
      → let a' = lib.ssl_write a p in
        let b' = lib.bio_write b (wire a'.1) in
        (a'.0 ≡ true) × (b'.0 ≡ true) × (plain b'.1 ≡ plain b ++ p) × Linked a'.1 b'.1

module _ {C N M E H : Type 0} (lib : OpenSsl C N M E H) where
  -- Messages that one end encrypts and the other decrypts, each before the next.
  unfoldable pub exchanged : ℕ → List Bytes → Session E → Session E → Option (List Bytes)
  exchanged fuel [] a b = some []
  exchanged fuel (p ∷ ps) a b = do
    let (cipher, a') = encrypt lib p a
    (plain, b') ← decrypt lib fuel cipher b
    rest ← exchanged fuel ps a' b'
    some (plain ∷ rest)

List-cases : (bs : Bytes) → (bs ≡ []) ⊎ ((x : ℕ) × (xs : Bytes) × (bs ≡ x ∷ xs))
List-cases [] = inl refl
List-cases (x ∷ xs) = inr (x, xs, refl)

module _ {C N M E H : Type 0} (lib : OpenSsl C N M E H) (laws : TlsLaws lib) where
  no_bytes : (bs : Bytes) → length bs ≡ 0 → bs ≡ []
  no_bytes [] h = refl
  no_bytes (b ∷ bs) h = ground (arith, h)

  -- The write BIO is emptied, and nothing is lost.
  flush-wire :
      (a b : E)
      → laws.Linked a b
      → let r = flush_write_bio lib a in
        (r.0 ≡ laws.wire a) × (laws.wire r.1 ≡ []) × laws.Linked r.1 b
  unfolding flush_write_bio
  flush-wire a b k =
      if_cases (λ (r : Bytes × E). (r.0 ≡ laws.wire a) × (laws.wire r.1 ≡ []) × laws.Linked r.1 b)
        (ltb 0 (lib.bio_pending a)) _ _
        (λ _.
          rw (laws.pending-wire a)
            ((laws.read-wire a).0, (laws.read-wire a).1, laws.linked-flush a b _ k))
        (λ e.
          let nothing = no_bytes (laws.wire a) (ground (arith, laws.pending-wire a, e)) in
          (sym nothing, nothing, k))

  -- Enough fuel: one turn for each byte, and one that finds none.
  read_all-whole :
      (a : E) (fuel : ℕ) (b : E)
      → laws.Linked a b
      → length (laws.plain b) < fuel
      → (b' : E) × (read_all lib fuel b ≡ some (laws.plain b, b'))
        × (laws.plain b' ≡ [])
        × laws.Linked a b'
  unfolding read_all
  read_all-whole a zero b k h = ground (arith, h)
  read_all-whole a (suc fuel) b k h =
      let (bytes, b₁) = lib.ssl_read b buffer_size in
      let split : laws.plain b ≡ bytes ++ laws.plain b₁ = laws.read-plain b buffer_size in
      let linked = laws.linked-read a b buffer_size k in
      elim (List-cases bytes) [
        | inl e ↦
            let nothing = laws.read-none b 4095 e in
            (b₁, rw (e, read_all, nothing) refl, sym (rw e at split) ∙ nothing, linked)
        | inr (x, xs, e) ↦
            let (b₂, whole, none_left, linked₂) =
              read_all-whole a fuel b₁ linked
                (omega (arith, h, ap length (rw e at split), length-append xs (laws.plain b₁))) in
            (
              b₂,
              rw (e, read_all, whole) (ap (λ t. some (t, b₂)) (sym (rw e at split))),
              none_left,
              linked₂,
            )
      ]

  encrypt-eq :
      (a : E) (p : Bytes) (out : Bytes) (a' : E)
      → lib.is_init_finished a ≡ true
      → (lib.ssl_write a p).0 ≡ true
      → (flush_write_bio lib (lib.ssl_write a p).1).0 ≡ out
      → (flush_write_bio lib (lib.ssl_write a p).1).1 ≡ a'
      → encrypt lib p (some a) ≡ (out, some a')
  unfolding encrypt written_out kept
  encrypt-eq a p out a' done ok e f = rw (done, ok, e, f) refl

  decrypt-eq :
      (fuel : ℕ) (b : E) (cipher plain : Bytes) (b' : E)
      → (lib.bio_write b cipher).0 ≡ true
      → lib.is_init_finished (lib.bio_write b cipher).1 ≡ true
      → read_all lib fuel (lib.bio_write b cipher).1 ≡ some (plain, b')
      → decrypt lib fuel cipher (some b) ≡ some (plain, some b')
  unfolding decrypt decrypted kept_plain shaken
  decrypt-eq fuel b cipher plain b' ok done e = rw (ok, done, e) (rw done refl)

  -- The pair is connected, and nothing is on the way from the one to the other.
  abbrev pub Idle : E → E → Type 0
  Idle a b = laws.Linked a b × (laws.wire a ≡ []) × (laws.plain b ≡ [])

  -- What a message makes of the calls: SSL_write and the peer's BIO_write succeed, and a cipher is there.
  pub sealed_arrives :
      (a b : E) (p : Bytes)
      → Idle a b
      → 0 < length p
      → let r = flush_write_bio lib (lib.ssl_write a p).1 in
        (lib.is_init_finished a ≡ true)
        × ((lib.ssl_write a p).0 ≡ true)
        × (is_empty r.0 ≡ false)
        × ((lib.bio_write b r.0).0 ≡ true)
  sealed_arrives a b p (k, silent, empty) some_bytes =
      let (ok, taken, opened, linked) = laws.linked-write a b p k silent some_bytes in
      let (out, cleared, linked') =
        flush-wire (lib.ssl_write a p).1 (lib.bio_write b (laws.wire (lib.ssl_write a p).1)).1
          linked in
      (
        (laws.linked-finished a b k).0,
        ok,
        ap is_empty out ∙ laws.wire-write a p ok,
        ap (λ (c : Bytes). (lib.bio_write b c).0) out ∙ taken,
      )

  -- One message.
  pub carried :
      (fuel : ℕ) (a b : E) (p : Bytes)
      → Idle a b
      → 0 < length p
      → length p < fuel
      → (cipher : Bytes) × (a' : E) × (b' : E) × (encrypt lib p (some a) ≡ (cipher, some a'))
        × (decrypt lib fuel cipher (some b) ≡ some (p, some b'))
        × (is_empty cipher ≡ false)
        × Idle a' b'
  carried fuel a b p (k, silent, empty) some_bytes short =
      let a₁ = (lib.ssl_write a p).1 in
      let b₁ = (lib.bio_write b (laws.wire a₁)).1 in
      let (ok, taken, opened, linked₁) = laws.linked-write a b p k silent some_bytes in
      let whole_p : laws.plain b₁ ≡ p = opened ∙ ap (λ t. t ++ p) empty in
      let (out, cleared, linked₂) = flush-wire a₁ b₁ linked₁ in
      let a₂ = (flush_write_bio lib a₁).1 in
      let (b₂, read, none_left, linked₃) =
        read_all-whole a₂ fuel b₁ linked₂ (omega (arith, short, ap length whole_p)) in
      (
        laws.wire a₁,
        a₂,
        b₂,
        encrypt-eq a p _ a₂ (laws.linked-finished a b k).0 ok out refl,
        decrypt-eq fuel b _ p b₂ taken (laws.linked-finished a₁ b₁ linked₁).1
            (read ∙ ap (λ t. some (t, b₂)) whole_p),
        laws.wire-write a p ok,
        (linked₃, cleared, none_left),
      )

  -- Between two connected TLS sessions with nothing on the way, under what OpenSSL documents of
  -- such a pair, every message of a list, none empty and each shorter than the fuel of the read
  -- loop, is decrypted by the other session exactly as the one encrypted it, however SSL_read cuts
  -- it into pieces.
  pub exchanged-whole :
      (fuel : ℕ) (ps : List Bytes) (a b : E)
      → Idle a b
      → All (λ p. (0 < length p) × (length p < fuel)) ps
      → exchanged lib fuel ps (some a) (some b) ≡ some ps
  unfolding exchanged
  exchanged-whole fuel [] a b idle h = refl
  exchanged-whole fuel (p ∷ ps) a b idle h =
      let (cipher, a', b', sent, got, some_bytes, idle') = carried fuel a b p idle h.0.0 h.0.1 in
      rw (sent, got, exchanged-whole fuel ps a' b' idle' h.1) refl
