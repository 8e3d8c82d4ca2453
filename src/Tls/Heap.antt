-- ===== src/Tls/Heap.antt =====
-- What the constructor and the cleanup of a session in crypt/tls.hpp allocate and free.
use device_app.Base.{
  ℕ, ◌+◌, ◌-◌, ◌≡◌, Option, none, some, Bool, if◌then◌else◌, is_some, arith, Option-cases, inl, inr,
}
use device_app.Tls.{OpenSsl, Session, session, cleanup, joined_ssl, with_bios, freed}

-- How many objects are allocated: SSL objects and BIOs, an SSL object's own BIOs among them.
pub record HeapLaws {C N M E H : Type 0} (lib : OpenSsl C N M E H) : Type 0 where
  pub live : H → ℕ
  pub ssl_new-live :
      (c : C) (h : H)
      → let r = lib.ssl_new c h in live r.1 ≡ (if is_some r.0 then live h + 1 else live h)
  pub bio_new-live :
      (h : H) → let r = lib.bio_new h in live r.1 ≡ (if is_some r.0 then live h + 1 else live h)
  pub bio_free-live : (m : M) (h : H) → live (lib.bio_free m h) ≡ live h - 1
  pub ssl_free_new-live : (n : N) (h : H) → live (lib.ssl_free_new n h) ≡ live h - 1
  pub ssl_free-live : (e : E) (h : H) → live (lib.ssl_free e h) ≡ live h - 3

module _ {C N M E H : Type 0} (lib : OpenSsl C N M E H) (laws : HeapLaws lib) where
  abbrev Balanced : ℕ → Session E × H → Type 0
  Balanced before r = laws.live r.1 ≡ (if is_some r.0 then before + 3 else before)

  abbrev made : {A : Type 0} → Option A → ℕ
  made o = if is_some o then 1 else 0

  with_bios-Balanced :
      (before : ℕ) (ssl : N) (is_server : Bool) (read_bio write_bio : Option M) (h : H)
      → laws.live h ≡ before + 1 + made read_bio + made write_bio
      → Balanced before (with_bios lib ssl is_server read_bio write_bio h)
  unfolding with_bios freed
  with_bios-Balanced before ssl is_server (some r) (some w) h e = omega (arith, e)
  with_bios-Balanced before ssl is_server none none h e =
      omega (arith, e, laws.ssl_free_new-live ssl h)
  with_bios-Balanced before ssl is_server none (some w) h e =
      omega (arith, e, laws.ssl_free_new-live ssl (lib.bio_free w h), laws.bio_free-live w h)
  with_bios-Balanced before ssl is_server (some r) none h e =
      omega (arith, e, laws.ssl_free_new-live ssl (lib.bio_free r h), laws.bio_free-live r h)

  made-live :
      {A : Type 0} (o : Option A) (before after : ℕ)
      → after ≡ (if is_some o then before + 1 else before)
      → after ≡ before + made o
  made-live none before after e = omega (arith, e)
  made-live (some a) before after e = omega (arith, e)

  session-Balanced :
      (ctx : Option C) (is_server : Bool) (h : H)
      → Balanced (laws.live h) (session lib ctx is_server h)
  unfolding session joined_ssl
  session-Balanced none is_server h = omega arith
  session-Balanced (some ctx) is_server h =
      let (ssl, h₁) = lib.ssl_new ctx h in
      let (read_bio, h₂) = lib.bio_new h₁ in
      let (write_bio, h₃) = lib.bio_new h₂ in
      let first = laws.ssl_new-live ctx h in
      elim (Option-cases ssl) [
        | inl e ↦ rw (e, joined_ssl) (rw e at first)
        | inr (n, e) ↦
            rw (e, joined_ssl)
              (with_bios-Balanced (laws.live h) n is_server read_bio write_bio h₃ (
                omega (
                  arith,
                  rw e at first,
                  made-live read_bio _ _ (laws.bio_new-live h₁),
                  made-live write_bio _ _ (laws.bio_new-live h₂),
                )))
      ]

  cleanup-balance :
      (before : ℕ) (r : Session E × H)
      → Balanced before r
      → laws.live (cleanup lib r.0 r.1).1 ≡ before
  unfolding cleanup
  cleanup-balance before (none, h) b = omega (arith, b)
  cleanup-balance before (some e, h) b = omega (arith, b, laws.ssl_free-live e h)

  -- Whatever part of a session cannot be made, its constructor leaves as many OpenSSL objects
  -- allocated as before, and three more if the session is valid; its cleanup gives those back.
  pub session_leaks_nothing :
      (ctx : Option C) (is_server : Bool) (h : H)
      → let (s, h') = session lib ctx is_server h in
        (laws.live h' ≡ (if is_some s then laws.live h + 3 else laws.live h))
        × (laws.live (cleanup lib s h').1 ≡ laws.live h)
  session_leaks_nothing ctx is_server h =
      let b = session-Balanced ctx is_server h in
      (b, cleanup-balance (laws.live h) (session lib ctx is_server h) b)
