-- ===== src/DeviceManager/Monitor/Checks.antt =====
-- Stage 2 of a monitoring round: cameras at one address share one check of its port.
use device_app.Base.{
  String, ◌≡◌, refl, inl, inr, List, [], ◌∷◌, some, Bool, true, false, not, text_key, if◌then◌else◌,
  arith, Option-cases, eq_iff, if_cases, get_or,
}
use device_app.Base.Map.{Map, find, find-insert}
use device_app.Device.{DeviceType}
use device_app.DeviceManager.Monitor.{
  Health, CheckTarget, check_target, cached_check, check_tcp_port, check_kind, check_all,
}
use mathlib.Core.Path.{subst}

-- How a round may go when `verdict` says of each address whether its port answered: every camera is
-- reported exactly if its address failed, a Sub-Pi as its socket says, and a cleared flag may end the
-- round before any target.
pub data Round {W : Type 0} (health : Health W) (verdict : String → Bool)
    : List CheckTarget → List String → Type 0 where
  finished : Round health verdict [] []
  stopped :
      {ts : List CheckTarget} (w : W)
      → (health.is_discovering w).0 ≡ false
      → Round health verdict ts []
  camera :
      {ts : List CheckTarget} {ids : List String} (t : CheckTarget)
      → t.type ≡ DeviceType.hanwha
      → Round health verdict ts ids
      → Round health verdict (t ∷ ts) (if verdict t.ip then ids else t.id ∷ ids)
  board :
      {ts : List CheckTarget} {ids : List String} (t : CheckTarget) (alive : Bool)
      → t.type ≡ DeviceType.sub_pi
      → Round health verdict ts ids
      → Round health verdict (t ∷ ts) (if alive then ids else t.id ∷ ids)

-- The verdicts agree with what the cache holds.
abbrev Extends : (String → Bool) → Map String Bool → Type 0
Extends verdict cache = (ip : String) (b : Bool) → find ip cache ≡ some b → verdict ip ≡ b

module _ {W : Type 0} (health : Health W) where
  cached_check_holds :
      (ip : String) (cache : Map String Bool) (w : W)
      → find ip (cached_check health ip cache w).1 ≡ some (cached_check health ip cache w).0
  unfolding cached_check
  cached_check_holds ip cache w = elim (Option-cases (find ip cache)) [
    | inl e ↦
        rw (e, cached_check)
          (ground (arith, eq_iff ip ip, find-insert ip ip (check_tcp_port health ip 554 w).0 cache))
    | inr (b, e) ↦ rw (e, cached_check) e
  ]

  cached_check_keeps :
      (ip : String) (cache : Map String Bool) (w : W) (j : String) (b : Bool)
      → find j cache ≡ some b
      → find j (cached_check health ip cache w).1 ≡ some b
  unfolding cached_check
  cached_check_keeps ip cache w j b h = elim (Option-cases (find ip cache)) [
    | inl e ↦
        rw (e, cached_check)
          (ground
            (arith, e, eq_iff ip j, find-insert ip j (check_tcp_port health ip 554 w).0 cache))
    | inr (b', e) ↦ rw (e, cached_check) h
  ]

  abbrev Rounds : List CheckTarget → Map String Bool → List String → Type 0
  Rounds ts cache ids =
      (verdict : String → Bool) × Extends verdict cache × Round health verdict ts ids

  round_step :
      (k : DeviceType) (t : CheckTarget) (ts : List CheckTarget) (ids : List String)
      (cache : Map String Bool) (w : W)
      → t.type ≡ k
      → Rounds ts (check_kind health k t cache w).1 ids
      → Rounds (t ∷ ts) cache (if (check_kind health k t cache w).0 then ids else t.id ∷ ids)
  unfolding check_kind
  round_step DeviceType.sub_pi t ts ids cache w e (v, x, r) =
      (v, x, Round.board t (check_kind health DeviceType.sub_pi t cache w).0 e r)
  round_step DeviceType.hanwha t ts ids cache w e (v, x, r) = (
    v,
    λ j b q. x j b (cached_check_keeps t.ip cache w j b q),
    subst (λ b. Round health v (t ∷ ts) (if b then ids else t.id ∷ ids))
        (x t.ip _ (cached_check_holds t.ip cache w)) (Round.camera t e r),
  )

  check_all-Rounds :
      (ts : List CheckTarget) (cache : Map String Bool) (w : W)
      → Rounds ts cache (check_all health ts cache w).0
  unfolding check_all
  check_all-Rounds [] cache w = (λ ip. get_or (find ip cache) true, λ ip b e. rw e, Round.finished)
  check_all-Rounds (t ∷ ts) cache w =
      let w₁ = (health.is_discovering w).1 in
      let r = check_target health t cache w₁ in
      let more : Rounds ts r.1 (check_all health ts r.1 r.2).0 = check_all-Rounds ts r.1 r.2 in
      if_cases (λ (r : List String × W). Rounds (t ∷ ts) cache r.0)
        (not (health.is_discovering w).0) _ _
        (λ q. (λ ip. get_or (find ip cache) true, λ ip b e. rw e, Round.stopped w (ground arith)))
        (λ _. round_step t.type t ts _ cache w₁ refl more)

  -- Whatever the network answers, a monitoring round reports the cameras of one address all alike,
  -- up to the target at which a cleared flag ends it.
  pub check_all-Round :
      (ts : List CheckTarget) (w : W)
      → (verdict : String → Bool) × Round health verdict ts (check_all health ts [] w).0
  check_all-Round ts w = let (v, x, r) = check_all-Rounds ts [] w in (v, r)
