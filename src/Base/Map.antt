-- ===== src/Base/Map.antt =====
-- `std::map` as a list of pairs in the order of the keys.
use mathlib.Core.Path.{◌≡◌, refl}
use mathlib.Core.List.{List, [], ◌∷◌}
use mathlib.Core.Option.{Option, none, some}
use native.Mathlib.Omega.{arith}
use device_app.Base.Tests.{Key, ◌==◌, if◌then◌else◌, Bool-cases}
use device_app.Base.Lists.{All}
use mathlib.Core.Logic.{inl, inr}
use mathlib.Core.Option.{some-injective}
use mathlib.Core.Path.{subst₂}

abbrev pub Map : Type 0 → Type 0 → Type 0
Map K V = List (K × V)

module _ {K V : Type 0} ⦃k : Key K⦄ where
  -- m.find(a)
  unfoldable pub find : K → Map K V → Option V
  find a [] = none
  find a ((b, v) ∷ m) = if b == a then some v else find a m

  -- m[a] = v
  unfoldable pub insert : K → V → Map K V → Map K V
  insert a v [] = (a, v) ∷ []
  insert a v ((b, w) ∷ m) =
      if b == a
      then (a, v) ∷ m
      else if k.before a b
      then (a, v) ∷ (b, w) ∷ m
      else (b, w) ∷ insert a v m

  -- m.erase(a)
  unfoldable pub erase : K → Map K V → Map K V
  erase a [] = []
  erase a ((b, w) ∷ m) = if b == a then erase a m else (b, w) ∷ erase a m

  pub find-insert :
      (a c : K) (v : V) (m : Map K V)
      → find c (insert a v m) ≡ (if a == c then some v else find c m)
  unfolding find insert
  find-insert a c v [] = refl
  find-insert a c v ((b, w) ∷ m) =
      ground (arith, k.beq_iff a c, k.beq_iff b a, k.beq_iff b c, find-insert a c v m)

  pub find-erase :
      (a c : K) (m : Map K V) → find c (erase a m) ≡ (if a == c then none else find c m)
  unfolding find erase
  find-erase a c [] = ground arith
  find-erase a c ((b, w) ∷ m) =
      ground (arith, k.beq_iff a c, k.beq_iff b a, k.beq_iff b c, find-erase a c m)

  pub All-insert {κ} :
      (P : K × V → Type κ) (a : K) (v : V) (m : Map K V) → All P m → P (a, v) → All P (insert a v m)
  unfolding insert
  All-insert P a v [] h p = (p, tt)
  All-insert P a v ((b, w) ∷ m) h p = elim (Bool-cases (b == a)) [
    | inl e ↦ rw e (p, h.1)
    | inr e ↦ rw e (elim (Bool-cases (k.before a b)) [
      | inl f ↦ rw f (p, (h.0, h.1))
      | inr f ↦ rw f (h.0, All-insert P a v m h.1 p)
    ])
  ]

  pub All-find {κ} :
      (P : K × V → Type κ) (a : K) (v : V) (m : Map K V) → All P m → find a m ≡ some v → P (a, v)
  unfolding find
  All-find P a v [] h e = cc
  All-find P a v ((b, w) ∷ m) h e = elim (Bool-cases (b == a)) [
    | inl q ↦ subst₂ (λ x y. P (x, y)) ((k.beq_iff b a).0 q) (some-injective w v (rw q at e)) h.0
    | inr q ↦ All-find P a v m h.1 (rw q at e)
  ]
