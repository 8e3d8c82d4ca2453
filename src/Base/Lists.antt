-- ===== src/Base/Lists.antt =====
-- Lists measured by native numbers, and predicates on lists by recursion.
use Prim.Native.Nat.{ℕ, zero, suc, ◌+◌, ◌-◌}
use mathlib.Core.Path.{◌≡◌, refl, ap}
use mathlib.Core.List.{List, [], ◌∷◌, ◌++◌}
use mathlib.Core.Bool.{Bool, true, false, ◌||◌, ◌&&◌, not}
use native.Mathlib.Omega.{arith}
use device_app.Base.Tests.{Key, ◌==◌, if◌then◌else◌}

module _ {ℓ} {A : Type ℓ} where
  abbrev pub length : List A → ℕ
  length [] = 0
  length (x ∷ xs) = suc (length xs)

  abbrev pub take : ℕ → List A → List A
  take zero xs = []
  take (suc n) [] = []
  take (suc n) (x ∷ xs) = x ∷ take n xs

  abbrev pub drop : ℕ → List A → List A
  drop zero xs = xs
  drop (suc n) [] = []
  drop (suc n) (x ∷ xs) = drop n xs

  pub length-append : (xs ys : List A) → length (xs ++ ys) ≡ length xs + length ys
  length-append [] ys = omega arith
  length-append (x ∷ xs) ys = omega (arith, length-append xs ys)

  pub take-append-drop : (n : ℕ) (xs : List A) → take n xs ++ drop n xs ≡ xs
  take-append-drop zero xs = refl
  take-append-drop (suc n) [] = refl
  take-append-drop (suc n) (x ∷ xs) = ap (◌∷◌ x) (take-append-drop n xs)

  pub length-drop : (n : ℕ) (xs : List A) → length (drop n xs) ≡ length xs - n
  length-drop zero xs = omega arith
  length-drop (suc n) [] = omega arith
  length-drop (suc n) (x ∷ xs) = omega (arith, length-drop n xs)

  abbrev pub filter : (A → Bool) → List A → List A
  filter p [] = []
  filter p (x ∷ xs) = if p x then x ∷ filter p xs else filter p xs

  abbrev pub All {κ} : (A → Type κ) → List A → Type κ
  All P [] = Unit {κ}
  All P (x ∷ xs) = P x × All P xs

-- Membership by the key's test.
abbrev pub elem : {K : Type 0} ⦃k : Key K⦄ → K → List K → Bool
elem a [] = false
elem a (x ∷ xs) = a == x || elem a xs

-- `std::remove` with `erase`: every occurrence goes.
abbrev pub remove : {K : Type 0} ⦃k : Key K⦄ → K → List K → List K
remove a [] = []
remove a (x ∷ xs) = if a == x then remove a xs else x ∷ remove a xs

abbrev pub remove_all : {K : Type 0} ⦃k : Key K⦄ → List K → List K → List K
remove_all [] xs = xs
remove_all (a ∷ gone) xs = remove_all gone (remove a xs)

module _ {ℓ} {A : Type ℓ} where
  pub filter-append :
      (p : A → Bool) (xs ys : List A) → filter p (xs ++ ys) ≡ filter p xs ++ filter p ys
  filter-append p [] ys = refl
  filter-append p (x ∷ xs) ys = ground (arith, filter-append p xs ys)

  -- What passes neither of two tests passes not the first.
  pub filter-or-nil :
      (p q : A → Bool) (xs : List A) → filter (λ x. p x || q x) xs ≡ [] → filter p xs ≡ []
  filter-or-nil p q [] h = refl
  filter-or-nil p q (x ∷ xs) h = ground (arith, filter-or-nil p q xs)

  abbrev pub is_empty : List A → Bool
  is_empty [] = true
  is_empty (x ∷ xs) = false

module _ {K : Type 0} ⦃k : Key K⦄ where
  pub elem-append : (a : K) (xs ys : List K) → elem a (xs ++ ys) ≡ elem a xs || elem a ys
  elem-append a [] ys = refl
  elem-append a (x ∷ xs) ys = ground (arith, elem-append a xs ys)

  pub elem-remove : (a c : K) (xs : List K) → elem c (remove a xs) ≡ not (a == c) && elem c xs
  elem-remove a c [] = ground arith
  elem-remove a c (x ∷ xs) =
      ground (arith, k.beq_iff a c, k.beq_iff a x, k.beq_iff c x, elem-remove a c xs)

  pub remove_all-nil : (gone : List K) → remove_all gone [] ≡ []
  remove_all-nil [] = refl
  remove_all-nil (a ∷ gone) = remove_all-nil gone

  pub elem-remove_all :
      (gone xs : List K) (c : K) → elem c (remove_all gone xs) ≡ not (elem c gone) && elem c xs
  elem-remove_all [] xs c = refl
  elem-remove_all (a ∷ gone) xs c = ground (
    arith,
    k.beq_iff a c,
    k.beq_iff c a,
    elem-remove_all gone (remove a xs) c,
    elem-remove a c xs,
  )
