-- ===== src/Base/Lists.antt =====
-- Lists measured by native numbers under the library's names, and Boolean searches through them.
use Prim.Native.Nat.{ℕ, zero, suc, ◌+◌, ◌≤◌}
use mathlib.Core.Path.{◌≡◌, refl}
use mathlib.Core.Bool.{Bool, true, false, ◌||◌}
use mathlib.Core.Logic.{◌⊎◌, inl, inr}
use mathlib.Core.List.{List, [], ◌∷◌, ◌++◌}
use mathlib.Core.Option.{Option, none, some}
use native.Mathlib.Omega.{arith}
use phantomcore.Base.Tests.{if◌then◌else◌, Bool-cases}

module _ {ℓ} {A : Type ℓ} where
  abbrev pub length : List A → ℕ
  length [] = 0
  length (x ∷ xs) = suc (length xs)

  abbrev pub get_elem? : List A → ℕ → Option A
  get_elem? [] i = none
  get_elem? (x ∷ xs) zero = some x
  get_elem? (x ∷ xs) (suc i) = get_elem? xs i

  -- A write out of bounds changes nothing.
  abbrev pub set : List A → ℕ → A → List A
  set [] i v = []
  set (x ∷ xs) zero v = v ∷ xs
  set (x ∷ xs) (suc i) v = x ∷ set xs i v

  abbrev pub take : ℕ → List A → List A
  take zero xs = []
  take (suc n) [] = []
  take (suc n) (x ∷ xs) = x ∷ take n xs

  abbrev pub drop : ℕ → List A → List A
  drop zero xs = xs
  drop (suc n) [] = []
  drop (suc n) (x ∷ xs) = drop n xs

  abbrev pub replicate : ℕ → A → List A
  replicate zero a = []
  replicate (suc n) a = a ∷ replicate n a

  pub length-append : (xs ys : List A) → length (xs ++ ys) ≡ length xs + length ys
  length-append [] ys = omega arith
  length-append (x ∷ xs) ys = omega (arith, length-append xs ys)

  -- The elements that pass a test, in order.
  unfoldable pub keep : (A → Bool) → List A → List A
  keep p [] = []
  keep p (x ∷ xs) = let rest = keep p xs in if p x then x ∷ rest else rest

  -- Whether some element passes a test: a loop that returns at the first hit.
  unfoldable pub any : (A → Bool) → List A → Bool
  any p [] = false
  any p (x ∷ xs) = p x || any p xs

  pub length-keep-le : (p : A → Bool) (xs : List A) → length (keep p xs) ≤ length xs
  unfolding keep
  length-keep-le p [] = omega arith
  length-keep-le p (x ∷ xs) = ground (arith, length-keep-le p xs)

-- Membership by recursion, which the tactics read.
abbrev pub Member : {A : Type 0} → A → List A → Type 0
Member a [] = ⊥
Member a (x ∷ xs) = (a ≡ x) ⊎ Member a xs

abbrev pub All : {A : Type 0} → (A → Type 0) → List A → Type 0
All P [] = Unit
All P (x ∷ xs) = P x × All P xs

pub All-Member : {A : Type 0} (P : A → Type 0) (a : A) (xs : List A) → All P xs → Member a xs → P a
All-Member P a [] h m = absurd m
All-Member P a (x ∷ xs) h (inl e) = rw e h.0
All-Member P a (x ∷ xs) h (inr m) = All-Member P a xs h.1 m

module _ {A : Type 0} (p : A → Bool) where
  -- a search answers `true` exactly when it has a witness
  pub any-Member : (xs : List A) → any p xs ≡ true → (a : A) × Member a xs × (p a ≡ true)
  unfolding any
  any-Member [] h = cc
  any-Member (x ∷ xs) h = elim (Bool-cases (p x)) [
    | inl e ↦ (x, inl refl, e)
    | inr e ↦ let (a, m, q) = any-Member xs (rw e at h) in (a, inr m, q)
  ]

  pub any_of_Member : (a : A) (xs : List A) → Member a xs → p a ≡ true → any p xs ≡ true
  unfolding any
  any_of_Member a [] m h = absurd m
  any_of_Member a (x ∷ xs) (inl e) h = rw (← e, h)
  any_of_Member a (x ∷ xs) (inr m) h = ground (arith, any_of_Member a xs m h)

  -- the survivors of a filter are the members that pass
  pub Member-keep : (a : A) (xs : List A) → Member a (keep p xs) → Member a xs × (p a ≡ true)
  unfolding keep
  Member-keep a [] m = absurd m
  Member-keep a (x ∷ xs) m = elim (Bool-cases (p x)) [
    | inl e ↦ elim (rw e at m) [
      | inl q ↦ (inl q, rw q e)
      | inr q ↦ let (b, c) = Member-keep a xs q in (inr b, c)
    ]
    | inr e ↦ let (b, c) = Member-keep a xs (rw e at m) in (inr b, c)
  ]

  pub keep-Member : (a : A) (xs : List A) → Member a xs → p a ≡ true → Member a (keep p xs)
  unfolding keep
  keep-Member a [] m h = absurd m
  keep-Member a (x ∷ xs) (inl e) h = rw (← e, h) (inl refl)
  keep-Member a (x ∷ xs) (inr m) h = elim (Bool-cases (p x)) [
    | inl e ↦ rw e (inr (keep-Member a xs m h))
    | inr e ↦ rw e (keep-Member a xs m h)
  ]
