-- ===== src/Base/Numerals.antt =====
-- strconv.Itoa, and what its texts are made of.
use Prim.Native.Nat.{ℕ, zero, suc, ◌+◌, ◌-◌, ◌*◌, ◌/◌, ◌%◌, ◌≤◌, ◌<◌}
use mathlib.Core.Path.{◌≡◌, ap, ◌∙◌}
use mathlib.Core.Logic.{inl, inr}
use mathlib.Core.List.{[], ◌∷◌}
use native.Mathlib.Omega.{arith}
use phantomcore.Base.Tests.{if◌then◌else◌, ltb, Bool-cases}
use phantomcore.Base.Lists.{All}
use phantomcore.Base.Strings.{Text}

-- With fuel for the digits that are left, and the digits to the right.
unfoldable pub itoa_from : ℕ → ℕ → Text → Text
itoa_from zero n acc = acc
itoa_from (suc fuel) n acc =
    let rest = itoa_from fuel (n / 10) ((b'0' + n % 10) ∷ acc) in
    if ltb n 10 then (b'0' + n) ∷ acc else rest

unfoldable pub itoa : ℕ → Text
unfolding itoa_from
itoa n = itoa_from (suc n) n []

abbrev pub IsDigit : ℕ → Type 0
IsDigit c = (48 ≤ c) × (c ≤ 57)

itoa_from-IsDigit : (fuel n : ℕ) (acc : Text) → All IsDigit acc → All IsDigit (itoa_from fuel n acc)
unfolding itoa_from
itoa_from-IsDigit zero n acc h = h
itoa_from-IsDigit (suc fuel) n acc h =
    let rest = itoa_from-IsDigit fuel (n / 10) ((b'0' + n % 10) ∷ acc) (omega arith, h) in
    elim (Bool-cases (ltb n 10)) [ inl e ↦ rw e (ground (arith, e), h) | inr e ↦ rw e rest ]

pub itoa-IsDigit : (n : ℕ) → All IsDigit (itoa n)
unfolding itoa
itoa-IsDigit n = itoa_from-IsDigit (suc n) n [] tt

-- The number that digits spell, after one that was read before them.
abbrev pub spelled : ℕ → Text → ℕ
spelled acc [] = acc
spelled acc (c ∷ s) = spelled (acc * 10 + (c - 48)) s

itoa_from-spelled :
    (fuel n : ℕ) (acc : Text) → n < fuel → spelled 0 (itoa_from fuel n acc) ≡ spelled n acc
unfolding itoa_from
itoa_from-spelled zero n acc h = absurd (omega (arith, h))
itoa_from-spelled (suc fuel) n acc h = elim (Bool-cases (ltb n 10)) [
  | inl e ↦ rw e (ap (λ x. spelled x acc) (omega arith))
  | inr e ↦
      let rest = itoa_from-spelled fuel (n / 10) ((b'0' + n % 10) ∷ acc) (ground (arith, h, e)) in
      rw e (rest ∙ ap (λ x. spelled x acc) (omega arith))
]

-- the fuel is enough: the text spells the number
pub itoa-spelled : (n : ℕ) → spelled 0 (itoa n) ≡ n
unfolding itoa
itoa-spelled n = itoa_from-spelled (suc n) n [] (omega arith)
