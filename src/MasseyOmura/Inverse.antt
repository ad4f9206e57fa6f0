-- ===== src/MasseyOmura/Inverse.antt =====
-- Coprime numbers have an inverse, which `ModInverse` finds.
use eggscrambler.Base.{
  ℕ, zero, suc, ◌+◌, ◌*◌, ◌%◌, ◌/◌, ◌<◌, ◌≤◌, ◌≡◌, ◌≢◌, refl, ◌==◌, false, Bool-cases, inl, inr,
  some, arith, sym, ap, ◌∙◌,
}
use eggscrambler.MasseyOmura.Keys.{gcd_fuel, gcd, inverse_from, mod_inverse}
use eggscrambler.MasseyOmura.Powers.{mod-mul-mod}
use mathlib.Core.Path.{subst}
use native.Mathlib.Nat.{mod-add-div, mod-lt, add-mul-mod_self_left, mul_comm}

-- The greatest common divisor as a combination of the numbers, in two forms without negatives.
record Combined (a b g : ℕ) : Type 0 where
  first : (x : ℕ) × (y : ℕ) × (a * x ≡ g + b * y)
  second : (x : ℕ) × (y : ℕ) × (b * x ≡ g + a * y)

combine_first : (b q r g x y : ℕ) → r * x ≡ g + b * y → (r + b * q) * x ≡ g + b * (q * x + y)
combine_first b q r g x y h = omega arith

combine_second : (b q r g x y : ℕ) → b * x ≡ g + r * y → b * (x + q * y) ≡ g + (r + b * q) * y
combine_second b q r g x y h = omega arith

combine_step : (a b g : ℕ) → Combined b (a % b) g → Combined a b g
combine_step a b g c =
    let q = a / b in
    let r = a % b in
    let (x, y, h) = c.first in
    let (x', y', h') = c.second in
    subst (λ (n : ℕ). Combined n b g) (mod-add-div a b)
      (record {
        first = (x', q * x' + y', combine_first b q r g x' y' h');
        second = (x + q * y, y, combine_second b q r g x y h);
      })

-- The last step, where the second number divides the first.
combine_last : (a b : ℕ) → 0 < a → 0 < b → a % b ≡ 0 → Combined a b b
combine_last a b ha hb z =
    let q = a / b in
    let e : a ≡ b * q = omega (arith, mod-add-div a b) in
    subst (λ (n : ℕ). Combined n b b) (sym e)
      (elim q as (λ (q : ℕ). (a ≡ b * q) → Combined (b * q) b b) [
        | zero ↦ λ h. absurd (omega arith)
        | suc k ↦ λ h. record { first = (1, k, omega arith); second = (1, 0, omega arith) }
      ]
        e)

gcd_fuel-zero : (f a : ℕ) → gcd_fuel f a 0 ≡ a
unfolding gcd_fuel
gcd_fuel-zero zero a = refl
gcd_fuel-zero (suc f) a = refl

gcd_fuel-Combined : (f a b : ℕ) → 0 < a → 0 < b → b < f → Combined a b (gcd_fuel f a b)
unfolding gcd_fuel
gcd_fuel-Combined zero a b ha hb h = absurd (omega arith)
gcd_fuel-Combined (suc f) a b ha hb h =
    let some_b : (b == 0) ≡ false = ground arith in
    let r = a % b in
    let small : r < b = mod-lt a hb in
    elim (Bool-cases (r == 0)) [
      | inl e ↦
          let z : r ≡ 0 = ground arith in
          rw (some_b, z, gcd_fuel-zero f b) (combine_last a b ha hb z)
      | inr e ↦ rw some_b (
          combine_step a b (gcd_fuel f b r)
            (gcd_fuel-Combined f b r hb (ground arith) (omega arith)))
    ]

pub inverse_from-some :
    (g n d k : ℕ) (x : ℕ)
    → d ≤ x
    → x < d + k
    → g * x % n ≡ 1 % n
    → (y : ℕ) × (inverse_from g n d k ≡ some y)
unfolding inverse_from
inverse_from-some g n d zero x lo hi e = absurd (omega arith)
inverse_from-some g n d (suc k) x lo hi e = elim (Bool-cases (g * d % n == 1 % n)) [
  | inl y ↦ (d, rw y refl)
  | inr no_here ↦
      let other : d ≢ x = λ q. ground (arith, (rw q at no_here), e) in
      let later : suc d ≤ x = omega (arith, other) in
      let (y, h) = inverse_from-some g n (suc d) k x later (omega arith) e in (y, rw no_here h)
]

pub inverse_from-inverse : (g n d k y : ℕ) → inverse_from g n d k ≡ some y → g * y % n ≡ 1 % n
unfolding inverse_from
inverse_from-inverse g n d zero y e = ground arith
inverse_from-inverse g n d (suc k) y e = elim (Bool-cases (g * d % n == 1 % n)) [
  | inl h ↦ ground (arith, rw h at e)
  | inr h ↦ inverse_from-inverse g n (suc d) k y (rw h at e)
]

-- A number that is coprime with a modulus above 1 has an inverse.
pub mod_inverse-some :
    (g n : ℕ) → 0 < g → 1 < n → gcd g n ≡ 1 → (y : ℕ) × (mod_inverse g n ≡ some y)
unfolding gcd mod_inverse
mod_inverse-some g n hg hn e =
    let below_n : 0 < n = omega arith in
    let (x, y, h) = (gcd_fuel-Combined (suc n) g n hg (omega arith) (omega arith)).first in
    let h' : g * x ≡ 1 + n * y = h ∙ ap (λ (k : ℕ). k + n * y) e in
    let reduced : g * (x % n) % n ≡ 1 % n =
      ap (λ (k : ℕ). k % n) (mul_comm g (x % n))
      ∙ mod-mul-mod x g n
      ∙ ap (λ (k : ℕ). k % n) (mul_comm x g ∙ h')
      ∙ add-mul-mod_self_left 1 n y in
    inverse_from-some g n 0 n (x % n) (omega arith) (omega (arith, mod-lt x below_n)) reduced
