-- ===== src/MasseyOmura/Powers.antt =====
-- Powers modulo a number: what encryption and decryption of masseyomura/encrypt.go come to.
use eggscrambler.Base.{ℕ, zero, suc, ◌+◌, ◌*◌, ◌/◌, ◌%◌, ◌^◌, ◌<◌, ◌≡◌, refl, sym, ap, ◌∙◌, arith}
use native.Mathlib.Nat.{
  pow-suc, pow-zero, mod-add-div, add-mul-mod_self_left, mul_comm, mul_assoc, mod-eq_of_lt,
}

-- A factor may be reduced first.
pub mod-mul-mod : (a b p : ℕ) → a % p * b % p ≡ a * b % p
mod-mul-mod a b p =
    let e : a * b ≡ a % p * b + p * (a / p * b) =
      ap (λ (x : ℕ). x * b) (sym (mod-add-div a p)) ∙ omega arith in
    sym (ap (λ (x : ℕ). x % p) e ∙ add-mul-mod_self_left (a % p * b) p (a / p * b))

-- The base of a power may be reduced first.
pub mod-pow-mod : (a k p : ℕ) → (a % p) ^ k % p ≡ a ^ k % p
mod-pow-mod a zero p = rw (pow-zero (a % p), pow-zero a) refl
mod-pow-mod a (suc k) p =
    let x = a % p in
    ap (λ (n : ℕ). n % p) (pow-suc x k)
    ∙ sym (mod-mul-mod (x ^ k) x p)
    ∙ ap (λ (n : ℕ). n * x % p) (mod-pow-mod a k p)
    ∙ mod-mul-mod (a ^ k) x p
    ∙ ap (λ (n : ℕ). n % p) (mul_comm (a ^ k) x)
    ∙ mod-mul-mod a (a ^ k) p
    ∙ ap (λ (n : ℕ). n % p) (mul_comm a (a ^ k) ∙ sym (pow-suc a k))

pub pow-add : (a j k : ℕ) → a ^ (j + k) ≡ a ^ j * a ^ k
pow-add a j zero = let e : j + 0 ≡ j = omega arith in rw (e, pow-zero a) (omega arith)
pow-add a j (suc k) =
    let e : j + suc k ≡ suc (j + k) = omega arith in
    rw (e, pow-suc a (j + k), pow-suc a k, pow-add a j k) (mul_assoc (a ^ j) (a ^ k) a)

pub pow-mul : (a j k : ℕ) → (a ^ j) ^ k ≡ a ^ (j * k)
pow-mul a j zero = let e : j * 0 ≡ 0 = omega arith in rw (e, pow-zero (a ^ j), pow-zero a) refl
pow-mul a j (suc k) =
    let e : j * suc k ≡ j * k + j = omega arith in
    rw (e, pow-suc (a ^ j) k, pow-mul a j k, pow-add a (j * k) j) refl

-- Two exponentiations in a row.
pub exp-exp : (a j k p : ℕ) → (a ^ j % p) ^ k % p ≡ a ^ (j * k) % p
exp-exp a j k p = mod-pow-mod (a ^ j) k p ∙ ap (λ (n : ℕ). n % p) (pow-mul a j k)

pub exp_comm : (a j k p : ℕ) → (a ^ j % p) ^ k % p ≡ (a ^ k % p) ^ j % p
exp_comm a j k p =
    exp-exp a j k p ∙ ap (λ (n : ℕ). a ^ n % p) (mul_comm j k) ∙ sym (exp-exp a k j p)

pub one_pow : (k : ℕ) → 1 ^ k ≡ 1
one_pow zero = refl
one_pow (suc k) = rw (pow-suc 1 k, one_pow k) refl

pow_one : (a : ℕ) → 1 * a ^ 1 ≡ a
pow_one a = let e = pow-suc a 0 in let z = pow-zero a in rw (e, z) (omega arith)

-- Exponents that differ by a multiple of `n`, where the `n`-th power is 1.
pub exp_cycle : (a n t p : ℕ) → 1 < p → a ^ n % p ≡ 1 → a ^ (1 + n * t) % p ≡ a % p
exp_cycle a n t p h e =
    let one : (a ^ n) ^ t % p ≡ 1 =
      sym (mod-pow-mod (a ^ n) t p)
      ∙ ap (λ (x : ℕ). x ^ t % p) e
      ∙ ap (λ (x : ℕ). x % p) (one_pow t)
      ∙ mod-eq_of_lt h in
    ap (λ (x : ℕ). x % p) (pow-add a 1 (n * t) ∙ mul_comm (a ^ 1) (a ^ (n * t)))
    ∙ sym (mod-mul-mod (a ^ (n * t)) (a ^ 1) p)
    ∙ ap (λ (x : ℕ). x % p * a ^ 1 % p) (sym (pow-mul a n t))
    ∙ ap (λ (x : ℕ). x * a ^ 1 % p) one
    ∙ ap (λ (x : ℕ). x % p) (pow_one a)
