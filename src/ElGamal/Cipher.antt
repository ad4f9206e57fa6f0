-- ===== src/ElGamal/Cipher.antt =====
-- elgamal/basics.go, elgamal/keygen.go and elgamal/encrypt.go: keys, `GenUserKey`, `Encrypt` and
-- `Decrypt`. Big integers are natural numbers, as none of them is ever negative.
use eggscrambler.Base.{
  ℕ, zero, suc, ◌+◌, ◌*◌, ◌%◌, ◌^◌, ◌<◌, ◌≡◌, refl, sym, ap, ◌∙◌, ltb, if◌then◌else◌, Option, none,
  some, arith,
}
use eggscrambler.MasseyOmura.Cipher.{exp}
use eggscrambler.MasseyOmura.Keys.{Draw, rand_error, drawn, mod_inverse}
use eggscrambler.MasseyOmura.Inverse.{inverse_from-some, inverse_from-inverse}
use eggscrambler.MasseyOmura.Powers.{exp-exp, exp_comm, mod-mul-mod, mod-pow-mod, one_pow}
use native.Mathlib.Nat.{
  mod-eq_of_lt, mod-lt, mul_comm, mul_left_comm, mul_right_comm, mul-mul-mul_comm, pow-suc,
  pow-zero,
}

pub record SystemKey : Type 0 where
  pub p : ℕ
  pub q : ℕ
  pub g : ℕ

pub record PublicKey : Type 0 where
  pub system : SystemKey
  pub y : ℕ

pub record PrivateKey : Type 0 where
  pub public : PublicKey
  pub x : ℕ

-- `randHelp`: `none` is a panic, of `rand.Int` for an empty range, or as the nil that it returns with
-- an error is used.
unfoldable pub rand_help : Draw → ℕ → Option ℕ
rand_help rand_error q = none
rand_help (drawn n) q = if ltb 1 q then some (n + 1) else none

-- The key with the private exponent `x`.
abbrev pub user_key : SystemKey → ℕ → PrivateKey
user_key s x = record { public = record { system = s; y = exp s.g x s.p }; x = x }

-- `GenUserKey`
unfoldable pub gen_user_key : SystemKey → Draw → Option PrivateKey
gen_user_key s draw = elim (rand_help draw s.q) [ none ↦ none | some x ↦ some (user_key s x) ]

-- `Encrypt`: K, which the user keeps, and C.
unfoldable pub encrypt : PublicKey → Draw → ℕ → Option (ℕ × ℕ)
encrypt k draw prev_c = elim (rand_help draw k.system.q) [
  | none ↦ none
  | some r ↦ some (exp k.system.g r k.system.p, exp k.y r k.system.p * prev_c)
]

-- `Decrypt`: `none` is the error for an invalid key.
unfoldable pub decrypt : PrivateKey → ℕ → ℕ → Option ℕ
decrypt k saved prev_d =
    let p = k.public.system.p in
    elim (mod_inverse (exp saved k.x p) p) [
      | none ↦ none
      | some inverse ↦ some (prev_d * inverse % p)
    ]

mul_pow : (a b k : ℕ) → (a * b) ^ k ≡ a ^ k * b ^ k
mul_pow a b zero = rw (pow-zero (a * b), pow-zero a, pow-zero b) refl
mul_pow a b (suc k) =
    rw (pow-suc (a * b) k, pow-suc a k, pow-suc b k, mul_pow a b k)
      (mul-mul-mul_comm (a ^ k) (b ^ k) a b)

-- The power of an invertible number is invertible.
pow_inverse :
    (p g h k : ℕ)
    → 1 < p
    → g * h % p ≡ 1
    → (y : ℕ) × (mod_inverse (g ^ k % p) p ≡ some y) × (g ^ k % p * y % p ≡ 1)
unfolding mod_inverse
pow_inverse p g h k big e =
    let u = g ^ k % p in
    let v = h ^ k % p in
    let one : u * v % p ≡ 1 =
      mod-mul-mod (g ^ k) v p
      ∙ ap (λ (n : ℕ). n % p) (mul_comm (g ^ k) v)
      ∙ mod-mul-mod (h ^ k) (g ^ k) p
      ∙ ap (λ (n : ℕ). n % p) (mul_comm (h ^ k) (g ^ k) ∙ sym (mul_pow g h k))
      ∙ sym (mod-pow-mod (g * h) k p)
      ∙ ap (λ (n : ℕ). n ^ k % p) e
      ∙ ap (λ (n : ℕ). n % p) (one_pow k)
      ∙ mod-eq_of_lt big in
    let unit : 1 % p ≡ 1 = mod-eq_of_lt big in
    let below : v < p = mod-lt (h ^ k) (omega arith) in
    let (y, found) = inverse_from-some u p 0 p v (omega arith) (omega arith) (one ∙ sym unit) in
    (y, found, inverse_from-inverse u p 0 p y found ∙ unit)

-- A layer of encryption comes off, whatever factor has been put over it since: with a key whose `y` is
-- that of its `x`, for an invertible generator.
pub decrypt-encrypt :
    (k : PrivateKey) (draw : Draw) (h c saved sent m : ℕ)
    → 1 < k.public.system.p
    → k.public.system.g * h % k.public.system.p ≡ 1
    → k.public.y ≡ exp k.public.system.g k.x k.public.system.p
    → encrypt k.public draw c ≡ some (saved, sent)
    → decrypt k saved (m * sent) ≡ some (m * c % k.public.system.p)
unfolding encrypt decrypt rand_help
decrypt-encrypt k rand_error h c saved sent m big inv key e = ground arith
decrypt-encrypt k (drawn n) h c saved sent m big inv key e =
    let p = k.public.system.p in
    let g = k.public.system.g in
    let r = n + 1 in
    let is_saved : exp g r p ≡ saved = ground arith in
    let is_sent : exp k.public.y r p * c ≡ sent = ground arith in
    let factor : ℕ = g ^ (r * k.x) % p in
    let same : exp saved k.x p ≡ factor = rw (← is_saved) (exp-exp g r k.x p) in
    let put : exp k.public.y r p ≡ factor = rw key (exp_comm g k.x r p ∙ exp-exp g r k.x p) in
    let (y, found, one) = pow_inverse p g h (r * k.x) big inv in
    let sent_is : sent ≡ factor * c = sym is_sent ∙ ap (λ (x : ℕ). x * c) put in
    let unit : 1 * (m * c) ≡ m * c = omega arith in
    let off : m * sent * y % p ≡ m * c % p =
      ap (λ (x : ℕ). m * x * y % p) sent_is
      ∙ ap (λ (x : ℕ). x * y % p) (mul_left_comm m factor c)
      ∙ ap (λ (x : ℕ). x % p) (mul_right_comm factor (m * c) y)
      ∙ sym (mod-mul-mod (factor * y) (m * c) p)
      ∙ ap (λ (x : ℕ). x * (m * c) % p) one
      ∙ ap (λ (x : ℕ). x % p) unit in
    let inverse_found : mod_inverse (exp saved k.x p) p ≡ some y = rw same found in
    rw (inverse_found, decrypt) (ap some off)
