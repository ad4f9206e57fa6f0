-- ===== src/MasseyOmura/Cipher.antt =====
-- masseyomura/encrypt.go and masseyomura/basics.go: keys, `Encrypt` and `Decrypt`. Big integers are
-- natural numbers, as none of them is ever negative.
use eggscrambler.Base.{ℕ, zero, suc, ◌+◌, ◌*◌, ◌-◌, ◌%◌, ◌^◌, ◌<◌, ◌≡◌, ◌∙◌, arith}
use eggscrambler.MasseyOmura.Powers.{exp-exp, exp_comm, exp_cycle, pow-add}
use native.Mathlib.Nat.{mod-eq_of_lt, mod-lt}

pub record SystemKey : Type 0 where
  pub p : ℕ

pub record UserKey : Type 0 where
  pub system : SystemKey
  pub e : ℕ
  pub d : ℕ

-- `new(big.Int).Exp(x, y, m)`; for `m` = 0 both sides leave the power as it is.
abbrev pub exp : ℕ → ℕ → ℕ → ℕ
exp x y m = x ^ y % m

unfoldable pub encrypt : UserKey → ℕ → ℕ
encrypt k prev_c = exp prev_c k.e k.system.p

unfoldable pub decrypt : UserKey → ℕ → ℕ
decrypt k prev_d = exp prev_d k.d k.system.p

-- Fermat's little theorem, for the modulus `p`.
abbrev pub Fermat : ℕ → Type 0
Fermat p = (1 < p) × ((a : ℕ) → 0 < a → a < p → a ^ (p - 1) % p ≡ 1)

-- e * d = 1 (mod p - 1), the comment above `GenUserKey`.
abbrev pub IsInverse : ℕ → ℕ → ℕ → Type 0
IsInverse p e d = (t : ℕ) × (e * d ≡ 1 + (p - 1) * t)

-- Encryption is commutative: with two keys for the same modulus the order of encryption makes no
-- difference, and neither does the order of decryption, nor of an encryption and a decryption.
pub encrypt_comm :
    (k k' : UserKey) (m : ℕ)
    → k.system.p ≡ k'.system.p
    → (encrypt k (encrypt k' m) ≡ encrypt k' (encrypt k m))
      × (decrypt k (decrypt k' m) ≡ decrypt k' (decrypt k m))
      × (decrypt k (encrypt k' m) ≡ encrypt k' (decrypt k m))
unfolding encrypt decrypt
encrypt_comm k k' m h = rw h (
  exp_comm m k'.e k.e k'.system.p,
  exp_comm m k'.d k.d k'.system.p,
  exp_comm m k'.e k.d k'.system.p,
)

-- A result is smaller than the modulus.
pub encrypt-lt : (k : UserKey) (m : ℕ) → 0 < k.system.p → encrypt k m < k.system.p
unfolding encrypt
encrypt-lt k m h = mod-lt (m ^ k.e) h

pub exp_inverse : (p e d m : ℕ) → Fermat p → IsInverse p e d → m < p → exp (exp m e p) d p ≡ m
exp_inverse p e d zero (one, _) (t, q) h =
    let z : 0 ^ 1 * 0 ^ ((p - 1) * t) ≡ 0 = omega arith in
    exp-exp 0 e d p ∙ rw (q, pow-add 0 1 ((p - 1) * t), z) (mod-eq_of_lt h)
exp_inverse p e d (suc m) (one, fermat) (t, q) h =
    exp-exp (suc m) e d p
    ∙ rw q (exp_cycle (suc m) (p - 1) t p one (fermat (suc m) (omega arith) h) ∙ mod-eq_of_lt h)

-- For a modulus that satisfies Fermat's little theorem and a key whose exponents are inverse to one
-- another, decryption undoes encryption on numbers below the modulus.
pub decrypt-encrypt :
    (k : UserKey) (m : ℕ)
    → Fermat k.system.p
    → IsInverse k.system.p k.e k.d
    → m < k.system.p
    → decrypt k (encrypt k m) ≡ m
unfolding encrypt decrypt
decrypt-encrypt k m f i h = exp_inverse k.system.p k.e k.d m f i h
