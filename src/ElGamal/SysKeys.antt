-- ===== src/ElGamal/SysKeys.antt =====
-- elgamal/keygen.go: `GenSysKey`. What the random source gives is an argument: a number below the bound
-- or a prime, by the number of calls that are left.
use eggscrambler.Base.{
  ℕ, zero, suc, ◌+◌, ◌*◌, ◌-◌, ◌%◌, ◌^◌, ◌<◌, ◌≡◌, refl, sym, ap, ◌∙◌, ltb, if◌then◌else◌, Bool,
  true, false, none, some, arith, Bool-cases, Option-cases, ◌⊎◌, inl, inr,
}
use mathlib.Core.Path.{subst}
use native.Mathlib.Nat.{pow-suc, mul_comm, mul_assoc}
use eggscrambler.MasseyOmura.BigInt.{bit_len}
use eggscrambler.MasseyOmura.Cipher.{exp, Fermat}
use eggscrambler.MasseyOmura.Keys.{Draw, drawn}
use eggscrambler.MasseyOmura.Powers.{mod-mul-mod, pow-mul}
use eggscrambler.MasseyOmura.SysKeys.{PrimeDraw, prime, prime_error}
use eggscrambler.ElGamal.Cipher.{SystemKey, rand_help, user_key, encrypt, decrypt}
use eggscrambler.ElGamal.Layers.{decrypt-encrypt_two}

-- What is drawn next: q; r for a given q; the h of the generator.
pub data Drawing : Type 0 where
  draws_q : Drawing
  draws_r : ℕ → Drawing
  draws_h : ℕ → ℕ → ℕ → Drawing

-- `none` calls are left, an error, a panic, or a key.
pub data Made : Type 0 where
  unfinished : Made
  made_error : Made
  made_panic : Made
  made : SystemKey → Made

prime_cases : (d : PrimeDraw) → (d ≡ prime_error) ⊎ ((q : ℕ) × (d ≡ prime q))
prime_cases prime_error = inl refl
prime_cases (prime q) = inr (q, refl)

module _ (probably_prime : ℕ → Bool) (primes : ℕ → PrimeDraw) (ints : ℕ → ℕ → Draw) where
  -- The loops, for so many calls of the random source.
  unfoldable pub make_sys_key : ℕ → Drawing → Made
  make_sys_key zero d = unfinished
  make_sys_key (suc i) draws_q = elim (primes i) [
    | prime_error ↦ made_error
    | prime q ↦ make_sys_key i (elim (probably_prime q) [ true ↦ draws_r q | false ↦ draws_q ])
  ]
  make_sys_key (suc i) (draws_r q) = elim (rand_help (ints i (10 - 1)) 10) [
    | none ↦ made_panic
    | some r ↦
        let p = r * q * 2 + 1 in
        make_sys_key i (elim (probably_prime p) [ true ↦ draws_h p q r | false ↦ draws_q ])
  ]
  make_sys_key (suc i) (draws_h p q r) = elim (rand_help (ints i (q - 1)) q) [
    | none ↦ made_panic
    | some h ↦
        let g = exp h r p in
        let rest = make_sys_key i (draws_h p q r) in
        if ltb 1 (bit_len g) then made (record { p = p; q = q; g = g }) else rest
  ]

  abbrev pub IsInvertible : SystemKey → Type 0
  IsInvertible s = (k : ℕ) × (s.g * k % s.p ≡ 1)

  -- A power of a number below the modulus, with an exponent that divides p - 1, has an inverse.
  power_invertible :
      (p r q h : ℕ)
      → Fermat p
      → p ≡ r * suc q * 2 + 1
      → 0 < h
      → h < p
      → (k : ℕ) × (exp h r p * k % p ≡ 1)
  power_invertible p r q h (big, small) e pos lt =
      let x = h ^ r in
      let k = x ^ (q * 2 + 1) in
      let doubled : suc (q * 2 + 1) ≡ suc q * 2 = omega arith in
      let less : r * suc q * 2 ≡ p - 1 = omega (arith, e) in
      let total : r * (suc (q * 2 + 1)) ≡ p - 1 =
        ap (λ (n : ℕ). r * n) doubled ∙ sym (mul_assoc r (suc q) 2) ∙ less in
      let all : x * k ≡ h ^ (p - 1) =
        mul_comm x k
        ∙ sym (pow-suc x (q * 2 + 1))
        ∙ pow-mul h r (suc (q * 2 + 1))
        ∙ ap (λ (n : ℕ). h ^ n) total in
      (k, mod-mul-mod x k p ∙ ap (λ (n : ℕ). n % p) all ∙ small h pos lt)

  -- `rand.Int` gives numbers below its bound.
  abbrev pub IsBounded : Type 0
  IsBounded = (i bound n : ℕ) → ints i bound ≡ drawn n → n < bound

  positive : (d : Draw) (bound n : ℕ) → rand_help d bound ≡ some n → 0 < n
  unfolding rand_help
  positive d bound n h = ground (arith, h)

  below : (i q x : ℕ) → IsBounded → rand_help (ints i (q - 1)) q ≡ some x → x < q
  unfolding rand_help
  below i q x b h = ground (arith, h, b i (q - 1) (x - 1))

  less_than : (q r x : ℕ) → 0 < r → x < q → x < r * q * 2 + 1
  less_than q zero x pos lt = absurd (omega (arith, pos))
  less_than q (suc r) x pos lt = let e : suc r * q ≡ r * q + q = omega arith in omega (arith, lt, e)

  abbrev IsOn : Drawing → Type 0
  IsOn draws_q = Unit
  IsOn (draws_r q) = Unit
  IsOn (draws_h p q r) = (p ≡ r * q * 2 + 1) × (0 < r)

  make_sys_key-IsInvertible :
      (i : ℕ) (d : Drawing) (s : SystemKey)
      → IsBounded
      → IsOn d
      → make_sys_key i d ≡ made s
      → Fermat s.p
      → IsInvertible s
  unfolding make_sys_key rand_help
  make_sys_key-IsInvertible zero d s b v h f = absurd (ground (arith, h))
  make_sys_key-IsInvertible (suc i) draws_q s b v h f = elim (prime_cases (primes i)) [
    | inl e ↦ absurd (ground (arith, e, h))
    | inr (q, e) ↦ elim (Bool-cases (probably_prime q)) [
      | inl y ↦ make_sys_key-IsInvertible i (draws_r q) s b tt (ground (arith, e, y, h)) f
      | inr y ↦ make_sys_key-IsInvertible i draws_q s b tt (ground (arith, e, y, h)) f
    ]
  ]
  make_sys_key-IsInvertible (suc i) (draws_r q) s b v h f =
      elim (Option-cases (rand_help (ints i (10 - 1)) 10)) [
        | inl e ↦ absurd (ground (arith, e, h))
        | inr (r, e) ↦
            let p = r * q * 2 + 1 in
            elim (Bool-cases (probably_prime p)) [
              | inl y ↦
                  make_sys_key-IsInvertible i (draws_h p q r) s b
                    (refl, positive (ints i (10 - 1)) 10 r e) (ground (arith, e, y, h)) f
              | inr y ↦ make_sys_key-IsInvertible i draws_q s b tt (ground (arith, e, y, h)) f
            ]
      ]
  make_sys_key-IsInvertible (suc i) (draws_h p q r) s b v h f =
      elim (Option-cases (rand_help (ints i (q - 1)) q)) [
        | inl e ↦ absurd (ground (arith, e, h))
        | inr (x, e) ↦
            let g = exp x r p in
            elim (Bool-cases (ltb 1 (bit_len g))) [
              | inl y ↦
                  let same : record { p = p; q = q; g = g } ≡ s = ground (arith, e, y, h) in
                  let lt = below i q x b e in
                  let back : suc (q - 1) ≡ q = omega (arith, lt) in
                  rw (← same) (
                    power_invertible p r (q - 1) x
                      (subst Fermat (ap (λ (t : SystemKey). t.p) (sym same)) f) (rw back v.0)
                      (positive (ints i (q - 1)) q x e) (rw v.0 (less_than q r x v.1 lt)))
              | inr y ↦
                  make_sys_key-IsInvertible i (draws_h p q r) s b v (ground (arith, e, y, h)) f
            ]
      ]

  -- If the random source gives numbers below its bounds, and the modulus of the system key that
  -- `GenSysKey` makes satisfies Fermat's little theorem: what was encrypted for a user of the system and
  -- then for another one is decrypted, up to the modulus, with the two in the same order as well as in
  -- the opposite order, each with the K that its encryption returned.
  pub make_sys_key-decrypt_two :
      (i : ℕ) (s : SystemKey) (x1 x2 : ℕ) (draw1 draw2 : Draw) (c saved1 sent1 saved2 sent2 : ℕ)
      → IsBounded
      → make_sys_key i draws_q ≡ made s
      → Fermat s.p
      → encrypt (user_key s x1).public draw1 c ≡ some (saved1, sent1)
      → encrypt (user_key s x2).public draw2 sent1 ≡ some (saved2, sent2)
      → (d d' : ℕ) × (decrypt (user_key s x1) saved1 sent2 ≡ some d)
        × (decrypt (user_key s x2) saved2 d ≡ some (c % s.p))
        × (decrypt (user_key s x2) saved2 sent2 ≡ some d')
        × (decrypt (user_key s x1) saved1 d' ≡ some (c % s.p))
  make_sys_key-decrypt_two i s x1 x2 draw1 draw2 c saved1 sent1 saved2 sent2 b h f e1 e2 =
      let (k, inv) = make_sys_key-IsInvertible i draws_q s b tt h f in
      decrypt-encrypt_two s x1 x2 draw1 draw2 k c saved1 sent1 saved2 sent2 f.0 inv e1 e2
