-- ===== src/MasseyOmura/Keys.antt =====
-- masseyomura/keygen.go and masseyomura/basics.go: `VerifySysKey`, `GenUserKey` and `randHelp`, with
-- what they use of math/big. The results of the random source are an argument, and so is
-- `ProbablyPrime(40)`.
use eggscrambler.Base.{
  ℕ, zero, suc, ◌+◌, ◌*◌, ◌-◌, ◌%◌, ◌==◌, ltb, if◌then◌else◌, Bool, false, Option, none, some, List,
  [], ◌∷◌,
}
use eggscrambler.MasseyOmura.BigInt.{bit_len}
use eggscrambler.MasseyOmura.Cipher.{SystemKey, UserKey}

-- `GCD` of positive numbers, by Euclid's algorithm.
unfoldable pub gcd_fuel : ℕ → ℕ → ℕ → ℕ
gcd_fuel zero a b = a
gcd_fuel (suc f) a b = let rest = gcd_fuel f b (a % b) in if b == 0 then a else rest

-- Every step makes the second number smaller.
unfoldable pub gcd : ℕ → ℕ → ℕ
unfolding gcd_fuel
gcd a b = gcd_fuel (suc b) a b

-- The least inverse of `g` modulo `n` among the `k` numbers from `d` on.
unfoldable pub inverse_from : ℕ → ℕ → ℕ → ℕ → Option ℕ
inverse_from g n d zero = none
inverse_from g n d (suc k) =
    let rest = inverse_from g n (suc d) k in if g * d % n == 1 % n then some d else rest

-- `ModInverse`; `none` is nil.
unfoldable pub mod_inverse : ℕ → ℕ → Option ℕ
unfolding inverse_from
mod_inverse g n = inverse_from g n 0 n

-- A result of `rand.Int`: an error, or a number below the given bound.
pub data Draw : Type 0 where
  rand_error : Draw
  drawn : ℕ → Draw

-- What `GenUserKey` comes to for a finite list of draws: it is still drawing, an error of the random
-- source, the error that should be impossible, the panic of `rand.Int` for an empty range, a key.
pub data Generated : Type 0 where
  drawing : Generated
  failed : Generated
  no_inverse : Generated
  empty_range : Generated
  generated : UserKey → Generated

abbrev pub with_inverse : SystemKey → ℕ → Option ℕ → Generated
with_inverse s e none = Generated.no_inverse
with_inverse s e (some d) = Generated.generated (record { system = s; e = e; d = d })

-- The loop, with `p1` = p - 1; `randHelp` adds 1 to what is drawn.
unfoldable pub gen_loop : SystemKey → ℕ → List Draw → Generated
gen_loop s p1 [] = Generated.drawing
gen_loop s p1 (rand_error ∷ ds) = Generated.failed
gen_loop s p1 (drawn n ∷ ds) =
    let rest = gen_loop s p1 ds in
    if bit_len (gcd (n + 1) p1) == 1 then with_inverse s (n + 1) (mod_inverse (n + 1) p1) else rest

-- `rand.Int` panics unless p - 2 is positive.
unfoldable pub gen_user_key : SystemKey → List Draw → Generated
unfolding gen_loop
gen_user_key s ds = if ltb 2 s.p then gen_loop s (s.p - 1) ds else Generated.empty_range

-- `VerifySysKey`: whether the error is nil.
unfoldable pub verify_sys_key : (ℕ → Bool) → SystemKey → ℕ → Bool
verify_sys_key probably_prime s bits_p = if bit_len s.p == bits_p then probably_prime s.p else false
