-- ===== src/ElGamal/Tests.antt =====
-- Two users over the modulus 7.
use eggscrambler.Base.{
  zero, suc, ◌<◌, ◌^◌, ◌%◌, ◌-◌, ◌==◌, if◌then◌else◌, true, ℕ, ◌≡◌, ◌+◌, refl, some, [], ◌∷◌, arith,
  pos, ◌⊎◌, ◌↔◌,
}
use eggscrambler.MasseyOmura.Keys.{Draw, rand_error, drawn}
use eggscrambler.MasseyOmura.BigInt.{bit_len, bit_len_fuel}
use eggscrambler.MasseyOmura.Cipher.{Fermat}
use eggscrambler.MasseyOmura.SysKeys.{prime}
use eggscrambler.ElGamal.SysKeys.{make_sys_key, make_sys_key-decrypt_two}
use eggscrambler.MasseyOmura.Padding.{pad_panic}
use eggscrambler.ElGamal.Cipher.{SystemKey, user_key, rand_help, encrypt, decrypt}
use eggscrambler.ElGamal.Padding.{max_size, prepare_msg, prepare_msg_panics}

abbrev seven : SystemKey
seven = record { p = 7; q = 3; g = 2 }

seven-Fermat : Fermat 7
seven-Fermat = (omega arith, powers)
  where
    powers : (a : ℕ) → 0 < a → a < 7 → a ^ 6 % 7 ≡ 1
    powers zero h k = omega arith
    powers (suc zero) h k = refl
    powers (suc (suc zero)) h k = refl
    powers (suc (suc (suc zero))) h k = refl
    powers (suc (suc (suc (suc zero)))) h k = refl
    powers (suc (suc (suc (suc (suc zero))))) h k = refl
    powers (suc (suc (suc (suc (suc (suc zero)))))) h k = refl
    powers (suc (suc (suc (suc (suc (suc (suc a))))))) h k = omega (arith, k)

-- The greatest number below the bound, but 0 for the bound 9 of the factor r.
abbrev greatest : ℕ → ℕ → Draw
greatest i bound = if bound == 0 then rand_error else drawn (if bound == 9 then 0 else bound - 1)

greatest-IsBounded : (i bound n : ℕ) → greatest i bound ≡ drawn n → n < bound
greatest-IsBounded i bound n h = ground (arith, h)

make_sys_key-decrypt_two_example :
    (d d' : ℕ) × (decrypt (user_key seven 2) 1 24 ≡ some d)
    × (decrypt (user_key seven 1) 4 d ≡ some (6 % 7))
    × (decrypt (user_key seven 1) 4 24 ≡ some d')
    × (decrypt (user_key seven 2) 1 d' ≡ some (6 % 7))
make_sys_key-decrypt_two_example =
    make_sys_key-decrypt_two (λ n. true) (λ i. prime 3) greatest 3 seven 2 1 (drawn 2) (drawn 1) 6 1
      6 4 24 greatest-IsBounded (unfold make_sys_key rand_help bit_len bit_len_fuel in refl)
      seven-Fermat (unfold encrypt rand_help in refl) (unfold encrypt rand_help in refl)

prepare_msg_panics_example :
    (prepare_msg (65 ∷ []) 24 ≡ pad_panic) ↔ ((pos 1 ≡ max_size 24) ⊎ (pos (1 + 1) ≡ max_size 24))
prepare_msg_panics_example = prepare_msg_panics (65 ∷ []) 24
