-- ===== src/MasseyOmura/Tests.antt =====
-- The theorems of masseyomura at small numbers.
use eggscrambler.Base.{
  map, ◌++◌, true, ℕ, suc, ◌^◌, ◌%◌, ◌<◌, ◌≡◌, refl, zero, [], ◌∷◌, some, arith, ◌≢◌, Bool,
}
use eggscrambler.Crypto.Bytes.{Msg}
use eggscrambler.Crypto.Interface.{PreparedMsg, CryptoLaws}
use eggscrambler.MasseyOmura.BigInt.{of_bytes, bit_len, bit_len_eq}
use eggscrambler.MasseyOmura.Cipher.{Fermat}
use eggscrambler.MasseyOmura.Keys.{
  gcd, gcd_fuel, inverse_from, mod_inverse, drawn, generated, gen_loop, gen_user_key,
  verify_sys_key,
}
use eggscrambler.MasseyOmura.Messages.{verify, gen_key}
use eggscrambler.MasseyOmura.Generation.{
  IsSound, gen_user_key-IsSound, gen_user_key_ends, gen_key-IsKey,
}
use eggscrambler.MasseyOmura.SysKeys.{
  prime, gen_sys_key, new_massey_omura_crypto, new_massey_omura_crypto-extract,
}
use eggscrambler.MasseyOmura.Verified.{verify-extract, verify_full}
use eggscrambler.MasseyOmura.Cipher.{UserKey}
use eggscrambler.MasseyOmura.BigInt.{bit_len_fuel, to_bytes, to_bytes_fuel}
use eggscrambler.MasseyOmura.Messages.{
  MasseyOmuraCrypto, prepare, extract, as_crypto, IsKey, IsMsg, as_crypto-CryptoLaws,
}

abbrev pub toy : MasseyOmuraCrypto
toy = record { p = 7 ∷ [] }

-- Stands for the test of primality, for the prime modulus.
abbrev pub surely : ℕ → Bool
surely n = Bool.true

pub toy-Fermat : Fermat (of_bytes (toy.p))
unfolding of_bytes
toy-Fermat = (omega arith, powers)
  where
    powers : (a : ℕ) → 0 < a → a < 7 → a ^ 6 % 7 ≡ 1
    powers zero h k = omega arith
    powers (suc zero) h k = refl
    powers (suc (suc zero)) h k = refl
    powers (suc (suc (suc zero))) h k = refl
    powers (suc (suc (suc (suc zero)))) h k = refl
    powers (suc (suc (suc (suc (suc zero))))) h k = refl
    powers (suc (suc (suc (suc (suc (suc zero)))))) h k = refl
    powers (suc (suc (suc (suc (suc (suc (suc n))))))) h k = omega arith

as_crypto-CryptoLaws_example : CryptoLaws (as_crypto surely toy) (IsKey toy) (IsMsg toy)
as_crypto-CryptoLaws_example = as_crypto-CryptoLaws toy toy-Fermat surely

abbrev wide : MasseyOmuraCrypto
wide = record { p = 1 ∷ 0 ∷ 0 ∷ 7 ∷ [] }

wide_bits : bit_len (of_bytes (wide.p)) ≡ 25
unfolding of_bytes
wide_bits = bit_len_eq 16777223 24 (omega arith) (omega arith)

gen_user_key-IsSound_example :
    IsSound (record { p = 7 }) (gen_user_key (record { p = 7 }) (drawn 2 ∷ drawn 4 ∷ []))
gen_user_key-IsSound_example = gen_user_key-IsSound (record { p = 7 }) (drawn 2 ∷ drawn 4 ∷ [])

gen_user_key_ends_example :
    (k : UserKey) × (gen_user_key (record { p = 7 }) (map drawn (2 ∷ []) ++ drawn 4 ∷ [])
      ≡ generated k)
unfolding gcd gcd_fuel
gen_user_key_ends_example = gen_user_key_ends (record { p = 7 }) (2 ∷ []) 4 [] (omega arith) refl

gen_key-IsKey_example : IsKey toy (record { e = 5 ∷ []; d = 5 ∷ [] })
unfolding gen_key gen_user_key gen_loop gcd gcd_fuel mod_inverse inverse_from bit_len bit_len_fuel
    of_bytes to_bytes to_bytes_fuel
gen_key-IsKey_example =
    gen_key-IsKey toy (drawn 2 ∷ drawn 4 ∷ []) (record { e = 5 ∷ []; d = 5 ∷ [] }) refl

wide_verified : verify surely wide 2 ≡ true
unfolding verify verify_sys_key
wide_verified = rw wide_bits refl

verify-extract_example :
    (x : Msg) × (prepare wide (9 ∷ []) ≡ PreparedMsg.prepared x Bool.false)
    × IsMsg wide x
    × (extract x ≡ some (9 ∷ []))
verify-extract_example =
    verify-extract surely wide 2 wide_verified (9 ∷ []) (omega arith, tt) (omega arith)

verify_full_example :
    (x : Msg) × (prepare wide (9 ∷ 8 ∷ []) ≡ PreparedMsg.prepared x Bool.false)
    × (extract x ≢ some (9 ∷ 8 ∷ []))
verify_full_example =
    verify_full surely wide 2 wide_verified 9 (8 ∷ []) (omega arith, (omega arith, tt)) refl

-- A crypto that is made for messages of at most two bytes.
new_massey_omura_crypto-extract_example :
    (verify surely wide 2 ≡ true)
    × (x : Msg) × (prepare wide (9 ∷ []) ≡ PreparedMsg.prepared x Bool.false)
    × IsMsg wide x
    × (extract x ≡ some (9 ∷ []))
new_massey_omura_crypto-extract_example =
    new_massey_omura_crypto-extract surely (λ bits. prime 16777223 ∷ []) 2 wide
      (bit_len_eq 16777223 24 (omega arith) (omega arith), tt)
      (unfold new_massey_omura_crypto gen_sys_key to_bytes to_bytes_fuel in refl) (9 ∷ [])
      (omega arith, tt) (omega arith)
