-- ===== src/MasseyOmura/SysKeys.antt =====
-- masseyomura/keygen.go and anonbcast/crypto.go: `GenSysKey` and `newMasseyOmuraCrypto`. What
-- `rand.Prime` gives is an argument, by the number of bits that it is asked for.
use eggscrambler.Base.{
  ℕ, ◌<◌, ◌≡◌, refl, sym, if◌then◌else◌, Bool, true, false, Option, none, some, List, [], ◌∷◌,
  arith, length,
}
use mathlib.Core.Path.{subst}
use eggscrambler.Crypto.Bytes.{Bytes, Msg}
use eggscrambler.Crypto.Interface.{PreparedMsg}
use eggscrambler.MasseyOmura.BigInt.{IsBytes, bit_len, to_bytes, of_bytes-to_bytes}
use eggscrambler.MasseyOmura.Cipher.{SystemKey}
use eggscrambler.MasseyOmura.Keys.{verify_sys_key}
use eggscrambler.MasseyOmura.Padding.{bits_max_size}
use eggscrambler.MasseyOmura.Messages.{MasseyOmuraCrypto, get_p, IsMsg, prepare, extract, verify}
use eggscrambler.MasseyOmura.Verified.{verify-extract}

-- A result of `rand.Prime`.
pub data PrimeDraw : Type 0 where
  prime_error : PrimeDraw
  prime : ℕ → PrimeDraw

-- What `GenSysKey` comes to for a finite list of draws.
pub data SysGenerated : Type 0 where
  still_drawing : SysGenerated
  draw_failed : SysGenerated
  sys_generated : SystemKey → SysGenerated

unfoldable pub gen_sys_key : (ℕ → Bool) → List PrimeDraw → SysGenerated
gen_sys_key probably_prime [] = still_drawing
gen_sys_key probably_prime (prime_error ∷ ds) = draw_failed
gen_sys_key probably_prime (prime p ∷ ds) =
    let rest = gen_sys_key probably_prime ds in
    if probably_prime p then sys_generated (record { p = p }) else rest

abbrev key_with : ℕ → SystemKey
key_with p = record { p = p }

-- An error of `GenSysKey` comes with a nil key, whose use panics.
abbrev pub crypto_of : SysGenerated → Option MasseyOmuraCrypto
crypto_of still_drawing = none
crypto_of draw_failed = none
crypto_of (sys_generated s) = some (record { p = to_bytes s.p })

unfoldable pub new_massey_omura_crypto :
    (ℕ → Bool) → (ℕ → List PrimeDraw) → ℕ → Option MasseyOmuraCrypto
new_massey_omura_crypto probably_prime draws size =
    crypto_of (gen_sys_key probably_prime (draws (bits_max_size size)))

-- `rand.Prime` gives numbers of just so many bits.
abbrev pub HasBits : ℕ → List PrimeDraw → Type 0
HasBits bits [] = Unit
HasBits bits (prime_error ∷ ds) = HasBits bits ds
HasBits bits (prime p ∷ ds) = (bit_len p ≡ bits) × HasBits bits ds

gen_sys_key-verify_sys_key :
    (probably_prime : ℕ → Bool) (bits : ℕ) (ds : List PrimeDraw) (s : SystemKey)
    → HasBits bits ds
    → gen_sys_key probably_prime ds ≡ sys_generated s
    → verify_sys_key probably_prime s bits ≡ true
unfolding gen_sys_key verify_sys_key
gen_sys_key-verify_sys_key probably_prime bits [] s b h = ground arith
gen_sys_key-verify_sys_key probably_prime bits (prime_error ∷ ds) s b h = ground arith
gen_sys_key-verify_sys_key probably_prime bits (prime p ∷ ds) s (e, b) h =
    ground (arith, e, gen_sys_key-verify_sys_key probably_prime bits ds s b)

crypto_of-some :
    (g : SysGenerated) (mo : MasseyOmuraCrypto)
    → crypto_of g ≡ some mo
    → (s : SystemKey) × (g ≡ sys_generated s) × (get_p mo ≡ s.p)
crypto_of-some still_drawing mo h = absurd (ground arith)
crypto_of-some draw_failed mo h = absurd (ground arith)
crypto_of-some (sys_generated s) mo h =
    let same : to_bytes s.p ≡ mo.p = ground arith in (s, refl, rw (← same) (of_bytes-to_bytes s.p))

module _ (probably_prime : ℕ → Bool) (draws : ℕ → List PrimeDraw) (size : ℕ)
    (mo : MasseyOmuraCrypto) (has_bits : HasBits (bits_max_size size) (draws (bits_max_size size)))
    (made : new_massey_omura_crypto probably_prime draws size ≡ some mo) where
  new_massey_omura_crypto-verify : verify probably_prime mo size ≡ true
  unfolding new_massey_omura_crypto verify
  new_massey_omura_crypto-verify =
      let ds = draws (bits_max_size size) in
      let (s, e, same) = crypto_of-some (gen_sys_key probably_prime ds) mo made in
      let ok : verify_sys_key probably_prime (key_with s.p) (bits_max_size size) ≡ true =
        gen_sys_key-verify_sys_key probably_prime (bits_max_size size) ds s has_bits e in
      subst (λ (n : ℕ). verify_sys_key probably_prime (key_with n) (bits_max_size size) ≡ true)
        (sym same) ok

  -- If `rand.Prime` gives numbers of as many bits as it is asked for, then each crypto that
  -- `newMasseyOmuraCrypto` makes for a message size is accepted by `Verify` for that size, and a
  -- message of bytes that is shorter is prepared for it without an error, to a message in range, and
  -- extracting it gives the message back.
  pub new_massey_omura_crypto-extract :
      (msg : Bytes)
      → IsBytes msg
      → length msg < size
      → (verify probably_prime mo size ≡ true)
        × (x : Msg) × (prepare mo msg ≡ PreparedMsg.prepared x false)
        × IsMsg mo x
        × (extract x ≡ some msg)
  new_massey_omura_crypto-extract msg v h =
      let (x, prepared, in_range, back) =
        verify-extract probably_prime mo size new_massey_omura_crypto-verify msg v h in
      (new_massey_omura_crypto-verify, x, prepared, in_range, back)
