-- ===== src/MasseyOmura/Messages.antt =====
-- anonbcast/crypto.go: `masseyOmuraCrypto`, messages and keys as byte slices over masseyomura.
use eggscrambler.Base.{
  none, List, ℕ, ◌<◌, ◌<ℤ◌, pos, length, refl, ◌≡◌, Option, some, ap, arith, Bool,
}
use eggscrambler.Crypto.Bytes.{Bytes, Msg, PrivateKey, nil_msg}
use eggscrambler.Crypto.Interface.{PreparedMsg, CommutativeCrypto, CryptoLaws}
use eggscrambler.MasseyOmura.BigInt.{
  IsBytes, of_bytes, to_bytes, bit_len, of_bytes-to_bytes, lt-bit_len,
}
use eggscrambler.MasseyOmura.Cipher.{
  SystemKey, UserKey, encrypt, decrypt, Fermat, IsInverse, encrypt_comm, encrypt-lt,
  decrypt-encrypt,
}
use eggscrambler.MasseyOmura.Keys.{Draw, Generated, generated, gen_user_key, verify_sys_key}
use eggscrambler.MasseyOmura.Padding.{
  bits_max_size, Prepared, prepare_msg, extract_msg, extract_msg-prepare_msg, bytes_max_size,
}

pub record MasseyOmuraCrypto : Type 0 where
  pub p : Bytes

-- `bigInt`, `getM`, `getE`, `getD`, `getP` and `NewMsg`.
abbrev pub get_m : Msg → ℕ
get_m x = of_bytes x.m

abbrev pub new_msg : ℕ → Msg
new_msg n = record { m = to_bytes n }

abbrev pub get_p : MasseyOmuraCrypto → ℕ
get_p mo = of_bytes mo.p

abbrev pub create_sys_key : MasseyOmuraCrypto → SystemKey
create_sys_key mo = record { p = get_p mo }

abbrev pub create_private_key : MasseyOmuraCrypto → PrivateKey → UserKey
create_private_key mo key = record {
  system = create_sys_key mo;
  e = of_bytes key.e;
  d = of_bytes key.d;
}

-- `Encrypt` and `Decrypt`
unfoldable pub encrypt_msg : MasseyOmuraCrypto → PrivateKey → Msg → Msg
encrypt_msg mo key x = new_msg (encrypt (create_private_key mo key) (get_m x))

unfoldable pub decrypt_msg : MasseyOmuraCrypto → PrivateKey → Msg → Msg
decrypt_msg mo key x = new_msg (decrypt (create_private_key mo key) (get_m x))

-- `PrepareMsg`
abbrev pub msg_of : Prepared → PreparedMsg
msg_of Prepared.pad_panic = PreparedMsg.msg_panic
msg_of Prepared.too_long = PreparedMsg.prepared nil_msg Bool.true
msg_of (Prepared.number n) = PreparedMsg.prepared (new_msg n) Bool.false

unfoldable pub prepare : MasseyOmuraCrypto → Bytes → PreparedMsg
prepare mo msg = msg_of (prepare_msg msg (bit_len (get_p mo)))

unfoldable pub extract : Msg → Option Bytes
extract x = extract_msg (get_m x)

-- `Verify`, with `ProbablyPrime(40)` as an argument.
unfoldable pub verify : (ℕ → Bool) → MasseyOmuraCrypto → ℕ → Bool
unfolding verify_sys_key
verify probably_prime mo size =
    verify_sys_key probably_prime (create_sys_key mo) (bits_max_size size)

-- `GenKey`, for the given results of the random source; `none` stands for a panic, or that the draws
-- do not suffice. An error of `GenUserKey` comes with a nil key.
abbrev pub key_bytes : Generated → Option PrivateKey
key_bytes (generated k) = some (record { e = to_bytes k.e; d = to_bytes k.d })
key_bytes _ = none

unfoldable pub gen_key : MasseyOmuraCrypto → List Draw → Option PrivateKey
gen_key mo ds = key_bytes (gen_user_key (create_sys_key mo) ds)

-- `masseyOmuraCrypto` as a `CommutativeCrypto`.
abbrev pub as_crypto : (ℕ → Bool) → MasseyOmuraCrypto → CommutativeCrypto
as_crypto probably_prime mo = record {
  verify = verify probably_prime mo;
  prepare_msg = prepare mo;
  encrypt = encrypt_msg mo;
  decrypt = decrypt_msg mo;
  extract_msg = extract;
}

-- A key whose exponents are inverse to one another, and a message below the modulus.
abbrev pub IsKey : MasseyOmuraCrypto → PrivateKey → Type 0
IsKey mo k = IsInverse (get_p mo) (of_bytes k.e) (of_bytes k.d)

abbrev pub IsMsg : MasseyOmuraCrypto → Msg → Type 0
IsMsg mo x = (n : ℕ) × (n < get_p mo) × (x ≡ new_msg n)

through :
    (mo : MasseyOmuraCrypto) (f g f' g' : ℕ → ℕ)
    → ((n : ℕ) → f (g n) ≡ g' (f' n))
    → (x : Msg)
    → new_msg (f (get_m (new_msg (g (get_m x))))) ≡ new_msg (g' (get_m (new_msg (f' (get_m x)))))
through mo f g f' g' h x =
    rw (of_bytes-to_bytes (g (get_m x)), of_bytes-to_bytes (f' (get_m x)))
      (ap new_msg (h (get_m x)))

module _ (mo : MasseyOmuraCrypto) (fermat : Fermat (get_p mo)) where
  decrypt_msg-encrypt_msg :
      (k : PrivateKey) (x : Msg)
      → IsKey mo k
      → IsMsg mo x
      → decrypt_msg mo k (encrypt_msg mo k x) ≡ x
  unfolding decrypt_msg encrypt_msg
  decrypt_msg-encrypt_msg k x i (n, lt, e) =
      let key = create_private_key mo k in
      rw (e, of_bytes-to_bytes n, of_bytes-to_bytes (encrypt key n))
        (ap new_msg (decrypt-encrypt key n fermat i lt))

  -- For a modulus that satisfies Fermat's little theorem, `masseyOmuraCrypto` obeys the laws of a
  -- commutative cipher: encryptions commute with one another and with decryptions, decryptions
  -- commute, an encryption is a message in range, and decryption with a key in order undoes
  -- encryption of a message in range.
  pub as_crypto-CryptoLaws :
      (probably_prime : ℕ → Bool) → CryptoLaws (as_crypto probably_prime mo) (IsKey mo) (IsMsg mo)
  unfolding encrypt_msg decrypt_msg
  as_crypto-CryptoLaws probably_prime =
      let key = create_private_key mo in
      record {
        encrypt_swap = λ k k' x.
            through mo (encrypt (key k)) (encrypt (key k')) (encrypt (key k)) (encrypt (key k'))
              (λ n. (encrypt_comm (key k) (key k') n refl).0) x;
        decrypt_swap = λ k k' x.
            through mo (decrypt (key k)) (decrypt (key k')) (decrypt (key k)) (decrypt (key k'))
              (λ n. (encrypt_comm (key k) (key k') n refl).1) x;
        decrypt_encrypt_swap = λ k k' x.
            through mo (decrypt (key k)) (encrypt (key k')) (decrypt (key k)) (encrypt (key k'))
              (λ n. (encrypt_comm (key k) (key k') n refl).2) x;
        encrypt_in_range = λ k x. (
          encrypt (key k) (get_m x),
          encrypt-lt (key k) (get_m x) (omega (arith, fermat.0)),
          refl,
        );
        decrypt_undoes = decrypt_msg-encrypt_msg;
      }

module _ (mo : MasseyOmuraCrypto) where
  -- A message of bytes shorter than the maximal size for the modulus is prepared without an error
  -- to a message in range, and extracting it gives the message back.
  pub extract-prepare :
      (msg : Bytes)
      → IsBytes msg
      → pos (length msg) <ℤ bytes_max_size (bit_len (get_p mo))
      → (x : Msg) × (prepare mo msg ≡ PreparedMsg.prepared x Bool.false)
        × IsMsg mo x
        × (extract x ≡ some msg)
  unfolding prepare extract
  extract-prepare msg v h =
      let (n, e, back, lt) = extract_msg-prepare_msg msg (bit_len (get_p mo)) v h in
      let some_bits : 0 < bit_len (get_p mo) = ground arith in
      let below = lt-bit_len n (get_p mo) (bit_len (get_p mo)) refl some_bits lt in
      (new_msg n, rw e refl, (n, below, refl), rw (of_bytes-to_bytes n) back)
