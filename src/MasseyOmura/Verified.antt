-- ===== src/MasseyOmura/Verified.antt =====
-- What `Verify` of anonbcast/crypto.go says about the messages that fit.
use eggscrambler.Base.{
  ℕ, ◌<◌, ◌≡◌, ◌≢◌, refl, sym, ap, ◌∙◌, ◌==◌, Bool, true, false, Bool-cases, inl, inr, some, arith,
  ◌∷◌, length, pos,
}
use eggscrambler.Crypto.Bytes.{Bytes, Msg}
use eggscrambler.Crypto.Interface.{PreparedMsg}
use eggscrambler.MasseyOmura.BigInt.{IsBytes, bit_len, of_bytes-to_bytes}
use eggscrambler.MasseyOmura.Keys.{verify_sys_key}
use eggscrambler.MasseyOmura.Padding.{
  bits_max_size, bytes_max_size, bytes_max_size-bits_max_size, extract_msg-prepare_msg_full,
}
use eggscrambler.MasseyOmura.Messages.{
  MasseyOmuraCrypto, get_p, IsMsg, new_msg, prepare, extract, verify, extract-prepare,
}

module _ (probably_prime : ℕ → Bool) (mo : MasseyOmuraCrypto) (n : ℕ)
    (ok : verify probably_prime mo n ≡ true) where
  verify-bytes_max_size : bytes_max_size (bit_len (get_p mo)) ≡ pos n
  unfolding verify verify_sys_key
  verify-bytes_max_size =
      let bits : bit_len (get_p mo) ≡ bits_max_size n =
        elim (Bool-cases (bit_len (get_p mo) == bits_max_size n)) [
          | inl e ↦ ground arith
          | inr e ↦ ground (arith, rw e at ok)
        ] in
      ap bytes_max_size bits ∙ bytes_max_size-bits_max_size n

  -- If `Verify` accepts a crypto for a message size, then a message of bytes that is shorter is
  -- prepared without an error, to a message in range, and extracting it gives the message back.
  pub verify-extract :
      (msg : Bytes)
      → IsBytes msg
      → length msg < n
      → (x : Msg) × (prepare mo msg ≡ PreparedMsg.prepared x false)
        × IsMsg mo x
        × (extract x ≡ some msg)
  verify-extract msg v h = extract-prepare mo msg v (rw verify-bytes_max_size (omega arith))

  -- If `Verify` accepts a crypto for a message size, then a message of bytes, not empty, of just that
  -- size is prepared without an error, but extracting it does not give it back.
  pub verify_full :
      (b : ℕ) (bs : Bytes)
      → IsBytes (b ∷ bs)
      → length (b ∷ bs) ≡ n
      → (x : Msg) × (prepare mo (b ∷ bs) ≡ PreparedMsg.prepared x false)
        × (extract x ≢ some (b ∷ bs))
  unfolding prepare extract
  verify_full b bs v h =
      let (k, e, lost) =
        extract_msg-prepare_msg_full b bs (bit_len (get_p mo)) v
          (verify-bytes_max_size ∙ ap pos (sym h)) in
      (new_msg k, rw e refl, rw (of_bytes-to_bytes k) lost)
