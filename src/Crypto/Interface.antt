-- ===== src/Crypto/Interface.antt =====
-- anonbcast/crypto.go: the interface `CommutativeCrypto`, as its operations and as the laws that the
-- protocol relies on.
use eggscrambler.Base.{ℕ, ◌≡◌, Bool, Option}
use eggscrambler.Crypto.Bytes.{Bytes, Msg, PrivateKey}

-- What `PrepareMsg` returns: a message and whether there is an error, or a panic.
pub data PreparedMsg : Type 0 where
  msg_panic : PreparedMsg
  prepared : Msg → Bool → PreparedMsg

-- The operations on messages; `none` is a panic of `ExtractMsg`, and `verify` tells whether the error
-- of `Verify` is nil. `GenKey` draws random numbers: its results are an argument of its users.
pub record CommutativeCrypto : Type 0 where
  pub prepare_msg : Bytes → PreparedMsg
  pub encrypt : PrivateKey → Msg → Msg
  pub decrypt : PrivateKey → Msg → Msg
  pub extract_msg : Msg → Option Bytes
  pub verify : ℕ → Bool

-- The laws, for the keys that are in order and the messages in range.
pub record CryptoLaws (c : CommutativeCrypto) (IsKey : PrivateKey → Type 0) (IsMsg : Msg → Type 0)
    : Type 0 where
  pub encrypt_swap :
      (k k' : PrivateKey) (x : Msg) → c.encrypt k (c.encrypt k' x) ≡ c.encrypt k' (c.encrypt k x)
  pub decrypt_swap :
      (k k' : PrivateKey) (x : Msg) → c.decrypt k (c.decrypt k' x) ≡ c.decrypt k' (c.decrypt k x)
  pub decrypt_encrypt_swap :
      (k k' : PrivateKey) (x : Msg) → c.decrypt k (c.encrypt k' x) ≡ c.encrypt k' (c.decrypt k x)
  pub encrypt_in_range : (k : PrivateKey) (x : Msg) → IsMsg (c.encrypt k x)
  pub decrypt_undoes :
      (k : PrivateKey) (x : Msg) → IsKey k → IsMsg x → c.decrypt k (c.encrypt k x) ≡ x
