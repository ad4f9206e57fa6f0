-- ===== src/Crypto/Layers.antt =====
-- Several layers of encryption on one message, and taking them off again.
use eggscrambler.Base.{◌≡◌, refl, ap, ◌∙◌, List, [], ◌∷◌, loop, loop_step, loop-perm}
use eggscrambler.Crypto.Bytes.{Msg, PrivateKey}
use eggscrambler.Crypto.Interface.{CommutativeCrypto, CryptoLaws}
use mathlib.Core.List.{Perm}

pub Msg_set : IsSet Msg
Msg_set = hlevel

module _ (c : CommutativeCrypto) where
  abbrev pub encrypt_all : List PrivateKey → Msg → Msg
  encrypt_all ks x = loop (c.encrypt) ks x

  -- `om = ri.Crypto.Decrypt(revealKey, om)` for all keys.
  abbrev pub decrypt_all : List PrivateKey → Msg → Msg
  decrypt_all ks x = loop (c.decrypt) ks x

module _ {c : CommutativeCrypto} {IsKey : PrivateKey → Type 0} {IsMsg : Msg → Type 0}
    (laws : CryptoLaws c IsKey IsMsg) where
  abbrev pub AllKeys : List PrivateKey → Type 0
  AllKeys [] = Unit
  AllKeys (k ∷ ks) = IsKey k × AllKeys ks

  -- A layer with the key `k` comes off whatever layers lie over it.
  decrypt-encrypt_all :
      (k : PrivateKey) (ks : List PrivateKey) (x : Msg)
      → IsKey k
      → IsMsg x
      → c.decrypt k (encrypt_all c ks (c.encrypt k x)) ≡ encrypt_all c ks x
  decrypt-encrypt_all k ks x h m =
      ap (c.decrypt k) (loop_step Msg_set (c.encrypt) (laws.encrypt_swap) ks k x)
      ∙ laws.decrypt_undoes k (encrypt_all c ks x) h (in_range ks x m)
    where
      in_range : (ks : List PrivateKey) (x : Msg) → IsMsg x → IsMsg (encrypt_all c ks x)
      in_range [] x m = m
      in_range (k ∷ ks) x m = in_range ks (c.encrypt k x) (laws.encrypt_in_range k x)

  same_order :
      (ks : List PrivateKey) (x : Msg)
      → AllKeys ks
      → IsMsg x
      → decrypt_all c ks (encrypt_all c ks x) ≡ x
  same_order [] x h m = refl
  same_order (k ∷ ks) x h m =
      ap (decrypt_all c ks) (decrypt-encrypt_all k ks x h.0 m) ∙ same_order ks x h.1 m

  -- For a cipher that obeys the laws of a commutative cipher, layers of encryption with keys in
  -- order come off a message in range by decrypting with the same keys in any order.
  pub decrypt_all-encrypt_all :
      (ks ks' : List PrivateKey) (x : Msg)
      → Perm ks' ks
      → AllKeys ks
      → IsMsg x
      → decrypt_all c ks' (encrypt_all c ks x) ≡ x
  decrypt_all-encrypt_all ks ks' x p h m =
      loop-perm Msg_set (c.decrypt) (laws.decrypt_swap) p (encrypt_all c ks x) ∙ same_order ks x h m
