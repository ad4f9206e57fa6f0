-- ===== src/Client/KeyLists.antt =====
-- The keys of the clients of a round, in the orders in which the phases use them.
use eggscrambler.Base.{ℕ, suc, List, [], ◌∷◌, ◌++◌}
use eggscrambler.Crypto.Bytes.{Msg, PrivateKey}
use eggscrambler.Crypto.Interface.{CommutativeCrypto}
use eggscrambler.Client.Steps.{Keys}
use mathlib.Core.List.{Perm, perm_middle}
use mathlib.Core.List.Perm

-- The clients with their places among the participants.
abbrev pub enumerate : ℕ → List Keys → List (ℕ × Keys)
enumerate i [] = []
enumerate i (ks ∷ rest) = (i, ks) ∷ enumerate (suc i) rest

-- The messages as `submit` sends them.
abbrev pub submitted : CommutativeCrypto → List (Keys × Msg) → List Msg
submitted c [] = []
submitted c ((ks, x) ∷ ps) = c.encrypt ks.encrypt_key x ∷ submitted c ps

abbrev pub keys_of : List (Keys × Msg) → List Keys
keys_of [] = []
keys_of ((ks, x) ∷ ps) = ks ∷ keys_of ps

abbrev pub plain_of : List (Keys × Msg) → List Msg
plain_of [] = []
plain_of ((ks, x) ∷ ps) = x ∷ plain_of ps

abbrev pub encrypt_keys : List Keys → List PrivateKey
encrypt_keys [] = []
encrypt_keys (ks ∷ rest) = ks.encrypt_key ∷ encrypt_keys rest

abbrev pub reveal_keys : List Keys → List PrivateKey
reveal_keys [] = []
reveal_keys (ks ∷ rest) = ks.reveal_key ∷ reveal_keys rest

-- The keys of all scrambles, and of all decryptions, in order.
abbrev pub scramble_keys : List Keys → List PrivateKey
scramble_keys [] = []
scramble_keys (ks ∷ rest) = ks.scramble_key ∷ ks.reveal_key ∷ scramble_keys rest

abbrev pub decrypt_keys : List Keys → List PrivateKey
decrypt_keys [] = []
decrypt_keys (ks ∷ rest) = ks.scramble_key ∷ ks.encrypt_key ∷ decrypt_keys rest

-- Every layer that the phases put on is taken off once.
pub keys_balance :
    (l : List Keys) → Perm (decrypt_keys l ++ reveal_keys l) (encrypt_keys l ++ scramble_keys l)
keys_balance [] = Perm.refl []
keys_balance (ks ∷ l) =
    let e = ks.encrypt_key in
    let s = ks.scramble_key in
    let r = ks.reveal_key in
    let rest = encrypt_keys l ++ scramble_keys l in
    let left : Perm (s ∷ e ∷ (decrypt_keys l ++ r ∷ reveal_keys l)) (s ∷ e ∷ r ∷ rest) =
      Perm.cons s (
        Perm.cons e (
          Perm.trans (perm_middle (decrypt_keys l) (reveal_keys l))
            (Perm.cons r (keys_balance l)))) in
    let right : Perm (e ∷ (encrypt_keys l ++ s ∷ r ∷ scramble_keys l)) (e ∷ s ∷ r ∷ rest) =
      Perm.cons e (
        Perm.trans (perm_middle (encrypt_keys l) (r ∷ scramble_keys l))
          (Perm.cons s (perm_middle (encrypt_keys l) (scramble_keys l)))) in
    Perm.trans left (Perm.trans (Perm.swap e s (r ∷ rest)) (Perm.symm right))
