-- ===== src/Client/Tests.antt =====
-- A round of two clients over the modulus 7.
use eggscrambler.Base.{ℕ, ◌≡◌, refl, List, [], ◌∷◌, some, ◌<◌, arith}
use eggscrambler.Crypto.Bytes.{Msg, PrivateKey}
use eggscrambler.MasseyOmura.Messages.{as_crypto, IsMsg, IsKey, as_crypto-CryptoLaws, new_msg}
use eggscrambler.MasseyOmura.Tests.{surely, toy, toy-Fermat}
use eggscrambler.MasseyOmura.BigInt.{of_bytes}
use eggscrambler.Client.Turns.{IsShuffle}
use eggscrambler.Client.Steps.{Keys}
use eggscrambler.Client.KeyLists.{submitted}
use eggscrambler.Client.Phases.{round_messages}
use eggscrambler.Client.Rounds.{round_messages-Perm}
use mathlib.Core.List.{Perm}
use mathlib.Core.List.Perm

abbrev five : PrivateKey
five = record { e = 5 ∷ []; d = 5 ∷ [] }

abbrev keys : Keys
keys = record { encrypt_key = five; scramble_key = five; reveal_key = five }

five-IsKey : IsKey toy five
unfolding of_bytes
five-IsKey = (4, refl)

small-IsMsg : (n : ℕ) → n < 7 → IsMsg toy (new_msg n)
unfolding of_bytes
small-IsMsg n h = (n, h, refl)

swap_two : List Msg → List Msg
swap_two (x ∷ y ∷ xs) = y ∷ x ∷ xs
swap_two xs = xs

swap_two-IsShuffle : IsShuffle swap_two
unfolding swap_two
swap_two-IsShuffle [] = Perm.refl []
swap_two-IsShuffle (x ∷ []) = Perm.refl (x ∷ [])
swap_two-IsShuffle (x ∷ y ∷ xs) = Perm.swap x y xs

abbrev two : List (Keys × Msg)
two = (keys, new_msg 2) ∷ (keys, new_msg 3) ∷ []

abbrev both_swap : List ((List Msg → List Msg) × Keys)
both_swap = (swap_two, keys) ∷ (swap_two, keys) ∷ []

round_messages-Perm_example :
    (out : List Msg) × (round_messages
        (as_crypto surely toy)
        ((1, keys) ∷ (0, keys) ∷ [])
        both_swap
        (keys ∷ keys ∷ [])
        (five ∷ five ∷ [])
        (submitted (as_crypto surely toy) two)
      ≡ some out)
    × Perm out (new_msg 2 ∷ new_msg 3 ∷ [])
round_messages-Perm_example =
    round_messages-Perm (as_crypto-CryptoLaws toy toy-Fermat surely) two
      ((1, keys) ∷ (0, keys) ∷ []) both_swap (keys ∷ keys ∷ []) (Perm.swap (0, keys) (1, keys) [])
      (swap_two-IsShuffle, (swap_two-IsShuffle, tt)) refl (Perm.refl (keys ∷ keys ∷ []))
      (five-IsKey, (five-IsKey, (five-IsKey, (five-IsKey, (five-IsKey, (five-IsKey, tt))))))
      (small-IsMsg 2 (omega arith), (small-IsMsg 3 (omega arith), tt))
