-- ===== src/ElGamal/Padding.antt =====
-- elgamal/encrypt.go: `PrepareMsg`, `ExtractMsg`, `pad` and `unpad`.
use eggscrambler.Base.{
  ℕ, ◌+◌, ◌-◌, ◌/◌, ◌≡◌, ◌==◌, ltb, if◌then◌else◌, Option, none, some, ◌∷◌, ◌++◌, ℤ, pos, negsuc,
  length, replicate, arith, ◌⊎◌, ◌↔◌,
}
use eggscrambler.Crypto.Bytes.{Bytes}
use eggscrambler.MasseyOmura.BigInt.{to_bytes}
use eggscrambler.MasseyOmura.Padding.{Prepared, too_long, pad_panic, number_of, un_pad}

-- `(plen+7)/8 - 2`
abbrev pub max_size : ℕ → ℤ
max_size plen = let q = (plen + 7) / 8 in if ltb q 2 then negsuc (1 - q) else pos (q - 2)

-- `pad`: `none` is a panic. The slice has one byte less than `target`; for the zero before a message of
-- `target - 1` bytes the index is -1.
unfoldable pub pad : Bytes → ℕ → Option Bytes
pad msg target =
    if ltb target (length msg)
    then none
    else if length msg == target
    then none
    else if length msg + 1 == target
    then none
    else some (replicate (target - 2 - length msg) 1 ++ 0 ∷ msg)

-- The test of `PrepareMsg`, then `pad`.
abbrev pub prepare_sized : Bytes → ℤ → Prepared
prepare_sized msg (pos n) = if ltb n (length msg) then too_long else number_of (pad msg n)
prepare_sized msg (negsuc n) = too_long

unfoldable pub prepare_msg : Bytes → ℕ → Prepared
prepare_msg msg plen = prepare_sized msg (max_size plen)

-- `ExtractMsg`; `unpad` is as in masseyomura/encrypt.go.
abbrev pub extract_msg : ℕ → Option Bytes
extract_msg d = un_pad (to_bytes d)

-- `PrepareMsg` panics exactly for the messages of the maximal size for the key, which pass its test,
-- and for those with one byte less.
pub prepare_msg_panics :
    (msg : Bytes) (plen : ℕ)
    → (prepare_msg msg plen ≡ pad_panic)
      ↔ ((pos (length msg) ≡ max_size plen) ⊎ (pos (length msg + 1) ≡ max_size plen))
unfolding prepare_msg pad
prepare_msg_panics msg plen = ((λ h. ground arith), (λ h. ground arith))
