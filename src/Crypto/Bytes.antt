-- ===== src/Crypto/Bytes.antt =====
-- anonbcast/crypto.go: `Msg` and `PrivateKey`, whose contents are byte slices. A byte slice is a
-- list of numbers; Go's nil slice and the empty slice are both `[]`, as `Nil` treats them alike.
use eggscrambler.Base.{ℕ, Bool, true, false, List, [], ◌∷◌}

abbrev pub Bytes : Type 0
Bytes = List ℕ

-- `len(b) == 0`
abbrev pub is_empty {ℓ} : {A : Type ℓ} → List A → Bool
is_empty [] = true
is_empty (x ∷ xs) = false

pub record Msg : Type 0 where
  pub m : Bytes

pub record PrivateKey : Type 0 where
  pub e : Bytes
  pub d : Bytes

-- The methods `Nil` of `Msg` and of `PrivateKey`.
abbrev pub msg_is_nil : Msg → Bool
msg_is_nil x = is_empty x.m

abbrev pub key_is_nil : PrivateKey → Bool
key_is_nil k = is_empty k.e

abbrev pub nil_msg : Msg
nil_msg = record { m = [] }

abbrev pub nil_private_key : PrivateKey
nil_private_key = record { e = []; d = [] }
