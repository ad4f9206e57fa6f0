-- ===== src/Client/Steps.antt =====
-- anonbcast/client.go: `prepare`, `abort`, `submit`, `encrypt`, `scramble`, `decrypt` and `reveal`,
-- each as the operation that it adds to the queue of pending ones.
use eggscrambler.Base.{
  ℕ, suc, ◌==◌, ltb, if◌then◌else◌, not, Bool, true, false, Option, none, some, List, [], ◌∷◌, ◌++◌,
  ℤ, pos, replicate, length, get_elem?,
}
use eggscrambler.Crypto.Bytes.{Bytes, Msg, PrivateKey, msg_is_nil, key_is_nil}
use eggscrambler.Crypto.Interface.{CommutativeCrypto, PreparedMsg}
use eggscrambler.StateMachine.Types.{RoundInfo, Uuid}
use eggscrambler.StateMachine.Ops.{
  Op, join_op, message_op, encrypted_op, scrambled_op, decrypted_op, reveal_op, abort_op,
}
use eggscrambler.StateMachine.Round.{count_true}

-- The local variables of `readUpdates` that hold a client's keys for the round.
pub record Keys : Type 0 where
  pub encrypt_key : PrivateKey
  pub scramble_key : PrivateKey
  pub reveal_key : PrivateKey

-- What a helper of `readUpdates` does: it panics, does nothing, or adds an operation.
pub data Action : Type 0 where
  crash : Action
  nothing : Action
  add : Op CommutativeCrypto → Action

abbrev pub Info : Type 0
Info = RoundInfo CommutativeCrypto

-- A call of a method of `ri.Crypto`; `none` is the panic of a nil interface.
abbrev pub crypto_encrypt : Option CommutativeCrypto → PrivateKey → Msg → Option Msg
crypto_encrypt none k x = none
crypto_encrypt (some c) k x = some (c.encrypt k x)

abbrev pub crypto_decrypt : Option CommutativeCrypto → PrivateKey → Msg → Option Msg
crypto_decrypt none k x = none
crypto_decrypt (some c) k x = some (c.decrypt k x)

-- Two values, the second needed only where the first does not panic.
abbrev pub and_then {ℓ κ} : {A : Type ℓ} {B : Type κ} → Option A → (A → Option B) → Option B
and_then none f = none
and_then (some a) f = f a

-- `append` of a value to the ones that follow it, if nothing panics.
abbrev pub then_all : Option Msg → Option (List Msg) → Option (List Msg)
then_all none xs = none
then_all (some x) none = none
then_all (some x) (some xs) = some (x ∷ xs)

-- `prepare`; `me` is `none` where the code has -1.
abbrev pub prepare_step : Uuid → ℤ → Option ℕ → Action
prepare_step id round none = Action.add (join_op (record { id = id; r = round }))
prepare_step id round (some me) = Action.nothing

abbrev pub abort_step : ℤ → Action
abort_step round = Action.add (abort_op (record { r = round }))

-- `messageHeader`, with the 8 random bytes as an argument.
abbrev pub message_header : Bytes → Bytes
message_header r = replicate 8 13 ++ r

abbrev pub message_with_header : Bytes → Bytes → Bytes
message_with_header r m = message_header r ++ m

-- The loop of `encrypt`, at index `i`.
unfoldable pub encrypt_loop :
    Option CommutativeCrypto → PrivateKey → ℕ → ℕ → List Msg → Option (List Msg)
encrypt_loop c k me i [] = some []
encrypt_loop c k me i (x ∷ xs) =
    then_all (if i == me then some x else crypto_encrypt c k x) (encrypt_loop c k me (suc i) xs)

-- The loop of `scramble`: each message is encrypted with both keys.
unfoldable pub scramble_loop : Option CommutativeCrypto → Keys → List Msg → Option (List Msg)
scramble_loop c ks [] = some []
scramble_loop c ks (x ∷ xs) =
    then_all (and_then (crypto_encrypt c ks.scramble_key x) (crypto_encrypt c ks.reveal_key))
      (scramble_loop c ks xs)

-- The loop of `decrypt`.
unfoldable pub decrypt_loop : Option CommutativeCrypto → Keys → List Msg → Option (List Msg)
decrypt_loop c ks [] = some []
decrypt_loop c ks (x ∷ xs) =
    then_all (and_then (crypto_decrypt c ks.scramble_key x) (crypto_decrypt c ks.encrypt_key))
      (decrypt_loop c ks xs)

-- `c.pending.add(op)` with the messages of a loop that did not panic.
abbrev pub add_with : (List Msg → Op CommutativeCrypto) → Option (List Msg) → Action
add_with f none = Action.crash
add_with f (some xs) = Action.add (f xs)

-- A step that is taken unless its flag is set; no flag is an index out of range.
abbrev pub unless : Option Bool → Action → Action
unless none a = Action.crash
unless (some true) a = Action.nothing
unless (some false) a = a

abbrev pub encrypt_step : Uuid → ℤ → Info → ℕ → Keys → Action
encrypt_step id round ri me ks = unless (get_elem? ri.encrypted me) (
    add_with
      (λ xs.
        encrypted_op
          (record { id = id; r = round; messages = xs; prev = pos (count_true ri.encrypted) }))
      (encrypt_loop ri.crypto ks.encrypt_key me 0 ri.messages))

-- `rand.Shuffle` is an argument.
abbrev pub scramble_step : (List Msg → List Msg) → Uuid → ℤ → Info → ℕ → Keys → Action
scramble_step shuffle id round ri me ks = unless (get_elem? ri.scrambled me) (
    add_with (λ xs. scrambled_op (record { id = id; r = round; messages = shuffle xs }))
      (scramble_loop ri.crypto ks ri.messages))

abbrev pub decrypt_step : Uuid → ℤ → Info → ℕ → Keys → Action
decrypt_step id round ri me ks = unless (get_elem? ri.decrypted me) (
    add_with
      (λ xs.
        decrypted_op
          (record { id = id; r = round; messages = xs; prev = pos (count_true ri.decrypted) }))
      (decrypt_loop ri.crypto ks ri.messages))

abbrev pub reveal_step : Uuid → ℤ → Info → ℕ → Keys → Action
reveal_step id round ri me ks = elim (get_elem? ri.revealed_keys me) [
  | none ↦ Action.crash
  | some k ↦
      if key_is_nil k
      then Action.add (reveal_op (record { id = id; r = round; reveal_key = ks.reveal_key }))
      else Action.nothing
]

-- `submit`. The arguments are whether assertions are on, SHA-256, the bytes that two calls of
-- `messageHeader` draw, and the user's message; a message function that times out counts as an
-- empty message.
module _ (debug : Bool) (sum256 : Bytes → Bytes) (max_size : ℕ) where
  -- `assertf`
  abbrev pub assert : Bool → Action → Action
  assert ok a = if debug then if ok then a else Action.crash else a

  abbrev pub add_message : Uuid → ℤ → CommutativeCrypto → Keys → Msg → Action
  add_message id round c ks x = Action.add (
      message_op (record {
        id = id;
        r = round;
        message = c.encrypt ks.encrypt_key x;
        reveal_key_hash = sum256 (ks.reveal_key.e ++ ks.reveal_key.d);
      }))

  -- The empty message that is sent in place of one that is too long.
  abbrev pub submit_empty : Uuid → ℤ → CommutativeCrypto → Keys → PreparedMsg → Action
  submit_empty id round c ks PreparedMsg.msg_panic = Action.crash
  submit_empty id round c ks (PreparedMsg.prepared x err) =
      assert (not err) (add_message id round c ks x)

  abbrev pub submit_prepared :
      Uuid → ℤ → CommutativeCrypto → Keys → Bytes → Bytes → PreparedMsg → Action
  submit_prepared id round c ks r' msg PreparedMsg.msg_panic = Action.crash
  submit_prepared id round c ks r' msg (PreparedMsg.prepared x true) =
      assert (ltb max_size (length msg))
        (submit_empty id round c ks (c.prepare_msg (message_with_header r' [])))
  submit_prepared id round c ks r' msg (PreparedMsg.prepared x false) =
      assert (not (ltb max_size (length msg))) (add_message id round c ks x)

  abbrev pub submit_with :
      Uuid → ℤ → Option CommutativeCrypto → Keys → Bytes → Bytes → Bytes → Action
  submit_with id round none ks r r' msg = Action.crash
  submit_with id round (some c) ks r r' msg =
      submit_prepared id round c ks r' msg (c.prepare_msg (message_with_header r msg))

  abbrev pub submit_step : Uuid → ℤ → Info → ℕ → Keys → Bytes → Bytes → Bytes → Action
  submit_step id round ri me ks r r' msg = elim (get_elem? ri.messages me) [
    | none ↦ Action.crash
    | some x ↦ if msg_is_nil x then submit_with id round ri.crypto ks r r' msg else Action.nothing
  ]
