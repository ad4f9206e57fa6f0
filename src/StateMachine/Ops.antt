-- ===== src/StateMachine/Ops.antt =====
-- anonbcast/op.go: the operations that clients submit.
use eggscrambler.Base.{ℤ, Option, List}
use eggscrambler.Crypto.Bytes.{Bytes, Msg, PrivateKey}
use eggscrambler.StateMachine.Types.{Uuid}

pub data OpType : Type 0 where
  join_type start_type message_type encrypted_type scrambled_type : OpType
  decrypted_type reveal_type abort_type : OpType

pub record JoinOp : Type 0 where
  pub id : Uuid
  pub r : ℤ

pub record StartOp (C : Type 0) : Type 0 where
  pub id : Uuid
  pub r : ℤ
  pub crypto : Option C

pub record MessageOp : Type 0 where
  pub id : Uuid
  pub r : ℤ
  pub message : Msg
  pub reveal_key_hash : Bytes

pub record EncryptedOp : Type 0 where
  pub id : Uuid
  pub r : ℤ
  pub messages : List Msg
  pub prev : ℤ

pub record ScrambledOp : Type 0 where
  pub id : Uuid
  pub r : ℤ
  pub messages : List Msg

pub record DecryptedOp : Type 0 where
  pub id : Uuid
  pub r : ℤ
  pub messages : List Msg
  pub prev : ℤ

pub record RevealOp : Type 0 where
  pub id : Uuid
  pub r : ℤ
  pub reveal_key : PrivateKey

pub record AbortOp : Type 0 where
  pub r : ℤ

-- The interface `Op`, by its implementations.
pub data Op (C : Type 0) : Type 0 where
  join_op : JoinOp → Op C
  start_op : StartOp C → Op C
  message_op : MessageOp → Op C
  encrypted_op : EncryptedOp → Op C
  scrambled_op : ScrambledOp → Op C
  decrypted_op : DecryptedOp → Op C
  reveal_op : RevealOp → Op C
  abort_op : AbortOp → Op C

module _ {C : Type 0} where
  -- The methods `Type` and `Round`.
  abbrev pub op_type : Op C → OpType
  op_type (join_op o) = OpType.join_type
  op_type (start_op o) = OpType.start_type
  op_type (message_op o) = OpType.message_type
  op_type (encrypted_op o) = OpType.encrypted_type
  op_type (scrambled_op o) = OpType.scrambled_type
  op_type (decrypted_op o) = OpType.decrypted_type
  op_type (reveal_op o) = OpType.reveal_type
  op_type (abort_op o) = OpType.abort_type

  abbrev pub op_round : Op C → ℤ
  op_round (join_op o) = o.r
  op_round (start_op o) = o.r
  op_round (message_op o) = o.r
  op_round (encrypted_op o) = o.r
  op_round (scrambled_op o) = o.r
  op_round (decrypted_op o) = o.r
  op_round (reveal_op o) = o.r
  op_round (abort_op o) = o.r
