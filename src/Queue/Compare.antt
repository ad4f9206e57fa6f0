-- ===== src/Queue/Compare.antt =====
-- anonbcast/eliminationqueue.go: `compare`, from old to new operations.
use eggscrambler.Base.{ℕ, ◌==◌, ltb, ltb_ℤ, if◌then◌else◌}
use eggscrambler.StateMachine.Ops.{Op, OpType, op_round, op_type, encrypted_op, decrypted_op}

pub data OpComparison : Type 0 where
  newer older equal incomparable : OpComparison

-- `opIndex`, whose `default` no operation reaches.
abbrev pub type_index : OpType → ℕ
type_index OpType.join_type = 0
type_index OpType.start_type = 1
type_index OpType.message_type = 2
type_index OpType.encrypted_type = 3
type_index OpType.scrambled_type = 4
type_index OpType.decrypted_type = 5
type_index OpType.reveal_type = 6
type_index OpType.abort_type = 7

-- `a.Type() == b.Type()`, and what follows it.
abbrev pub same_type : OpType → OpType → OpComparison
same_type a b = if type_index a == type_index b then equal else incomparable

module _ {C : Type 0} where
  abbrev pub op_index : Op C → ℕ
  op_index op = type_index (op_type op)

  -- The `switch` on the types of `a` and `b`, which are the same here.
  unfoldable pub compare_prev : Op C → Op C → OpComparison
  compare_prev (encrypted_op a) (encrypted_op b) =
      if ltb_ℤ a.prev b.prev then older else if ltb_ℤ b.prev a.prev then newer else equal
  compare_prev (decrypted_op a) (decrypted_op b) =
      if ltb_ℤ a.prev b.prev then older else if ltb_ℤ b.prev a.prev then newer else equal
  compare_prev a b = same_type (op_type a) (op_type b)

  unfoldable pub compare : Op C → Op C → OpComparison
  unfolding compare_prev
  compare a b =
      if ltb_ℤ (op_round a) (op_round b)
      then older
      else if ltb_ℤ (op_round b) (op_round a)
      then newer
      else if ltb (op_index a) (op_index b)
      then older
      else if ltb (op_index b) (op_index a)
      then newer
      else compare_prev a b
