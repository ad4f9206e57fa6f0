-- ===== src/StateMachine/Oversized.antt =====
-- What `DeepCopy` does to the states that `Apply` accepts: the server copies its state machine after
-- each operation that had an effect.
use eggscrambler.Base.{
  ℕ, ◌<◌, ◌≡◌, true, Option, none, some, List, arith, inl, inr, Bool-cases, length, pos, ◌==ℤ◌,
}
use eggscrambler.Crypto.Bytes.{Msg}
use eggscrambler.StateMachine.Types.{RoundInfo, StateMachine, slot}
use eggscrambler.StateMachine.Ops.{
  Op, op_round, join_op, start_op, message_op, encrypted_op, scrambled_op, decrypted_op, reveal_op,
  abort_op,
}
use eggscrambler.StateMachine.Round.{Outcome, panic, ignored, updated, ended}
use eggscrambler.StateMachine.Handlers.{dispatch, encrypted, scrambled, decrypted}
use eggscrambler.StateMachine.Invariant.{Good, dispatch-Good}
use eggscrambler.StateMachine.Machine.{apply, commit, put_current, current_round_info}
use eggscrambler.StateMachine.Slots.{slot-put_slot}
use eggscrambler.StateMachine.Run.{MachineInv, current-Inv}
use eggscrambler.StateMachine.Copy.{deep_copy, deep_copy_machine, deep_copy_panics}

module _ {C : Type 0} where
  -- The messages that replace those of the round.
  abbrev pub op_messages : Op C → Option (List Msg)
  op_messages (encrypted_op op) = some op.messages
  op_messages (scrambled_op op) = some op.messages
  op_messages (decrypted_op op) = some op.messages
  op_messages _ = none

  abbrev Replaces : RoundInfo C → List Msg → Outcome C → Type 0
  Replaces ri ms (updated ri') = (ri'.messages ≡ ms) × (ri'.participants ≡ ri.participants)
  Replaces ri ms (ended ri') = ⊥
  Replaces ri ms _ = Unit

  dispatch-Replaces :
      (ri : RoundInfo C) (op : Op C) (ms : List Msg)
      → op_messages op ≡ some ms
      → Replaces ri ms (dispatch ri op)
  unfolding dispatch encrypted scrambled decrypted
  dispatch-Replaces ri (encrypted_op op) ms h = ground arith
  dispatch-Replaces ri (scrambled_op op) ms h = ground arith
  dispatch-Replaces ri (decrypted_op op) ms h = ground arith
  dispatch-Replaces ri (join_op op) ms h = ground arith
  dispatch-Replaces ri (start_op op) ms h = ground arith
  dispatch-Replaces ri (message_op op) ms h = ground arith
  dispatch-Replaces ri (reveal_op op) ms h = ground arith
  dispatch-Replaces ri (abort_op op) ms h = ground arith

  deep_copy_machine-slot :
      (sm : StateMachine C) (r : ℕ)
      → deep_copy (slot sm.rounds r) ≡ none
      → deep_copy_machine sm ≡ none
  unfolding deep_copy_machine slot
  deep_copy_machine-slot sm r h = ground arith

  commit_oversized :
      (sm sm' : StateMachine C) (o : Outcome C) (ms : List Msg)
      → Good o
      → Replaces (current_round_info sm) ms o
      → commit sm o ≡ some (sm', true)
      → length (current_round_info sm).participants < length ms
      → deep_copy_machine sm' ≡ none
  unfolding commit put_current
  commit_oversized sm sm' panic ms g p e l = ground arith
  commit_oversized sm sm' ignored ms g p e l = ground arith
  commit_oversized sm sm' (ended ri) ms g p e l = absurd p
  commit_oversized sm sm' (updated ri) ms g p e l =
      let q : put_current sm ri ≡ sm' = ground arith in
      let s : slot (put_current sm ri).rounds sm.round ≡ ri =
        ground (arith, slot-put_slot sm.rounds sm.round ri sm.round) in
      let c : deep_copy ri ≡ none = deep_copy_panics ri g.0 (rw (p.0, p.1) l) in
      rw (← q) (deep_copy_machine-slot (put_current sm ri) sm.round (rw s c))

  -- A participant whose operation carries more messages than there are participants is not turned
  -- away: once the operation is accepted, the copy that every server then makes panics.
  pub apply_oversized :
      (sm sm' : StateMachine C) (op : Op C) (ms : List Msg)
      → MachineInv sm
      → op_messages op ≡ some ms
      → length (current_round_info sm).participants < length ms
      → apply sm op ≡ some (sm', true)
      → deep_copy_machine sm' ≡ none
  unfolding apply
  apply_oversized sm sm' op ms v h l e = elim (Bool-cases (op_round op ==ℤ pos sm.round)) [
    | inl f ↦
        commit_oversized sm sm' _ ms (dispatch-Good (current_round_info sm) (current-Inv sm v) op)
          (dispatch-Replaces (current_round_info sm) op ms h) (rw f at e) l
    | inr f ↦ ground arith
  ]
