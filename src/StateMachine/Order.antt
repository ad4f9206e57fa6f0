-- ===== src/StateMachine/Order.antt =====
-- anonbcast/statemachine.go: what clients ask of a state machine, `MayPrecede` and
-- `GuaranteedNoEffect`.
use eggscrambler.Base.{ℕ, Bool, true, false, ◌||◌, ◌==ℤ◌, ltb, ltb_ℤ, pos, if◌then◌else◌}
use eggscrambler.StateMachine.Types.{Phase, StateMachine}
use eggscrambler.StateMachine.Ops.{Op, OpType, op_round, op_type}
use eggscrambler.StateMachine.Machine.{current_round_info}

-- The map `phaseOrder`; a missing key reads as 0.
abbrev pub phase_order : Phase → ℕ
phase_order Phase.unset = 0
phase_order Phase.prepare = 0
phase_order Phase.submit = 1
phase_order Phase.encrypt = 2
phase_order Phase.scramble = 3
phase_order Phase.decrypt = 4
phase_order Phase.reveal = 5
phase_order Phase.done = 6
phase_order Phase.failed = 7

-- Whether an operation has the given type.
abbrev pub is_join : OpType → Bool
is_join OpType.join_type = true
is_join _ = false

abbrev pub is_start : OpType → Bool
is_start OpType.start_type = true
is_start _ = false

abbrev pub is_message : OpType → Bool
is_message OpType.message_type = true
is_message _ = false

abbrev pub is_encrypted : OpType → Bool
is_encrypted OpType.encrypted_type = true
is_encrypted _ = false

abbrev pub is_scrambled : OpType → Bool
is_scrambled OpType.scrambled_type = true
is_scrambled _ = false

abbrev pub is_decrypted : OpType → Bool
is_decrypted OpType.decrypted_type = true
is_decrypted _ = false

-- The cases of the `switch` in `GuaranteedNoEffect`, each falling through to the one before it.
unfoldable pub past_submit : OpType → Bool
past_submit t = if is_join t || is_start t then true else false

unfoldable pub past_encrypt : OpType → Bool
unfolding past_submit
past_encrypt t = if is_message t then true else past_submit t

unfoldable pub past_scramble : OpType → Bool
unfolding past_encrypt
past_scramble t = if is_encrypted t then true else past_encrypt t

unfoldable pub past_decrypt : OpType → Bool
unfolding past_scramble
past_decrypt t = if is_scrambled t then true else past_scramble t

unfoldable pub past_reveal : OpType → Bool
unfolding past_decrypt
past_reveal t = if is_decrypted t then true else past_decrypt t

-- The `switch`; its `default` asserts, and falls out of the function with false.
unfoldable pub no_effect_in : Phase → OpType → Bool
unfolding past_reveal
no_effect_in Phase.reveal t = past_reveal t
no_effect_in Phase.decrypt t = past_decrypt t
no_effect_in Phase.scramble t = past_scramble t
no_effect_in Phase.encrypt t = past_encrypt t
no_effect_in Phase.submit t = past_submit t
no_effect_in _ t = false

module _ {C : Type 0} where
  unfoldable pub guaranteed_no_effect : StateMachine C → Op C → Bool
  unfolding no_effect_in
  guaranteed_no_effect sm op =
      if ltb_ℤ (op_round op) (pos sm.round)
      then true
      else if op_round op ==ℤ pos sm.round
      then no_effect_in (current_round_info sm).phase (op_type op)
      else false

  unfoldable pub may_precede : StateMachine C → StateMachine C → Bool
  may_precede sm sm2 =
      if ltb sm.round sm2.round
      then true
      else if ltb sm2.round sm.round
      then false
      else if ltb (phase_order (current_round_info sm2).phase)
          (phase_order (current_round_info sm).phase)
      then false
      else true
