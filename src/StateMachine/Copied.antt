-- ===== src/StateMachine/Copied.antt =====
-- What the deep copies of anonbcast/statemachine.go keep, whether or not they are equal copies.
use eggscrambler.Base.{◌≡◌, some, arith}
use eggscrambler.StateMachine.Types.{StateMachine, RoundInfo, slot}
use eggscrambler.StateMachine.Machine.{current_round_info}
use eggscrambler.StateMachine.Slots.{current_round_info-eq_slot}
use eggscrambler.StateMachine.Copy.{deep_copy, deep_copy_machine}

module _ {C : Type 0} where
  deep_copy-phase : (ri r : RoundInfo C) → deep_copy ri ≡ some r → r.phase ≡ ri.phase
  unfolding deep_copy
  deep_copy-phase ri r h = ground arith

  pub deep_copy_machine-current :
      (sm q : StateMachine C)
      → deep_copy_machine sm ≡ some q
      → (q.round ≡ sm.round) × ((current_round_info q).phase ≡ (current_round_info sm).phase)
  unfolding deep_copy_machine slot
  deep_copy_machine-current sm q h = ground (
    arith,
    current_round_info-eq_slot sm,
    current_round_info-eq_slot q,
    deep_copy-phase sm.rounds.slot0 q.rounds.slot0,
    deep_copy-phase sm.rounds.slot1 q.rounds.slot1,
    deep_copy-phase sm.rounds.slot2 q.rounds.slot2,
  )
