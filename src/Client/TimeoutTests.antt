-- ===== src/Client/TimeoutTests.antt =====
-- The aborter at concrete times, and the start of a round.
use eggscrambler.Base.{[], ◌∷◌, ℕ, refl, true, pos, arith}
use eggscrambler.StateMachine.Types.{StateMachine, Phase, zero_round_info}
use eggscrambler.StateMachine.Machine.{new_state_machine, current_round_info}
use eggscrambler.StateMachine.Run.{new_state_machine-MachineInv}
use eggscrambler.StateMachine.Copy.{deep_copy_machine, deep_copy, copy_loop, copy_min}
use eggscrambler.StateMachine.CheckRep.{check_rep_machine}
use eggscrambler.StateMachine.Checked.{deep_copy_checked}
use eggscrambler.Client.LastUpdate.{LastStateMachine}
use eggscrambler.Client.Aborter.{Timeouts, aborter_turn}
use eggscrambler.Client.Timeouts.{deadline, IsTimely, aborter_turn-IsTimely}

abbrev timeouts : Timeouts
timeouts = record { message_timeout = 30; protocol_timeout = 10 }

abbrev first : StateMachine ℕ
first = new_state_machine

abbrev quiet : LastStateMachine ℕ
quiet = record { sm = first; version = pos 3; timestamp = 5; phase_timestamp = 2 }

aborter_turn-IsTimely_example :
    IsTimely 10 first.round
      (deadline timeouts quiet (current_round_info first).phase)
      16
      (aborter_turn true timeouts 16 quiet)
unfolding new_state_machine check_rep_machine deep_copy_checked deep_copy_machine deep_copy
    copy_loop copy_min
aborter_turn-IsTimely_example =
    aborter_turn-IsTimely true timeouts 16 quiet first new_state_machine-MachineInv refl
      (omega arith) (omega arith)

abbrev joined : StateMachine ℕ
joined = record {
  round = 0;
  rounds = record {
    slot0 = record zero_round_info { phase = Phase.prepare; participants = 4 ∷ [] };
    slot1 = zero_round_info;
    slot2 = zero_round_info;
  };
}
