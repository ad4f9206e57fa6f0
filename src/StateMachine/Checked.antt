-- ===== src/StateMachine/Checked.antt =====
-- anonbcast/statemachine.go: `Apply` and `DeepCopy` with the calls of `checkRep` in them, which panic
-- on a violation if the program runs with assertions (`DEBUG`).
use eggscrambler.Base.{Bool, true, ◌&&◌, if◌then◌else◌, Option, none, some, List, [], ◌∷◌}
use eggscrambler.StateMachine.Types.{StateMachine, zero_round_info}
use eggscrambler.StateMachine.Ops.{Op}
use eggscrambler.StateMachine.Machine.{apply}
use eggscrambler.StateMachine.CheckRep.{check_rep_machine}
use eggscrambler.StateMachine.Copy.{deep_copy_machine}

module _ {C : Type 0} (debug : Bool) where
  -- Whether `checkRep` returns.
  abbrev pub passes_check : StateMachine C → Bool
  passes_check sm = if debug then check_rep_machine sm else true

  -- `Apply`, with `checkRep` on entry and on return; `none` is a panic, here and below.
  unfoldable pub apply_checked : StateMachine C → Op C → Option (StateMachine C × Bool)
  apply_checked sm op =
      if passes_check sm
      then elim (apply sm op) [
        | none ↦ none
        | some (sm', b) ↦ if passes_check sm' then some (sm', b) else none
      ]
      else none

  unfoldable pub run_checked : StateMachine C → List (Op C) → Option (StateMachine C)
  run_checked sm [] = some sm
  run_checked sm (op ∷ ops) = elim (apply_checked sm op) [
    | none ↦ none
    | some (sm', _) ↦ run_checked sm' ops
  ]

  -- The copy before the rounds are filled in.
  abbrev pub empty_copy : StateMachine C → StateMachine C
  empty_copy sm = record {
    round = sm.round;
    rounds = record { slot0 = zero_round_info; slot1 = zero_round_info; slot2 = zero_round_info };
  }

  -- `DeepCopy`, with `checkRep` of the state and of the copy, on entry and on return.
  unfoldable pub deep_copy_checked : StateMachine C → Option (StateMachine C)
  deep_copy_checked sm =
      if passes_check sm && passes_check (empty_copy sm)
      then elim (deep_copy_machine sm) [
        | none ↦ none
        | some copy ↦ if passes_check copy && passes_check sm then some copy else none
      ]
      else none
