-- ===== src/StateMachine/Machine.antt =====
-- anonbcast/statemachine.go: the methods of `StateMachine`.
use eggscrambler.Base.{
  ℕ, ◌+◌, Bool, true, false, Option, none, some, ◌==ℤ◌, ltb, leb, ℤ, pos, negsuc, if◌then◌else◌,
}
use eggscrambler.StateMachine.Types.{
  Phase, RoundInfo, StateMachine, zero_round_info, slot, put_slot, num_rounds_persisted,
}
use eggscrambler.StateMachine.Ops.{Op, op_round}
use eggscrambler.StateMachine.Round.{Outcome, panic, ignored, updated, ended}
use eggscrambler.StateMachine.Handlers.{dispatch}

-- What `GetRoundInfo` returns; its three errors are told apart by their order in the code.
pub data Lookup (C : Type 0) : Type 0 where
  from_future negative too_old : Lookup C
  found : RoundInfo C → Lookup C

module _ {C : Type 0} where
  -- `round <= sm.Round - NumRoundsPersisted`, over the integers, is `round + 3 <= sm.Round`.
  get_round_at : StateMachine C → ℕ → Lookup C
  get_round_at sm r =
      if ltb sm.round r
      then from_future
      else if leb (r + num_rounds_persisted) sm.round
      then too_old
      else found (slot sm.rounds r)

  unfoldable pub get_round_info : StateMachine C → ℤ → Lookup C
  unfolding get_round_at
  get_round_info sm (pos r) = get_round_at sm r
  get_round_info sm (negsuc r) = negative

  -- The assertion that the lookup succeeds is `get_round_info-current`; where it fails the code goes
  -- on with the zero value that came with the error.
  unfoldable pub current_round_info : StateMachine C → RoundInfo C
  unfolding get_round_info
  current_round_info sm = elim (get_round_info sm (pos sm.round)) [
    | found ri ↦ ri
    | _ ↦ zero_round_info
  ]

  unfoldable pub init_round : StateMachine C → ℕ → StateMachine C
  init_round sm r = record sm {
    rounds = put_slot sm.rounds r (record zero_round_info { phase = Phase.prepare });
  }

  unfoldable pub new_state_machine : StateMachine C
  unfolding init_round put_slot
  new_state_machine =
      init_round
        (record {
          round = 0;
          rounds = record {
            slot0 = zero_round_info;
            slot1 = zero_round_info;
            slot2 = zero_round_info;
          };
        })
        0

  -- The pointer `ri` of a handler aliases the slot of the round that was current when it began.
  unfoldable pub put_current : StateMachine C → RoundInfo C → StateMachine C
  put_current sm ri = record sm { rounds = put_slot sm.rounds sm.round ri }

  -- `sm.Round++; sm.initRound(sm.Round)`
  unfoldable pub next_round : StateMachine C → StateMachine C
  unfolding init_round
  next_round sm = init_round (record sm { round = sm.round + 1 }) (sm.round + 1)

  unfoldable pub commit : StateMachine C → Outcome C → Option (StateMachine C × Bool)
  commit sm panic = none
  commit sm ignored = some (sm, false)
  commit sm (updated ri) = some (put_current sm ri, true)
  commit sm (ended ri) = some (next_round (put_current sm ri), true)

  -- `Apply` with the assertions of `checkRep` off, which stand in `apply_checked`: the new state and
  -- what the call returns; `none` is a panic.
  unfoldable pub apply : StateMachine C → Op C → Option (StateMachine C × Bool)
  apply sm op =
      if op_round op ==ℤ pos sm.round
      then commit sm (dispatch (current_round_info sm) op)
      else some (sm, false)
