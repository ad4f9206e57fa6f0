-- ===== src/StateMachine/Run.antt =====
-- The state machine over a whole log: what `Server.applier` does with the committed operations.
use eggscrambler.Base.{
  ℕ, ◌+◌, ◌<◌, ◌≡◌, refl, Bool, true, false, Option, none, some, arith, pos, List, [], ◌∷◌, inl,
  inr, Bool-cases, ◌==ℤ◌,
}
use eggscrambler.StateMachine.Types.{
  RoundInfo, StateMachine, slot, put_slot, Phase, zero_round_info,
}
use eggscrambler.StateMachine.Ops.{Op, op_round}
use eggscrambler.StateMachine.Round.{Outcome, panic, ignored, updated, ended, count_true}
use eggscrambler.StateMachine.Machine.{
  apply, commit, put_current, next_round, new_state_machine, current_round_info,
}
use eggscrambler.StateMachine.Slots.{slot-put_slot, current_round_info-eq_slot}
use eggscrambler.StateMachine.Invariant.{Inv, IsOpen, IsClosed, Good, dispatch-Good}

module _ {C : Type 0} where
  -- The operations of a log, in order, with the assertions of `checkRep` off.
  unfoldable pub run : StateMachine C → List (Op C) → Option (StateMachine C)
  run sm [] = some sm
  run sm (op ∷ ops) = elim (apply sm op) [ none ↦ none | some (sm', _) ↦ run sm' ops ]

  pub record MachineInv (sm : StateMachine C) : Type 0 where
    pub rounds_Inv : (r : ℕ) → Inv (slot sm.rounds r)
    pub current_IsOpen : IsOpen (slot sm.rounds sm.round).phase
    pub past_IsClosed :
        (r : ℕ) → r < sm.round → sm.round < r + 3 → IsClosed (slot sm.rounds r).phase

  pub fresh-Inv : Inv {C = C} (record zero_round_info { phase = Phase.prepare })
  unfolding count_true
  fresh-Inv = ground arith

  pub zero-Inv : Inv {C = C} zero_round_info
  unfolding count_true
  zero-Inv = ground arith

  pub new_state_machine-MachineInv : MachineInv new_state_machine
  unfolding new_state_machine slot
  new_state_machine-MachineInv = record {
    rounds_Inv = λ r. ground (arith, fresh-Inv, zero-Inv);
    current_IsOpen = tt;
    past_IsClosed = λ r h k. absurd (omega arith);
  }

  module _ (sm : StateMachine C) (v : MachineInv sm) where
    put_current-MachineInv :
        (ri : RoundInfo C) → Inv ri → IsOpen ri.phase → MachineInv (put_current sm ri)
    unfolding put_current
    put_current-MachineInv ri i o = record {
      rounds_Inv = λ r. ground (arith, slot-put_slot sm.rounds sm.round ri r, v.rounds_Inv r);
      current_IsOpen = ground (arith, slot-put_slot sm.rounds sm.round ri sm.round);
      past_IsClosed =
          λ r h k. ground (arith, slot-put_slot sm.rounds sm.round ri r, v.past_IsClosed r h k);
    }

    next_round-MachineInv :
        (ri : RoundInfo C)
        → Inv ri
        → IsClosed ri.phase
        → MachineInv (next_round (put_current sm ri))
    unfolding put_current next_round
    next_round-MachineInv ri i c = record {
      rounds_Inv = λ r. ground (
        arith,
        slot-put_slot sm.rounds sm.round ri r,
        slot-put_slot (put_slot sm.rounds sm.round ri) (sm.round + 1)
            (record zero_round_info { phase = Phase.prepare }) r,
        fresh-Inv,
        v.rounds_Inv r,
      );
      current_IsOpen = ground (
        arith,
        slot-put_slot (put_slot sm.rounds sm.round ri) (sm.round + 1)
            (record zero_round_info { phase = Phase.prepare }) (sm.round + 1),
      );
      past_IsClosed = λ r h k. ground (
        arith,
        slot-put_slot sm.rounds sm.round ri r,
        slot-put_slot (put_slot sm.rounds sm.round ri) (sm.round + 1)
            (record zero_round_info { phase = Phase.prepare }) r,
        v.past_IsClosed r,
      );
    }

    commit-MachineInv :
        (o : Outcome C)
        → Good o
        → (sm' : StateMachine C) × (b : Bool) × (commit sm o ≡ some (sm', b)) × MachineInv sm'
    unfolding commit
    commit-MachineInv panic g = absurd g
    commit-MachineInv ignored g = (sm, false, refl, v)
    commit-MachineInv (updated ri) g =
        (put_current sm ri, true, refl, put_current-MachineInv ri g.0 g.1)
    commit-MachineInv (ended ri) g =
        (next_round (put_current sm ri), true, refl, next_round-MachineInv ri g.0 g.1)

    pub current-Inv : Inv (current_round_info sm)
    current-Inv = rw current_round_info-eq_slot (v.rounds_Inv sm.round)

    pub current-IsOpen : IsOpen (current_round_info sm).phase
    current-IsOpen = rw current_round_info-eq_slot v.current_IsOpen

    -- With the assertions of `checkRep` off, `Apply` never panics on a machine in order, and leaves it
    -- in order.
    pub apply-MachineInv :
        (op : Op C)
        → (sm' : StateMachine C) × (b : Bool) × (apply sm op ≡ some (sm', b)) × MachineInv sm'
    unfolding apply
    apply-MachineInv op = elim (Bool-cases (op_round op ==ℤ pos sm.round)) [
      | inl e ↦ rw e (commit-MachineInv _ (dispatch-Good _ current-Inv op))
      | inr e ↦ rw e (sm, false, refl, v)
    ]

  pub run-MachineInv :
      (sm : StateMachine C) (ops : List (Op C))
      → MachineInv sm
      → (sm' : StateMachine C) × (run sm ops ≡ some sm') × MachineInv sm'
  unfolding run
  run-MachineInv sm [] v = (sm, refl, v)
  run-MachineInv sm (op ∷ ops) v =
      let (sm1, b, e, v1) = apply-MachineInv sm v op in
      let (sm2, e2, v2) = run-MachineInv sm1 ops v1 in (sm2, rw (e, run) e2, v2)

  pub MachineInv-run :
      (sm sm' : StateMachine C) (ops : List (Op C))
      → MachineInv sm
      → run sm ops ≡ some sm'
      → MachineInv sm'
  MachineInv-run sm sm' ops v e =
      let (sm2, e2, v2) = run-MachineInv sm ops v in let q : sm2 ≡ sm' = cc in rw (← q) v2

  -- With the assertions of `checkRep` off, a new state machine never panics whatever operations are
  -- committed, and the state reached is in order.
  pub run-new_state_machine :
      (ops : List (Op C))
      → (sm : StateMachine C) × (run new_state_machine ops ≡ some sm) × MachineInv sm
  run-new_state_machine ops = run-MachineInv _ ops new_state_machine-MachineInv
