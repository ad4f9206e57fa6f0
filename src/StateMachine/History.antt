-- ===== src/StateMachine/History.antt =====
-- Rounds that have ended: they stay as they were as long as the array holds them.
use eggscrambler.Base.{
  ℕ, ◌+◌, ◌≤◌, ◌<◌, ◌≡◌, Bool, false, some, List, [], ◌∷◌, arith, inl, inr, Bool-cases,
  Option-cases, pos, ◌==ℤ◌, ◌∙◌, length,
}
use eggscrambler.StateMachine.Types.{
  Phase, RoundInfo, StateMachine, slot, put_slot, zero_round_info,
}
use eggscrambler.StateMachine.Ops.{Op, op_round}
use eggscrambler.StateMachine.Round.{
  Outcome, panic, ignored, updated, ended, count_true, any_key_nil,
}
use eggscrambler.StateMachine.Handlers.{dispatch}
use eggscrambler.StateMachine.Machine.{
  apply, commit, put_current, next_round, new_state_machine, current_round_info, get_round_info,
  found,
}
use eggscrambler.StateMachine.Slots.{slot-put_slot, get_round_info-found_iff}
use eggscrambler.StateMachine.Run.{run, MachineInv-run, new_state_machine-MachineInv}

module _ {C : Type 0} where
  commit-round :
      (sm sm' : StateMachine C) (o : Outcome C) {b : Bool}
      → commit sm o ≡ some (sm', b)
      → (sm.round ≤ sm'.round) × (sm'.round ≤ sm.round + 1)
  unfolding commit put_current next_round
  commit-round sm sm' panic e = ground arith
  commit-round sm sm' ignored e = ground arith
  commit-round sm sm' (updated ri) e = ground arith
  commit-round sm sm' (ended ri) e = ground arith

  commit-past :
      (sm sm' : StateMachine C) (o : Outcome C) (r : ℕ) {b : Bool}
      → commit sm o ≡ some (sm', b)
      → r < sm.round
      → sm'.round < r + 3
      → slot sm'.rounds r ≡ slot sm.rounds r
  unfolding commit put_current next_round
  commit-past sm sm' panic r e h k = ground arith
  commit-past sm sm' ignored r e h k = ground arith
  commit-past sm sm' (updated ri) r e h k = ground (arith, slot-put_slot sm.rounds sm.round ri r)
  commit-past sm sm' (ended ri) r e h k = ground (
    arith,
    slot-put_slot sm.rounds sm.round ri r,
    slot-put_slot (put_slot sm.rounds sm.round ri) (sm.round + 1)
        (record zero_round_info { phase = Phase.prepare }) r,
  )

  -- One operation ends one round at most.
  pub apply-round :
      (sm sm' : StateMachine C) (op : Op C) {b : Bool}
      → apply sm op ≡ some (sm', b)
      → (sm.round ≤ sm'.round) × (sm'.round ≤ sm.round + 1)
  unfolding apply
  apply-round sm sm' op e = elim (Bool-cases (op_round op ==ℤ pos sm.round)) [
    | inl h ↦ commit-round sm sm' (dispatch (current_round_info sm) op) (rw h at e)
    | inr h ↦ ground arith
  ]

  apply-past :
      (sm sm' : StateMachine C) (op : Op C) (r : ℕ) {b : Bool}
      → apply sm op ≡ some (sm', b)
      → r < sm.round
      → sm'.round < r + 3
      → slot sm'.rounds r ≡ slot sm.rounds r
  unfolding apply
  apply-past sm sm' op r e h k = elim (Bool-cases (op_round op ==ℤ pos sm.round)) [
    | inl f ↦ commit-past sm sm' (dispatch (current_round_info sm) op) r (rw f at e) h k
    | inr f ↦ ground arith
  ]

  pub run-round :
      (sm sm' : StateMachine C) (ops : List (Op C)) → run sm ops ≡ some sm' → sm.round ≤ sm'.round
  unfolding run
  run-round sm sm' [] e = ground arith
  run-round sm sm' (op ∷ ops) e = elim (Option-cases (apply sm op)) [
    | inl h ↦ ground arith
    | inr ((sm1, b), h) ↦
        omega (arith, apply-round sm sm1 op h, run-round sm1 sm' ops (rw (h, run) at e))
  ]

  run-past :
      (sm sm' : StateMachine C) (ops : List (Op C)) (r : ℕ)
      → run sm ops ≡ some sm'
      → r < sm.round
      → sm'.round < r + 3
      → slot sm'.rounds r ≡ slot sm.rounds r
  unfolding run
  run-past sm sm' [] r e h k = ground arith
  run-past sm sm' (op ∷ ops) r e h k = elim (Option-cases (apply sm op)) [
    | inl f ↦ ground arith
    | inr ((sm1, b), f) ↦
        let e1 : run sm1 ops ≡ some sm' = (rw (f, run) at e) in
        run-past sm1 sm' ops r e1 (omega (arith, apply-round sm sm1 op f)) k
        ∙ apply-past sm sm1 op r f h (omega (arith, run-round sm1 sm' ops e1))
  ]

  -- A round that has ended reads the same after any further operations, until three newer rounds
  -- have begun.
  pub get_round_info-run :
      (sm sm' : StateMachine C) (ops : List (Op C)) (r : ℕ)
      → run sm ops ≡ some sm'
      → r < sm.round
      → sm'.round < r + 3
      → get_round_info sm' (pos r) ≡ get_round_info sm (pos r)
  get_round_info-run sm sm' ops r e h k =
      let h' = run-round sm sm' ops e in
      rw (
        (get_round_info-found_iff sm r).0 (omega arith, omega arith),
        (get_round_info-found_iff sm' r).0 (omega arith, omega arith),
        run-past sm sm' ops r e h k,
      )

  -- A round that is done was completed: all its participants, of whom there is at least one, have
  -- encrypted, scrambled, decrypted and revealed a key, whatever operations led there.
  pub done_complete :
      (ops : List (Op C)) (sm : StateMachine C) (r : ℕ) (ri : RoundInfo C)
      → run new_state_machine ops ≡ some sm
      → get_round_info sm (pos r) ≡ found ri
      → ri.phase ≡ Phase.done
      → (0 < length ri.participants)
        × (count_true ri.encrypted ≡ length ri.participants)
        × (count_true ri.scrambled ≡ length ri.participants)
        × (count_true ri.decrypted ≡ length ri.participants)
        × (length ri.revealed_keys ≡ length ri.participants)
        × (any_key_nil ri.revealed_keys ≡ false)
  unfolding get_round_info
  done_complete ops sm r ri e g p =
      let v = MachineInv-run new_state_machine sm ops new_state_machine-MachineInv e in
      let i = v.rounds_Inv r in ground (arith, i)
