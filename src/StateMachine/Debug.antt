-- ===== src/StateMachine/Debug.antt =====
-- anonbcast/statemachine.go over a whole log, with the assertions of `checkRep` on or off.
use eggscrambler.Base.{
  ◌≡◌, refl, Bool, false, some, List, [], ◌∷◌, ◌⊎◌, inl, inr, arith, Option-cases,
}
use eggscrambler.StateMachine.Types.{StateMachine}
use eggscrambler.StateMachine.Ops.{Op}
use eggscrambler.StateMachine.Machine.{apply, new_state_machine}
use eggscrambler.StateMachine.Run.{run, MachineInv, run-new_state_machine, MachineInv-run}
use eggscrambler.StateMachine.Copy.{deep_copy_machine}
use eggscrambler.StateMachine.Assertions.{
  AllLegal, IsLegalLog, new_state_machine-AllLegal, apply-AllLegal, check_rep_machine_of_AllLegal,
}
use eggscrambler.StateMachine.Checked.{apply_checked, run_checked, deep_copy_checked}
use eggscrambler.StateMachine.Run.{new_state_machine-MachineInv}

module _ {C : Type 0} where
  pub deep_copy_checked-deep_copy_machine :
      (debug : Bool) (sm copy : StateMachine C)
      → deep_copy_checked debug sm ≡ some copy
      → deep_copy_machine sm ≡ some copy
  unfolding deep_copy_checked
  deep_copy_checked-deep_copy_machine debug sm copy e = ground arith

  unchecked-run : (sm : StateMachine C) (ops : List (Op C)) → run_checked false sm ops ≡ run sm ops
  unfolding run_checked run apply_checked
  unchecked-run sm [] = refl
  unchecked-run sm (op ∷ ops) = elim (Option-cases (apply sm op)) [
    | inl e ↦ ground (arith, e)
    | inr ((sm', b), e) ↦ ground (arith, e, unchecked-run sm' ops)
  ]

  legal-run :
      (debug : Bool) (sm : StateMachine C) (ops : List (Op C))
      → AllLegal sm
      → IsLegalLog sm ops
      → (sm' : StateMachine C) × (run_checked debug sm ops ≡ some sm') × (run sm ops ≡ some sm')
  unfolding run_checked run apply_checked
  legal-run debug sm [] v h = (sm, refl, refl)
  legal-run debug sm (op ∷ ops) v h =
      let (sm1, b, e, v1) = apply-AllLegal sm op v h.0 in
      let (sm2, c, r) = legal-run debug sm1 ops v1 (rw e at h.1) in
      let before = check_rep_machine_of_AllLegal sm v in
      let after = check_rep_machine_of_AllLegal sm1 v1 in
      (sm2, ground (arith, e, before, after, c), ground (arith, e, r))

  -- Applying a log of committed operations, in order, to a new state machine never panics: with the
  -- assertions off whatever the operations are, and with the assertions on if each operation for the
  -- current round is legal in it. The state reached is that without the assertions, and it is in
  -- order: every round has one flag, key and hash for each of its distinct participants, its phase
  -- agrees with the flags, the current round is open and the earlier ones are closed.
  pub run_checked-new_state_machine :
      (debug : Bool) (ops : List (Op C))
      → (debug ≡ false) ⊎ IsLegalLog new_state_machine ops
      → (sm : StateMachine C) × (run_checked debug new_state_machine ops ≡ some sm)
        × (run new_state_machine ops ≡ some sm)
        × MachineInv sm
  run_checked-new_state_machine debug ops (inl off) =
      let (sm, e, v) = run-new_state_machine ops in
      (sm, rw (off, unchecked-run new_state_machine ops) e, e, v)
  run_checked-new_state_machine debug ops (inr legal) =
      let (sm, c, e) = legal-run debug new_state_machine ops new_state_machine-AllLegal legal in
      (sm, c, e, MachineInv-run new_state_machine sm ops new_state_machine-MachineInv e)
