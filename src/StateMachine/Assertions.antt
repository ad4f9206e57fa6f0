-- ===== src/StateMachine/Assertions.antt =====
-- `checkRep` over a log of operations of honest clients.
use eggscrambler.Base.{
  ℕ, ◌+◌, ◌≡◌, refl, Bool, true, false, none, some, List, [], ◌∷◌, arith, inl, inr, Bool-cases, pos,
  ◌==ℤ◌, ==ℤ_iff,
}
use eggscrambler.StateMachine.Types.{Phase, RoundInfo, StateMachine, slot, zero_round_info}
use eggscrambler.StateMachine.Ops.{Op, op_round}
use eggscrambler.StateMachine.Round.{Outcome, panic, ignored, updated, ended}
use eggscrambler.StateMachine.Machine.{
  apply, commit, put_current, next_round, new_state_machine, current_round_info,
}
use eggscrambler.StateMachine.Slots.{slot-put_slot, current_round_info-eq_slot}
use eggscrambler.StateMachine.Invariant.{Good, dispatch-Good}
use eggscrambler.StateMachine.Run.{run, fresh-Inv, zero-Inv}
use eggscrambler.StateMachine.CheckRep.{check_rep_machine}
use eggscrambler.StateMachine.Legal.{
  IsLegal, LegalInv, Legally, check_rep_of_LegalInv, deep_copy_of_LegalInv, dispatch-Legally,
}
use eggscrambler.StateMachine.Copy.{deep_copy_machine}

module _ {C : Type 0} where
  abbrev pub AllLegal : StateMachine C → Type 0
  AllLegal sm = (r : ℕ) → LegalInv (slot sm.rounds r)

  -- Each operation that is for the current round is legal in it.
  abbrev pub IsLegalLog : StateMachine C → List (Op C) → Type 0
  IsLegalLog sm [] = Unit
  IsLegalLog sm (op ∷ ops) =
      (op_round op ≡ pos sm.round → IsLegal (current_round_info sm) op)
      × elim (apply sm op) [ none ↦ Unit | some (sm', _) ↦ IsLegalLog sm' ops ]

  fresh-LegalInv : LegalInv {C = C} (record zero_round_info { phase = Phase.prepare })
  fresh-LegalInv = record { inv = fresh-Inv; paired = tt; equipped = refl }

  zero-LegalInv : LegalInv {C = C} zero_round_info
  zero-LegalInv = record { inv = zero-Inv; paired = tt; equipped = tt }

  pub new_state_machine-AllLegal : AllLegal new_state_machine
  unfolding new_state_machine slot
  new_state_machine-AllLegal r = ground (arith, fresh-LegalInv, zero-LegalInv)

  put_current-AllLegal :
      (sm : StateMachine C) (ri : RoundInfo C)
      → AllLegal sm
      → LegalInv ri
      → AllLegal (put_current sm ri)
  unfolding put_current
  put_current-AllLegal sm ri v l r = ground (arith, slot-put_slot sm.rounds sm.round ri r, v r)

  next_round-AllLegal : (sm : StateMachine C) → AllLegal sm → AllLegal (next_round sm)
  unfolding next_round
  next_round-AllLegal sm v r = ground (
    arith,
    slot-put_slot sm.rounds (sm.round + 1) (record zero_round_info { phase = Phase.prepare }) r,
    fresh-LegalInv,
    v r,
  )

  commit-AllLegal :
      (sm : StateMachine C) (o : Outcome C)
      → AllLegal sm
      → Good o
      → Legally o
      → (sm' : StateMachine C) × (b : Bool) × (commit sm o ≡ some (sm', b)) × AllLegal sm'
  unfolding commit
  commit-AllLegal sm panic v g l = absurd g
  commit-AllLegal sm ignored v g l = (sm, false, refl, v)
  commit-AllLegal sm (updated ri) v g l = (
    put_current sm ri,
    true,
    refl,
    put_current-AllLegal sm ri v (record { inv = g.0; paired = l.0; equipped = l.1 }),
  )
  commit-AllLegal sm (ended ri) v g l = (
    next_round (put_current sm ri),
    true,
    refl,
    next_round-AllLegal (put_current sm ri)
        (put_current-AllLegal sm ri v (record { inv = g.0; paired = l.0; equipped = l.1 })),
  )

  current-LegalInv : (sm : StateMachine C) → AllLegal sm → LegalInv (current_round_info sm)
  current-LegalInv sm v = rw current_round_info-eq_slot (v sm.round)

  pub apply-AllLegal :
      (sm : StateMachine C) (op : Op C)
      → AllLegal sm
      → (op_round op ≡ pos sm.round → IsLegal (current_round_info sm) op)
      → (sm' : StateMachine C) × (b : Bool) × (apply sm op ≡ some (sm', b)) × AllLegal sm'
  unfolding apply
  apply-AllLegal sm op v h =
      let c = current-LegalInv sm v in
      elim (Bool-cases (op_round op ==ℤ pos sm.round)) [
        | inl e ↦ rw e (
            commit-AllLegal sm _ v (dispatch-Good _ c.inv op)
              (dispatch-Legally _ c op (h ((==ℤ_iff _ _).0 e))))
        | inr e ↦ rw e (sm, false, refl, v)
      ]

  run-AllLegal :
      (sm : StateMachine C) (ops : List (Op C))
      → AllLegal sm
      → IsLegalLog sm ops
      → (sm' : StateMachine C) × (run sm ops ≡ some sm') × AllLegal sm'
  unfolding run
  run-AllLegal sm [] v h = (sm, refl, v)
  run-AllLegal sm (op ∷ ops) v h =
      let (sm1, b, e, v1) = apply-AllLegal sm op v h.0 in
      let (sm2, e2, v2) = run-AllLegal sm1 ops v1 (rw e at h.1) in (sm2, rw (e, run) e2, v2)

  pub check_rep_machine_of_AllLegal :
      (sm : StateMachine C) → AllLegal sm → check_rep_machine sm ≡ true
  unfolding check_rep_machine slot
  check_rep_machine_of_AllLegal sm v = ground (
    arith,
    check_rep_of_LegalInv sm.rounds.slot0 (v 0),
    check_rep_of_LegalInv sm.rounds.slot1 (v 1),
    check_rep_of_LegalInv sm.rounds.slot2 (v 2),
  )

  -- After any log of legal operations on a new state machine all assertions of `checkRep` hold.
  pub check_rep-run :
      (ops : List (Op C))
      → IsLegalLog new_state_machine ops
      → (sm : StateMachine C) × (run new_state_machine ops ≡ some sm)
        × (check_rep_machine sm ≡ true)
  check_rep-run ops h =
      let (sm, e, v) = run-AllLegal new_state_machine ops new_state_machine-AllLegal h in
      (sm, e, check_rep_machine_of_AllLegal sm v)

  deep_copy_machine_of_AllLegal :
      (sm : StateMachine C) → AllLegal sm → deep_copy_machine sm ≡ some sm
  unfolding deep_copy_machine slot
  deep_copy_machine_of_AllLegal sm v = ground (
    arith,
    deep_copy_of_LegalInv sm.rounds.slot0 (v 0),
    deep_copy_of_LegalInv sm.rounds.slot1 (v 1),
    deep_copy_of_LegalInv sm.rounds.slot2 (v 2),
  )

  -- After any log of legal operations on a new state machine `DeepCopy` returns an equal state.
  pub deep_copy-run :
      (ops : List (Op C))
      → IsLegalLog new_state_machine ops
      → (sm : StateMachine C) × (run new_state_machine ops ≡ some sm)
        × (deep_copy_machine sm ≡ some sm)
  deep_copy-run ops h =
      let (sm, e, v) = run-AllLegal new_state_machine ops new_state_machine-AllLegal h in
      (sm, e, deep_copy_machine_of_AllLegal sm v)
