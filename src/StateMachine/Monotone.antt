-- ===== src/StateMachine/Monotone.antt =====
-- The state machine moves forward only: rounds grow, and within a round the phases do.
use eggscrambler.Base.{
  ℕ, ◌≤◌, ◌≡◌, refl, Bool, true, false, some, if◌then◌else◌, arith, ℤ, pos, negsuc, List, [], ◌∷◌,
  inl, inr, Bool-cases, ◌==ℤ◌, Option-cases, ltb_ℤ,
}
use eggscrambler.StateMachine.Types.{RoundInfo, StateMachine, Phase}
use eggscrambler.StateMachine.Ops.{
  Op, op_round, op_type, OpType, join_op, start_op, message_op, encrypted_op, scrambled_op,
  decrypted_op, reveal_op, abort_op,
}
use eggscrambler.StateMachine.Round.{Outcome, panic, ignored, updated, ended}
use eggscrambler.StateMachine.Handlers.{
  dispatch, join, start, message, encrypted, scrambled, decrypted, reveal, abort,
}
use eggscrambler.StateMachine.Machine.{apply, commit, put_current, next_round, current_round_info}
use eggscrambler.StateMachine.Slots.{current_round_info-put_current}
use eggscrambler.StateMachine.Order.{phase_order, may_precede, guaranteed_no_effect, no_effect_in}
use eggscrambler.StateMachine.Invariant.{IsOpen}
use eggscrambler.StateMachine.Run.{run, MachineInv, current-IsOpen, MachineInv-run}

no_effect_in_mono :
    (p q : Phase) (t : OpType)
    → phase_order p ≤ phase_order q
    → IsOpen q
    → no_effect_in p t ≡ true
    → no_effect_in q t ≡ true
unfolding no_effect_in
no_effect_in_mono p q t h o e = ground arith

-- The shape of `guaranteed_no_effect`, with what it says of the current round as `b`.
abbrev past_or_in : ℤ → ℕ → Bool → Bool
past_or_in r n b = if ltb_ℤ r (pos n) then true else if r ==ℤ pos n then b else false

past_or_in-now :
    (r : ℤ) (n : ℕ) (b : Bool) → past_or_in r n b ≡ true → (r ==ℤ pos n) ≡ true → b ≡ true
past_or_in-now (pos r) n b h e = ground arith
past_or_in-now (negsuc r) n b h e = ground arith

past_or_in-later :
    (r : ℤ) (n m : ℕ) (b c : Bool)
    → n ≤ m
    → past_or_in r n b ≡ true
    → (n ≡ m → b ≡ true → c ≡ true)
    → past_or_in r m c ≡ true
past_or_in-later (pos r) n m b c l h f = ground arith
past_or_in-later (negsuc r) n m b c l h f = ground arith

module _ {C : Type 0} where
  -- An update takes a round to its own phase or a later one.
  abbrev Forward : Phase → Outcome C → Type 0
  Forward p panic = Unit
  Forward p ignored = Unit
  Forward p (updated ri) = phase_order p ≤ phase_order ri.phase
  Forward p (ended ri) = Unit

  dispatch-Forward : (ri : RoundInfo C) (op : Op C) → Forward ri.phase (dispatch ri op)
  unfolding dispatch join start message encrypted scrambled decrypted reveal abort
  dispatch-Forward ri (join_op op) = ground arith
  dispatch-Forward ri (start_op op) = ground arith
  dispatch-Forward ri (message_op op) = ground arith
  dispatch-Forward ri (encrypted_op op) = ground arith
  dispatch-Forward ri (scrambled_op op) = ground arith
  dispatch-Forward ri (decrypted_op op) = ground arith
  dispatch-Forward ri (reveal_op op) = ground arith
  dispatch-Forward ri (abort_op op) = ground arith

  dispatch_no_effect :
      (ri : RoundInfo C) (op : Op C)
      → no_effect_in ri.phase (op_type op) ≡ true
      → dispatch ri op ≡ ignored
  unfolding dispatch join start message encrypted scrambled decrypted reveal abort no_effect_in
  dispatch_no_effect ri (join_op op) h = ground arith
  dispatch_no_effect ri (start_op op) h = ground arith
  dispatch_no_effect ri (message_op op) h = ground arith
  dispatch_no_effect ri (encrypted_op op) h = ground arith
  dispatch_no_effect ri (scrambled_op op) h = ground arith
  dispatch_no_effect ri (decrypted_op op) h = ground arith
  dispatch_no_effect ri (reveal_op op) h = ground arith
  dispatch_no_effect ri (abort_op op) h = ground arith

  pub may_precede_refl : (sm : StateMachine C) → may_precede sm sm ≡ true
  unfolding may_precede
  may_precede_refl sm = ground arith

  pub may_precede_trans :
      (a b c : StateMachine C)
      → may_precede a b ≡ true
      → may_precede b c ≡ true
      → may_precede a c ≡ true
  unfolding may_precede
  may_precede_trans a b c p q = ground arith

  may_precede-commit :
      (sm sm' : StateMachine C) (o : Outcome C) {b : Bool}
      → Forward (current_round_info sm).phase o
      → commit sm o ≡ some (sm', b)
      → may_precede sm sm' ≡ true
  unfolding commit
  may_precede-commit sm sm' panic f e = ground arith
  may_precede-commit sm sm' ignored f e = ground (arith, may_precede_refl sm)
  may_precede-commit sm sm' (updated ri) f e =
      let e' : put_current sm ri ≡ sm' = ground arith in
      rw (← e')
        (unfold may_precede put_current in ground (arith, current_round_info-put_current sm ri))
  may_precede-commit sm sm' (ended ri) f e =
      let e' : next_round (put_current sm ri) ≡ sm' = ground arith in
      rw (← e') (unfold may_precede put_current next_round in ground arith)

  -- Applying an operation takes the machine forward.
  pub may_precede-apply :
      (sm sm' : StateMachine C) (op : Op C) {b : Bool}
      → apply sm op ≡ some (sm', b)
      → may_precede sm sm' ≡ true
  unfolding apply
  may_precede-apply sm sm' op e = elim (Bool-cases (op_round op ==ℤ pos sm.round)) [
    | inl h ↦ may_precede-commit sm sm' _ (dispatch-Forward (current_round_info sm) op) (rw h at e)
    | inr h ↦ ground (arith, may_precede_refl sm)
  ]

  -- A state may precede every state that a log leads to from it.
  pub may_precede-run :
      (sm sm' : StateMachine C) (ops : List (Op C))
      → run sm ops ≡ some sm'
      → may_precede sm sm' ≡ true
  unfolding run
  may_precede-run sm sm' [] e = ground (arith, may_precede_refl sm)
  may_precede-run sm sm' (op ∷ ops) e = elim (Option-cases (apply sm op)) [
    | inl h ↦ ground arith
    | inr ((sm1, b), h) ↦
        may_precede_trans sm sm1 sm' (may_precede-apply sm sm1 op h)
          (may_precede-run sm1 sm' ops (rw (h, run) at e))
  ]

  pub no_effect-now :
      (sm : StateMachine C) (op : Op C)
      → guaranteed_no_effect sm op ≡ true
      → apply sm op ≡ some (sm, false)
  unfolding guaranteed_no_effect apply commit
  no_effect-now sm op h = elim (Bool-cases (op_round op ==ℤ pos sm.round)) [
    | inl e ↦
        rw (e, dispatch_no_effect (current_round_info sm) op (past_or_in-now (op_round op) _ _ h e))
          refl
    | inr e ↦ rw e refl
  ]

  pub no_effect-later :
      (sm sm' : StateMachine C) (op : Op C)
      → may_precede sm sm' ≡ true
      → IsOpen (current_round_info sm').phase
      → guaranteed_no_effect sm op ≡ true
      → guaranteed_no_effect sm' op ≡ true
  unfolding guaranteed_no_effect may_precede
  no_effect-later sm sm' op p o h =
      past_or_in-later (op_round op) sm.round sm'.round _ _ (ground arith) h
        (λ e q. no_effect_in_mono _ _ (op_type op) (ground arith) o q)

  -- What `GuaranteedNoEffect` promises: in this state and in every later one, whatever was applied in
  -- between, the operation changes nothing.
  pub guaranteed_no_effect_sound :
      (sm sm' : StateMachine C) (ops : List (Op C)) (op : Op C)
      → MachineInv sm
      → guaranteed_no_effect sm op ≡ true
      → run sm ops ≡ some sm'
      → apply sm' op ≡ some (sm', false)
  guaranteed_no_effect_sound sm sm' ops op v h e = no_effect-now sm' op (
      no_effect-later sm sm' op (may_precede-run sm sm' ops e)
        (current-IsOpen sm' (MachineInv-run sm sm' ops v e)) h)
