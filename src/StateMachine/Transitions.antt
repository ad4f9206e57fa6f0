-- ===== src/StateMachine/Transitions.antt =====
-- The protocol's phase diagram, and that `Apply` follows it.
use eggscrambler.Base.{ℕ, ◌+◌, ◌≡◌, Bool, some, arith, inl, inr, Bool-cases, pos, ◌==ℤ◌}
use eggscrambler.StateMachine.Types.{Phase, RoundInfo, StateMachine}
use eggscrambler.StateMachine.Ops.{
  Op, op_round, op_type, OpType, join_op, start_op, message_op, encrypted_op, scrambled_op,
  decrypted_op, reveal_op, abort_op,
}
use eggscrambler.StateMachine.Round.{Outcome, panic, ignored, updated, ended}
use eggscrambler.StateMachine.Handlers.{
  dispatch, join, start, message, encrypted, scrambled, decrypted, reveal, abort,
}
use eggscrambler.StateMachine.Machine.{apply, commit, put_current, next_round, current_round_info}
use eggscrambler.StateMachine.Slots.{current_round_info-put_current, current_round_info-next_round}

-- What a client can see of the machine's progress.
pub record View : Type 0 where
  pub round : ℕ
  pub phase : Phase

-- The moves of the protocol, each under the type of operation that can make it. A round is over when
-- its last key is revealed, or at any time when it is aborted; then the next one begins.
pub data Move : OpType → View → View → Type 0 where
  stay : (t : OpType) (v : View) → Move t v v
  open_submit :
      (r : ℕ) (p q : Phase)
      → p ≡ Phase.prepare
      → q ≡ Phase.submit
      → Move OpType.start_type (record { round = r; phase = p }) (record { round = r; phase = q })
  all_submitted :
      (r : ℕ) (p q : Phase)
      → p ≡ Phase.submit
      → q ≡ Phase.encrypt
      → Move OpType.message_type (record { round = r; phase = p }) (record { round = r; phase = q })
  all_encrypted :
      (r : ℕ) (p q : Phase)
      → p ≡ Phase.encrypt
      → q ≡ Phase.scramble
      → Move OpType.encrypted_type
          (record { round = r; phase = p })
          (record { round = r; phase = q })
  all_scrambled :
      (r : ℕ) (p q : Phase)
      → p ≡ Phase.scramble
      → q ≡ Phase.decrypt
      → Move OpType.scrambled_type
          (record { round = r; phase = p })
          (record { round = r; phase = q })
  all_decrypted :
      (r : ℕ) (p q : Phase)
      → p ≡ Phase.decrypt
      → q ≡ Phase.reveal
      → Move OpType.decrypted_type
          (record { round = r; phase = p })
          (record { round = r; phase = q })
  all_revealed :
      (r : ℕ) (p q : Phase)
      → p ≡ Phase.reveal
      → q ≡ Phase.prepare
      → Move OpType.reveal_type
          (record { round = r; phase = p })
          (record { round = r + 1; phase = q })
  aborted :
      (r : ℕ) (p q : Phase)
      → q ≡ Phase.prepare
      → Move OpType.abort_type
          (record { round = r; phase = p })
          (record { round = r + 1; phase = q })

ruleset moves = (
  stay, open_submit, all_submitted, all_encrypted, all_scrambled, all_decrypted, all_revealed,
  aborted,
)

module _ {C : Type 0} where
  abbrev pub view : StateMachine C → View
  view sm = record { round = sm.round; phase = (current_round_info sm).phase }

  -- What an outcome makes of a view.
  abbrev after : ℕ → Phase → Outcome C → View
  after r p panic = record { round = r; phase = p }
  after r p ignored = record { round = r; phase = p }
  after r p (updated ri) = record { round = r; phase = ri.phase }
  after r p (ended ri) = record { round = r + 1; phase = Phase.prepare }

  dispatch-Move :
      (r : ℕ) (ri : RoundInfo C) (op : Op C)
      → Move
          (op_type op)
          (record { round = r; phase = ri.phase })
          (after r ri.phase (dispatch ri op))
  unfolding dispatch join start message encrypted scrambled decrypted reveal abort
  dispatch-Move r ri (join_op op) = grind (arith, moves)
  dispatch-Move r ri (start_op op) = grind (arith, moves)
  dispatch-Move r ri (message_op op) = grind (arith, moves)
  dispatch-Move r ri (encrypted_op op) = grind (arith, moves)
  dispatch-Move r ri (scrambled_op op) = grind (arith, moves)
  dispatch-Move r ri (decrypted_op op) = grind (arith, moves)
  dispatch-Move r ri (reveal_op op) = grind (arith, moves)
  dispatch-Move r ri (abort_op op) = grind (arith, moves)

  commit-view :
      (sm sm' : StateMachine C) (o : Outcome C) {b : Bool}
      → commit sm o ≡ some (sm', b)
      → view sm' ≡ after sm.round (current_round_info sm).phase o
  unfolding commit
  commit-view sm sm' panic e = ground arith
  commit-view sm sm' ignored e = ground arith
  commit-view sm sm' (updated ri) e =
      let q : put_current sm ri ≡ sm' = ground arith in
      rw (← q) (unfold put_current in ground (arith, current_round_info-put_current sm ri))
  commit-view sm sm' (ended ri) e =
      let q : next_round (put_current sm ri) ≡ sm' = ground arith in
      rw (← q) (
        unfold put_current next_round in
        ground (arith, current_round_info-next_round (put_current sm ri)))

  -- `Apply` refines the phase diagram: each operation makes a move of its own type, or none.
  pub apply-Move :
      (sm sm' : StateMachine C) (op : Op C) {b : Bool}
      → apply sm op ≡ some (sm', b)
      → Move (op_type op) (view sm) (view sm')
  unfolding apply
  apply-Move sm sm' op e = elim (Bool-cases (op_round op ==ℤ pos sm.round)) [
    | inl h ↦
        rw (commit-view sm sm' _ (rw h at e)) (dispatch-Move sm.round (current_round_info sm) op)
    | inr h ↦ let q : sm ≡ sm' = ground arith in rw (← q) (stay (op_type op) (view sm))
  ]
