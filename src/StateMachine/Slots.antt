-- ===== src/StateMachine/Slots.antt =====
-- The array of rounds: reading after writing, and the rounds that `GetRoundInfo` finds.
use eggscrambler.Base.{ℕ, ◌+◌, ◌%◌, ◌≤◌, ◌<◌, ◌≡◌, ◌==◌, if◌then◌else◌, arith, pos, ◌↔◌}
use eggscrambler.StateMachine.Types.{
  Phase, zero_round_info, RoundInfo, Slots, StateMachine, slot, put_slot,
}
use eggscrambler.StateMachine.Machine.{
  get_round_info, current_round_info, put_current, next_round, found,
}

module _ {C : Type 0} (s : Slots C) (r : ℕ) (ri : RoundInfo C) where
  pub slot-put_slot : (q : ℕ) → slot (put_slot s r ri) q ≡ (if q % 3 == r % 3 then ri else slot s q)
  unfolding slot put_slot
  slot-put_slot q = ground arith

module _ {C : Type 0} (sm : StateMachine C) where
  pub current_round_info-eq_slot : current_round_info sm ≡ slot sm.rounds sm.round
  unfolding current_round_info
  current_round_info-eq_slot = ground arith

  -- A round is found exactly if it is the current one or one of the two before it.
  pub get_round_info-found_iff :
      (r : ℕ)
      → ((r ≤ sm.round) × (sm.round < r + 3))
        ↔ (get_round_info sm (pos r) ≡ found (slot sm.rounds r))
  unfolding get_round_info
  get_round_info-found_iff r = (λ h. ground arith, λ h. ground arith)

  pub current_round_info-put_current :
      (ri : RoundInfo C) → current_round_info (put_current sm ri) ≡ ri
  unfolding put_current current_round_info slot put_slot
  current_round_info-put_current ri = ground arith

  pub current_round_info-next_round :
      current_round_info (next_round sm) ≡ record zero_round_info { phase = Phase.prepare }
  unfolding next_round current_round_info slot put_slot
  current_round_info-next_round = ground arith
