-- ===== src/Client/Commands.antt =====
-- anonbcast/client.go: `Start`, the abort of `Kill`, `CreateResCh` and `DestroyResCh`. The new crypto is
-- an argument.
use eggscrambler.Base.{
  ℕ, ◌≡◌, ◌==ℤ◌, if◌then◌else◌, Bool, true, Option, none, some, ℤ, pos, not, ◌&&◌, arith,
}
use eggscrambler.StateMachine.Types.{Phase, StateMachine, Uuid}
use eggscrambler.StateMachine.Ops.{Op, start_op, abort_op}
use eggscrambler.StateMachine.Round.{phase_eq}
use eggscrambler.StateMachine.Handlers.{dispatch, start, abort}
use eggscrambler.StateMachine.Machine.{apply, commit, put_current, next_round, current_round_info}
use eggscrambler.Client.Results.{participates}

-- What `Start` comes to: one of its two errors, or the operation that it adds.
pub data Started (C : Type 0) : Type 0 where
  not_current not_joined : Started C
  starts : Op C → Started C

module _ {C : Type 0} where
  unfoldable pub start_round : Uuid → C → ℤ → StateMachine C → Started C
  start_round id crypto round sm =
      if pos sm.round ==ℤ round
      then if participates id (current_round_info sm).participants
        then starts (start_op (record { id = id; r = round; crypto = some crypto }))
        else not_joined
      else not_current

  -- The operation that `Kill` submits, if any.
  unfoldable pub kill_op : Uuid → StateMachine C → Option (Op C)
  kill_op id sm =
      let ri = current_round_info sm in
      if not (phase_eq ri.phase Phase.done) && not (phase_eq ri.phase Phase.failed)
      then if participates id ri.participants
        then some (abort_op (record { r = pos sm.round }))
        else none
      else none

  -- In the phase of preparation, when the client has seen the present state: the operation of `Start`,
  -- if it returns no error, has the state machine go on to the phase of submission with the new
  -- crypto, and that of `Kill`, if there is one, has it end the round as failed and go on to the next.
  pub start_round-apply :
      (id : Uuid) (crypto : C) (round : ℤ) (sm : StateMachine C) (op op' : Op C)
      → start_round id crypto round sm ≡ starts op
      → kill_op id sm ≡ some op'
      → (current_round_info sm).phase ≡ Phase.prepare
      → let ri = current_round_info sm in
        (apply sm op
          ≡ some (put_current sm (record ri { phase = Phase.submit; crypto = some crypto }), true))
        × (apply sm op'
            ≡ some (next_round (put_current sm (record ri { phase = Phase.failed })), true))
  unfolding start_round kill_op apply commit dispatch start abort
  start_round-apply id crypto round sm op op' h k ph = ground arith

-- The channel for results, by the numbers of those who read it: `none` is nil.
unfoldable pub create_res_ch : Bool → Option ℕ → ℕ → Option (Option ℕ)
create_res_ch debug none fresh = some (some fresh)
create_res_ch debug (some ch) fresh = if debug then none else some (some fresh)

-- To close nil is a panic, with the assertion or without.
unfoldable pub destroy_res_ch : Option ℕ → Option (Option ℕ)
destroy_res_ch none = none
destroy_res_ch (some ch) = some none
