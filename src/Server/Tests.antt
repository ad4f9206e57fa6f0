-- ===== src/Server/Tests.antt =====
-- A server that is started, asked, and loses its leadership.
use eggscrambler.Base.{ℕ, ◌≡◌, refl, true, false, Option, none, some, List, [], ◌∷◌, pos}
use eggscrambler.StateMachine.Ops.{Op, join_op}
use eggscrambler.StateMachine.Copy.{deep_copy_machine, deep_copy, copy_loop, copy_min}
use eggscrambler.StateMachine.Types.{slot, put_slot}
use eggscrambler.StateMachine.Round.{index_of}
use eggscrambler.StateMachine.Handlers.{dispatch, join}
use eggscrambler.StateMachine.Machine.{
  apply, commit, put_current, new_state_machine, current_round_info,
}
use eggscrambler.StateMachine.Order.{guaranteed_no_effect}
use eggscrambler.Server.RespChannels.{find, assign, delete, get, create, values, closed_by_clear}
use eggscrambler.Server.Core.{
  new_server, command, raft_update, submit_op, send_copies, send_state_machine_update, get_upd_ch,
  apply_msg,
}
use eggscrambler.Server.System.{
  Event, submits, receives, opens, System, new_system, deliver, deliver_all, happen, run_system,
}
use eggscrambler.Server.Chains.{AllChains}
use eggscrambler.Server.Updates.{run_system-AllChains}

abbrev join_by : ℕ → ℕ → Op ℕ
join_by id round = join_op (record { id = id; r = pos round })

-- The second join is lost with the leadership, the third comes too late for its round.
abbrev history : List (Event ℕ)
history =
    opens
    ∷ submits (join_by 4 0) (some (1, 1))
    ∷ receives (command 1 1 (join_by 4 0))
    ∷ submits (join_by 6 0) (some (1, 2))
    ∷ receives (raft_update false)
    ∷ submits (join_by 6 0) none
    ∷ []

abbrev get_system : Option (System ℕ) → System ℕ
get_system none = new_system
get_system (some sys) = sys

abbrev end : System ℕ
end = get_system (run_system true new_system history)

history_runs : run_system true new_system history ≡ some end
unfolding apply commit put_current new_state_machine current_round_info slot put_slot dispatch join
    index_of new_server submit_op send_copies send_state_machine_update get_upd_ch apply_msg deliver
    deliver_all happen run_system find assign delete get create values closed_by_clear
    deep_copy_machine deep_copy copy_loop copy_min guaranteed_no_effect
history_runs = refl

run_system-AllChains_example : AllChains end.server.upd_chs end.server.sm
run_system-AllChains_example = run_system-AllChains true history end history_runs
