-- ===== src/Raft/Tests.antt =====
-- A server with the mock of Raft that is asked twice, and is sent the two commands in the other order.
use eggscrambler.Base.{ℕ, ◌≡◌, refl, true, Option, none, some, List, [], ◌∷◌, pos}
use eggscrambler.StateMachine.Ops.{Op, join_op}
use eggscrambler.StateMachine.Copy.{deep_copy_machine, deep_copy, copy_loop, copy_min}
use eggscrambler.StateMachine.Types.{slot, put_slot}
use eggscrambler.StateMachine.Round.{index_of}
use eggscrambler.StateMachine.Handlers.{dispatch, join}
use eggscrambler.StateMachine.Machine.{
  apply, commit, put_current, new_state_machine, current_round_info,
}
use eggscrambler.StateMachine.Order.{guaranteed_no_effect}
use eggscrambler.Server.RespChannels.{find, assign, delete, get, create, values, closed_by_clear}
use eggscrambler.Server.Core.{
  new_server, command, submit_op, send_copies, send_state_machine_update, get_upd_ch, apply_msg,
}
use eggscrambler.Server.System.{deliver, deliver_all, happen, run_system}
use eggscrambler.Raft.Interface.{Raft}
use eggscrambler.Raft.Node.{
  Step, asks, delivers, opens_channel, Node, event_of, step_node, new_node, run_node,
}
use eggscrambler.Raft.Mock.{mockraft, mock_start, mock_receive, mockraft_laws}
use eggscrambler.Raft.Whole.{run_node-IsAnswered}
use eggscrambler.Raft.Answered.{mockraft_answers}
use eggscrambler.Server.Balance.{answered_ops}
use mathlib.Core.List.{Perm}
use eggscrambler.Server.Sends.{IsAnswered}

abbrev join_by : ℕ → ℕ → Op ℕ
join_by id round = join_op (record { id = id; r = pos round })

abbrev mock : Raft ℕ
mock = mockraft

abbrev begun : List (Step ℕ)
begun = opens_channel ∷ asks (join_by 4 0) ∷ asks (join_by 6 0) ∷ delivers 2 ∷ []

abbrev ended : List (Step ℕ)
ended = opens_channel ∷ asks (join_by 4 0) ∷ asks (join_by 6 0) ∷ delivers 2 ∷ delivers 1 ∷ []

abbrev get_node : Option (Node mock) → Node mock
get_node none = new_node mock true
get_node (some n) = n

abbrev midway : Node mock
midway = get_node (run_node mock true (new_node mock true) begun)

abbrev end : Node mock
end = get_node (run_node mock true (new_node mock true) ended)

begun_runs : run_node mock true (new_node mock true) begun ≡ some midway
unfolding event_of step_node run_node mock_start mock_receive apply commit put_current
    new_state_machine current_round_info slot put_slot dispatch join index_of new_server submit_op
    send_copies send_state_machine_update get_upd_ch apply_msg deliver deliver_all happen run_system
    find assign delete get create values closed_by_clear deep_copy_machine deep_copy copy_loop
    copy_min guaranteed_no_effect
begun_runs = refl

ended_runs : run_node mock true (new_node mock true) ended ≡ some end
unfolding event_of step_node run_node mock_start mock_receive apply commit put_current
    new_state_machine current_round_info slot put_slot dispatch join index_of new_server submit_op
    send_copies send_state_machine_update get_upd_ch apply_msg deliver deliver_all happen run_system
    find assign delete get create values closed_by_clear deep_copy_machine deep_copy copy_loop
    copy_min guaranteed_no_effect
ended_runs = refl

all_sent : end.state.sending ≡ []
unfolding event_of step_node run_node mock_start mock_receive apply commit put_current
    new_state_machine current_round_info slot put_slot dispatch join index_of new_server submit_op
    send_copies send_state_machine_update get_upd_ch apply_msg deliver deliver_all happen run_system
    find assign delete get create values closed_by_clear deep_copy_machine deep_copy copy_loop
    copy_min guaranteed_no_effect
all_sent = refl

last_sends : mock_receive midway.state 1 ≡ some (end.state, command 1 1 (join_by 4 0))
unfolding event_of step_node run_node mock_start mock_receive apply commit put_current
    new_state_machine current_round_info slot put_slot dispatch join index_of new_server submit_op
    send_copies send_state_machine_update get_upd_ch apply_msg deliver deliver_all happen run_system
    find assign delete get create values closed_by_clear deep_copy_machine deep_copy copy_loop
    copy_min guaranteed_no_effect
last_sends = refl

run_node-IsAnswered_example : IsAnswered true midway.system (command 1 1 (join_by 4 0))
run_node-IsAnswered_example =
    run_node-IsAnswered mock mockraft_laws true begun midway 1 end.state (command 1 1 (join_by 4 0))
      begun_runs last_sends

mockraft_answers_example : Perm (answered_ops end.system.answers) (join_by 6 0 ∷ join_by 4 0 ∷ [])
mockraft_answers_example = mockraft_answers true ended end ended_runs all_sent
