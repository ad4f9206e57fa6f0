-- ===== src/Queue/Tests.antt =====
-- The queue at concrete operations.
use eggscrambler.Base.{◌≡◌, ◌≢◌, refl, none, some, List, [], ◌∷◌, pos, arith, ℕ}
use eggscrambler.StateMachine.Ops.{Op, join_op, encrypted_op, abort_op}
use eggscrambler.Queue.Compare.{newer, older, compare}
use eggscrambler.Queue.Order.{age, compare_age, compare-eq_age}
use eggscrambler.Queue.Elimination.{new_elimination_queue, add, get, finish}
use eggscrambler.Queue.Usage.{
  Client, Event, adds, gets, succeeds, step, run_events, ClientInv, newest, new_client,
}
use eggscrambler.Queue.Finished.{finished_in, AllNewerThan, TakenNewerThan, run_events-finished_in}
use eggscrambler.Queue.Newest.{run_events-keeps_added}
use eggscrambler.Queue.Submissions.{submissions, AllNewer, submissions-after_success}

program : Unit {0}
unfolding compare new_elimination_queue add get finish step run_events submissions finished_in
program = tt

abbrev join0 : Op ℕ
join0 = join_op (record { id = 1; r = pos 0 })

abbrev encrypted0 : Op ℕ
encrypted0 = encrypted_op (record { id = 1; r = pos 0; messages = []; prev = pos 0 })

abbrev encrypted1 : Op ℕ
encrypted1 = encrypted_op (record { id = 1; r = pos 0; messages = []; prev = pos 1 })

abbrev abort0 : Op ℕ
abort0 = abort_op (record { r = pos 0 })

compare_prevs : compare encrypted1 encrypted0 ≡ newer
unfolding program
compare_prevs = refl

compare-eq_age_example :
    compare encrypted1 encrypted0 ≡ compare_age (age encrypted1) (age encrypted0)
compare-eq_age_example = compare-eq_age encrypted1 encrypted0

-- The second operation takes the place of the first before that is sent.
abbrev busy : List (Event ℕ)
busy = adds join0 ∷ adds encrypted0 ∷ gets ∷ adds encrypted1 ∷ succeeds ∷ gets ∷ adds join0 ∷ []

busy_ends : (run_events new_client busy).queue.ops ≡ encrypted1 ∷ []
unfolding program
busy_ends = refl

busy_submits : submissions new_client busy ≡ encrypted0 ∷ encrypted1 ∷ []
unfolding program
busy_submits = refl

run_events-finished_in_example :
    ClientInv (run_events (new_client {C = ℕ}) busy)
    × AllNewerThan (finished_in new_client busy) (run_events (new_client {C = ℕ}) busy).queue.ops
    × TakenNewerThan (finished_in new_client busy) (run_events (new_client {C = ℕ}) busy).taken
run_events-finished_in_example = run_events-finished_in busy

busy_finishes : finished_in new_client busy ≡ encrypted0 ∷ []
unfolding program
busy_finishes = refl

abbrev fresh_client : Client ℕ
fresh_client = record { queue = record { ops = []; last_finished = abort0 }; taken = none }

abbrev join1 : Op ℕ
join1 = join_op (record { id = 1; r = pos 1 })

run_events-keeps_added_example :
    compare (newest (run_events (step fresh_client (adds join1)) (gets ∷ succeeds ∷ []))) join1
    ≢ older
run_events-keeps_added_example =
    run_events-keeps_added fresh_client join1 (gets ∷ succeeds ∷ []) refl

abbrev sending : Client ℕ
sending = record {
  queue = record { ops = encrypted1 ∷ []; last_finished = join0 };
  taken = some encrypted0;
}

sending-ClientInv : ClientInv sending
unfolding program
sending-ClientInv = (refl, refl, ground arith)

submissions-after_success_example :
    AllNewer (submissions (step sending succeeds) (gets ∷ [])) encrypted0
submissions-after_success_example =
    submissions-after_success sending encrypted0 (gets ∷ []) sending-ClientInv refl
