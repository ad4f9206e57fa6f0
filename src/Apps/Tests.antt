-- ===== src/Apps/Tests.antt =====
-- The results of three rounds that come in another order, and a run of `main` in which the first round
-- ends without a result.
use eggscrambler.Base.{ℕ, ◌≡◌, refl, true, some, none, List, [], ◌∷◌, pos}
use eggscrambler.Client.Results.{RoundResult}
use eggscrambler.Apps.Orderer.{new_orderer, run_orderer}
use eggscrambler.Apps.Ordered.{IsInOrder, run_orderer-IsInOrder}
use eggscrambler.Apps.Confessions.{
  LoopEvent, sees, enters, start_returns, gets, ticks, new_loop, run_loop,
}
use eggscrambler.Apps.Printed.{GoesDown, heard_after, run_loop-GoesDown}

abbrev result_of : ℕ → RoundResult
result_of n = record {
  round = pos n;
  succeeded = true;
  messages = (n ∷ []) ∷ [];
  malicious_error = none;
}

abbrev arrivals : List RoundResult
arrivals = result_of 1 ∷ result_of 0 ∷ result_of 3 ∷ []

run_orderer-IsInOrder_example :
    (out : List RoundResult) × (run_orderer new_orderer [] arrivals ≡ some out)
    × IsInOrder arrivals out
run_orderer-IsInOrder_example =
    run_orderer-IsInOrder arrivals ((1, refl), ((0, refl), ((3, refl), tt)))

abbrev rounds_seen : List LoopEvent
rounds_seen =
    sees 0 true
    ∷ enters
    ∷ start_returns true
    ∷ ticks
    ∷ sees 1 true
    ∷ sees 1 true
    ∷ enters
    ∷ start_returns true
    ∷ gets (result_of 1)
    ∷ []

run_loop-GoesDown_example :
    GoesDown
      (heard_after [] rounds_seen)
      (run_loop new_loop rounds_seen).index
      (run_loop new_loop rounds_seen).printed
run_loop-GoesDown_example = run_loop-GoesDown rounds_seen
