-- ===== src/Together/Finished.antt =====
-- The operations that a client of anonbcast/client.go has finished.
use eggscrambler.Base.{ℕ, ◌≡◌, Bool, false, some, List, [], ◌⊎◌}
use eggscrambler.StateMachine.Ops.{Op}
use eggscrambler.StateMachine.Types.{StateMachine}
use eggscrambler.StateMachine.Machine.{apply}
use eggscrambler.Queue.Elimination.{new_elimination_queue}
use eggscrambler.Server.System.{applied_after}
use eggscrambler.Server.Settled.{IsIn}
use eggscrambler.Raft.Interface.{Raft}
use eggscrambler.Raft.Node.{Step, Node, new_node, run_node}
use eggscrambler.Raft.Trace.{trace}
use eggscrambler.Together.Kept.{IsAccepted}
use eggscrambler.Together.World.{World}

module _ {C : Type 0} where
  -- The dummy operation of a new queue.
  abbrev pub never_finished : Op C
  never_finished = new_elimination_queue.last_finished

  module _ (raft : Raft C) (debug : Bool) where
    -- How a server has come where it is, and who has answered the operation that was finished last.
    record Together (w : World raft) : Type 0 where
      runs :
          (k : ℕ)
          → (ss : List (Step C)) × (run_node raft debug (new_node raft debug) ss
              ≡ some (w.servers k))
      finished :
          (w.client.queue.last_finished ≡ never_finished)
          ⊎ ((k : ℕ) × IsAccepted w.client.queue.last_finished (w.servers k).system.answers)

    -- A server has come to where it is by steps of its own, and has applied the operation in them, or
    -- the operation has no effect at it.
    abbrev pub IsDoneAt : Op C → Node raft → Type 0
    IsDoneAt op n =
        (ss : List (Step C)) × (run_node raft debug (new_node raft debug) ss ≡ some n)
        × (IsIn op (applied_after [] (trace raft debug (new_node raft debug) ss))
            ⊎ (apply n.system.server.sm op ≡ some (n.system.server.sm, false)))
