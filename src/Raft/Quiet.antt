-- ===== src/Raft/Quiet.antt =====
-- A server of anonbcast/server.go whose Raft has nothing left to send.
use eggscrambler.Base.{ℕ, ◌≡◌, Bool, true, some, List, [], ◌∷◌, inl, inr, arith, Option-cases, refl}
use eggscrambler.StateMachine.Ops.{Op}
use eggscrambler.Server.RespChannels.{find}
use eggscrambler.Server.System.{happen}
use eggscrambler.Server.Owed.{Owed}
use eggscrambler.Server.Debts.{happen-Owed, no_debts}
use eggscrambler.Raft.Interface.{Raft, RaftLaws}
use eggscrambler.Raft.Node.{Step, Node, event_of, step_node, new_node, run_node}
use eggscrambler.Raft.Promises.{event_of-IsKept}

module _ {C : Type 0} (debug : Bool) where
  module _ (raft : Raft C) (laws : RaftLaws raft) where
    run_node-Owed :
        (ss : List (Step C)) (n n' : Node raft)
        → laws.Inv n.state
        → run_node raft debug n ss ≡ some n'
        → Owed (laws.log n.state) (laws.delivered n.state) n.system
        → Owed (laws.log n'.state) (laws.delivered n'.state) n'.system
    unfolding run_node step_node
    run_node-Owed [] n n' v h o = let same : n ≡ n' = ground arith in rw (← same) o
    run_node-Owed (s ∷ ss) n n' v h o = elim (Option-cases (event_of raft debug n s)) [
      | inl e ↦ run_node-Owed ss n n' v (ground (arith, e, h)) o
      | inr ((r, e), q) ↦ elim (Option-cases (happen debug n.system e)) [
        | inl f ↦ absurd (ground (arith, q, f, h))
        | inr (sys, f) ↦
            let k = event_of-IsKept raft laws debug n s r e v q in
            run_node-Owed ss (record { system = sys; state = r }) n' k.inv (ground (arith, q, f, h))
              (rw (k.same_log, k.same_delivered)
                (happen-Owed (laws.log n.state) (laws.delivered n.state) debug e n.system sys
                  k.allowed k.ahead f o))
      ]
    ]

    -- Whatever a new server and its Raft have done, in whatever order: if every command that was
    -- started here has been committed, then no call of `SubmitOp` waits for an answer.
    pub run_node_quiet :
        (ss : List (Step C)) (n : Node raft)
        → run_node raft debug (new_node raft debug) ss ≡ some n
        → ((t i : ℕ) (op : Op C)
            → laws.log n.state t i ≡ some op
            → laws.delivered n.state t i ≡ true)
        → n.system.pending ≡ []
    unfolding find
    run_node_quiet ss n h all =
        no_debts (laws.log n.state) (laws.delivered n.state) n.system n.system.pending refl all
          (run_node-Owed ss (new_node raft debug) n laws.initial_inv h (λ ch op f. ground arith))
