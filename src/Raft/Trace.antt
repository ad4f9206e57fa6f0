-- ===== src/Raft/Trace.antt =====
-- The events at a server of anonbcast/server.go in the steps of a run with a Raft.
use eggscrambler.Base.{◌≡◌, Bool, none, some, List, [], ◌∷◌, inl, inr, arith, Option-cases}
use eggscrambler.Server.System.{Event, happen, run_system}
use eggscrambler.Raft.Interface.{Raft}
use eggscrambler.Raft.Node.{Step, Node, event_of, step_node, run_node}

module _ {C : Type 0} (raft : Raft C) (debug : Bool) where
  -- The events of the steps that a node takes.
  unfoldable pub trace : Node raft → List (Step C) → List (Event C)
  trace n [] = []
  trace n (s ∷ ss) = elim (event_of raft debug n s) [
    | none ↦ trace n ss
    | some (r, e) ↦ e ∷ elim (happen debug n.system e) [
      | none ↦ []
      | some sys ↦ trace (record { system = sys; state = r }) ss
    ]
  ]

  pub run_node-trace :
      (ss : List (Step C)) (n n' : Node raft)
      → run_node raft debug n ss ≡ some n'
      → run_system debug n.system (trace n ss) ≡ some n'.system
  unfolding run_node step_node trace run_system
  run_node-trace [] n n' h = ground arith
  run_node-trace (s ∷ ss) n n' h = elim (Option-cases (event_of raft debug n s)) [
    | inl e ↦ ground (arith, e, h, run_node-trace ss n n')
    | inr ((r, e), q) ↦ elim (Option-cases (happen debug n.system e)) [
      | inl f ↦ absurd (ground (arith, q, f, h))
      | inr (sys, f) ↦
          ground (arith, q, f, h, run_node-trace ss (record { system = sys; state = r }) n')
    ]
  ]
