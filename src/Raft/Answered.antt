-- ===== src/Raft/Answered.antt =====
-- The answers to the calls of `SubmitOp` of anonbcast/server.go, with the Raft of mockraft/mockraft.go.
use mathlib.Core.List.{Perm}
use eggscrambler.Base.{
  append_nothing, ap, ◌∙◌, ◌++◌, none, some, ℕ, ◌≡◌, Bool, some, List, [], ◌∷◌, inl, inr, arith,
  Option-cases,
}
use eggscrambler.StateMachine.Ops.{Op}
use eggscrambler.Server.RespChannels.{find}
use eggscrambler.Server.System.{happen}
use eggscrambler.Raft.Interface.{Raft}
use eggscrambler.Raft.Node.{Step, Node, event_of, step_node, new_node, run_node}
use eggscrambler.Raft.Mock.{mockraft, mockraft_laws}
use eggscrambler.Server.Balance.{answered_ops, open_ops, Balance}
use eggscrambler.Server.Balanced.{asked_by, happen-Balance, new_system-Balance}
use eggscrambler.Raft.Quiet.{run_node_quiet}
use eggscrambler.Raft.Node.{asks, delivers, opens_channel, closes_channel}
use eggscrambler.Server.System.{Event}

-- The operations of the calls of `SubmitOp`, the last one first.
abbrev asked_in : {C : Type 0} → List (Op C) → Step C → List (Op C)
asked_in asked (asks op) = op ∷ asked
asked_in asked s = asked

abbrev pub all_asked : {C : Type 0} → List (Op C) → List (Step C) → List (Op C)
all_asked asked [] = asked
all_asked asked (s ∷ ss) = all_asked (asked_in asked s) ss

module _ {C : Type 0} (debug : Bool) where
  module _ (raft : Raft C) where
    event_of-asked :
        (n : Node raft) (s : Step C) (r : raft.State) (e : Event C) (asked : List (Op C))
        → event_of raft debug n s ≡ some (r, e)
        → asked_by asked e ≡ asked_in asked s
    unfolding event_of
    event_of-asked n (asks op) r e asked h = ground (arith, h)
    event_of-asked n (delivers k) r e asked h = ground (arith, h)
    event_of-asked n opens_channel r e asked h = ground (arith, h)
    event_of-asked n (closes_channel i) r e asked h = ground (arith, h)

    event_of-none :
        (n : Node raft) (s : Step C) (asked : List (Op C))
        → event_of raft debug n s ≡ none
        → asked_in asked s ≡ asked
    unfolding event_of
    event_of-none n s asked h = ground (arith, h)

    run_node-Balance :
        (ss : List (Step C)) (asked : List (Op C)) (n n' : Node raft)
        → run_node raft debug n ss ≡ some n'
        → Balance asked n.system
        → Balance (all_asked asked ss) n'.system
    unfolding run_node step_node
    run_node-Balance [] asked n n' h b = let same : n ≡ n' = ground arith in rw (← same) b
    run_node-Balance (s ∷ ss) asked n n' h b = elim (Option-cases (event_of raft debug n s)) [
      | inl e ↦
          run_node-Balance ss (asked_in asked s) n n' (ground (arith, e, h))
            (rw (event_of-none n s asked e) b)
      | inr ((r, e), q) ↦ elim (Option-cases (happen debug n.system e)) [
        | inl f ↦ absurd (ground (arith, q, f, h))
        | inr (sys, f) ↦
            run_node-Balance ss (asked_in asked s) (record { system = sys; state = r }) n'
              (ground (arith, q, f, h))
              (rw (← event_of-asked n s r e asked q)
                (happen-Balance asked debug n.system sys b e f))
      ]
    ]

  pub mockraft_quiet :
      (ss : List (Step C)) (n : Node mockraft)
      → run_node mockraft debug (new_node mockraft debug) ss ≡ some n
      → n.state.sending ≡ []
      → n.system.pending ≡ []
  unfolding find mockraft_laws
  mockraft_quiet ss n h quiet =
      run_node_quiet debug mockraft mockraft_laws ss n h (λ t i op e. ground (arith, quiet))

  -- With mockraft/mockraft.go: whatever a new server has done, in whatever order the goroutines that
  -- `Start` leaves behind have sent, when each of them has sent, each call of `SubmitOp` has been
  -- answered, and none of them twice.
  pub mockraft_answers :
      (ss : List (Step C)) (n : Node mockraft)
      → run_node mockraft debug (new_node mockraft debug) ss ≡ some n
      → n.state.sending ≡ []
      → Perm (answered_ops n.system.answers) (all_asked [] ss)
  mockraft_answers ss n h quiet =
      let b = run_node-Balance mockraft ss [] (new_node mockraft debug) n h new_system-Balance in
      let closed : answered_ops n.system.answers ++ open_ops n.system.pending
          ≡ answered_ops n.system.answers =
        ap (λ (m : List (ℕ × Op C)). answered_ops n.system.answers ++ open_ops m)
          (mockraft_quiet ss n h quiet)
        ∙ append_nothing (answered_ops n.system.answers) in
      rw closed at b.perm
