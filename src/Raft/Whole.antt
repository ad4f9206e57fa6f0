-- ===== src/Raft/Whole.antt =====
-- A server of anonbcast/server.go together with any Raft that keeps its promises.
use eggscrambler.Base.{
  ℕ, ◌≡◌, refl, Bool, false, Option, some, List, [], ◌∷◌, inl, inr, arith, Option-cases,
}
use eggscrambler.StateMachine.Ops.{Op}
use eggscrambler.Server.Core.{ApplyMsg}
use eggscrambler.Server.System.{Event, new_system, happen, IsFaithful}
use eggscrambler.Server.Answers.{started_by}
use eggscrambler.Server.Waits.{Waits, new_system-Waits}
use eggscrambler.Server.Sends.{IsAnswered, delivered_after, receives-IsAnswered, run_system-Waits}
use eggscrambler.Raft.Interface.{Raft, RaftLaws}
use eggscrambler.Raft.Node.{Step, Node, event_of, step_node, new_node, run_node}
use eggscrambler.Raft.Trace.{trace, run_node-trace}
use eggscrambler.Raft.Promises.{IsKept, IsFaithful-cons, event_of-IsKept}

module _ {C : Type 0} where
  abbrev pub started_after : (ℕ → ℕ → Option (Op C)) → List (Event C) → ℕ → ℕ → Option (Op C)
  started_after started [] = started
  started_after started (e ∷ es) = started_after (started_by started e) es

  module _ (raft : Raft C) (laws : RaftLaws raft) (debug : Bool) where
    -- What the events of a run tell of the state of Raft after it.
    pub record Told (s s' : raft.State) (es : List (Event C)) : Type 0 where
      pub inv : laws.Inv s'
      pub faithful : IsFaithful (laws.log s) es
      pub same_log : laws.log s' ≡ started_after (laws.log s) es
      pub same_delivered : laws.delivered s' ≡ delivered_after (laws.delivered s) es

    Told-more :
        (s r s' : raft.State) (e : Event C) (es : List (Event C))
        → IsKept raft laws debug s r e
        → Told r s' es
        → Told s s' (e ∷ es)
    Told-more s r s' e es k t = record {
      inv = t.inv;
      faithful = IsFaithful-cons (laws.log s) e es k.allowed (rw (← k.same_log) t.faithful);
      same_log = rw (← k.same_log) t.same_log;
      same_delivered = rw (← k.same_delivered) t.same_delivered;
    }

    pub run_node-Told :
        (ss : List (Step C)) (n n' : Node raft)
        → laws.Inv n.state
        → run_node raft debug n ss ≡ some n'
        → Told n.state n'.state (trace raft debug n ss)
    unfolding run_node step_node trace
    run_node-Told [] n n' v h =
        let same : n ≡ n' = ground arith in
        rw (← same) (record { inv = v; faithful = tt; same_log = refl; same_delivered = refl })
    run_node-Told (s ∷ ss) n n' v h = elim (Option-cases (event_of raft debug n s)) [
      | inl e ↦
          let same : trace raft debug n (s ∷ ss) ≡ trace raft debug n ss = ground (arith, e) in
          rw same (run_node-Told ss n n' v (ground (arith, e, h)))
      | inr ((r, e), q) ↦ elim (Option-cases (happen debug n.system e)) [
        | inl f ↦ absurd (ground (arith, q, f, h))
        | inr (sys, f) ↦
            let m : Node raft = record { system = sys; state = r } in
            let k = event_of-IsKept raft laws debug n s r e v q in
            let t = run_node-Told ss m n' k.inv (ground (arith, q, f, h)) in
            let same : trace raft debug n (s ∷ ss) ≡ e ∷ trace raft debug m ss =
              ground (arith, q, f) in
            rw same (Told-more n.state r n'.state e (trace raft debug m ss) k t)
      ]
    ]

    new_node-Told :
        (ss : List (Step C)) (n : Node raft)
        → run_node raft debug (new_node raft debug) ss ≡ some n
        → Told raft.initial n.state (trace raft debug (new_node raft debug) ss)
    new_node-Told ss n h = run_node-Told ss (new_node raft debug) n laws.initial_inv h

    node-Waits :
        (ss : List (Step C)) (n : Node raft)
        → run_node raft debug (new_node raft debug) ss ≡ some n
        → Waits (laws.delivered n.state) n.system
    node-Waits ss n h =
        let w =
          run_system-Waits debug (trace raft debug (new_node raft debug) ss) (λ t i. false)
            new_system n.system (run_node-trace raft debug ss (new_node raft debug) n h)
            new_system-Waits in
        let t = new_node-Told ss n h in rw t.same_delivered (rw laws.initial_delivered w)

    -- Whatever a new server and its Raft have done: the send of `applier` for the next message, any
    -- one of those that Raft may give, does not block forever: either the work before the response
    -- panics, or every response is taken.
    pub run_node-IsAnswered :
        (ss : List (Step C)) (n : Node raft) (k : ℕ) (s : raft.State) (msg : ApplyMsg C)
        → run_node raft debug (new_node raft debug) ss ≡ some n
        → raft.receive n.state k ≡ some (s, msg)
        → IsAnswered debug n.system msg
    run_node-IsAnswered ss n k s msg h r =
        let (_, _, _, _, new) = laws.receive_law n.state s k msg r (new_node-Told ss n h).inv in
        receives-IsAnswered debug (laws.delivered n.state) n.system msg new (node-Waits ss n h)
