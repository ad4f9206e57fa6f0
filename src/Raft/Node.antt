-- ===== src/Raft/Node.antt =====
-- A server of anonbcast/server.go together with its Raft: `SubmitOp` calls `Start`, and `applier` takes
-- the messages that Raft sends.
use eggscrambler.Base.{ℕ, if◌then◌else◌, Bool, Option, none, some, List, [], ◌∷◌}
use eggscrambler.StateMachine.Ops.{Op}
use eggscrambler.StateMachine.Order.{guaranteed_no_effect}
use eggscrambler.Server.System.{Event, submits, receives, opens, closes, System, new_system, happen}
use eggscrambler.Raft.Interface.{Raft}

pub data Step (C : Type 0) : Type 0 where
  asks : Op C → Step C
  delivers : ℕ → Step C
  opens_channel : Step C
  closes_channel : ℕ → Step C

pub record Node {C : Type 0} (raft : Raft C) : Type 0 where
  pub system : System C
  pub state : raft.State

module _ {C : Type 0} (raft : Raft C) (debug : Bool) where
  abbrev pub new_node : Node raft
  new_node = record { system = new_system; state = raft.initial }

  -- The event at the server, and the state of Raft after it. `SubmitOp` calls `Start` only for an
  -- operation that may have an effect.
  unfoldable pub event_of : Node raft → Step C → Option (raft.State × Event C)
  event_of n (asks op) =
      if guaranteed_no_effect n.system.server.sm op
      then some (n.state, submits op none)
      else some ((raft.start n.state op).0, submits op (raft.start n.state op).1)
  event_of n (delivers k) = elim (raft.receive n.state k) [
    | none ↦ none
    | some (r, msg) ↦ some (r, receives msg)
  ]
  event_of n opens_channel = some (n.state, opens)
  event_of n (closes_channel i) = some (n.state, closes i)

  abbrev pub after_event : Node raft → Option (raft.State × Event C) → Option (Node raft)
  after_event n none = some n
  after_event n (some (r, e)) = elim (happen debug n.system e) [
    | none ↦ none
    | some sys ↦ some (record { system = sys; state = r })
  ]

  -- `none` is a panic, or that `applier` blocks.
  unfoldable pub step_node : Node raft → Step C → Option (Node raft)
  step_node n s = after_event n (event_of n s)

  unfoldable pub run_node : Node raft → List (Step C) → Option (Node raft)
  run_node n [] = some n
  run_node n (s ∷ ss) = elim (step_node n s) [ none ↦ none | some n' ↦ run_node n' ss ]
