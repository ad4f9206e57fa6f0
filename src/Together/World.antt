-- ===== src/Together/World.antt =====
-- A client of anonbcast/client.go with the servers of anonbcast/server.go that it asks, each with its
-- Raft: `submitOps` takes an operation, and finishes it when a server has answered it with `OK`.
use eggscrambler.Base.{ℕ, ◌≡◌, ◌==◌, if◌then◌else◌, Bool, none, some}
use eggscrambler.StateMachine.Ops.{Op}
use eggscrambler.Queue.Elimination.{new_elimination_queue}
use eggscrambler.Queue.Usage.{Client, adds, gets, succeeds, fails, step}
use eggscrambler.Raft.Interface.{Raft}
use eggscrambler.Raft.Node.{Step, Node, new_node, step_node}
use eggscrambler.Together.Kept.{IsAccepted}

pub record World {C : Type 0} (raft : Raft C) : Type 0 where
  pub client : Client C
  pub servers : ℕ → Node raft

module _ {C : Type 0} (raft : Raft C) (debug : Bool) where
  abbrev pub new_world : World raft
  new_world = record {
    client = record { queue = new_elimination_queue; taken = none };
    servers = λ k. new_node raft debug;
  }

  abbrev pub with_server : ℕ → Node raft → (ℕ → Node raft) → ℕ → Node raft
  with_server k n servers j = if j == k then n else servers j

  -- A routine of the client adds an operation; `submitOps` takes one; the call at a server does not
  -- succeed, or it does, and then the server has answered that operation with `OK`; a server takes a
  -- step, for this client, for another one, or for its Raft.
  pub data WorldStep (w : World raft) : World raft → Type 0 where
    client_adds : (op : Op C) → WorldStep w (record w { client = step w.client (adds op) })
    client_gets : WorldStep w (record w { client = step w.client gets })
    client_fails : WorldStep w (record w { client = step w.client fails })
    client_succeeds :
        (k : ℕ) (op : Op C)
        → w.client.taken ≡ some op
        → IsAccepted op (w.servers k).system.answers
        → WorldStep w (record w { client = step w.client succeeds })
    server_steps :
        (k : ℕ) (s : Step C) (n : Node raft)
        → step_node raft debug (w.servers k) s ≡ some n
        → WorldStep w (record w { servers = with_server k n w.servers })

  pub data Reachable : World raft → Type 0 where
    at_start : Reachable new_world
    after : (w w' : World raft) → Reachable w → WorldStep w w' → Reachable w'
