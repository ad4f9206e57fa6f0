-- ===== src/Together/Tests.antt =====
-- A client that adds an operation, submits it to a server, and finishes it.
use eggscrambler.Base.{ℕ, true, Option, none, some, pos}
use eggscrambler.StateMachine.Ops.{Op, join_op}
use eggscrambler.Raft.Interface.{Raft}
use eggscrambler.Raft.Node.{asks, delivers, Node, step_node, new_node}
use eggscrambler.Raft.Mock.{mockraft}
use eggscrambler.Queue.Usage.{adds, gets, succeeds, step}
use eggscrambler.Queue.Elimination.{finish, drop_finished}
use eggscrambler.Together.World.{World, new_world, with_server}

abbrev mock : Raft ℕ
mock = mockraft

abbrev join_first : Op ℕ
join_first = join_op (record { id = 4; r = pos 0 })

abbrev get_node : Option (Node mock) → Node mock
get_node none = new_node mock true
get_node (some n) = n

abbrev asked : Node mock
asked = get_node (step_node mock true (new_node mock true) (asks join_first))

abbrev served : Node mock
served = get_node (step_node mock true asked (delivers 1))

abbrev added : World mock
added = record (new_world mock true) {
  client = step ((new_world mock true).client) (adds join_first);
}

abbrev taken : World mock
taken = record added { client = step (added.client) gets }

abbrev submitted : World mock
submitted = record taken { servers = with_server mock true 0 asked (taken.servers) }

abbrev applied : World mock
applied = record submitted { servers = with_server mock true 0 served (submitted.servers) }

abbrev finished : World mock
finished = record applied { client = step (applied.client) succeeds }
