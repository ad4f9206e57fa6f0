-- ===== src/Queue/Elimination.antt =====
-- anonbcast/eliminationqueue.go: the queue. Every method holds the lock from its first line to its
-- last, so a method is one step; the broadcast that wakes `get` changes nothing in the state.
use eggscrambler.Base.{negsuc, Bool, true, false, Option, none, some, List, [], ◌∷◌, if◌then◌else◌}
use eggscrambler.StateMachine.Ops.{Op, abort_op}
use eggscrambler.Queue.Compare.{OpComparison, newer, older, equal, compare}

pub record EliminationQueue (C : Type 0) : Type 0 where
  pub ops : List (Op C)
  pub last_finished : Op C

abbrev pub is_newer : OpComparison → Bool
is_newer newer = true
is_newer _ = false

abbrev pub is_older : OpComparison → Bool
is_older older = true
is_older _ = false

abbrev pub is_equal : OpComparison → Bool
is_equal equal = true
is_equal _ = false

module _ {C : Type 0} where
  unfoldable pub new_elimination_queue : EliminationQueue C
  new_elimination_queue = record { ops = []; last_finished = abort_op (record { r = negsuc 0 }) }

  -- The `if` of `add`: `switch compare(p.ops[0], op)` returns on a pending operation that is as new.
  unfoldable pub place : List (Op C) → Op C → List (Op C)
  place [] op = op ∷ []
  place (x ∷ xs) op = elim (compare x op) [ newer ↦ x ∷ xs | equal ↦ x ∷ xs | _ ↦ op ∷ xs ]

  unfoldable pub add : EliminationQueue C → Op C → EliminationQueue C
  unfolding place
  add q op = if is_newer (compare op q.last_finished) then record q { ops = place q.ops op } else q

  -- `get`; `none` is a call that blocks.
  unfoldable pub get : EliminationQueue C → Option (Op C)
  get q = elim q.ops [ [] ↦ none | x ∷ xs ↦ some x ]

  -- The first `if` of `finish`.
  unfoldable pub drop_finished : List (Op C) → Op C → List (Op C)
  drop_finished [] op = []
  drop_finished (x ∷ xs) op = if is_equal (compare x op) then [] else x ∷ xs

  unfoldable pub finish : EliminationQueue C → Op C → EliminationQueue C
  unfolding drop_finished
  finish q op = record {
    ops = drop_finished q.ops op;
    last_finished = if is_older (compare q.last_finished op) then op else q.last_finished;
  }
