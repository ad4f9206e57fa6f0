-- ===== src/Server/System.antt =====
-- A server of anonbcast/server.go with the calls of its methods and the messages of Raft, in whatever
-- order: the calls of `SubmitOp` that wait, and the answers that have been given.
use eggscrambler.Base.{ℕ, ◌≡◌, ◌==◌, ◌&&◌, if◌then◌else◌, Bool, Option, none, some, List, [], ◌∷◌}
use eggscrambler.StateMachine.Ops.{Op}
use eggscrambler.Server.RespChannels.{find, delete}
use eggscrambler.Server.Core.{
  Server, new_server, ApplyMsg, command, Submission, submit_panic, answered, waiting, Err,
  submit_op, apply_msg, reply_to, get_upd_ch, close_upd_ch,
}

-- `SubmitOp` with what Raft answers to `Start`, a message of Raft, `GetUpdCh` and `CloseUpdCh`.
pub data Event (C : Type 0) : Type 0 where
  submits : Op C → Option (ℕ × ℕ) → Event C
  receives : ApplyMsg C → Event C
  opens : Event C
  closes : ℕ → Event C

pub record System (C : Type 0) : Type 0 where
  pub server : Server C
  pub pending : List (ℕ × Op C)
  pub answers : List (Op C × Err)

module _ {C : Type 0} where
  abbrev pub new_system : System C
  new_system = record { server = new_server; pending = []; answers = [] }

  -- A response reaches the call that waits for it. To close a channel on which nobody waits changes
  -- nothing, but `applier` would block forever sending on it.
  unfoldable pub deliver : System C → ℕ × Bool → Option (System C)
  deliver sys (ch, resp) = elim (find ch sys.pending) [
    | none ↦ if resp then none else some sys
    | some op ↦ some (record sys {
      pending = delete ch sys.pending;
      answers = (op, reply_to resp) ∷ sys.answers;
    })
  ]

  unfoldable pub deliver_all : System C → List (ℕ × Bool) → Option (System C)
  deliver_all sys [] = some sys
  deliver_all sys (r ∷ rs) = elim (deliver sys r) [ none ↦ none | some sys' ↦ deliver_all sys' rs ]

  abbrev pub after_submission : System C → Op C → Submission C → Option (System C)
  after_submission sys op submit_panic = none
  after_submission sys op (answered e) = some (record sys { answers = (op, e) ∷ sys.answers })
  after_submission sys op (waiting s ch) =
      some (record sys { server = s; pending = (ch, op) ∷ sys.pending })

  -- `none` is a panic, or that `applier` blocks.
  unfoldable pub happen : Bool → System C → Event C → Option (System C)
  happen debug sys (submits op start) =
      after_submission sys op (submit_op debug sys.server op start)
  happen debug sys (receives msg) = elim (apply_msg debug sys.server msg) [
    | none ↦ none
    | some (s, rs) ↦ deliver_all (record sys { server = s }) rs
  ]
  happen debug sys opens = elim (get_upd_ch sys.server) [
    | none ↦ none
    | some (s, i) ↦ some (record sys { server = s })
  ]
  happen debug sys (closes i) = elim (close_upd_ch sys.server i) [
    | none ↦ none
    | some s ↦ some (record sys { server = s })
  ]

  unfoldable pub run_system : Bool → System C → List (Event C) → Option (System C)
  run_system debug sys [] = some sys
  run_system debug sys (e ∷ es) = elim (happen debug sys e) [
    | none ↦ none
    | some sys' ↦ run_system debug sys' es
  ]

  -- The operations that have been applied, the last one first.
  abbrev pub applied_after : List (Op C) → List (Event C) → List (Op C)
  applied_after ops [] = ops
  applied_after ops (receives (command term index op) ∷ es) = applied_after (op ∷ ops) es
  applied_after ops (e ∷ es) = applied_after ops es

  -- What Raft promises: `Start` gives each command a term and index of its own, and what is
  -- committed there is that command.
  abbrev pub note_start : (ℕ → ℕ → Option (Op C)) → ℕ → ℕ → Op C → ℕ → ℕ → Option (Op C)
  note_start started term index op t i = if t == term && (i == index) then some op else started t i

  abbrev pub IsThat : Option (Op C) → Op C → Type 0
  IsThat none op = Unit
  IsThat (some op') op = op' ≡ op

  abbrev pub IsFaithful : (ℕ → ℕ → Option (Op C)) → List (Event C) → Type 0
  IsFaithful started [] = Unit
  IsFaithful started (submits op (some (term, index)) ∷ es) =
      (started term index ≡ none) × IsFaithful (note_start started term index op) es
  IsFaithful started (receives (command term index op) ∷ es) =
      IsThat (started term index) op × IsFaithful started es
  IsFaithful started (e ∷ es) = IsFaithful started es
