-- ===== src/Raft/Interface.antt =====
-- What anonbcast/server.go uses of the interface `Raft` of libraft/raft.go: `Start` and the messages of
-- the channel that it applies, and what it relies on.
use eggscrambler.Base.{ℕ, ◌≡◌, Bool, false, Option, none, some}
use eggscrambler.StateMachine.Ops.{Op}
use eggscrambler.Server.Core.{ApplyMsg}
use eggscrambler.Server.System.{submits, receives, note_start}
use eggscrambler.Server.Owed.{IsAllowed, IsAhead}
use eggscrambler.Server.Waits.{delivered_by, IsNew}

pub record Raft (C : Type 0) : Type 1 where
  pub State : Type 0
  pub initial : State
  -- `Start`: the term and the index of the command, if this server leads.
  pub start : State → Op C → State × Option (ℕ × ℕ)
  -- A message that may be received next: there may be several, in an order that nobody controls.
  pub receive : State → ℕ → Option (State × ApplyMsg C)

abbrev pub IsStarted :
    {C : Type 0}
    → (ℕ → ℕ → Option (Op C))
    → Op C
    → Option (ℕ × ℕ)
    → (ℕ → ℕ → Option (Op C))
    → Type 0
IsStarted log op none log' = log' ≡ log
IsStarted log op (some (term, index)) log' =
    (log term index ≡ none) × (log' ≡ note_start log term index op)

-- `Start` gives each command a term and index of its own, where nothing is committed yet; what is committed there is that command;
-- nothing is committed at one term and index twice.
pub record RaftLaws {C : Type 0} (raft : Raft C) : Type 1 where
  pub Inv : raft.State → Type 0
  pub log : raft.State → ℕ → ℕ → Option (Op C)
  pub delivered : raft.State → ℕ → ℕ → Bool
  pub initial_inv : Inv raft.initial
  pub initial_log : log raft.initial ≡ (λ t i. none)
  pub initial_delivered : delivered raft.initial ≡ (λ t i. false)
  pub start_law :
      (s s' : raft.State) (op : Op C) (at : Option (ℕ × ℕ))
      → raft.start s op ≡ (s', at)
      → Inv s
      → Inv s'
        × IsStarted (log s) op at (log s')
        × (delivered s' ≡ delivered s)
        × IsAhead (delivered s) (submits op at)
  pub receive_law :
      (s s' : raft.State) (k : ℕ) (msg : ApplyMsg C)
      → raft.receive s k ≡ some (s', msg)
      → Inv s
      → Inv s'
        × (log s' ≡ log s)
        × (delivered s' ≡ delivered_by (delivered s) (receives msg))
        × IsAllowed (log s) (receives msg)
        × IsNew (delivered s) (receives msg)
