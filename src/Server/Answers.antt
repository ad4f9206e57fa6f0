-- ===== src/Server/Answers.antt =====
-- What an answer of the server of anonbcast/server.go tells: a client that is told `OK` need not
-- submit the operation again.
use eggscrambler.Base.{
  ℕ, ◌≡◌, Bool, true, false, Option, none, some, List, [], ◌∷◌, ◌⊎◌, inl, inr, arith, Option-cases,
}
use eggscrambler.StateMachine.Types.{StateMachine}
use eggscrambler.StateMachine.Ops.{Op}
use eggscrambler.StateMachine.Machine.{apply}
use eggscrambler.StateMachine.Run.{new_state_machine-MachineInv}
use eggscrambler.StateMachine.Monotone.{no_effect-now}
use eggscrambler.Server.RespChannels.{find, get}
use eggscrambler.Server.Core.{
  new_server, command, raft_update, snapshot, configuration, no_message, Err, ok, err_wrong_leader,
}
use eggscrambler.Server.System.{
  Event, submits, receives, opens, closes, System, new_system, happen, run_system, applied_after,
  note_start, IsFaithful,
}
use eggscrambler.Server.Settled.{IsIn, AllSettled, Sound, submits-Sound}
use eggscrambler.Server.Kept.{refused-Sound, other-Sound, cleared-Sound, command-Sound}

module _ {C : Type 0} where
  -- The operations that were answered with `OK` have been applied, or have no effect.
  abbrev pub AllDone : List (Op C) → StateMachine C → List (Op C × Err) → Type 0
  AllDone ops sm [] = Unit
  AllDone ops sm ((op, err_wrong_leader) ∷ rs) = AllDone ops sm rs
  AllDone ops sm ((op, ok) ∷ rs) =
      (IsIn op ops ⊎ (apply sm op ≡ some (sm, false))) × AllDone ops sm rs

  pub settled-AllDone :
      (ops : List (Op C)) (sm : StateMachine C) (rs : List (Op C × Err))
      → AllSettled ops sm rs
      → AllDone ops sm rs
  settled-AllDone ops sm [] h = tt
  settled-AllDone ops sm ((op, err_wrong_leader) ∷ rs) h = settled-AllDone ops sm rs h.1
  settled-AllDone ops sm ((op, ok) ∷ rs) (inl k, h) = (inl k, settled-AllDone ops sm rs h)
  settled-AllDone ops sm ((op, ok) ∷ rs) (inr k, h) =
      (inr (no_effect-now sm op k), settled-AllDone ops sm rs h)

  pub new_system-Sound : Sound (λ t i. none) [] (new_system {C = C})
  unfolding new_server get find
  new_system-Sound = record {
    machine = new_state_machine-MachineInv;
    below = λ t i ch g. ground arith;
    matches = λ t i ch op g f. ground arith;
    settled = tt;
  }

  -- What an event changes in the ghost state.
  abbrev pub started_by : (ℕ → ℕ → Option (Op C)) → Event C → ℕ → ℕ → Option (Op C)
  started_by started (submits op (some (term, index))) = note_start started term index op
  started_by started e = started

  module _ (debug : Bool) where
    pub happen-Sound :
        (e : Event C) (es : List (Event C)) (started : ℕ → ℕ → Option (Op C)) (ops : List (Op C))
        (sys sys' : System C)
        → IsFaithful started (e ∷ es)
        → happen debug sys e ≡ some sys'
        → Sound started ops sys
        → Sound (started_by started e) (applied_after ops (e ∷ [])) sys'
          × IsFaithful (started_by started e) es
    happen-Sound (submits op none) es started ops sys sys' f h s =
        (refused-Sound started ops debug sys sys' s op h, f)
    happen-Sound (submits op (some (term, index))) es started ops sys sys' (free, f) h s =
        (submits-Sound started ops debug sys sys' op term index free h s, f)
    happen-Sound (receives (command t i op)) es started ops sys sys' (that, f) h s =
        (command-Sound started ops debug sys sys' s t i op that h, f)
    happen-Sound (receives (raft_update false)) es started ops sys sys' f h s =
        (cleared-Sound started ops debug sys sys' s h, f)
    happen-Sound (receives (raft_update true)) es started ops sys sys' f h s =
        (other-Sound started ops debug sys sys' s (receives (raft_update true)) tt h, f)
    happen-Sound (receives snapshot) es started ops sys sys' f h s =
        (other-Sound started ops debug sys sys' s (receives snapshot) tt h, f)
    happen-Sound (receives (configuration conf)) es started ops sys sys' f h s =
        (other-Sound started ops debug sys sys' s (receives (configuration conf)) tt h, f)
    happen-Sound (receives no_message) es started ops sys sys' f h s =
        (other-Sound started ops debug sys sys' s (receives no_message) tt h, f)
    happen-Sound opens es started ops sys sys' f h s =
        (other-Sound started ops debug sys sys' s opens tt h, f)
    happen-Sound (closes i) es started ops sys sys' f h s =
        (other-Sound started ops debug sys sys' s (closes i) tt h, f)

    applied_after-cons :
        (ops : List (Op C)) (e : Event C) (es : List (Event C))
        → applied_after (applied_after ops (e ∷ [])) es ≡ applied_after ops (e ∷ es)
    applied_after-cons ops e es = ground arith

    run_system-AllSettled :
        (es : List (Event C)) (started : ℕ → ℕ → Option (Op C)) (ops : List (Op C))
        (sys sys' : System C)
        → IsFaithful started es
        → run_system debug sys es ≡ some sys'
        → Sound started ops sys
        → AllSettled (applied_after ops es) sys'.server.sm sys'.answers
    unfolding run_system
    run_system-AllSettled [] started ops sys sys' f h s =
        let same : sys ≡ sys' = ground arith in rw (← same) s.settled
    run_system-AllSettled (e ∷ es) started ops sys sys' f h s =
        elim (Option-cases (happen debug sys e)) [
          | inl q ↦ absurd (ground (arith, rw (q, run_system) at h))
          | inr (sys1, q) ↦
              let (s1, f1) = happen-Sound e es started ops sys sys1 f q s in
              rw (← applied_after-cons ops e es) (
                run_system-AllSettled es (started_by started e) (applied_after ops (e ∷ [])) sys1
                  sys' f1 (rw (q, run_system) at h) s1)
        ]

    -- Whatever happens at a new server, in whatever order, as long as Raft gives each started command
    -- a term and an index of its own and commits that command there: each operation that was answered
    -- with `OK` has been applied to the state machine of the server, or `Apply` has no effect for it
    -- in the present state.
    pub run_system-AllDone :
        (es : List (Event C)) (sys : System C)
        → IsFaithful (λ t i. none) es
        → run_system debug new_system es ≡ some sys
        → AllDone (applied_after [] es) sys.server.sm sys.answers
    run_system-AllDone es sys f h =
        settled-AllDone (applied_after [] es) sys.server.sm sys.answers
          (run_system-AllSettled es (λ t i. none) [] new_system sys f h new_system-Sound)
