-- ===== src/Client/Timeouts.antt =====
-- When `aborter` of anonbcast/client.go aborts a round, and for how long it sleeps.
use eggscrambler.Base.{ℕ, ◌+◌, ◌≤◌, ◌<◌, ◌≡◌, refl, Bool, Option, none, some, pos, negsuc, arith}
use eggscrambler.StateMachine.Types.{Phase, StateMachine}
use eggscrambler.StateMachine.Machine.{current_round_info}
use eggscrambler.StateMachine.Checked.{deep_copy_checked}
use eggscrambler.StateMachine.Invariant.{IsOpen}
use eggscrambler.StateMachine.Run.{MachineInv, current-IsOpen}
use eggscrambler.StateMachine.Copied.{deep_copy_machine-current}
use eggscrambler.StateMachine.Debug.{deep_copy_checked-deep_copy_machine}
use eggscrambler.Client.LastUpdate.{LastStateMachine}
use eggscrambler.Client.Aborter.{
  Timeouts, Watch, watch_panic, watched, copy_last, watch, sleep_checked, aborter_turn,
}

-- The last moment of a phase, if there is one.
abbrev pub deadline : {C : Type 0} → Timeouts → LastStateMachine C → Phase → Option ℕ
deadline conf l Phase.prepare = none
deadline conf l Phase.submit =
    some (l.phase_timestamp + (conf.message_timeout + conf.protocol_timeout))
deadline conf l Phase.reveal = some (l.phase_timestamp + conf.protocol_timeout)
deadline conf l _ = some (l.timestamp + conf.protocol_timeout)

abbrev pub IsWithin : Option ℕ → ℕ → Type 0
IsWithin none now = Unit
IsWithin (some last) now = now ≤ last

abbrev pub IsOver : Option ℕ → ℕ → Type 0
IsOver none now = ⊥
IsOver (some last) now = last < now

-- A turn does not panic. It aborts just this round, if the deadline is over, and then sleeps for the
-- protocol timeout; otherwise it sleeps for no longer than that, and not past the deadline.
abbrev pub IsTimely : (timeout round : ℕ) (last : Option ℕ) (now : ℕ) → Watch → Type 0
IsTimely timeout round last now watch_panic = ⊥
IsTimely timeout round last now (watched a (negsuc n)) = ⊥
IsTimely timeout round last now (watched none (pos n)) = (n ≤ timeout) × IsWithin last (now + n)
IsTimely timeout round last now (watched (some r) (pos n)) =
    (n ≡ timeout) × (r ≡ round) × IsOver last now

module _ {C : Type 0} (debug : Bool) (conf : Timeouts) (now : ℕ) where
  watch-IsTimely :
      (l : LastStateMachine C) (round : ℕ) (ph : Phase)
      → l.sm.round ≡ round
      → l.timestamp ≤ now
      → l.phase_timestamp ≤ now
      → IsOpen ph
      → IsTimely conf.protocol_timeout round
          (deadline conf l ph)
          now
          (sleep_checked debug (watch debug conf now l ph))
  unfolding watch
  watch-IsTimely l round Phase.prepare e h k o = ground arith
  watch-IsTimely l round Phase.submit e h k o = ground arith
  watch-IsTimely l round Phase.encrypt e h k o = ground arith
  watch-IsTimely l round Phase.scramble e h k o = ground arith
  watch-IsTimely l round Phase.decrypt e h k o = ground arith
  watch-IsTimely l round Phase.reveal e h k o = ground arith
  watch-IsTimely l round Phase.unset e h k o = absurd o
  watch-IsTimely l round Phase.done e h k o = absurd o
  watch-IsTimely l round Phase.failed e h k o = absurd o

  -- If the state that was last seen is in order, and `DeepCopy` returns a copy of it (with the
  -- assertions on or off, as the client runs), a turn of `aborter` does not panic, also in its own
  -- assertions if they are on. It aborts a round only if the deadline of its phase is over, and
  -- then the round that was last seen, and sleeps for the protocol timeout; otherwise it sleeps for no
  -- longer than that, and wakes up before the deadline is over.
  pub aborter_turn-IsTimely :
      (l : LastStateMachine C) (copy : StateMachine C)
      → MachineInv l.sm
      → deep_copy_checked debug l.sm ≡ some copy
      → l.timestamp ≤ now
      → l.phase_timestamp ≤ now
      → IsTimely conf.protocol_timeout l.sm.round
          (deadline conf l (current_round_info l.sm).phase)
          now
          (aborter_turn debug conf now l)
  unfolding aborter_turn copy_last
  aborter_turn-IsTimely l copy v e h k =
      let (round, ph) =
        deep_copy_machine-current l.sm copy
          (deep_copy_checked-deep_copy_machine debug l.sm copy e) in
      let l' : LastStateMachine C = record l { sm = copy } in
      let copied : copy_last debug l ≡ some l' = rw (e, copy_last) refl in
      let turn : aborter_turn debug conf now l
          ≡ sleep_checked debug (watch debug conf now l' (current_round_info copy).phase) =
        rw (copied, aborter_turn) refl in
      rw (turn, ph)
        (watch-IsTimely l' l.sm.round (current_round_info l.sm).phase round h k
          (current-IsOpen l.sm v))
