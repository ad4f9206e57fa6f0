-- ===== src/Client/Aborter.antt =====
-- anonbcast/client.go: `aborter`, the loop that aborts a round in which nothing happens, and the
-- `deepCopy` of anonbcast/laststatemachine.go that it reads. Times and durations are natural numbers,
-- as the clock of the program never goes back.
use eggscrambler.Base.{
  ℕ, ◌+◌, ◌-◌, ltb, if◌then◌else◌, Bool, Option, none, some, ℤ, pos, negsuc, ltb_ℤ,
}
use eggscrambler.StateMachine.Types.{Phase}
use eggscrambler.StateMachine.Machine.{current_round_info}
use eggscrambler.StateMachine.Checked.{deep_copy_checked}
use eggscrambler.Client.LastUpdate.{LastStateMachine}

-- `ClientConfig`; the message size stands in the steps that use it.
pub record Timeouts : Type 0 where
  pub message_timeout : ℕ
  pub protocol_timeout : ℕ

-- A turn of the loop: a panic, or the round that it aborts, if any, and the time that it sleeps.
pub data Watch : Type 0 where
  watch_panic : Watch
  watched : Option ℕ → ℤ → Watch

abbrev pub min : ℕ → ℕ → ℕ
min a b = if ltb a b then a else b

-- The assertion at the end of a turn.
abbrev pub sleep_checked : Bool → Watch → Watch
sleep_checked debug watch_panic = watch_panic
sleep_checked debug (watched a sleep) =
    if debug then if ltb_ℤ sleep (pos 0) then watch_panic else watched a sleep else watched a sleep

module _ {C : Type 0} where
  -- `lastStateMachine.deepCopy`
  unfoldable pub copy_last : Bool → LastStateMachine C → Option (LastStateMachine C)
  copy_last debug l = elim (deep_copy_checked debug l.sm) [
    | none ↦ none
    | some copy ↦ some (record l { sm = copy })
  ]

  -- The case of a phase that lasts `timeout` at most: `since` is the time that has passed, and `rest`
  -- the time to sleep otherwise.
  abbrev pub abort_after : Timeouts → LastStateMachine C → (timeout since rest : ℕ) → Watch
  abort_after conf l timeout since rest =
      if ltb timeout since
      then watched (some l.sm.round) (pos conf.protocol_timeout)
      else watched none (pos rest)

  -- The `switch` on the phase.
  unfoldable pub watch : Bool → Timeouts → ℕ → LastStateMachine C → Phase → Watch
  watch debug conf now l Phase.prepare = watched none (pos conf.protocol_timeout)
  watch debug conf now l Phase.submit =
      let timeout = conf.message_timeout + conf.protocol_timeout in
      let since = now - l.phase_timestamp in
      abort_after conf l timeout since (min conf.protocol_timeout (timeout - since))
  watch debug conf now l Phase.reveal =
      let since = now - l.phase_timestamp in
      abort_after conf l conf.protocol_timeout since (conf.protocol_timeout - since)
  watch debug conf now l Phase.unset = if debug then watch_panic else watched none (negsuc 0)
  watch debug conf now l Phase.done = if debug then watch_panic else watched none (negsuc 0)
  watch debug conf now l Phase.failed = if debug then watch_panic else watched none (negsuc 0)
  watch debug conf now l _ =
      let since = now - l.timestamp in
      abort_after conf l conf.protocol_timeout since (conf.protocol_timeout - since)

  unfoldable pub aborter_turn : Bool → Timeouts → ℕ → LastStateMachine C → Watch
  unfolding watch copy_last
  aborter_turn debug conf now l = elim (copy_last debug l) [
    | none ↦ watch_panic
    | some l' ↦ sleep_checked debug (watch debug conf now l' (current_round_info l'.sm).phase)
  ]
