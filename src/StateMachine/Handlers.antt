-- ===== src/StateMachine/Handlers.antt =====
-- The handlers of anonbcast/statemachine.go, each on the current round's `RoundInfo`, which the Go
-- methods reach through the pointer `sm.CurrentRoundInfo()`.
use eggscrambler.Base.{
  true, false, none, some, [], ◌∷◌, ◌++◌, ◌==◌, ◌==ℤ◌, pos, if◌then◌else◌, length, get_elem?, set,
  write,
}
use eggscrambler.Crypto.Bytes.{nil_msg, nil_private_key}
use eggscrambler.StateMachine.Types.{Phase, RoundInfo}
use eggscrambler.StateMachine.Ops.{
  Op, join_op, start_op, message_op, encrypted_op, scrambled_op, decrypted_op, reveal_op, abort_op,
  JoinOp, StartOp, MessageOp, EncryptedOp, ScrambledOp, DecryptedOp, RevealOp, AbortOp,
}
use eggscrambler.StateMachine.Round.{
  Outcome, panic, ignored, updated, ended, phase_eq, participant_index, count_true, any_msg_nil,
  any_key_nil,
}

module _ {C : Type 0} where
  unfoldable pub join : RoundInfo C → JoinOp → Outcome C
  join ri op =
      if phase_eq ri.phase Phase.prepare
      then elim (participant_index ri op.id) [
        | some p ↦ ignored
        | none ↦ updated (record ri {
          participants = ri.participants ++ op.id ∷ [];
          messages = ri.messages ++ nil_msg ∷ [];
          encrypted = ri.encrypted ++ false ∷ [];
          scrambled = ri.scrambled ++ false ∷ [];
          decrypted = ri.decrypted ++ false ∷ [];
          revealed_keys = ri.revealed_keys ++ nil_private_key ∷ [];
          reveal_key_hashes = ri.reveal_key_hashes ++ [] ∷ [];
        })
      ]
      else ignored

  unfoldable pub start : RoundInfo C → StartOp C → Outcome C
  start ri op =
      if phase_eq ri.phase Phase.prepare
      then updated (record ri { phase = Phase.submit; crypto = op.crypto })
      else ignored

  -- The end of `message`: on to the next phase once every message is there.
  unfoldable pub close_submit : RoundInfo C → Outcome C
  close_submit ri =
      if any_msg_nil ri.messages then updated ri else updated (record ri { phase = Phase.encrypt })

  unfoldable pub message : RoundInfo C → MessageOp → Outcome C
  unfolding close_submit
  message ri op =
      if phase_eq ri.phase Phase.submit
      then elim (participant_index ri op.id) [
        | none ↦ ignored
        | some p ↦ elim (write ri.messages p op.message) [
          | none ↦ panic
          | some ms ↦ elim (write ri.reveal_key_hashes p op.reveal_key_hash) [
            | none ↦ panic
            | some hs ↦ close_submit (record ri { messages = ms; reveal_key_hashes = hs })
          ]
        ]
      ]
      else ignored

  unfoldable pub encrypted : RoundInfo C → EncryptedOp → Outcome C
  encrypted ri op =
      if phase_eq ri.phase Phase.encrypt
      then elim (participant_index ri op.id) [
        | none ↦ ignored
        | some p ↦
            if pos (count_true ri.encrypted) ==ℤ op.prev
            then elim (get_elem? ri.encrypted p) [
              | none ↦ panic
              | some true ↦ ignored
              | some false ↦
                  let flags = set ri.encrypted p true in
                  updated (record ri {
                    messages = op.messages;
                    encrypted = flags;
                    phase = if count_true flags == length flags then Phase.scramble else ri.phase;
                  })
            ]
            else ignored
      ]
      else ignored

  unfoldable pub scrambled : RoundInfo C → ScrambledOp → Outcome C
  scrambled ri op =
      if phase_eq ri.phase Phase.scramble
      then elim (participant_index ri op.id) [
        | none ↦ ignored
        | some p ↦
            if count_true ri.scrambled == p
            then elim (get_elem? ri.scrambled p) [
              | none ↦ panic
              | some true ↦ ignored
              | some false ↦
                  let flags = set ri.scrambled p true in
                  updated (record ri {
                    messages = op.messages;
                    scrambled = flags;
                    phase = if count_true flags == length flags then Phase.decrypt else ri.phase;
                  })
            ]
            else ignored
      ]
      else ignored

  unfoldable pub decrypted : RoundInfo C → DecryptedOp → Outcome C
  decrypted ri op =
      if phase_eq ri.phase Phase.decrypt
      then elim (participant_index ri op.id) [
        | none ↦ ignored
        | some p ↦
            if pos (count_true ri.decrypted) ==ℤ op.prev
            then elim (get_elem? ri.decrypted p) [
              | none ↦ panic
              | some true ↦ ignored
              | some false ↦
                  let flags = set ri.decrypted p true in
                  updated (record ri {
                    messages = op.messages;
                    decrypted = flags;
                    phase = if count_true flags == length flags then Phase.reveal else ri.phase;
                  })
            ]
            else ignored
      ]
      else ignored

  -- The end of `reveal`: once every key is there the round is done.
  unfoldable pub close_reveal : RoundInfo C → Outcome C
  close_reveal ri =
      if any_key_nil ri.revealed_keys then updated ri else ended (record ri { phase = Phase.done })

  unfoldable pub reveal : RoundInfo C → RevealOp → Outcome C
  unfolding close_reveal
  reveal ri op =
      if phase_eq ri.phase Phase.reveal
      then elim (participant_index ri op.id) [
        | none ↦ ignored
        | some p ↦ elim (write ri.revealed_keys p op.reveal_key) [
          | none ↦ panic
          | some ks ↦ close_reveal (record ri { revealed_keys = ks })
        ]
      ]
      else ignored

  unfoldable pub abort : RoundInfo C → AbortOp → Outcome C
  abort ri op = ended (record ri { phase = Phase.failed })

  -- The `switch` of `Apply`.
  unfoldable pub dispatch : RoundInfo C → Op C → Outcome C
  dispatch ri (join_op op) = join ri op
  dispatch ri (start_op op) = start ri op
  dispatch ri (message_op op) = message ri op
  dispatch ri (encrypted_op op) = encrypted ri op
  dispatch ri (scrambled_op op) = scrambled ri op
  dispatch ri (decrypted_op op) = decrypted ri op
  dispatch ri (reveal_op op) = reveal ri op
  dispatch ri (abort_op op) = abort ri op
