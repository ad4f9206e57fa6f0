-- ===== src/Client/Updates.antt =====
-- anonbcast/client.go: `readUpdates`, the loop that reads the updates of the local server and starts
-- the helpers. Each turn of the loop is a function of its local variables.
use eggscrambler.Base.{
  ℕ, suc, ◌+◌, ◌==◌, if◌then◌else◌, not, ◌&&◌, Bool, false, Option, none, some, List, [], ◌∷◌, ℤ,
  pos, negsuc, ltb_ℤ, ◌==ℤ◌, length, zero, ◌++◌,
}
use eggscrambler.Crypto.Bytes.{Bytes, Msg, nil_private_key}
use eggscrambler.Crypto.Interface.{CommutativeCrypto}
use eggscrambler.StateMachine.Types.{Phase, StateMachine, Uuid}
use eggscrambler.StateMachine.Round.{count_true}
use eggscrambler.StateMachine.Machine.{current_round_info, new_state_machine}
use eggscrambler.StateMachine.Order.{may_precede}
use eggscrambler.Client.Steps.{Keys, Info}
use eggscrambler.Client.Results.{previous, header_length}

-- The local variables; `version` is left to the calls of `set` (LastUpdate).
pub record Locals : Type 0 where
  pub last_result_sent : ℤ
  pub last_message_round : ℤ
  pub keys : Keys
  pub last_key_gen : ℤ
  pub last_hashes : List Bytes
  pub last_messages : List Msg
  pub last_hashes_round : ℤ
  pub last_count : ℕ
  pub last_scrambled_round : ℤ
  pub last_sm : StateMachine CommutativeCrypto

abbrev pub no_keys : Keys
no_keys = record {
  encrypt_key = nil_private_key;
  scramble_key = nil_private_key;
  reveal_key = nil_private_key;
}

unfoldable pub initial_locals : Locals
initial_locals = record {
  last_result_sent = negsuc 0;
  last_message_round = negsuc 0;
  keys = no_keys;
  last_key_gen = negsuc 0;
  last_hashes = [];
  last_messages = [];
  last_hashes_round = negsuc 0;
  last_count = 0;
  last_scrambled_round = negsuc 0;
  last_sm = new_state_machine;
}

-- A goroutine that a turn starts, with the round and what else it is given.
pub data Task : Type 0 where
  report_task : ℕ → List Bytes → ℤ → List Msg → ℕ → Task
  prepare_task : ℕ → Info → Option ℕ → Task
  abort_task : ℕ → Task
  submit_task : ℕ → Info → ℕ → Keys → Task
  encrypt_task : ℕ → Info → ℕ → Keys → Task
  scramble_task : ℕ → Info → ℕ → Keys → Task
  decrypt_task : ℕ → Info → ℕ → Keys → Task
  reveal_task : ℕ → Info → ℕ → Keys → Task

-- A turn ends with new local variables and the tasks it started, or panics.
pub data Turn : Type 0 where
  turn_panic : Turn
  turned : Locals → List Task → Turn

-- The flags of the client as the turn reads them, the keys that `GenKey` would return, and the update.
pub record Input : Type 0 where
  pub active : Bool
  pub leaving : Bool
  pub fresh_keys : Keys
  pub sm : StateMachine CommutativeCrypto

-- The loop that looks for the client: the last place that holds it.
abbrev pub place_from : ℕ → Uuid → List Uuid → Option ℕ
place_from i id [] = none
place_from i id (p ∷ ps) =
    let rest = place_from (suc i) id ps in
    elim rest [ some j ↦ some j | none ↦ if p == id then some i else none ]

-- `assertf`
abbrev pub checked : Bool → Bool → Turn → Turn
checked debug ok t = if debug then if ok then t else turn_panic else t

-- `round - 2`
abbrev pub two_before : ℕ → ℤ
two_before zero = negsuc 1
two_before (suc r) = previous r

abbrev pub prepare_tasks : Input → ℕ → Info → Option ℕ → List Task
prepare_tasks inp round ri me =
    if inp.active && not inp.leaving then prepare_task round ri me ∷ [] else []

-- The case `PreparePhase`.
unfoldable pub on_prepare : Bool → Locals → Input → ℕ → Info → Option ℕ → Turn
on_prepare debug l inp round ri me =
    if ltb_ℤ l.last_result_sent (previous round)
    then checked debug (l.last_result_sent ==ℤ two_before round) (
        turned (record l { last_result_sent = previous round })
          (report_task round l.last_hashes l.last_hashes_round l.last_messages l.last_count
            ∷ prepare_tasks inp round ri me))
    else turned l (prepare_tasks inp round ri me)

-- The end of the case `SubmitPhase`: the user is asked for a message once in a round.
abbrev pub ask_once : Locals → ℕ → Info → ℕ → Turn
ask_once l round ri me =
    if ltb_ℤ l.last_message_round (pos round)
    then turned (record l { last_message_round = pos round }) (submit_task round ri me l.keys ∷ [])
    else turned l []

-- New keys, if `Verify` accepts the crypto for a message with its header.
abbrev pub generate : ℕ → Locals → Input → ℕ → Info → ℕ → Option CommutativeCrypto → Turn
generate max_size l inp round ri me none = turn_panic
generate max_size l inp round ri me (some c) =
    if c.verify (max_size + header_length)
    then ask_once (record l { keys = inp.fresh_keys; last_key_gen = pos round }) round ri me
    else turned l (abort_task round ∷ [])

unfoldable pub on_submit : ℕ → Locals → Input → ℕ → Info → ℕ → Turn
on_submit max_size l inp round ri me =
    if ltb_ℤ l.last_key_gen (pos round)
    then generate max_size l inp round ri me ri.crypto
    else ask_once l round ri me

-- The case `ScramblePhase`: once in a round, and when it is the client's turn.
unfoldable pub on_scramble : Locals → ℕ → Info → ℕ → Turn
on_scramble l round ri me =
    if ltb_ℤ l.last_scrambled_round (pos round)
    then if me == count_true ri.scrambled
      then turned (record l { last_count = length ri.messages; last_scrambled_round = pos round })
          (scramble_task round ri me l.keys ∷ [])
      else turned l []
    else turned l []

-- The case `RevealPhase`: what the client reveals its key for is kept.
unfoldable pub on_reveal : Locals → ℕ → Info → ℕ → Turn
on_reveal l round ri me =
    let l' =
      if ltb_ℤ l.last_hashes_round (pos round)
      then record l {
        last_hashes = ri.reveal_key_hashes;
        last_messages = ri.messages;
        last_hashes_round = pos round;
      }
      else l in
    turned l' (reveal_task round ri me l'.keys ∷ [])

-- A case in which only an active participant has any business.
abbrev pub if_involved : Bool → Option ℕ → Locals → (ℕ → Turn) → Turn
if_involved active none l f = turned l []
if_involved active (some me) l f = if active then f me else turned l []

-- The `switch` on the phase.
abbrev pub on_phase : Bool → ℕ → Locals → Input → ℕ → Info → Option ℕ → Phase → Turn
on_phase debug max_size l inp round ri me Phase.prepare = on_prepare debug l inp round ri me
on_phase debug max_size l inp round ri me Phase.submit =
    if_involved inp.active me l (on_submit max_size l inp round ri)
on_phase debug max_size l inp round ri me Phase.encrypt =
    if_involved inp.active me l (λ i. turned l (encrypt_task round ri i l.keys ∷ []))
on_phase debug max_size l inp round ri me Phase.scramble =
    if_involved inp.active me l (on_scramble l round ri)
on_phase debug max_size l inp round ri me Phase.decrypt =
    if_involved inp.active me l (λ i. turned l (decrypt_task round ri i l.keys ∷ []))
on_phase debug max_size l inp round ri me Phase.reveal =
    if_involved inp.active me l (on_reveal l round ri)
on_phase debug max_size l inp round ri me _ = checked debug false (turned l [])

-- A turn on an update of the state machine.
unfoldable pub on_update : Bool → Uuid → ℕ → Locals → Input → Turn
unfolding on_prepare on_submit on_scramble on_reveal
on_update debug id max_size l inp =
    let ri = current_round_info inp.sm in
    checked debug (may_precede l.last_sm inp.sm) (
      on_phase debug max_size (record l { last_sm = inp.sm }) inp inp.sm.round ri
        (place_from 0 id ri.participants) ri.phase)

-- The tasks of a whole run, to its end or to the turn that panics.
abbrev pub tasks_after : Bool → Uuid → ℕ → Turn → List Input → List Task
tasks_after debug id max_size turn_panic inps = []
tasks_after debug id max_size (turned l ts) [] = ts
tasks_after debug id max_size (turned l ts) (inp ∷ inps) =
    ts ++ tasks_after debug id max_size (on_update debug id max_size l inp) inps
