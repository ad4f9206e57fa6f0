-- ===== src/Server/Core.antt =====
-- anonbcast/server.go: the state of a server and its methods. What Raft answers to `Start` is an
-- argument. A channel for a response is a number, as each is made by just one call of `SubmitOp`; a
-- channel for updates is the list of what has been sent on it.
use eggscrambler.Base.{
  ℕ, suc, if◌then◌else◌, Bool, true, false, Option, none, some, List, [], ◌∷◌, ◌++◌, map,
}
use eggscrambler.StateMachine.Types.{StateMachine}
use eggscrambler.StateMachine.Ops.{Op}
use eggscrambler.StateMachine.Machine.{apply, new_state_machine}
use eggscrambler.StateMachine.Order.{guaranteed_no_effect}
use eggscrambler.StateMachine.Copy.{deep_copy_machine}
use eggscrambler.Server.RespChannels.{find, delete, get, create, closed_by_clear, new_resp_channels}

-- Which servers are in the configuration.
abbrev pub Configuration : Type 0
Configuration = List (ℕ × Bool)

pub data UpdateMsg (C : Type 0) : Type 0 where
  machine_update : StateMachine C → UpdateMsg C
  configuration_update : Configuration → UpdateMsg C

pub data Err : Type 0 where
  ok err_wrong_leader : Err

-- What Raft sends: a committed command with its term and index, whether this server leads, a
-- snapshot, a configuration, or none of these.
pub data ApplyMsg (C : Type 0) : Type 0 where
  command : ℕ → ℕ → Op C → ApplyMsg C
  raft_update : Bool → ApplyMsg C
  snapshot : ApplyMsg C
  configuration : Configuration → ApplyMsg C
  no_message : ApplyMsg C

pub record Server (C : Type 0) : Type 0 where
  pub sm : StateMachine C
  pub upd_chs : List (ℕ × List (UpdateMsg C))
  pub upd_ch_index : ℕ
  pub resps : List (ℕ × List (ℕ × ℕ))
  pub next_channel : ℕ

-- `SubmitOp` up to where it waits for a response.
pub data Submission (C : Type 0) : Type 0 where
  submit_panic : Submission C
  answered : Err → Submission C
  waiting : Server C → ℕ → Submission C

-- `IsLeader`, from what Raft says.
abbrev pub is_leader : Bool → Err
is_leader leads = if leads then ok else err_wrong_leader

-- The end of `SubmitOp`: what was received on the channel, false if it was closed.
abbrev pub reply_to : Bool → Err
reply_to resp = if resp then ok else err_wrong_leader

-- What is sent on the channel of a command that was applied.
abbrev pub response : Option ℕ → List (ℕ × Bool)
response none = []
response (some ch) = (ch, true) ∷ []

module _ {C : Type 0} where
  unfoldable pub new_server : Server C
  new_server = record {
    sm = new_state_machine;
    upd_chs = [];
    upd_ch_index = 0;
    resps = new_resp_channels;
    next_channel = 0;
  }

  -- A channel is made for the term and index of the started command.
  abbrev pub create_channel : Bool → Server C → ℕ → ℕ → Submission C
  create_channel debug s term index = elim (create debug s.resps term index s.next_channel) [
    | none ↦ submit_panic
    | some r ↦ waiting (record s { resps = r; next_channel = suc s.next_channel }) s.next_channel
  ]

  -- `start` is what Raft answers: the term and index of the command, or that it does not lead.
  unfoldable pub submit_op : Bool → Server C → Op C → Option (ℕ × ℕ) → Submission C
  submit_op debug s op start = if guaranteed_no_effect s.sm op then answered ok else elim start [
    | none ↦ answered err_wrong_leader
    | some (term, index) ↦ create_channel debug s term index
  ]

  -- Each channel is sent a copy of its own.
  unfoldable pub send_copies :
      StateMachine C → List (ℕ × List (UpdateMsg C)) → Option (List (ℕ × List (UpdateMsg C)))
  send_copies sm [] = some []
  send_copies sm ((i, sent) ∷ chs) =
      let rest = send_copies sm chs in
      elim (deep_copy_machine sm) [
        | none ↦ none
        | some copy ↦ elim rest [
          | none ↦ none
          | some chs' ↦ some ((i, sent ++ machine_update copy ∷ []) ∷ chs')
        ]
      ]

  unfoldable pub send_state_machine_update : Server C → Option (Server C)
  send_state_machine_update s = elim (send_copies s.sm s.upd_chs) [
    | none ↦ none
    | some chs ↦ some (record s { upd_chs = chs })
  ]

  unfoldable pub send_configuration_update : Server C → Configuration → Server C
  send_configuration_update s conf = record s {
    upd_chs = map (λ (i, sent). (i, sent ++ configuration_update conf ∷ [])) s.upd_chs;
  }

  -- A new channel, on which the state is sent at once.
  unfoldable pub get_upd_ch : Server C → Option (Server C × ℕ)
  get_upd_ch s = elim (deep_copy_machine s.sm) [
    | none ↦ none
    | some copy ↦
        let index = s.upd_ch_index in
        some (
          record s {
            upd_chs = (index, machine_update copy ∷ []) ∷ s.upd_chs;
            upd_ch_index = suc index;
          },
          index,
        )
  ]

  -- Closing a missing channel is a panic.
  unfoldable pub close_upd_ch : Server C → ℕ → Option (Server C)
  close_upd_ch s index = elim (find index s.upd_chs) [
    | none ↦ none
    | some sent ↦ some (record s { upd_chs = delete index s.upd_chs })
  ]

  -- A turn of `applier`, with the responses that it gives; closing a channel counts as false.
  unfoldable pub apply_msg : Bool → Server C → ApplyMsg C → Option (Server C × List (ℕ × Bool))
  apply_msg debug s (command term index op) = elim (apply s.sm op) [
    | none ↦ none
    | some (sm', updated) ↦
        let s' = record s { sm = sm' } in
        let resp = response (get s.resps term index) in
        if updated
        then elim (send_state_machine_update s') [ none ↦ none | some s'' ↦ some (s'', resp) ]
        else some (s', resp)
  ]
  apply_msg debug s (raft_update leads) =
      if leads
      then some (s, [])
      else some (
        record s { resps = new_resp_channels },
        map (λ ch. (ch, false)) (closed_by_clear s.resps),
      )
  apply_msg debug s snapshot = if debug then none else some (s, [])
  apply_msg debug s (configuration conf) = some (send_configuration_update s conf, [])
  apply_msg debug s no_message = if debug then none else some (s, [])
