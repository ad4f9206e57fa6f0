-- ===== src/Client/Peers.antt =====
-- anonbcast/client.go and anonbcast/clientconfigurationchange.go: what a client knows of the servers,
-- and the loops that ask one server after another until the leader answers. The answers to the calls
-- are an argument.
use eggscrambler.Base.{
  ℕ, zero, suc, ◌+◌, ◌%◌, ◌==◌, if◌then◌else◌, Bool, true, false, ◌&&◌, not, Option, none, some,
  List, [], ◌∷◌, map, length, get_elem?, ltb,
}
use eggscrambler.Server.Core.{Configuration, Err, ok, err_wrong_leader}
use eggscrambler.Server.RespChannels.{find}
use eggscrambler.Crypto.Interface.{CommutativeCrypto}
use eggscrambler.StateMachine.Types.{StateMachine, Uuid}
use eggscrambler.StateMachine.Machine.{current_round_info}
use eggscrambler.Client.Updates.{Task, prepare_task, place_from}

pub record Peers : Type 0 where
  pub active : Bool
  pub leaving : Bool
  pub curr_conf : List ℕ
  pub last_known_leader : ℕ

-- `NewClient`, with the assertion that there is a server to ask; `none` is a panic, here and below.
unfoldable pub new_peers : Bool → List ℕ → Option Peers
new_peers debug seed =
    let p : Peers = record {
      active = false;
      leaving = false;
      curr_conf = seed;
      last_known_leader = 0;
    } in
    if debug then if length seed == 0 then none else some p else some p

-- The server that is asked next; an index out of range is a panic.
abbrev pub potential_leader : Peers → Option ℕ
potential_leader p = get_elem? p.curr_conf p.last_known_leader

-- `updateLeader`; the remainder by zero is a panic.
unfoldable pub update_leader : Peers → Option Peers
update_leader p =
    if length p.curr_conf == 0
    then none
    else some (record p { last_known_leader = (p.last_known_leader + 1) % length p.curr_conf })

-- `mapToSlice`, whose order is that of the given list.
abbrev pub map_to_slice : Configuration → List ℕ
map_to_slice conf = map (λ (server, b). server) conf

-- Whether the client's own server is in a configuration.
abbrev pub flags_for : Option Bool → Peers → Peers
flags_for (some b) p = record p { active = true }
flags_for none p = record p { active = false; leaving = false }

-- The lines of `readUpdates` under the lock, for an update of the configuration.
unfoldable pub on_configuration : Bool → ℕ → Configuration → Peers → Option Peers
on_configuration debug server_id conf p =
    let p' : Peers = record (flags_for (find server_id conf) p) {
      curr_conf = map_to_slice conf;
      last_known_leader = 0;
    } in
    if debug then if ltb 0 (length p'.curr_conf) then some p' else none else some p'

-- The lines after them, on the last state machine.
abbrev pub prepare_after : Uuid → Peers → StateMachine CommutativeCrypto → List Task
prepare_after id p sm =
    let ri = current_round_info sm in
    if p.active && not p.leaving
    then prepare_task sm.round ri (place_from 0 id ri.participants) ∷ []
    else []

-- What changes the servers that are asked: an update of the configuration, a call without success,
-- and `BecomeInactive`, which first says that the client leaves.
pub data PeerEvent : Type 0 where
  configured : Configuration → PeerEvent
  call_failed : PeerEvent
  starts_leaving : PeerEvent

abbrev pub peer_step : Bool → ℕ → Peers → PeerEvent → Option Peers
peer_step debug server_id p (configured conf) = on_configuration debug server_id conf p
peer_step debug server_id p call_failed = update_leader p
peer_step debug server_id p starts_leaving = some (record p { leaving = true })

abbrev pub run_peers : Bool → ℕ → Option Peers → List PeerEvent → Option Peers
run_peers debug server_id none es = none
run_peers debug server_id (some p) [] = some p
run_peers debug server_id (some p) (e ∷ es) =
    run_peers debug server_id (peer_step debug server_id p e) es

-- `submitOp`: whether the leader that is asked answers `OK`; a call without an answer is `none`.
abbrev pub submit_op_call : (ℕ → Option Err) → Peers → Option Bool
submit_op_call call p = elim (potential_leader p) [
  | none ↦ none
  | some server ↦ elim (call server) [
    | some ok ↦ some true
    | some err_wrong_leader ↦ some false
    | none ↦ some false
  ]
]

-- What an answer has a loop do: ask the next server, ask the same one again, or end. The value is that
-- of the variable that the loop returns in the end.
pub data Verdict (A : Type 0) : Type 0 where
  ask_next : A → Verdict A
  ask_again : A → Verdict A
  stop : A → Verdict A

pub data Polled (A : Type 0) : Type 0 where
  poll_panic : Polled A
  polling : Peers → Polled A
  polled : A → Peers → Polled A

-- What the rest of the client does at each turn of a loop, which runs beside `readUpdates` and
-- `submitOps`: whether it was killed, and what the other routines make of the shared variables before
-- the loop reads them and while its call is under way.
pub record Surroundings : Type 0 where
  pub killed : ℕ → Bool
  pub before_call : ℕ → Peers → Peers
  pub during_call : ℕ → Peers → Peers

-- At most so many calls; the verdicts depend on the time, counted in calls, and on the server. A client
-- that is killed has the loop return what the variable `last` then holds.
unfoldable pub poll :
    {A : Type 0} → Surroundings → (ℕ → ℕ → Verdict A) → A → ℕ → ℕ → Peers → Polled A
poll around verdict last now zero p = polling p
poll around verdict last now (suc n) p = elim (around.killed now) [
  | true ↦ polled last p
  | false ↦
      let p1 = around.before_call now p in
      let p2 = around.during_call now p1 in
      elim (potential_leader p1) [
        | none ↦ poll_panic
        | some server ↦ elim (verdict now server) [
          | ask_next a ↦ elim (update_leader p2) [
            | none ↦ poll_panic
            | some p3 ↦ poll around verdict a (suc now) n p3
          ]
          | ask_again a ↦ poll around verdict a (suc now) n p2
          | stop a ↦ polled a p2
        ]
      ]
]

-- `InConfigurationReply`
pub record InConfigurationReply : Type 0 where
  pub in_configuration : Bool
  pub is_leader : Bool

abbrev pub membership_verdict : Option InConfigurationReply → Verdict Bool
membership_verdict none = ask_next false
membership_verdict (some r) =
    if r.is_leader then stop r.in_configuration else ask_next r.in_configuration

-- `getMembership`, for one of its two kinds of requests.
abbrev pub get_membership :
    Surroundings → (ℕ → ℕ → Option InConfigurationReply) → ℕ → Peers → Polled Bool
get_membership around call n p =
    poll around (λ now server. membership_verdict (call now server)) false 0 n p

-- `setActive`, of what `getMembership` comes to.
abbrev pub set_active : Polled Bool → Polled Bool
set_active (polled b p) = polled b (record p { active = b })
set_active r = r

pub data AddProvisionalError : Type 0 where
  ap_not_leader ap_already_provisional ap_already_in_configuration ap_success : AddProvisionalError

abbrev pub provisional_verdict : Option AddProvisionalError → Verdict Bool
provisional_verdict none = ask_next false
provisional_verdict (some ap_not_leader) = ask_next false
provisional_verdict (some ap_already_in_configuration) = stop true
provisional_verdict (some _) = stop false

-- The client is active if it is in the configuration already.
abbrev pub active_if : Polled Bool → Polled Bool
active_if (polled true p) = polled true (record p { active = true })
active_if r = r

-- `attemptProvisional`; for a client that was killed the value is false.
abbrev pub attempt_provisional :
    Surroundings → (ℕ → ℕ → Option AddProvisionalError) → ℕ → Peers → Polled Bool
attempt_provisional around call n p =
    active_if (poll around (λ now server. provisional_verdict (call now server)) false 0 n p)

pub data AddRemoveServerError : Type 0 where
  ar_not_leader ar_not_provisional ar_not_caught_up ar_concurrent_change ar_already_complete
        ar_new_leader ar_ok :
      AddRemoveServerError

-- The variable `arError`, where `none` is the empty string, which is none of the errors.
abbrev pub ArError : Type 0
ArError = Option AddRemoveServerError

abbrev pub add_remove_verdict : Option AddRemoveServerError → Verdict ArError
add_remove_verdict none = ask_next none
add_remove_verdict (some ar_not_leader) = ask_next (some ar_not_leader)
add_remove_verdict (some ar_new_leader) = ask_again (some ar_new_leader)
add_remove_verdict (some ar_concurrent_change) = ask_again (some ar_concurrent_change)
add_remove_verdict (some e) = stop (some e)

-- `attemptAddRemove`
abbrev pub attempt_add_remove :
    Surroundings → (ℕ → ℕ → Option AddRemoveServerError) → ℕ → Peers → Polled ArError
attempt_add_remove around call n p =
    poll around (λ now server. add_remove_verdict (call now server)) none 0 n p
