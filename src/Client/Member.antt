-- ===== src/Client/Member.antt =====
-- What the goroutines of `BecomeActive` and `BecomeInactive` of
-- anonbcast/clientconfigurationchange.go share with the rest of the client, and what happens to it.
use eggscrambler.Base.{ℕ, Bool, true, Option, none, some}
use eggscrambler.Server.Core.{Configuration}
use eggscrambler.Client.Peers.{Peers, AddRemoveServerError, on_configuration}

pub record Member : Type 0 where
  pub peers : Peers
  pub killed : Bool

-- What `attemptProvisional`, `attemptAddRemove` and `getMembership` return; that the time of a loop is
-- over, or that it sees that the client is dead; a look at `active`; `Kill`; a call after which the next
-- server is asked; and an update of the configuration that `readUpdates` handles.
pub data MemberEvent : Type 0 where
  provisional_answered : Bool → MemberEvent
  add_remove_answered : AddRemoveServerError → MemberEvent
  member_answered : Bool → MemberEvent
  time_is_over : MemberEvent
  looks : MemberEvent
  dies : MemberEvent
  call_failed : MemberEvent
  configuration_changed : Configuration → MemberEvent

abbrev pub set_member_active : Bool → Member → Member
set_member_active b m = record m { peers = record (m.peers) { active = b } }

abbrev pub member_died : Member → Member
member_died m = record m { killed = true }

abbrev pub with_peers : Member → Option Peers → Option Member
with_peers m none = none
with_peers m (some p) = some (record m { peers = p })

-- `readUpdates` on a configuration.
abbrev pub member_configured : Bool → ℕ → Configuration → Member → Option Member
member_configured debug server_id conf m =
    with_peers m (on_configuration debug server_id conf m.peers)

-- How far a goroutine has come.
pub data Course (P : Type 0) : Type 0 where
  course_panic : Course P
  goes_on : Member → P → Course P
  returns : Member → Course P
