-- ===== src/Client/Absent.antt =====
-- `BecomeInactive` of anonbcast/clientconfigurationchange.go and the rounds for which the client
-- prepares itself.
use eggscrambler.Base.{ℕ, ◌≡◌, Bool, true, false, Option, none, some, List, [], ◌∷◌, ◌⊎◌}
use eggscrambler.Server.Core.{Configuration}
use eggscrambler.Server.RespChannels.{find}
use eggscrambler.StateMachine.Types.{StateMachine}
use eggscrambler.Client.Updates.{Input, Task, prepare_task, Turn, turn_panic, turned}
use eggscrambler.Client.Peers.{Peers}
use eggscrambler.Client.Member.{
  Member, MemberEvent, configuration_changed, Course, course_panic, goes_on, returns,
}

abbrev course_member : {P : Type 0} → Course P → Option Member
course_member course_panic = none
course_member (goes_on m place) = some m
course_member (returns m) = some m

abbrev lacks : ℕ → Configuration → Bool
lacks server_id conf = elim (find server_id conf) [ none ↦ true | some b ↦ false ]

-- Whether the last configuration is one without the client's server.
abbrev gone_by : ℕ → Bool → MemberEvent → Bool
gone_by server_id gone (configuration_changed conf) = lacks server_id conf
gone_by server_id gone e = gone

abbrev IsNoReturn : ℕ → Bool → MemberEvent → Type 0
IsNoReturn server_id gone (configuration_changed conf) =
    (gone ≡ false) ⊎ (lacks server_id conf ≡ true)
IsNoReturn server_id gone e = Unit

-- No configuration with the client's server comes after one without it.
abbrev pub NeverBack : ℕ → Bool → List MemberEvent → Type 0
NeverBack server_id gone [] = Unit
NeverBack server_id gone (e ∷ es) =
    IsNoReturn server_id gone e × NeverBack server_id (gone_by server_id gone e) es

abbrev IsOut : Bool → Member → Type 0
IsOut gone m =
    ((gone ≡ false) × (m.peers.leaving ≡ true)) ⊎ ((gone ≡ true) × (m.peers.active ≡ false))

abbrev is_prepare : Task → Bool
is_prepare (prepare_task round ri me) = true
is_prepare t = false

-- No task prepares the client for a round.
abbrev pub NoPrepare : List Task → Type 0
NoPrepare [] = Unit
NoPrepare (t ∷ ts) = (is_prepare t ≡ false) × NoPrepare ts

abbrev pub StartsNoPrepare : Turn → Type 0
StartsNoPrepare turn_panic = Unit
StartsNoPrepare (turned l ts) = NoPrepare ts

-- The flags that a turn reads are those of the client.
abbrev pub Reads : Input → Peers → Type 0
Reads inp p = (inp.active ≡ p.active) × (inp.leaving ≡ p.leaving)
