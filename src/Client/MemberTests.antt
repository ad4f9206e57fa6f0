-- ===== src/Client/MemberTests.antt =====
-- A client that joins the servers and leaves them.
use eggscrambler.Base.{◌≡◌, refl, true, false, List, [], ◌∷◌, ◌⊎◌}
use eggscrambler.Server.RespChannels.{find}
use eggscrambler.StateMachine.Machine.{new_state_machine}
use eggscrambler.Client.Peers.{on_configuration, ar_ok, ar_not_leader}
use eggscrambler.Client.Member.{
  Member, MemberEvent, provisional_answered, add_remove_answered, member_answered, time_is_over,
  looks, configuration_changed, returns,
}
use eggscrambler.Client.Joining.{start_join, become_active, join_step, become_active_returns}
use eggscrambler.Client.Leaving.{
  starts_leaving_member, leave_head, become_inactive, leave_step, become_inactive_returns,
}
use eggscrambler.Client.Updates.{Input, no_keys}

-- The client's own server is 7; it knows server 3.
abbrev outsider : Member
outsider = record {
  peers = record { active = false; leaving = false; curr_conf = 3 ∷ []; last_known_leader = 0 };
  killed = false;
}

abbrev joins : List MemberEvent
joins =
    provisional_answered false
    ∷ member_answered true
    ∷ add_remove_answered ar_ok
    ∷ member_answered true
    ∷ looks
    ∷ configuration_changed ((3, true) ∷ (7, true) ∷ [])
    ∷ looks
    ∷ []

abbrev insider : Member
insider = record {
  peers = record { active = true; leaving = false; curr_conf = 3 ∷ 7 ∷ []; last_known_leader = 0 };
  killed = false;
}

join_returns : become_active true 7 outsider (start_join outsider) joins ≡ returns insider
unfolding become_active join_step on_configuration find
join_returns = refl

become_active_returns_example : (insider.peers.active ≡ true) ⊎ (insider.killed ≡ true)
become_active_returns_example = become_active_returns true 7 joins outsider insider join_returns

abbrev leaves : List MemberEvent
leaves =
    add_remove_answered ar_not_leader
    ∷ time_is_over
    ∷ time_is_over
    ∷ add_remove_answered ar_ok
    ∷ looks
    ∷ []

abbrev left_over : Member
left_over = record {
  peers = record { active = false; leaving = true; curr_conf = 3 ∷ 7 ∷ []; last_known_leader = 0 };
  killed = false;
}

leave_returns :
    become_inactive true 7 (starts_leaving_member insider) (leave_head insider) leaves
    ≡ returns left_over
unfolding become_inactive leave_step
leave_returns = refl

become_inactive_returns_example : (left_over.peers.active ≡ false) ⊎ (left_over.killed ≡ true)
become_inactive_returns_example =
    become_inactive_returns true 7 leaves insider left_over leave_returns

abbrev halfway : Member
halfway = record {
  peers = record { active = true; leaving = true; curr_conf = 3 ∷ 7 ∷ []; last_known_leader = 0 };
  killed = false;
}

-- A new round begins while the client leaves.
abbrev round_begins : Input
round_begins = record {
  active = true;
  leaving = true;
  fresh_keys = no_keys;
  sm = new_state_machine;
}
