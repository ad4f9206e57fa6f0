-- ===== src/Client/Joining.antt =====
-- anonbcast/clientconfigurationchange.go: `BecomeActive` with `addProvisional`, `checkMembership` and
-- `addSelf`, as the places where its goroutine stands.
use eggscrambler.Base.{
  ℕ, ◌≡◌, ◌≢◌, if◌then◌else◌, Bool, true, false, Option, none, some, List, [], ◌∷◌, ◌⊎◌, inl, inr,
  arith, Option-cases, Bool-cases,
}
use eggscrambler.Client.Peers.{update_leader, AddRemoveServerError, ar_not_provisional}
use eggscrambler.Client.Member.{
  Member, MemberEvent, provisional_answered, add_remove_answered, member_answered, time_is_over,
  looks, dies, call_failed, configuration_changed, set_member_active, member_died, with_peers,
  member_configured, Course, course_panic, goes_on, returns,
}

-- In `attemptProvisional`; in `checkMembership` after it; in `attemptAddRemove` of `addSelf`; in
-- `checkMembership` after it; in the loop that waits for `active`; and after `BecomeActive`.
pub data JoinPlace : Type 0 where
  asking_provisional checking_provisional adding checking_added awaiting_active joined : JoinPlace

-- The head of the loop of `BecomeActive`.
abbrev pub join_head : Member → JoinPlace
join_head m = if m.killed then joined else adding

-- The heads of the loops of `addProvisional` and of `checkMembership`, which are left when the client
-- is dead.
abbrev pub provisional_head : Member → JoinPlace → JoinPlace
provisional_head m place = if m.killed then joined else place

abbrev pub added_head : Member → JoinPlace → JoinPlace
added_head m place = if m.killed then awaiting_active else place

abbrev pub start_join : Member → JoinPlace
start_join m = provisional_head m asking_provisional

-- What `addSelf` does with the answer; `none` is a panic.
abbrev pub on_added : Member → AddRemoveServerError → Option JoinPlace
on_added m ar_not_provisional = none
on_added m err = some (if m.peers.active then awaiting_active else added_head m checking_added)

abbrev pub at_place : {P : Type 0} → Member → Option P → Option (Member × P)
at_place m none = none
at_place m (some place) = some (m, place)

-- An event that has nothing to do with the place changes nothing.
abbrev pub join_move : Member → JoinPlace → MemberEvent → Option JoinPlace
join_move m asking_provisional (provisional_answered b) =
    some (if b then join_head m else provisional_head m checking_provisional)
join_move m checking_provisional (member_answered b) =
    some (if b then join_head m else provisional_head m checking_provisional)
join_move m checking_provisional time_is_over = some (provisional_head m asking_provisional)
join_move m adding (add_remove_answered err) = on_added m err
join_move m adding time_is_over = some (added_head m adding)
join_move m checking_added (member_answered b) =
    some (if b then awaiting_active else added_head m checking_added)
join_move m checking_added time_is_over = some (added_head m adding)
join_move m awaiting_active looks = some (if m.peers.active then joined else awaiting_active)
join_move m awaiting_active time_is_over = some (join_head m)
join_move m place e = some place

-- `attemptProvisional` notes that the client is active already.
abbrev pub noted : Bool → Member → Member
noted true m = set_member_active true m
noted false m = m

unfoldable pub join_step : Bool → ℕ → Member → JoinPlace → MemberEvent → Option (Member × JoinPlace)
join_step debug server_id m asking_provisional (provisional_answered b) =
    at_place (noted b m) (join_move (noted b m) asking_provisional (provisional_answered b))
join_step debug server_id m place dies = some (member_died m, place)
join_step debug server_id m place call_failed = elim (with_peers m (update_leader m.peers)) [
  | none ↦ none
  | some m' ↦ some (m', place)
]
join_step debug server_id m place (configuration_changed conf) =
    elim (member_configured debug server_id conf m) [ none ↦ none | some m' ↦ some (m', place) ]
join_step debug server_id m place e = at_place m (join_move m place e)

-- `BecomeActive` up to its return, if it returns in the course of these events.
unfoldable pub become_active : Bool → ℕ → Member → JoinPlace → List MemberEvent → Course JoinPlace
become_active debug server_id m joined es = returns m
become_active debug server_id m place [] = goes_on m place
become_active debug server_id m place (e ∷ es) = elim (join_step debug server_id m place e) [
  | none ↦ course_panic
  | some (m', place') ↦ become_active debug server_id m' place' es
]

abbrev pub IsBack : Member → Type 0
IsBack m = (m.peers.active ≡ true) ⊎ (m.killed ≡ true)

join_move-IsBack :
    (m : Member) (place : JoinPlace) (e : MemberEvent)
    → place ≢ joined
    → join_move m place e ≡ some joined
    → IsBack m
join_move-IsBack m place e n h = ground arith

join_step-IsBack :
    (debug : Bool) (server_id : ℕ) (m m' : Member) (place : JoinPlace) (e : MemberEvent)
    → place ≢ joined
    → join_step debug server_id m place e ≡ some (m', joined)
    → IsBack m'
unfolding join_step
join_step-IsBack debug server_id m m' place e n h =
    ground (arith, join_move-IsBack m place e n, join_move-IsBack m' place e n)

become_active-IsBack :
    (debug : Bool) (server_id : ℕ) (es : List MemberEvent) (m m' : Member) (place : JoinPlace)
    → place ≢ joined
    → become_active debug server_id m place es ≡ returns m'
    → IsBack m'
unfolding become_active
become_active-IsBack debug server_id [] m m' place n h = ground arith
become_active-IsBack debug server_id (e ∷ es) m m' place n h =
    elim (Option-cases (join_step debug server_id m place e)) [
      | inl q ↦ absurd (ground (arith, q, h))
      | inr ((m1, joined), q) ↦
          ground (arith, q, h, n, join_step-IsBack debug server_id m m1 place e)
      | inr ((m1, place'), q) ↦
          ground (
            arith,
            q,
            h,
            n,
            become_active-IsBack debug server_id es m1 m' place' (λ k. ground arith),
          )
    ]

-- `BecomeActive` returns only when the client is active or dead: whatever servers answer, and whatever
-- else happens to the client meanwhile.
pub become_active_returns :
    (debug : Bool) (server_id : ℕ) (es : List MemberEvent) (m m' : Member)
    → become_active debug server_id m (start_join m) es ≡ returns m'
    → (m'.peers.active ≡ true) ⊎ (m'.killed ≡ true)
unfolding become_active
become_active_returns debug server_id es m m' h = elim (Bool-cases m.killed) [
  | inl e ↦ inr (ground (arith, e, h))
  | inr e ↦
      become_active-IsBack debug server_id es m m' asking_provisional (λ k. ground arith)
        (ground (arith, e, h))
]
