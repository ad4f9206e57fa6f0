-- ===== src/Client/Leaving.antt =====
-- anonbcast/clientconfigurationchange.go: `BecomeInactive` with `removeSelf` and `checkMembership`, as
-- the places where its goroutine stands.
use eggscrambler.Base.{
  ℕ, ◌≡◌, ◌≢◌, if◌then◌else◌, Bool, true, false, Option, none, some, List, [], ◌∷◌, ◌⊎◌, inl, inr,
  arith, Option-cases, Bool-cases,
}
use eggscrambler.Client.Peers.{update_leader, AddRemoveServerError, ar_not_provisional, ar_ok}
use eggscrambler.Client.Member.{
  Member, MemberEvent, add_remove_answered, member_answered, time_is_over, looks, dies, call_failed,
  configuration_changed, set_member_active, member_died, with_peers, member_configured, Course,
  course_panic, goes_on, returns,
}

-- In `attemptAddRemove` of `removeSelf`; in `checkMembership` after it; in the loop that waits until the
-- client is not active; and after `BecomeInactive`.
pub data LeavePlace : Type 0 where
  removing checking_removed awaiting_inactive left : LeavePlace

-- The lines before the loop.
abbrev pub starts_leaving_member : Member → Member
starts_leaving_member m = record m { peers = record (m.peers) { leaving = true } }

-- The head of the loop of `BecomeInactive`.
abbrev pub leave_head : Member → LeavePlace
leave_head m = if m.killed then left else removing

-- The heads of the loops of `removeSelf` and of `checkMembership`, which are left when the client is
-- dead.
abbrev pub removed_head : Member → LeavePlace → LeavePlace
removed_head m place = if m.killed then awaiting_inactive else place

-- What `removeSelf` does with the answer; `none` is a panic.
abbrev pub on_removed : Member → AddRemoveServerError → Option (Member × LeavePlace)
on_removed m ar_not_provisional = none
on_removed m ar_ok = some (set_member_active false m, awaiting_inactive)
on_removed m err = some (m, removed_head m checking_removed)

-- An event that has nothing to do with the place changes nothing.
unfoldable pub leave_step :
    Bool → ℕ → Member → LeavePlace → MemberEvent → Option (Member × LeavePlace)
leave_step debug server_id m place dies = some (member_died m, place)
leave_step debug server_id m place call_failed = elim (with_peers m (update_leader m.peers)) [
  | none ↦ none
  | some m' ↦ some (m', place)
]
leave_step debug server_id m place (configuration_changed conf) =
    elim (member_configured debug server_id conf m) [ none ↦ none | some m' ↦ some (m', place) ]
leave_step debug server_id m removing (add_remove_answered err) = on_removed m err
leave_step debug server_id m removing time_is_over = some (m, removed_head m removing)
leave_step debug server_id m checking_removed (member_answered b) =
    some (m, if b then removed_head m removing else removed_head m checking_removed)
leave_step debug server_id m checking_removed time_is_over = some (m, awaiting_inactive)
leave_step debug server_id m awaiting_inactive looks =
    some (m, if m.peers.active then awaiting_inactive else left)
leave_step debug server_id m awaiting_inactive time_is_over = some (m, leave_head m)
leave_step debug server_id m place e = some (m, place)

-- `BecomeInactive` up to its return, if it returns in the course of these events.
unfoldable pub become_inactive :
    Bool → ℕ → Member → LeavePlace → List MemberEvent → Course LeavePlace
become_inactive debug server_id m left es = returns m
become_inactive debug server_id m place [] = goes_on m place
become_inactive debug server_id m place (e ∷ es) = elim (leave_step debug server_id m place e) [
  | none ↦ course_panic
  | some (m', place') ↦ become_inactive debug server_id m' place' es
]

abbrev IsAway : Member → Type 0
IsAway m = (m.peers.active ≡ false) ⊎ (m.killed ≡ true)

leave_step-IsAway :
    (debug : Bool) (server_id : ℕ) (m m' : Member) (place : LeavePlace) (e : MemberEvent)
    → place ≢ left
    → leave_step debug server_id m place e ≡ some (m', left)
    → IsAway m'
unfolding leave_step
leave_step-IsAway debug server_id m m' place e n h = ground arith

become_inactive-IsAway :
    (debug : Bool) (server_id : ℕ) (es : List MemberEvent) (m m' : Member) (place : LeavePlace)
    → place ≢ left
    → become_inactive debug server_id m place es ≡ returns m'
    → IsAway m'
unfolding become_inactive
become_inactive-IsAway debug server_id [] m m' place n h = ground arith
become_inactive-IsAway debug server_id (e ∷ es) m m' place n h =
    elim (Option-cases (leave_step debug server_id m place e)) [
      | inl q ↦ absurd (ground (arith, q, h))
      | inr ((m1, left), q) ↦
          ground (arith, q, h, n, leave_step-IsAway debug server_id m m1 place e)
      | inr ((m1, place'), q) ↦ ground (
        arith,
        q,
        h,
        n,
        become_inactive-IsAway debug server_id es m1 m' place' (λ k. ground arith),
      )
    ]

-- `BecomeInactive` returns only when the client is inactive or dead: whatever servers answer, and
-- whatever else happens to the client meanwhile.
pub become_inactive_returns :
    (debug : Bool) (server_id : ℕ) (es : List MemberEvent) (m m' : Member)
    → become_inactive debug server_id (starts_leaving_member m) (leave_head m) es ≡ returns m'
    → (m'.peers.active ≡ false) ⊎ (m'.killed ≡ true)
unfolding become_inactive
become_inactive_returns debug server_id es m m' h = elim (Bool-cases m.killed) [
  | inl e ↦ inr (ground (arith, e, h))
  | inr e ↦
      become_inactive-IsAway debug server_id es (starts_leaving_member m) m' removing
        (λ k. ground arith) (ground (arith, e, h))
]
