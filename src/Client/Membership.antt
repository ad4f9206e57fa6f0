-- ===== src/Client/Membership.antt =====
-- anonbcast/serverconfigurationchange.go: what a server answers to the calls of
-- anonbcast/clientconfigurationchange.go, from the answers of Raft, and what the client makes of it.
use eggscrambler.Base.{
  ℕ, ◌<◌, ◌≡◌, refl, if◌then◌else◌, Bool, true, false, Option, none, some, length, get_elem?, ◌⊎◌,
  inl, inr, arith,
}
use eggscrambler.Server.Core.{Configuration}
use eggscrambler.Server.RespChannels.{find}
use eggscrambler.Client.Peers.{
  Peers, Surroundings, ArError, polled, Verdict, stop, InConfigurationReply, AddProvisionalError,
  AddRemoveServerError, ar_ok, ar_already_complete, ar_not_leader, add_remove_verdict,
  attempt_add_remove,
}
use eggscrambler.Client.Polling.{IsUndisturbed, AsksNext, poll_ends}

abbrev is_there : Option Bool → Bool
is_there none = false
is_there (some b) = true

-- `InConfiguration`, with what Raft says of the provisional and of the current configuration.
abbrev pub in_configuration :
    Bool → Bool × Configuration → Bool × Configuration → ℕ → InConfigurationReply
in_configuration provisional (leads, conf) (leads', conf') server =
    if provisional
    then record { in_configuration = is_there (find server conf); is_leader = leads }
    else record { in_configuration = is_there (find server conf'); is_leader = leads' }

-- `AddProvisional` passes on what Raft answers.
abbrev pub add_provisional : AddProvisionalError → AddProvisionalError
add_provisional err = err

pub record AddRemoveReply : Type 0 where
  pub submitted : Bool
  pub error : AddRemoveServerError

-- The end of `AddRemove`: that nothing is left to do is no error.
unfoldable pub add_remove_reply : AddRemoveServerError → AddRemoveReply
add_remove_reply ar_ok = record { submitted = true; error = ar_ok }
add_remove_reply ar_already_complete = record { submitted = true; error = ar_ok }
add_remove_reply err = record { submitted = false; error = err }

-- `AddRemove`, with what Raft answers to `AddServer` and to `RemoveServer`.
abbrev pub add_remove : Bool → AddRemoveServerError → AddRemoveServerError → AddRemoveReply
add_remove is_add added removed = add_remove_reply (if is_add then added else removed)

-- The answer to the call at a server, or that there is none.
abbrev pub answer_of : Option AddRemoveServerError → Option AddRemoveServerError
answer_of none = none
answer_of (some err) = some ((add_remove_reply err).error)

-- What Raft answers at a server that does not lead, and at the leader if it accepts the change.
abbrev pub IsPassed : Option AddRemoveServerError → Type 0
IsPassed o = (o ≡ none) ⊎ (o ≡ some ar_not_leader)

abbrev pub IsAccepted : Option AddRemoveServerError → Type 0
IsAccepted o = (o ≡ some ar_ok) ⊎ (o ≡ some ar_already_complete)

passed-AsksNext :
    (o : Option AddRemoveServerError) → IsPassed o → AsksNext (add_remove_verdict (answer_of o))
unfolding add_remove_reply
passed-AsksNext o h = ground arith

accepted-stop :
    (o : Option AddRemoveServerError)
    → IsAccepted o
    → add_remove_verdict (answer_of o) ≡ stop (some ar_ok)
unfolding add_remove_reply
accepted-stop o h = ground arith

-- If one of the servers that the client knows leads and its Raft accepts the change, or has it done
-- already, the others do not lead or do not answer, and none of them changes its answer, then
-- `attemptAddRemove` ends without an error after at most as many calls as there are servers: provided
-- that the index of the server to ask first is within the list of servers, that the client is not
-- killed meanwhile and that no other routine of it, as `submitOps` or
-- `readUpdates`, changes the list of servers or the index of the server to ask.
pub attempt_add_remove_ends :
    (around : Surroundings) (raft : ℕ → Option AddRemoveServerError) (p : Peers) (i leader : ℕ)
    → IsUndisturbed around
    → ((j server : ℕ)
        → get_elem? p.curr_conf j ≡ some server
        → IsPassed (raft server) ⊎ IsAccepted (raft server))
    → get_elem? p.curr_conf i ≡ some leader
    → i < length p.curr_conf
    → IsAccepted (raft leader)
    → p.last_known_leader < length p.curr_conf
    → (p' : Peers) × (attempt_add_remove around
          (λ now server. answer_of (raft server))
          (length p.curr_conf)
          p
        ≡ polled (some ar_ok) p')
attempt_add_remove_ends around raft p i leader quiet each at lt accepts r =
    let ask : ℕ → Verdict ArError = λ s. add_remove_verdict (answer_of (raft s)) in
    poll_ends around quiet ask (some ar_ok) p.curr_conf
      (λ j s h. elim (each j s h) [
        | inl q ↦ inl (passed-AsksNext (raft s) q)
        | inr q ↦ inr (accepted-stop (raft s) q)
      ])
      i leader at (accepted-stop (raft leader) accepts) lt 0 none p refl r
