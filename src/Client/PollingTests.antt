-- ===== src/Client/PollingTests.antt =====
-- A client that looks for the leader among three servers.
use eggscrambler.Base.{
  inr, Option, none, some, if◌then◌else◌, ◌==◌, ℕ, ◌≡◌, refl, true, false, List, [], ◌∷◌, arith,
}
use eggscrambler.Client.Peers.{
  Peers, Surroundings, polled, PeerEvent, configured, call_failed, starts_leaving, run_peers,
  new_peers,
}
use eggscrambler.Client.Membership.{answer_of, attempt_add_remove_ends}
use eggscrambler.Client.Peers.{
  AddRemoveServerError, ar_ok, ar_already_complete, ar_not_leader, attempt_add_remove,
}
use eggscrambler.Client.Polling.{IsUndisturbed, IsInRange, run_peers-IsInRange}

abbrev three : List ℕ
three = 6 ∷ 8 ∷ 9 ∷ []

abbrev asks_last : Peers
asks_last = record { active = false; leaving = false; curr_conf = three; last_known_leader = 2 }

abbrev changes : List PeerEvent
changes =
    call_failed
    ∷ call_failed
    ∷ configured ((6, true) ∷ (8, true) ∷ [])
    ∷ starts_leaving
    ∷ call_failed
    ∷ []

run_peers-IsInRange_example :
    (p : Peers) × (run_peers true 8 (new_peers true three) changes ≡ some p) × IsInRange p
run_peers-IsInRange_example = run_peers-IsInRange true 8 6 (8 ∷ 9 ∷ []) changes tt

-- Server 8 leads, and the change is done already.
abbrev raft_of : ℕ → Option AddRemoveServerError
raft_of s = if s == 8 then some ar_already_complete else if s == 6 then none else some ar_not_leader

-- The client begins to leave while the first call is under way.
abbrev around : Surroundings
around = record {
  killed = λ now. false;
  before_call = λ now p. p;
  during_call = λ now p. if now == 0 then record p { leaving = true } else p;
}

around-IsUndisturbed : IsUndisturbed around
around-IsUndisturbed = record {
  alive = λ now. refl;
  before = λ now p. (refl, refl);
  during = λ now p. ground arith;
}

attempt_add_remove_ends_example :
    (p' : Peers) × (attempt_add_remove around (λ now server. answer_of (raft_of server)) 3 asks_last
      ≡ polled (some ar_ok) p')
attempt_add_remove_ends_example =
    attempt_add_remove_ends around raft_of asks_last 1 8 around-IsUndisturbed
      (λ j s e. ground arith) refl (omega arith) (inr refl) (omega arith)
