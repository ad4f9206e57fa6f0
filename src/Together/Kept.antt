-- ===== src/Together/Kept.antt =====
-- The answers that a server of anonbcast/server.go has given.
use eggscrambler.Base.{
  ℕ, ◌≡◌, Bool, false, true, Option, some, List, [], ◌∷◌, ◌⊎◌, inl, inr, arith, map, Option-cases,
}
use eggscrambler.StateMachine.Ops.{Op}
use eggscrambler.Server.RespChannels.{find, get, closed_by_clear, new_resp_channels}
use eggscrambler.Server.Core.{
  Err, ok, err_wrong_leader, command, raft_update, snapshot, configuration, no_message, submit_op,
  apply_msg, response, reply_to,
}
use eggscrambler.Server.System.{
  Event, submits, receives, opens, closes, System, deliver, deliver_all, happen,
}
use eggscrambler.Server.Others.{command-Commits, KeepsTables, other-KeepsTables}
use eggscrambler.Raft.Interface.{Raft}
use eggscrambler.Raft.Node.{Step, Node, event_of, step_node}

-- The operation was answered with `OK`.
abbrev pub IsAccepted : {C : Type 0} → Op C → List (Op C × Err) → Type 0
IsAccepted op [] = ⊥
IsAccepted op ((x, e) ∷ rs) = ((x ≡ op) × (e ≡ ok)) ⊎ IsAccepted op rs

module _ {C : Type 0} (op : Op C) where
  deliver-IsAccepted :
      (sys sys' : System C) (ch : ℕ) (r : Bool)
      → deliver sys (ch, r) ≡ some sys'
      → IsAccepted op sys.answers
      → IsAccepted op sys'.answers
  unfolding deliver
  deliver-IsAccepted sys sys' ch r h a = elim (Option-cases (find ch sys.pending)) [
    | inl e ↦ let same : sys ≡ sys' = ground (arith, e, h) in rw (← same) a
    | inr (x, e) ↦
        let same : sys'.answers ≡ (x, reply_to r) ∷ sys.answers = ground (arith, e, h) in
        rw same (inr a)
  ]

  deliver_all-IsAccepted :
      (rs : List (ℕ × Bool)) (sys sys' : System C)
      → deliver_all sys rs ≡ some sys'
      → IsAccepted op sys.answers
      → IsAccepted op sys'.answers
  unfolding deliver_all
  deliver_all-IsAccepted [] sys sys' h a = let same : sys ≡ sys' = ground arith in rw (← same) a
  deliver_all-IsAccepted ((ch, r) ∷ rs) sys sys' h a = elim (Option-cases (deliver sys (ch, r))) [
    | inl e ↦ absurd (ground (arith, rw (e, deliver_all) at h))
    | inr (sys1, e) ↦
        deliver_all-IsAccepted rs sys1 sys' (rw (e, deliver_all) at h)
          (deliver-IsAccepted sys sys1 ch r e a)
  ]

  module _ (debug : Bool) (sys sys' : System C) (a : IsAccepted op sys.answers) where
    submits-IsAccepted :
        (x : Op C) (start : Option (ℕ × ℕ))
        → happen debug sys (submits x start) ≡ some sys'
        → IsAccepted op sys'.answers
    unfolding happen submit_op
    submits-IsAccepted x start h =
        let grows : (sys'.answers ≡ sys.answers)
            ⊎ (sys'.answers ≡ (x, ok) ∷ sys.answers)
            ⊎ (sys'.answers ≡ (x, err_wrong_leader) ∷ sys.answers) =
          ground (arith, h) in
        elim grows [ inl e ↦ rw e a | inr (inl e) ↦ rw e (inr a) | inr (inr e) ↦ rw e (inr a) ]

    kept-IsAccepted : KeepsTables sys sys' → IsAccepted op sys'.answers
    kept-IsAccepted (_, _, _, _, e) = rw e a

    happen-IsAccepted : (e : Event C) → happen debug sys e ≡ some sys' → IsAccepted op sys'.answers
    unfolding happen apply_msg
    happen-IsAccepted (submits x start) h = submits-IsAccepted x start h
    happen-IsAccepted (receives (command t i x)) h =
        let c = command-Commits debug sys sys' t i x h in
        deliver_all-IsAccepted (response (get sys.server.resps t i))
          (record sys { server = c.server }) sys' c.delivers a
    happen-IsAccepted (receives (raft_update false)) h =
        deliver_all-IsAccepted (map (λ ch. (ch, false)) (closed_by_clear sys.server.resps))
          (record sys { server = record (sys.server) { resps = new_resp_channels } }) sys'
          (ground (arith, h)) a
    happen-IsAccepted (receives (raft_update true)) h =
        kept-IsAccepted (other-KeepsTables debug (receives (raft_update true)) sys sys' tt h)
    happen-IsAccepted (receives snapshot) h =
        kept-IsAccepted (other-KeepsTables debug (receives snapshot) sys sys' tt h)
    happen-IsAccepted (receives (configuration c)) h =
        kept-IsAccepted (other-KeepsTables debug (receives (configuration c)) sys sys' tt h)
    happen-IsAccepted (receives no_message) h =
        kept-IsAccepted (other-KeepsTables debug (receives no_message) sys sys' tt h)
    happen-IsAccepted opens h = kept-IsAccepted (other-KeepsTables debug opens sys sys' tt h)
    happen-IsAccepted (closes i) h =
        kept-IsAccepted (other-KeepsTables debug (closes i) sys sys' tt h)

  pub step_node-IsAccepted :
      (raft : Raft C) (debug : Bool) (n n' : Node raft) (s : Step C)
      → step_node raft debug n s ≡ some n'
      → IsAccepted op n.system.answers
      → IsAccepted op n'.system.answers
  unfolding step_node
  step_node-IsAccepted raft debug n n' s h a = elim (Option-cases (event_of raft debug n s)) [
    | inl e ↦ let same : n ≡ n' = ground (arith, e, h) in rw (← same) a
    | inr ((r, e), q) ↦ elim (Option-cases (happen debug n.system e)) [
      | inl f ↦ absurd (ground (arith, q, f, h))
      | inr (sys, f) ↦
          let same : sys ≡ n'.system = ground (arith, q, f, h) in
          rw (← same) (happen-IsAccepted debug n.system sys a e f)
    ]
  ]
