-- ===== src/Server/Kept.antt =====
-- The other methods of the server of anonbcast/server.go keep the invariant behind its answers.
use eggscrambler.Base.{
  ℕ, ◌≡◌, Bool, true, false, Option, none, some, List, ◌∷◌, inl, inr, arith, Option-cases,
  Bool-cases,
}
use eggscrambler.StateMachine.Ops.{Op}
use eggscrambler.StateMachine.Order.{guaranteed_no_effect}
use eggscrambler.Server.RespChannels.{find, get, closed_by_clear, new_resp_channels}
use eggscrambler.Server.Core.{command, raft_update, ok, err_wrong_leader, submit_op, apply_msg}
use eggscrambler.Server.System.{Event, submits, receives, System, deliver_all, happen, IsThat}
use eggscrambler.Server.Others.{IsOther, other-KeepsTables, command-Commits}
use eggscrambler.Server.Settled.{
  Sound, deliver-Sound, deliver_all-Sound, same-Sound, applied-MachineInv, applied-AllSettled,
}

module _ {C : Type 0} (started : ℕ → ℕ → Option (Op C)) (ops : List (Op C)) (debug : Bool)
    (sys sys' : System C) (s : Sound started ops sys) where
  pub refused-Sound :
      (op : Op C) → happen debug sys (submits op none) ≡ some sys' → Sound started ops sys'
  unfolding happen submit_op
  refused-Sound op h = elim (Bool-cases (guaranteed_no_effect sys.server.sm op)) [
    | inl e ↦
        let same : record sys { answers = (op, ok) ∷ sys.answers } ≡ sys' = ground arith in
        rw (← same) (record {
          machine = s.machine;
          below = s.below;
          matches = s.matches;
          settled = (inr e, s.settled);
        })
    | inr e ↦
        let same : record sys { answers = (op, err_wrong_leader) ∷ sys.answers } ≡ sys' =
          ground arith in
        rw (← same) (record {
          machine = s.machine;
          below = s.below;
          matches = s.matches;
          settled = (tt, s.settled);
        })
  ]

  pub other-Sound :
      (e : Event C) → IsOther e → happen debug sys e ≡ some sys' → Sound started ops sys'
  other-Sound e o h = same-Sound started ops sys sys' (other-KeepsTables debug e sys sys' o h) s

  pub cleared-Sound :
      happen debug sys (receives (raft_update false)) ≡ some sys' → Sound started ops sys'
  unfolding happen apply_msg deliver_all get find
  cleared-Sound h =
      let cleared : System C = record sys {
        server = record (sys.server) { resps = new_resp_channels };
      } in
      deliver_all-Sound started ops (closed_by_clear sys.server.resps) cleared sys' (ground arith)
        (record {
          machine = s.machine;
          below = λ t i ch g. ground arith;
          matches = λ t i ch op g f. ground arith;
          settled = s.settled;
        })

  pub command-Sound :
      (t i : ℕ) (op : Op C)
      → IsThat (started t i) op
      → happen debug sys (receives (command t i op)) ≡ some sys'
      → Sound started (op ∷ ops) sys'
  unfolding deliver_all
  command-Sound t i op that h =
      let c = command-Commits debug sys sys' t i op h in
      let sys1 : System C = record sys { server = c.server } in
      let s1 : Sound started (op ∷ ops) sys1 = record {
        machine = applied-MachineInv sys.server.sm c.server.sm op c.updated s.machine c.applies;
        below = rw (c.same_resps, c.same_channels) s.below;
        matches = rw c.same_resps s.matches;
        settled =
            applied-AllSettled sys.server.sm c.server.sm op c.updated s.machine c.applies ops
              sys.answers s.settled;
      } in
      elim (Option-cases (get sys.server.resps t i)) [
        | inl e ↦ let same : sys1 ≡ sys' = ground (arith, rw e at c.delivers) in rw (← same) s1
        | inr (ch, e) ↦
            let d = rw e at c.delivers in
            (deliver-Sound started (op ∷ ops) sys1 sys' ch true
              (λ x f. inl (inl (ground (arith, s.matches t i ch x e f, that)))) (ground (arith, d))
              s1).0
      ]
