-- ===== src/Server/Balanced.antt =====
-- The events at a server of anonbcast/server.go, and the balance of calls and answers.
use mathlib.Core.List.Perm
use mathlib.Core.List.{perm_middle}
use eggscrambler.Base.{
  ℕ, suc, ◌≡◌, refl, Bool, true, false, Option, none, some, List, [], ◌∷◌, inl, inr, arith, map,
  Option-cases, Bool-cases,
}
use eggscrambler.StateMachine.Ops.{Op}
use eggscrambler.StateMachine.Order.{guaranteed_no_effect}
use eggscrambler.Server.RespChannels.{find, create, closed_by_clear, new_resp_channels, get}
use eggscrambler.Server.Core.{
  Err, ok, err_wrong_leader, command, raft_update, snapshot, configuration, no_message, submit_op,
  apply_msg, response,
}
use eggscrambler.Server.System.{
  Event, submits, receives, opens, closes, System, new_system, deliver, deliver_all, happen,
}
use eggscrambler.Server.Others.{command-Commits, KeepsTables, other-KeepsTables}
use eggscrambler.Server.Balance.{answered_ops, open_ops, Balance, same-Balance, deliver-Balance}

-- The operations that were submitted, the last one first.
abbrev pub asked_by : {C : Type 0} → List (Op C) → Event C → List (Op C)
asked_by asked (submits op start) = op ∷ asked
asked_by asked e = asked

module _ {C : Type 0} (asked : List (Op C)) where
  deliver_all-Balance :
      (rs : List (ℕ × Bool)) (sys sys' : System C)
      → deliver_all sys rs ≡ some sys'
      → Balance asked sys
      → Balance asked sys'
  unfolding deliver_all
  deliver_all-Balance [] sys sys' h b = let same : sys ≡ sys' = ground arith in rw (← same) b
  deliver_all-Balance ((ch, r) ∷ rs) sys sys' h b = elim (Option-cases (deliver sys (ch, r))) [
    | inl e ↦ absurd (ground (arith, rw (e, deliver_all) at h))
    | inr (sys1, e) ↦
        deliver_all-Balance rs sys1 sys' (rw (e, deliver_all) at h)
          (deliver-Balance asked sys sys1 ch r e b)
  ]

  module _ (debug : Bool) (sys sys' : System C) (b : Balance asked sys) where
    answered-Balance :
        (op : Op C) (e : Err)
        → record sys { answers = (op, e) ∷ sys.answers } ≡ sys'
        → Balance (op ∷ asked) sys'
    answered-Balance op e same =
        let balance : Balance (op ∷ asked) (record sys { answers = (op, e) ∷ sys.answers }) =
          record { perm = Perm.cons op b.perm; distinct = b.distinct; fresh = b.fresh } in
        rw (← same) balance

    submits-Balance :
        (op : Op C) (start : Option (ℕ × ℕ))
        → happen debug sys (submits op start) ≡ some sys'
        → Balance (op ∷ asked) sys'
    unfolding happen submit_op find
    submits-Balance op start h = elim (Bool-cases (guaranteed_no_effect sys.server.sm op)) [
      | inl g ↦ answered-Balance op ok (ground (arith, g, h))
      | inr g ↦ elim (Option-cases start) [
        | inl q ↦ answered-Balance op err_wrong_leader (ground (arith, g, h, q))
        | inr ((term, index), q) ↦
            let n = sys.server.next_channel in
            elim (Option-cases (create debug sys.server.resps term index n)) [
              | inl f ↦ absurd (ground (arith, g, h, q, f))
              | inr (r, f) ↦
                  let after : System C = record sys {
                    server = record (sys.server) { resps = r; next_channel = suc n };
                    pending = (n, op) ∷ sys.pending;
                  } in
                  let same : after ≡ sys' = ground (arith, g, h, q, f) in
                  let unused : find n sys.pending ≡ none =
                    elim (Option-cases (find n sys.pending)) [
                      | inl e ↦ e
                      | inr (x, e) ↦ absurd (ground (arith, b.fresh n x e))
                    ] in
                  let balance : Balance (op ∷ asked) after = record {
                    perm =
                        Perm.trans (perm_middle (answered_ops sys.answers) (open_ops sys.pending))
                          (Perm.cons op b.perm);
                    distinct = (unused, b.distinct);
                    fresh = λ c x k. ground (arith, k, b.fresh c x);
                  } in
                  rw (← same) balance
            ]
      ]
    ]

    command-Balance :
        (t i : ℕ) (op : Op C)
        → happen debug sys (receives (command t i op)) ≡ some sys'
        → Balance asked sys'
    command-Balance t i op h =
        let c = command-Commits debug sys sys' t i op h in
        let sys1 : System C = record sys { server = c.server } in
        deliver_all-Balance (response (get sys.server.resps t i)) sys1 sys' c.delivers
          (same-Balance asked sys sys1 refl refl c.same_channels b)

    cleared-Balance :
        happen debug sys (receives (raft_update false)) ≡ some sys' → Balance asked sys'
    unfolding happen apply_msg
    cleared-Balance h =
        let sys1 : System C = record sys {
          server = record (sys.server) { resps = new_resp_channels };
        } in
        deliver_all-Balance (map (λ ch. (ch, false)) (closed_by_clear sys.server.resps)) sys1 sys'
          (ground (arith, h)) (same-Balance asked sys sys1 refl refl refl b)

    kept-Balance : KeepsTables sys sys' → Balance asked sys'
    kept-Balance (_, _, e3, e4, e5) = same-Balance asked sys sys' e5 e4 e3 b

    pub happen-Balance :
        (e : Event C) → happen debug sys e ≡ some sys' → Balance (asked_by asked e) sys'
    happen-Balance (submits op start) h = submits-Balance op start h
    happen-Balance (receives (command t i op)) h = command-Balance t i op h
    happen-Balance (receives (raft_update false)) h = cleared-Balance h
    happen-Balance (receives (raft_update true)) h =
        kept-Balance (other-KeepsTables debug (receives (raft_update true)) sys sys' tt h)
    happen-Balance (receives snapshot) h =
        kept-Balance (other-KeepsTables debug (receives snapshot) sys sys' tt h)
    happen-Balance (receives (configuration c)) h =
        kept-Balance (other-KeepsTables debug (receives (configuration c)) sys sys' tt h)
    happen-Balance (receives no_message) h =
        kept-Balance (other-KeepsTables debug (receives no_message) sys sys' tt h)
    happen-Balance opens h = kept-Balance (other-KeepsTables debug opens sys sys' tt h)
    happen-Balance (closes i) h = kept-Balance (other-KeepsTables debug (closes i) sys sys' tt h)

pub new_system-Balance : {C : Type 0} → Balance [] (new_system {C = C})
unfolding find
new_system-Balance = record { perm = Perm.refl []; distinct = tt; fresh = λ ch op f. ground arith }
