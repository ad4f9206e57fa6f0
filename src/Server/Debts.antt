-- ===== src/Server/Debts.antt =====
-- The events at a server of anonbcast/server.go, and what Raft owes to the calls that wait.
use eggscrambler.Base.{
  ℕ, ◌≡◌, ◌==◌, Bool, true, false, Option, none, some, List, [], ◌∷◌, inl, inr, arith, sym,
  Option-cases, Bool-cases,
}
use eggscrambler.StateMachine.Ops.{Op}
use eggscrambler.StateMachine.Order.{guaranteed_no_effect}
use eggscrambler.Server.RespChannels.{
  find, get, create, get-create, find-delete, closed_by_clear, new_resp_channels,
}
use eggscrambler.Server.Core.{
  command, raft_update, snapshot, configuration, no_message, submit_op, apply_msg,
}
use eggscrambler.Server.System.{
  Event, submits, receives, opens, closes, System, deliver, deliver_all, happen, note_start,
}
use eggscrambler.Server.Others.{command-Commits, other-KeepsTables}
use eggscrambler.Server.Answers.{started_by}
use eggscrambler.Server.Waits.{delivered_by}
use eggscrambler.Server.Owed.{Owed, IsAllowed, IsAhead, closed-find, get-among}

module _ {C : Type 0} (started : ℕ → ℕ → Option (Op C)) (delivered : ℕ → ℕ → Bool) (debug : Bool)
    (sys sys' : System C) (o : Owed started delivered sys) where
  same-Owed :
      sys'.server.resps ≡ sys.server.resps
      → sys'.pending ≡ sys.pending
      → Owed started delivered sys'
  same-Owed e1 e2 = rw (e1, e2) o

  refused-Owed :
      (op : Op C) → happen debug sys (submits op none) ≡ some sys' → Owed started delivered sys'
  unfolding happen submit_op
  refused-Owed op h = same-Owed (ground arith) (ground arith)

  submits-Owed :
      (op : Op C) (term index : ℕ)
      → started term index ≡ none
      → delivered term index ≡ false
      → happen debug sys (submits op (some (term, index))) ≡ some sys'
      → Owed (note_start started term index op) delivered sys'
  unfolding happen submit_op find
  submits-Owed op term index free ahead h ch x f =
      elim (Bool-cases (guaranteed_no_effect sys.server.sm op)) [
        | inl g ↦
            let (t, i, e1, e2, e3) = o ch x (ground (arith, h, g, f)) in
            (t, i, ground (arith, h, g, e1), ground (arith, e2, free), e3)
        | inr g ↦
            let n = sys.server.next_channel in
            elim (Option-cases (create debug sys.server.resps term index n)) [
              | inl q ↦ absurd (ground (arith, h, g, q))
              | inr (r, q) ↦
                  let read = λ (t i : ℕ). get-create debug sys.server.resps r term index t i n q in
                  let same : sys'.server.resps ≡ r = ground (arith, h, g, q) in
                  let same' : sys'.pending ≡ (n, op) ∷ sys.pending = ground (arith, h, g, q) in
                  elim (Bool-cases (ch == n)) [
                    | inl b ↦ (
                      term,
                      index,
                      ground (arith, read term index, same, b),
                      ground (arith, same', f, b),
                      ahead,
                    )
                    | inr b ↦
                        let (t, i, e1, e2, e3) = o ch x (ground (arith, same', f, b)) in
                        (
                          t,
                          i,
                          ground (arith, read t i, same, e1, e2, free),
                          ground (arith, e2, free),
                          e3,
                        )
                  ]
            ]
      ]

  command-Owed :
      (t i : ℕ) (op : Op C)
      → happen debug sys (receives (command t i op)) ≡ some sys'
      → Owed started (delivered_by delivered (receives (command t i op))) sys'
  unfolding deliver_all deliver
  command-Owed t i op h ch x f =
      let c = command-Commits debug sys sys' t i op h in
      elim (Option-cases (get sys.server.resps t i)) [
        | inl e ↦
            let (t', i', e1, e2, e3) = o ch x (ground (arith, f, rw e at c.delivers)) in
            let same : sys'.server.resps ≡ sys.server.resps =
              ground (arith, c.same_resps, rw e at c.delivers) in
            (t', i', ground (arith, same, e1), e2, ground (arith, e, e1, e3))
        | inr (ch', e) ↦ elim (Option-cases (find ch' sys.pending)) [
          | inl q ↦ absurd (ground (arith, rw e at c.delivers))
          | inr (y, q) ↦
              let (t', i', e1, e2, e3) =
                o ch x (ground (arith, f, find-delete ch ch' sys.pending, rw e at c.delivers)) in
              let same : sys'.server.resps ≡ sys.server.resps =
                ground (arith, c.same_resps, q, rw e at c.delivers) in
              let other : (ch == ch') ≡ false =
                ground (arith, f, find-delete ch ch' sys.pending, rw e at c.delivers) in
              (t', i', ground (arith, same, e1), e2, ground (arith, e, e1, e3, other))
        ]
      ]

  cleared-Owed :
      happen debug sys (receives (raft_update false)) ≡ some sys' → Owed started delivered sys'
  unfolding happen apply_msg
  cleared-Owed h ch x f =
      let cleared : System C = record sys {
        server = record (sys.server) { resps = new_resp_channels };
      } in
      let found =
        closed-find (closed_by_clear sys.server.resps) cleared sys' ch (ground (arith, h)) in
      let (t, i, e1, e2, e3) = o ch x (ground (arith, found, f)) in
      absurd (ground (arith, found, f, get-among sys.server.resps t i ch e1))

module _ {C : Type 0} where
  pub happen-Owed :
      (started : ℕ → ℕ → Option (Op C)) (delivered : ℕ → ℕ → Bool) (debug : Bool) (e : Event C)
      (sys sys' : System C)
      → IsAllowed started e
      → IsAhead delivered e
      → happen debug sys e ≡ some sys'
      → Owed started delivered sys
      → Owed (started_by started e) (delivered_by delivered e) sys'
  happen-Owed started delivered debug (submits op none) sys sys' a b h o =
      refused-Owed started delivered debug sys sys' o op h
  happen-Owed started delivered debug (submits op (some (t, i))) sys sys' a b h o =
      submits-Owed started delivered debug sys sys' o op t i a b h
  happen-Owed started delivered debug (receives (command t i op)) sys sys' a b h o =
      command-Owed started delivered debug sys sys' o t i op h
  happen-Owed started delivered debug (receives (raft_update false)) sys sys' a b h o =
      cleared-Owed started delivered debug sys sys' o h
  happen-Owed started delivered debug (receives (raft_update true)) sys sys' a b h o =
      let (_, e, _, e', _) = other-KeepsTables debug (receives (raft_update true)) sys sys' tt h in
      same-Owed started delivered debug sys sys' o e e'
  happen-Owed started delivered debug (receives snapshot) sys sys' a b h o =
      let (_, e, _, e', _) = other-KeepsTables debug (receives snapshot) sys sys' tt h in
      same-Owed started delivered debug sys sys' o e e'
  happen-Owed started delivered debug (receives (configuration c)) sys sys' a b h o =
      let (_, e, _, e', _) = other-KeepsTables debug (receives (configuration c)) sys sys' tt h in
      same-Owed started delivered debug sys sys' o e e'
  happen-Owed started delivered debug (receives no_message) sys sys' a b h o =
      let (_, e, _, e', _) = other-KeepsTables debug (receives no_message) sys sys' tt h in
      same-Owed started delivered debug sys sys' o e e'
  happen-Owed started delivered debug opens sys sys' a b h o =
      let (_, e, _, e', _) = other-KeepsTables debug opens sys sys' tt h in
      same-Owed started delivered debug sys sys' o e e'
  happen-Owed started delivered debug (closes i) sys sys' a b h o =
      let (_, e, _, e', _) = other-KeepsTables debug (closes i) sys sys' tt h in
      same-Owed started delivered debug sys sys' o e e'

  -- If Raft has nothing to commit any more that was started here, no call waits.
  pub no_debts :
      (started : ℕ → ℕ → Option (Op C)) (delivered : ℕ → ℕ → Bool) (sys : System C)
      (pending : List (ℕ × Op C))
      → pending ≡ sys.pending
      → ((t i : ℕ) (op : Op C) → started t i ≡ some op → delivered t i ≡ true)
      → Owed started delivered sys
      → sys.pending ≡ []
  unfolding find
  no_debts started delivered sys [] same all o = sym same
  no_debts started delivered sys ((ch, op) ∷ rest) same all o =
      let (t, i, e1, e2, e3) = o ch op (ground (arith, same)) in
      absurd (ground (arith, all t i op e2))
