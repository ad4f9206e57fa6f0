-- ===== src/Server/Waits.antt =====
-- The invariant of a server of anonbcast/server.go behind its sends: who waits on its channels.
use eggscrambler.Base.{
  ℕ, suc, ◌≡◌, ◌≢◌, ◌<◌, refl, ◌==◌, ◌&&◌, if◌then◌else◌, Bool, true, false, Option, none, some,
  List, [], ◌∷◌, inl, inr, arith, Option-cases, Bool-cases, map,
}
use eggscrambler.StateMachine.Ops.{Op}
use eggscrambler.StateMachine.Order.{guaranteed_no_effect}
use eggscrambler.Server.RespChannels.{
  find, delete, get, create, get-create, find-delete, closed_by_clear, new_resp_channels,
}
use eggscrambler.Server.Core.{
  new_server, command, raft_update, snapshot, configuration, no_message, submit_op, apply_msg,
  reply_to,
}
use eggscrambler.Server.System.{
  Event, submits, receives, opens, closes, System, new_system, deliver, deliver_all, happen,
}
use eggscrambler.Server.Others.{command-Commits, KeepsTables, other-KeepsTables}

module _ {C : Type 0} where
  -- What Raft has committed, by term and index.
  abbrev pub delivered_by : (ℕ → ℕ → Bool) → Event C → ℕ → ℕ → Bool
  delivered_by delivered (receives (command term index op)) t i =
      if t == term && (i == index) then true else delivered t i
  delivered_by delivered e t i = delivered t i

  abbrev pub IsNew : (ℕ → ℕ → Bool) → Event C → Type 0
  IsNew delivered (receives (command term index op)) = delivered term index ≡ false
  IsNew delivered e = Unit

  -- Each channel is for one term and index, and a call waits on it until it is delivered.
  pub record Waits (delivered : ℕ → ℕ → Bool) (sys : System C) : Type 0 where
    pub owned :
        (t i ch : ℕ)
        → get sys.server.resps t i ≡ some ch
        → delivered t i ≡ false
        → find ch sys.pending ≢ none
    pub distinct :
        (t i t' i' ch : ℕ)
        → get sys.server.resps t i ≡ some ch
        → get sys.server.resps t' i' ≡ some ch
        → (t ≡ t') × (i ≡ i')
    pub fresh : (t i ch : ℕ) → get sys.server.resps t i ≡ some ch → ch < sys.server.next_channel

  same-Waits :
      (delivered : ℕ → ℕ → Bool) (sys sys' : System C)
      → KeepsTables sys sys'
      → Waits delivered sys
      → Waits delivered sys'
  same-Waits delivered sys sys' (_, e2, e3, e4, _) w = record {
    owned = rw (e2, e4) w.owned;
    distinct = rw e2 w.distinct;
    fresh = rw (e2, e3) w.fresh;
  }

  submits-Waits :
      (delivered : ℕ → ℕ → Bool) (debug : Bool) (sys sys' : System C) (op : Op C)
      (start : Option (ℕ × ℕ))
      → happen debug sys (submits op start) ≡ some sys'
      → Waits delivered sys
      → Waits delivered sys'
  unfolding happen submit_op find
  submits-Waits delivered debug sys sys' op none h w =
      let e1 : sys'.server.resps ≡ sys.server.resps = ground arith in
      let e2 : sys'.server.next_channel ≡ sys.server.next_channel = ground arith in
      let e3 : sys'.pending ≡ sys.pending = ground arith in
      record {
        owned = rw (e1, e3) w.owned;
        distinct = rw e1 w.distinct;
        fresh = rw (e1, e2) w.fresh;
      }
  submits-Waits delivered debug sys sys' op (some (term, index)) h w =
      elim (Bool-cases (guaranteed_no_effect sys.server.sm op)) [
        | inl g ↦
            let e1 : sys'.server.resps ≡ sys.server.resps = ground arith in
            let e2 : sys'.server.next_channel ≡ sys.server.next_channel = ground arith in
            let e3 : sys'.pending ≡ sys.pending = ground arith in
            record {
              owned = rw (e1, e3) w.owned;
              distinct = rw e1 w.distinct;
              fresh = rw (e1, e2) w.fresh;
            }
        | inr g ↦
            let n = sys.server.next_channel in
            elim (Option-cases (create debug sys.server.resps term index n)) [
              | inl f ↦ absurd (ground (arith, g, f))
              | inr (r, f) ↦
                  let after : System C = record sys {
                    server = record (sys.server) { resps = r; next_channel = suc n };
                    pending = (n, op) ∷ sys.pending;
                  } in
                  let same : after ≡ sys' = ground arith in
                  let read = λ (t i : ℕ). get-create debug sys.server.resps r term index t i n f in
                  let waits : Waits delivered after = record {
                    owned = λ t i c g d. ground (arith, read t i, w.owned t i c, w.fresh t i c);
                    distinct = λ t i t' i' c g g'. ground (
                      arith,
                      read t i,
                      read t' i',
                      w.fresh t i c,
                      w.fresh t' i' c,
                      w.distinct t i t' i' c,
                    );
                    fresh = λ t i c g. ground (arith, read t i, w.fresh t i c);
                  } in
                  rw (← same) waits
            ]
      ]

  command-Waits :
      (delivered : ℕ → ℕ → Bool) (debug : Bool) (sys sys' : System C) (t i : ℕ) (op : Op C)
      → happen debug sys (receives (command t i op)) ≡ some sys'
      → Waits delivered sys
      → Waits (delivered_by delivered (receives (command t i op))) sys'
  unfolding deliver_all deliver
  command-Waits delivered debug sys sys' t i op h w =
      let c = command-Commits debug sys sys' t i op h in
      let sys1 : System C = record sys { server = c.server } in
      elim (Option-cases (get sys.server.resps t i)) [
        | inl e ↦
            let same : sys1 ≡ sys' = ground (arith, rw e at c.delivers) in
            rw (← same) (record {
              owned = λ t' i' ch g d. ground (arith, w.owned t' i' ch, c.same_resps);
              distinct = rw c.same_resps w.distinct;
              fresh = rw (c.same_resps, c.same_channels) w.fresh;
            })
        | inr (ch, e) ↦ elim (Option-cases (find ch sys.pending)) [
          | inl f ↦ absurd (ground (arith, rw e at c.delivers))
          | inr (x, f) ↦
              let sys2 : System C = record sys1 {
                pending = delete ch sys.pending;
                answers = (x, reply_to true) ∷ sys.answers;
              } in
              let same : sys2 ≡ sys' = ground (arith, rw e at c.delivers) in
              rw (← same) (record {
                owned = λ t' i' ch' g d. ground (
                  arith,
                  w.owned t' i' ch',
                  c.same_resps,
                  find-delete ch' ch sys.pending,
                  w.distinct t i t' i' ch,
                );
                distinct = rw c.same_resps w.distinct;
                fresh = rw (c.same_resps, c.same_channels) w.fresh;
              })
        ]
      ]

  -- To answer all the calls that wait on a list of channels, and to pass over the others.
  pub deliver_all-closes :
      (chs : List ℕ) (sys : System C)
      → (sys' : System C) × (deliver_all sys (map (λ ch. (ch, false)) chs) ≡ some sys')
        × (sys'.server ≡ sys.server)
  unfolding deliver_all deliver
  deliver_all-closes [] sys = (sys, refl, refl)
  deliver_all-closes (ch ∷ chs) sys = elim (Option-cases (find ch sys.pending)) [
    | inl e ↦ let (sys', h, same) = deliver_all-closes chs sys in (sys', ground (arith, h), same)
    | inr (op, e) ↦
        let (sys', h, same) = deliver_all-closes chs (record sys {
          pending = delete ch sys.pending;
          answers = (op, reply_to false) ∷ sys.answers;
        }) in
        (sys', ground (arith, h), same)
  ]

  cleared-Waits :
      (delivered : ℕ → ℕ → Bool) (debug : Bool) (sys sys' : System C)
      → happen debug sys (receives (raft_update false)) ≡ some sys'
      → Waits delivered sys'
  unfolding happen apply_msg get find
  cleared-Waits delivered debug sys sys' h =
      let (sys1, q, kept) =
        deliver_all-closes (closed_by_clear sys.server.resps)
          (record sys { server = record (sys.server) { resps = new_resp_channels } }) in
      let same : sys'.server.resps ≡ new_resp_channels = ground (arith, q, kept) in
      record {
        owned = λ t i c g d. ground (arith, same);
        distinct = λ t i t' i' c g g'. ground (arith, same);
        fresh = λ t i c g. ground (arith, same);
      }

  pub happen-Waits :
      (delivered : ℕ → ℕ → Bool) (debug : Bool) (e : Event C) (sys sys' : System C)
      → happen debug sys e ≡ some sys'
      → Waits delivered sys
      → Waits (delivered_by delivered e) sys'
  happen-Waits delivered debug (submits op start) sys sys' h w =
      submits-Waits delivered debug sys sys' op start h w
  happen-Waits delivered debug (receives (command t i op)) sys sys' h w =
      command-Waits delivered debug sys sys' t i op h w
  happen-Waits delivered debug (receives (raft_update false)) sys sys' h w =
      cleared-Waits delivered debug sys sys' h
  happen-Waits delivered debug (receives (raft_update true)) sys sys' h w =
      same-Waits delivered sys sys'
        (other-KeepsTables debug (receives (raft_update true)) sys sys' tt h) w
  happen-Waits delivered debug (receives snapshot) sys sys' h w =
      same-Waits delivered sys sys' (other-KeepsTables debug (receives snapshot) sys sys' tt h) w
  happen-Waits delivered debug (receives (configuration c)) sys sys' h w =
      same-Waits delivered sys sys'
        (other-KeepsTables debug (receives (configuration c)) sys sys' tt h) w
  happen-Waits delivered debug (receives no_message) sys sys' h w =
      same-Waits delivered sys sys' (other-KeepsTables debug (receives no_message) sys sys' tt h) w
  happen-Waits delivered debug opens sys sys' h w =
      same-Waits delivered sys sys' (other-KeepsTables debug opens sys sys' tt h) w
  happen-Waits delivered debug (closes i) sys sys' h w =
      same-Waits delivered sys sys' (other-KeepsTables debug (closes i) sys sys' tt h) w

  pub new_system-Waits : Waits (λ t i. false) (new_system {C = C})
  unfolding new_server get find
  new_system-Waits = record {
    owned = λ t i c g d. ground arith;
    distinct = λ t i t' i' c g g'. ground arith;
    fresh = λ t i c g. ground arith;
  }
