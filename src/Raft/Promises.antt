-- ===== src/Raft/Promises.antt =====
-- The steps of a server of anonbcast/server.go with a Raft, and what Raft promises of them.
use eggscrambler.Base.{
  ℕ, ◌≡◌, refl, Bool, Bool-cases, Option, none, some, List, ◌∷◌, inl, inr, arith, Option-cases,
}
use eggscrambler.StateMachine.Ops.{Op}
use eggscrambler.Server.System.{Event, submits, receives, opens, closes, IsFaithful}
use eggscrambler.StateMachine.Order.{guaranteed_no_effect}
use eggscrambler.Server.Answers.{started_by}
use eggscrambler.Server.Waits.{delivered_by, IsNew}
use eggscrambler.Server.Core.{command, raft_update, snapshot, configuration, no_message, ApplyMsg}
use eggscrambler.Server.Owed.{IsAllowed, IsAhead}
use eggscrambler.Raft.Interface.{Raft, RaftLaws}
use eggscrambler.Raft.Node.{Step, asks, delivers, opens_channel, closes_channel, Node, event_of}

module _ {C : Type 0} where
  pub IsFaithful-cons :
      (started : ℕ → ℕ → Option (Op C)) (e : Event C) (es : List (Event C))
      → IsAllowed started e
      → IsFaithful (started_by started e) es
      → IsFaithful started (e ∷ es)
  IsFaithful-cons started (submits op none) es a f = f
  IsFaithful-cons started (submits op (some (t, i))) es a f = (a, f)
  IsFaithful-cons started (receives (command t i op)) es a f = (a, f)
  IsFaithful-cons started (receives (raft_update b)) es a f = f
  IsFaithful-cons started (receives snapshot) es a f = f
  IsFaithful-cons started (receives (configuration c)) es a f = f
  IsFaithful-cons started (receives no_message) es a f = f
  IsFaithful-cons started opens es a f = f
  IsFaithful-cons started (closes i) es a f = f

  module _ (raft : Raft C) (laws : RaftLaws raft) (debug : Bool) where
    pub record IsKept (s r : raft.State) (e : Event C) : Type 0 where
      pub inv : laws.Inv r
      pub same_log : laws.log r ≡ started_by (laws.log s) e
      pub same_delivered : laws.delivered r ≡ delivered_by (laws.delivered s) e
      pub allowed : IsAllowed (laws.log s) e
      pub ahead : IsAhead (laws.delivered s) e
      pub new : IsNew (laws.delivered s) e

    asked-IsKept :
        (s r : raft.State) (op : Op C) (start : Option (ℕ × ℕ))
        → raft.start s op ≡ (r, start)
        → laws.Inv s
        → IsKept s r (submits op start)
    asked-IsKept s r op none h v =
        let (v', l, d, _) = laws.start_law s r op none h v in
        record { inv = v'; same_log = l; same_delivered = d; allowed = tt; ahead = tt; new = tt }
    asked-IsKept s r op (some (term, index)) h v =
        let (v', (free, l), d, b) = laws.start_law s r op (some (term, index)) h v in
        record { inv = v'; same_log = l; same_delivered = d; allowed = free; ahead = b; new = tt }

    received-IsKept :
        (s r : raft.State) (k : ℕ) (msg : ApplyMsg C)
        → raft.receive s k ≡ some (r, msg)
        → laws.Inv s
        → IsKept s r (receives msg)
    received-IsKept s r k msg h v =
        let (v', l, d, a, w) = laws.receive_law s r k msg h v in
        record { inv = v'; same_log = l; same_delivered = d; allowed = a; ahead = tt; new = w }

    pub event_of-IsKept :
        (n : Node raft) (st : Step C) (r : raft.State) (e : Event C)
        → laws.Inv n.state
        → event_of raft debug n st ≡ some (r, e)
        → IsKept n.state r e
    unfolding event_of
    event_of-IsKept n (asks op) r e v h =
        elim (Bool-cases (guaranteed_no_effect n.system.server.sm op)) [
          | inl g ↦
              let p : n.state ≡ r = ground arith in
              let q : submits op none ≡ e = ground arith in
              rw (← p, ← q)
                (record {
                  inv = v;
                  same_log = refl;
                  same_delivered = refl;
                  allowed = tt;
                  ahead = tt;
                  new = tt;
                })
          | inr g ↦
              let (s, start) = raft.start n.state op in
              let p : s ≡ r = ground arith in
              let q : submits op start ≡ e = ground arith in
              rw (← p, ← q) (asked-IsKept n.state s op start refl v)
        ]
    event_of-IsKept n (delivers k) r e v h = elim (Option-cases (raft.receive n.state k)) [
      | inl g ↦ absurd (ground (arith, h, g))
      | inr ((s, msg), g) ↦
          let p : s ≡ r = ground (arith, g, h) in
          let q : receives msg ≡ e = ground (arith, g, h) in
          rw (← p, ← q) (received-IsKept n.state s k msg g v)
    ]
    event_of-IsKept n opens_channel r e v h =
        let p : n.state ≡ r = ground arith in
        let q : opens ≡ e = ground arith in
        rw (← p, ← q)
          (record {
            inv = v;
            same_log = refl;
            same_delivered = refl;
            allowed = tt;
            ahead = tt;
            new = tt;
          })
    event_of-IsKept n (closes_channel i) r e v h =
        let p : n.state ≡ r = ground arith in
        let q : closes i ≡ e = ground arith in
        rw (← p, ← q)
          (record {
            inv = v;
            same_log = refl;
            same_delivered = refl;
            allowed = tt;
            ahead = tt;
            new = tt;
          })
