-- ===== src/Raft/Mock.antt =====
-- mockraft/mockraft.go: a Raft of one server that commits every command. Each call of `Start` leaves a
-- goroutine behind that sends the command, and nothing orders these goroutines.
use std.Path.{fun_ext}
use eggscrambler.Base.{
  ℕ, zero, suc, ◌≡◌, refl, Bool, true, false, ◌==◌, ◌&&◌, if◌then◌else◌, Option, none, some, List,
  [], ◌∷◌, ◌++◌, inl, inr, arith, length, length-snoc, get_elem?, Option-cases,
}
use eggscrambler.StateMachine.Ops.{Op}
use eggscrambler.Server.RespChannels.{find, delete, find-delete}
use eggscrambler.Server.Core.{ApplyMsg, command}
use eggscrambler.Server.System.{submits, receives, note_start}
use eggscrambler.Server.Owed.{IsAllowed, IsAhead}
use eggscrambler.Server.Waits.{delivered_by, IsNew}
use eggscrambler.Raft.Interface.{Raft, RaftLaws, IsStarted}

pub record Mockraft (C : Type 0) : Type 0 where
  pub log : List (Op C)
  -- The goroutines that still have to send: the index and the command of each.
  pub sending : List (ℕ × Op C)

abbrev is_some : {A : Type 0} → Option A → Bool
is_some none = false
is_some (some x) = true

module _ {C : Type 0} where
  abbrev pub new_mockraft : Mockraft C
  new_mockraft = record { log = []; sending = [] }

  -- `Start`: always the leader, in term 1.
  unfoldable pub mock_start : Mockraft C → Op C → Mockraft C × Option (ℕ × ℕ)
  mock_start m op =
      let log = m.log ++ (op ∷ []) in
      (record { log = log; sending = (length log, op) ∷ m.sending }, some (1, length log))

  -- The goroutine of an index sends its command.
  unfoldable pub mock_receive : Mockraft C → ℕ → Option (Mockraft C × ApplyMsg C)
  mock_receive m index = elim (find index m.sending) [
    | none ↦ none
    | some op ↦ some (record m { sending = delete index m.sending }, command 1 index op)
  ]

  abbrev pub mockraft : Raft C
  mockraft = record {
    State = Mockraft C;
    initial = new_mockraft;
    start = mock_start;
    receive = mock_receive;
  }

  -- The indices of the log begin at 1.
  unfoldable pub entry : List (Op C) → ℕ → Option (Op C)
  entry log zero = none
  entry log (suc i) = get_elem? log i

  get_elem?-append :
      (log : List (Op C)) (op : Op C) (i : ℕ)
      → get_elem? (log ++ (op ∷ [])) i ≡ (if i == length log then some op else get_elem? log i)
  get_elem?-append [] op zero = refl
  get_elem?-append [] op (suc i) = ground arith
  get_elem?-append (x ∷ log) op zero = ground arith
  get_elem?-append (x ∷ log) op (suc i) = ground (arith, get_elem?-append log op i)

  get_elem?-length : (log : List (Op C)) → get_elem? log (length log) ≡ none
  get_elem?-length [] = refl
  get_elem?-length (x ∷ log) = get_elem?-length log

  entry-append :
      (log : List (Op C)) (op : Op C) (i : ℕ)
      → entry (log ++ (op ∷ [])) i ≡ (if i == suc (length log) then some op else entry log i)
  unfolding entry
  entry-append log op zero = ground arith
  entry-append log op (suc i) = ground (arith, get_elem?-append log op i)

  abbrev pub mock_log : Mockraft C → ℕ → ℕ → Option (Op C)
  mock_log m t i = if t == 1 then entry m.log i else none

  -- What the goroutines have sent.
  abbrev pub mock_delivered : Mockraft C → ℕ → ℕ → Bool
  mock_delivered m t i =
      (t == 1) && (is_some (entry m.log i) && (if is_some (find i m.sending) then false else true))

  -- Each goroutine sends the entry of the log at its index.
  abbrev pub MockInv : Mockraft C → Type 0
  MockInv m = (i : ℕ) (op : Op C) → find i m.sending ≡ some op → entry m.log i ≡ some op

  module _ (m m' : Mockraft C) (op : Op C) (term index : ℕ)
      (h : mock_start m op ≡ (m', some (term, index))) (v : MockInv m) where
    started-MockInv : MockInv m'
    unfolding mock_start find
    started-MockInv i x f =
        ground (arith, entry-append m.log op i, length-snoc m.log op, v i x, v i op)

    started_free : mock_log m term index ≡ none
    unfolding mock_start entry
    started_free = ground (arith, length-snoc m.log op, get_elem?-length m.log)

    started_log : mock_log m' ≡ note_start (mock_log m) term index op
    unfolding mock_start
    started_log =
        fun_ext (λ t. fun_ext (λ i. ground (arith, length-snoc m.log op, entry-append m.log op i)))

    started_delivered : mock_delivered m' ≡ mock_delivered m
    unfolding mock_start find entry
    started_delivered = fun_ext (λ t. fun_ext (λ i.
        ground (arith, length-snoc m.log op, entry-append m.log op i, get_elem?-length m.log)))

    started_ahead : mock_delivered m term index ≡ false
    unfolding mock_start entry
    started_ahead = ground (arith, length-snoc m.log op, get_elem?-length m.log)

  module _ (m m' : Mockraft C) (k : ℕ) (msg : ApplyMsg C) (h : mock_receive m k ≡ some (m', msg))
      (v : MockInv m) where
    pub received-MockInv :
        MockInv m'
        × (mock_log m' ≡ mock_log m)
        × (mock_delivered m' ≡ delivered_by (mock_delivered m) (receives msg))
        × IsAllowed (mock_log m) (receives msg)
        × IsNew (mock_delivered m) (receives msg)
    unfolding mock_receive
    received-MockInv = elim (Option-cases (find k m.sending)) [
      | inl e ↦ absurd (ground (arith, e, h))
      | inr (op, e) ↦
          let after : Mockraft C = record m { sending = delete k m.sending } in
          let same : after ≡ m' = ground (arith, e, h) in
          let sent : command 1 k op ≡ msg = ground (arith, e, h) in
          rw (← same, ← sent)
            (
              (λ i x f. ground (arith, find-delete i k m.sending, v i x)),
              refl,
              fun_ext (λ t. fun_ext (λ i. ground (arith, find-delete i k m.sending, v k op e))),
              rw (v k op e) refl,
              ground (arith, v k op e, e),
            )
    ]

  pub mock_start-IsStarted :
      (m m' : Mockraft C) (op : Op C) (at : Option (ℕ × ℕ))
      → mock_start m op ≡ (m', at)
      → MockInv m
      → MockInv m'
        × IsStarted (mock_log m) op at (mock_log m')
        × (mock_delivered m' ≡ mock_delivered m)
        × IsAhead (mock_delivered m) (submits op at)
  unfolding mock_start
  mock_start-IsStarted m m' op none h v = absurd (ground (arith, h))
  mock_start-IsStarted m m' op (some (t, i)) h v = (
    started-MockInv m m' op t i h v,
    (started_free m m' op t i h v, started_log m m' op t i h v),
    started_delivered m m' op t i h v,
    started_ahead m m' op t i h v,
  )

  pub entry_nothing : (i : ℕ) → entry [] i ≡ none
  unfolding entry
  entry_nothing zero = refl
  entry_nothing (suc i) = refl

  pub new_mockraft-MockInv : MockInv new_mockraft
  unfolding find
  new_mockraft-MockInv i op f = ground arith

  pub mock_log-new_mockraft : mock_log new_mockraft ≡ (λ t i. none)
  mock_log-new_mockraft = fun_ext (λ t. fun_ext (λ i. ground (arith, entry_nothing i)))

  pub mock_delivered-new_mockraft :
      (none_yet : Mockraft C) → none_yet ≡ new_mockraft → mock_delivered none_yet ≡ (λ t i. false)
  mock_delivered-new_mockraft m e = fun_ext (λ t. fun_ext (λ i. ground (arith, entry_nothing i, e)))

  unfoldable pub mockraft_laws : RaftLaws mockraft
  mockraft_laws = record {
    Inv = MockInv;
    log = mock_log;
    delivered = mock_delivered;
    initial_inv = new_mockraft-MockInv;
    initial_log = mock_log-new_mockraft;
    initial_delivered = mock_delivered-new_mockraft new_mockraft refl;
    start_law = mock_start-IsStarted;
    receive_law = λ s s' k msg h v. received-MockInv s s' k msg h v;
  }
