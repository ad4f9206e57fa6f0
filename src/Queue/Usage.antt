-- ===== src/Queue/Usage.antt =====
-- The queue under any calls of `add` by the client's routines, and the calls of `get` and `finish` by
-- the one routine `submitOps`.
use eggscrambler.Base.{◌≡◌, ◌≢◌, refl, Option, none, some, List, [], ◌∷◌, arith, if◌then◌else◌}
use eggscrambler.StateMachine.Ops.{Op}
use eggscrambler.Queue.Compare.{newer, older, compare}
use eggscrambler.Queue.Order.{compare_total, compare_self, not_older_trans}
use eggscrambler.Queue.Elimination.{
  EliminationQueue, new_elimination_queue, add, place, get, finish, drop_finished, is_older,
}

-- The queue, with the operation that `submitOps` is submitting.
pub record Client (C : Type 0) : Type 0 where
  pub queue : EliminationQueue C
  pub taken : Option (Op C)

pub data Event (C : Type 0) : Type 0 where
  adds : Op C → Event C
  gets : Event C
  -- the RPC succeeds, or fails and the client goes on to the next server
  succeeds : Event C
  fails : Event C

module _ {C : Type 0} where
  -- The loop of `submitOps`: `get`, then `submitOp`, then `finish` if that succeeded.
  unfoldable pub step : Client C → Event C → Client C
  step s (adds op) = record s { queue = add s.queue op }
  step s gets = elim s.taken [ none ↦ record s { taken = get s.queue } | some t ↦ s ]
  step s succeeds = elim s.taken [
    | none ↦ s
    | some t ↦ record { queue = finish s.queue t; taken = none }
  ]
  step s fails = record s { taken = none }

  unfoldable pub run_events : Client C → List (Event C) → Client C
  run_events s [] = s
  run_events s (e ∷ es) = run_events (step s e) es

  -- At most one operation is pending, as `checkRep` asserts, and it is newer than the last finished one;
  -- it is not older than the one that is being submitted.
  abbrev pub Pending : List (Op C) → Op C → Option (Op C) → Type 0
  Pending [] last t = t ≡ none
  Pending (x ∷ []) last none = compare x last ≡ newer
  Pending (x ∷ []) last (some t) =
      (compare x last ≡ newer) × (compare t last ≡ newer) × (compare x t ≢ older)
  Pending (x ∷ y ∷ xs) last t = ⊥

  abbrev pub ClientInv : Client C → Type 0
  ClientInv s = Pending s.queue.ops s.queue.last_finished s.taken

  -- The newest operation that the queue knows of.
  abbrev pub newest_of : List (Op C) → Op C → Op C
  newest_of [] last = last
  newest_of (x ∷ xs) last = x

  abbrev pub newest : Client C → Op C
  newest s = newest_of s.queue.ops s.queue.last_finished

  pub place-Pending :
      (xs : List (Op C)) (op last : Op C) (t : Option (Op C))
      → Pending xs last t
      → compare op last ≡ newer
      → Pending (place xs op) last t
  unfolding place
  place-Pending [] op last t p h = ground arith
  place-Pending (x ∷ []) op last none p h = ground arith
  place-Pending (x ∷ []) op last (some t) p h =
      ground (arith, compare_total x op, not_older_trans op x t)
  place-Pending (x ∷ y ∷ xs) op last t p h = absurd p

  add-ClientInv :
      (s : Client C) (op : Op C) → ClientInv s → ClientInv (record s { queue = add s.queue op })
  unfolding add
  add-ClientInv s op v =
      ground (arith, place-Pending s.queue.ops op s.queue.last_finished s.taken v)

  get-ClientInv :
      (xs : List (Op C)) (last : Op C)
      → Pending xs last none
      → Pending xs last (elim xs [ [] ↦ none | x ∷ _ ↦ some x ])
  get-ClientInv [] last p = refl
  get-ClientInv (x ∷ []) last p = ground (arith, compare_self x)
  get-ClientInv (x ∷ y ∷ xs) last p = absurd p

  finish-ClientInv :
      (xs : List (Op C)) (last t : Op C)
      → Pending xs last (some t)
      → Pending (drop_finished xs t) (if is_older (compare last t) then t else last) none
  unfolding drop_finished
  finish-ClientInv [] last t p = ground arith
  finish-ClientInv (x ∷ []) last t p = ground (arith, compare_total x t, compare_total t last)
  finish-ClientInv (x ∷ y ∷ xs) last t p = absurd p

  pub fail-ClientInv :
      (xs : List (Op C)) (last : Op C) (t : Option (Op C))
      → Pending xs last t
      → Pending xs last none
  fail-ClientInv [] last t p = refl
  fail-ClientInv (x ∷ []) last none p = p
  fail-ClientInv (x ∷ []) last (some t) p = p.0
  fail-ClientInv (x ∷ y ∷ xs) last t p = absurd p

  gets-ClientInv :
      (q : EliminationQueue C) (t : Option (Op C))
      → ClientInv (record { queue = q; taken = t })
      → ClientInv (step (record { queue = q; taken = t }) gets)
  unfolding step get
  gets-ClientInv q none v = get-ClientInv q.ops q.last_finished v
  gets-ClientInv q (some t) v = v

  succeeds-ClientInv :
      (q : EliminationQueue C) (t : Option (Op C))
      → ClientInv (record { queue = q; taken = t })
      → ClientInv (step (record { queue = q; taken = t }) succeeds)
  unfolding step finish
  succeeds-ClientInv q none v = v
  succeeds-ClientInv q (some t) v = finish-ClientInv q.ops q.last_finished t v

  pub step-ClientInv : (s : Client C) (e : Event C) → ClientInv s → ClientInv (step s e)
  unfolding step
  step-ClientInv s (adds op) v = add-ClientInv s op v
  step-ClientInv s gets v = gets-ClientInv s.queue s.taken v
  step-ClientInv s succeeds v = succeeds-ClientInv s.queue s.taken v
  step-ClientInv s fails v = fail-ClientInv s.queue.ops s.queue.last_finished s.taken v

  pub run_events-ClientInv :
      (s : Client C) (es : List (Event C)) → ClientInv s → ClientInv (run_events s es)
  unfolding run_events
  run_events-ClientInv s [] v = v
  run_events-ClientInv s (e ∷ es) v = run_events-ClientInv (step s e) es (step-ClientInv s e v)

  abbrev pub new_client : Client C
  new_client = record { queue = new_elimination_queue; taken = none }

  -- Whatever the routines do, at most one operation is pending, and it is newer than the one that the
  -- queue keeps as the last finished; the one being submitted is still pending or has one that is not
  -- older in its place.
  pub run_events-new_client : (es : List (Event C)) → ClientInv (run_events new_client es)
  run_events-new_client es =
      run_events-ClientInv new_client es (unfold new_elimination_queue in refl)
