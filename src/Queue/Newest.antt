-- ===== src/Queue/Newest.antt =====
-- No operation that is added to the queue is lost.
use eggscrambler.Base.{◌≡◌, ◌≢◌, Option, none, some, List, [], ◌∷◌, arith, if◌then◌else◌}
use eggscrambler.StateMachine.Ops.{Op}
use eggscrambler.Queue.Compare.{newer, older, compare}
use eggscrambler.Queue.Order.{compare_total, compare_self, newer_trans, not_older_trans}
use eggscrambler.Queue.Elimination.{EliminationQueue, add, place, finish, drop_finished, is_older}
use eggscrambler.Queue.Usage.{
  Client, Event, adds, gets, succeeds, fails, step, run_events, ClientInv, Pending, newest,
  newest_of, fail-ClientInv, step-ClientInv,
}

module _ {C : Type 0} where
  -- The state after a step knows of an operation that is not older.
  place-newest :
      (xs : List (Op C)) (op last : Op C)
      → Pending xs last none
      → compare op last ≡ newer
      → (compare (newest_of (place xs op) last) (newest_of xs last) ≢ older)
        × (compare (newest_of (place xs op) last) op ≢ older)
  unfolding place
  place-newest [] op last p h = ground (arith, compare_self op)
  place-newest (x ∷ []) op last p h =
      ground (arith, compare_total x op, compare_self x, compare_self op)
  place-newest (x ∷ y ∷ xs) op last p h = absurd p

  skip-newest :
      (xs : List (Op C)) (op last : Op C) (t : Option (Op C))
      → Pending xs last t
      → compare op last ≢ newer
      → compare (newest_of xs last) op ≢ older
  skip-newest [] op last t p h = ground (arith, compare_total op last)
  skip-newest (x ∷ []) op last none p h =
      ground (arith, compare_total op last, newer_trans x last op)
  skip-newest (x ∷ []) op last (some t) p h =
      ground (arith, compare_total op last, newer_trans x last op)
  skip-newest (x ∷ y ∷ xs) op last t p h = absurd p

  add-newest :
      (s : Client C) (op : Op C)
      → ClientInv s
      → (compare (newest (step s (adds op))) (newest s) ≢ older)
        × (compare (newest (step s (adds op))) op ≢ older)
  unfolding step add
  add-newest s op v = ground (
    arith,
    compare_self (newest s),
    skip-newest s.queue.ops op s.queue.last_finished s.taken v,
    place-newest s.queue.ops op s.queue.last_finished
        (fail-ClientInv s.queue.ops s.queue.last_finished s.taken v),
  )

  finish-newest :
      (xs : List (Op C)) (last t : Op C)
      → Pending xs last (some t)
      → compare
          (newest_of (drop_finished xs t) (if is_older (compare last t) then t else last))
          (newest_of xs last)
        ≢ older
  unfolding drop_finished
  finish-newest [] last t p = ground arith
  finish-newest (x ∷ []) last t p =
      ground (arith, compare_total x t, compare_total t last, compare_self x)
  finish-newest (x ∷ y ∷ xs) last t p = absurd p

  succeeds-newest :
      (q : EliminationQueue C) (t : Option (Op C))
      → ClientInv (record { queue = q; taken = t })
      → compare
          (newest (step (record { queue = q; taken = t }) succeeds))
          (newest_of q.ops q.last_finished)
        ≢ older
  unfolding step finish
  succeeds-newest q none v = ground (arith, compare_self (newest_of q.ops q.last_finished))
  succeeds-newest q (some t) v = finish-newest q.ops q.last_finished t v

  step-newest :
      (s : Client C) (e : Event C) → ClientInv s → compare (newest (step s e)) (newest s) ≢ older
  unfolding step
  step-newest s (adds op) v = (add-newest s op v).0
  step-newest s gets v = ground (arith, compare_self (newest s))
  step-newest s succeeds v = succeeds-newest s.queue s.taken v
  step-newest s fails v = ground (arith, compare_self (newest s))

  run_events-newest :
      (s : Client C) (es : List (Event C))
      → ClientInv s
      → compare (newest (run_events s es)) (newest s) ≢ older
  unfolding run_events
  run_events-newest s [] v = ground (arith, compare_self (newest s))
  run_events-newest s (e ∷ es) v =
      not_older_trans _ _ _ (run_events-newest (step s e) es (step-ClientInv s e v))
        (step-newest s e v)

  -- No operation is lost: from the moment it is added to a queue that satisfies its invariant, the
  -- pending operation, or the last finished one if none is pending, is the operation itself or one that
  -- is at least as new.
  pub run_events-keeps_added :
      (s : Client C) (op : Op C) (es : List (Event C))
      → ClientInv s
      → compare (newest (run_events (step s (adds op)) es)) op ≢ older
  run_events-keeps_added s op es v =
      not_older_trans _ _ _ (run_events-newest (step s (adds op)) es (step-ClientInv s (adds op) v))
        (add-newest s op v).1
