-- ===== src/Queue/Submissions.antt =====
-- No operation is submitted again once it, or a newer one, was finished.
use eggscrambler.Base.{
  ◌≡◌, ◌≢◌, Option, none, some, Option-cases, ◌++◌, List, [], ◌∷◌, arith, inl, inr,
}
use eggscrambler.StateMachine.Ops.{Op}
use eggscrambler.Queue.Compare.{newer, older, compare}
use eggscrambler.Queue.Order.{compare_total, compare_self, newer_trans, not_older_trans}
use eggscrambler.Queue.Elimination.{EliminationQueue, add, get, finish}
use eggscrambler.Queue.Usage.{
  Client, Event, adds, gets, succeeds, fails, step, ClientInv, Pending, step-ClientInv,
}

module _ {C : Type 0} where
  -- The operations that `submitOps` takes in the course of the events.
  abbrev pub taken_by : Client C → Event C → List (Op C)
  taken_by s gets = elim s.taken [
    | none ↦ elim (get s.queue) [ none ↦ [] | some x ↦ x ∷ [] ]
    | some t ↦ []
  ]
  taken_by s e = []

  unfoldable pub submissions : Client C → List (Event C) → List (Op C)
  submissions s [] = []
  submissions s (e ∷ es) = taken_by s e ++ submissions (step s e) es

  abbrev pub AllNewer : List (Op C) → Op C → Type 0
  AllNewer [] op = Unit
  AllNewer (x ∷ xs) op = (compare x op ≡ newer) × AllNewer xs op

  -- An operation is settled when it, or a newer one, was finished.
  abbrev pub IsSettled : Client C → Op C → Type 0
  IsSettled s op = compare s.queue.last_finished op ≢ older

  pub finish-last :
      (q : EliminationQueue C) (t : Op C)
      → (compare (finish q t).last_finished q.last_finished ≢ older)
        × (compare (finish q t).last_finished t ≢ older)
  unfolding finish
  finish-last q t =
      ground (arith, compare_total q.last_finished t, compare_self q.last_finished, compare_self t)

  pub step-IsSettled :
      (s : Client C) (e : Event C) (op : Op C) → IsSettled s op → IsSettled (step s e) op
  unfolding step add
  step-IsSettled s (adds x) op h = ground arith
  step-IsSettled s gets op h = ground arith
  step-IsSettled s succeeds op h = elim (Option-cases s.taken) [
    | inl e ↦ rw (e, step) h
    | inr (t, e) ↦ rw (e, step) (not_older_trans _ _ _ (finish-last s.queue t).0 h)
  ]
  step-IsSettled s fails op h = h

  get-newer :
      (xs : List (Op C)) (last op : Op C)
      → Pending xs last none
      → compare last op ≢ older
      → AllNewer (elim xs [ [] ↦ [] | x ∷ _ ↦ x ∷ [] ]) op
  get-newer [] last op p h = tt
  get-newer (x ∷ []) last op p h = (newer_trans x last op p h, tt)
  get-newer (x ∷ y ∷ xs) last op p h = absurd p

  gets-AllNewer :
      (q : EliminationQueue C) (t : Option (Op C)) (op : Op C)
      → ClientInv (record { queue = q; taken = t })
      → compare q.last_finished op ≢ older
      → AllNewer (taken_by (record { queue = q; taken = t }) gets) op
  unfolding get
  gets-AllNewer q none op v h = ground (arith, get-newer q.ops q.last_finished op v h)
  gets-AllNewer q (some t) op v h = tt

  taken_by-AllNewer :
      (s : Client C) (e : Event C) (op : Op C)
      → ClientInv s
      → IsSettled s op
      → AllNewer (taken_by s e) op
  taken_by-AllNewer s (adds x) op v h = tt
  taken_by-AllNewer s gets op v h = gets-AllNewer s.queue s.taken op v h
  taken_by-AllNewer s succeeds op v h = tt
  taken_by-AllNewer s fails op v h = tt

  AllNewer-append :
      (xs ys : List (Op C)) (op : Op C) → AllNewer xs op → AllNewer ys op → AllNewer (xs ++ ys) op
  AllNewer-append [] ys op h k = k
  AllNewer-append (x ∷ xs) ys op h k = (h.0, AllNewer-append xs ys op h.1 k)

  settled-submissions :
      (s : Client C) (op : Op C) (es : List (Event C))
      → ClientInv s
      → IsSettled s op
      → AllNewer (submissions s es) op
  unfolding submissions
  settled-submissions s op [] v h = tt
  settled-submissions s op (e ∷ es) v h =
      AllNewer-append (taken_by s e) _ op (taken_by-AllNewer s e op v h)
        (settled-submissions (step s e) op es (step-ClientInv s e v) (step-IsSettled s e op h))

  -- In a client that satisfies the invariant of the queue, once the submission of an operation has
  -- succeeded, only newer operations are ever submitted.
  pub submissions-after_success :
      (s : Client C) (t : Op C) (es : List (Event C))
      → ClientInv s
      → s.taken ≡ some t
      → AllNewer (submissions (step s succeeds) es) t
  unfolding step
  submissions-after_success s t es v e =
      settled-submissions (step s succeeds) t es (step-ClientInv s succeeds v)
        (rw (e, step) (finish-last s.queue t).1)
