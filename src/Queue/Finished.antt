-- ===== src/Queue/Finished.antt =====
-- The queue and the operations that were finished in the course of the events.
use eggscrambler.Base.{
  ◌≡◌, refl, Option, none, some, Option-cases, ◌++◌, List, [], ◌∷◌, inl, inr, arith,
}
use eggscrambler.StateMachine.Ops.{Op}
use eggscrambler.Queue.Compare.{newer, compare}
use eggscrambler.Queue.Order.{newer_trans}
use eggscrambler.Queue.Usage.{
  Client, Event, adds, gets, succeeds, fails, step, run_events, ClientInv, Pending, new_client,
  run_events-new_client,
}
use eggscrambler.Queue.Submissions.{IsSettled, step-IsSettled, finish-last}

module _ {C : Type 0} where
  -- The operations whose submission succeeds in the course of the events.
  abbrev pub finished_by : Client C → Event C → List (Op C)
  finished_by s succeeds = elim s.taken [ none ↦ [] | some t ↦ t ∷ [] ]
  finished_by s e = []

  unfoldable pub finished_in : Client C → List (Event C) → List (Op C)
  finished_in s [] = []
  finished_in s (e ∷ es) = finished_by s e ++ finished_in (step s e) es

  abbrev pub NewerThanAll : List (Op C) → Op C → Type 0
  NewerThanAll [] op = Unit
  NewerThanAll (f ∷ fs) op = (compare op f ≡ newer) × NewerThanAll fs op

  abbrev pub AllNewerThan : List (Op C) → List (Op C) → Type 0
  AllNewerThan fs [] = Unit
  AllNewerThan fs (x ∷ xs) = NewerThanAll fs x × AllNewerThan fs xs

  abbrev pub TakenNewerThan : List (Op C) → Option (Op C) → Type 0
  TakenNewerThan fs none = Unit
  TakenNewerThan fs (some t) = NewerThanAll fs t

  abbrev AllSettled : Client C → List (Op C) → Type 0
  AllSettled s [] = Unit
  AllSettled s (f ∷ fs) = IsSettled s f × AllSettled s fs

  AllSettled-append :
      (s : Client C) (xs ys : List (Op C))
      → AllSettled s xs
      → AllSettled s ys
      → AllSettled s (xs ++ ys)
  AllSettled-append s [] ys h k = k
  AllSettled-append s (x ∷ xs) ys h k = (h.0, AllSettled-append s xs ys h.1 k)

  run_events-IsSettled :
      (s : Client C) (es : List (Event C)) (op : Op C)
      → IsSettled s op
      → IsSettled (run_events s es) op
  unfolding run_events
  run_events-IsSettled s [] op h = h
  run_events-IsSettled s (e ∷ es) op h =
      run_events-IsSettled (step s e) es op (step-IsSettled s e op h)

  success-IsSettled : (s : Client C) (t : Op C) → s.taken ≡ some t → IsSettled (step s succeeds) t
  unfolding step
  success-IsSettled s t e = rw (e, step) (finish-last s.queue t).1

  finished_by-AllSettled :
      (s : Client C) (e : Event C) (es : List (Event C))
      → AllSettled (run_events (step s e) es) (finished_by s e)
  finished_by-AllSettled s succeeds es = elim (Option-cases s.taken) [
    | inl q ↦ rw q tt
    | inr (t, q) ↦
        let settled = run_events-IsSettled (step s succeeds) es t (success-IsSettled s t q) in
        let only : finished_by s succeeds ≡ t ∷ [] = rw q refl in rw only (settled, tt)
  ]
  finished_by-AllSettled s (adds op) es = tt
  finished_by-AllSettled s gets es = tt
  finished_by-AllSettled s fails es = tt

  finished_in-AllSettled :
      (s : Client C) (es : List (Event C)) → AllSettled (run_events s es) (finished_in s es)
  unfolding finished_in run_events
  finished_in-AllSettled s [] = tt
  finished_in-AllSettled s (e ∷ es) =
      AllSettled-append (run_events s (e ∷ es)) (finished_by s e) (finished_in (step s e) es)
        (finished_by-AllSettled s e es) (finished_in-AllSettled (step s e) es)

  settled-NewerThanAll :
      (s : Client C) (fs : List (Op C)) (op : Op C)
      → AllSettled s fs
      → compare op s.queue.last_finished ≡ newer
      → NewerThanAll fs op
  settled-NewerThanAll s [] op h n = tt
  settled-NewerThanAll s (f ∷ fs) op h n =
      (newer_trans op s.queue.last_finished f n h.0, settled-NewerThanAll s fs op h.1 n)

  queue-AllNewerThan :
      (fs : List (Op C)) (xs : List (Op C)) (last : Op C) (t : Option (Op C))
      → ((op : Op C) → compare op last ≡ newer → NewerThanAll fs op)
      → Pending xs last t
      → AllNewerThan fs xs × TakenNewerThan fs t
  queue-AllNewerThan fs [] last none f p = (tt, tt)
  queue-AllNewerThan fs [] last (some t) f p = ground arith
  queue-AllNewerThan fs (x ∷ []) last none f p = ((f x p, tt), tt)
  queue-AllNewerThan fs (x ∷ []) last (some t) f p = ((f x p.0, tt), f t p.1)
  queue-AllNewerThan fs (x ∷ y ∷ xs) last t f p = absurd p

  -- Whatever the routines of a client do, at most one operation is pending; it, and the one that is
  -- being submitted, are newer than every operation whose submission has succeeded, and the one being
  -- submitted is still pending or has one that is not older in its place.
  pub run_events-finished_in :
      (es : List (Event C))
      → ClientInv (run_events new_client es)
        × AllNewerThan (finished_in new_client es) (run_events new_client es).queue.ops
        × TakenNewerThan (finished_in new_client es) (run_events new_client es).taken
  run_events-finished_in es =
      let s = run_events new_client es in
      let v = run_events-new_client es in
      let settled = finished_in-AllSettled new_client es in
      let (pending, taken) =
        queue-AllNewerThan (finished_in new_client es) s.queue.ops s.queue.last_finished s.taken
          (λ op n. settled-NewerThanAll s (finished_in new_client es) op settled n) v in
      (v, pending, taken)
