-- ===== src/Apps/Printed.antt =====
-- What `main` of confessions/confessions.go prints.
use eggscrambler.Base.{
  ℕ, suc, ◌<◌, ◌≡◌, refl, Bool, List, [], ◌∷◌, pos, ◌==ℤ◌, ◌⊎◌, inl, inr, arith, Bool-cases,
}
use eggscrambler.Client.Results.{RoundResult}
use eggscrambler.Apps.Placed.{Among}
use eggscrambler.Apps.Confessions.{
  LoopPlace, LoopEvent, timer_fires, interrupted, enters, start_returns, ticks, sees, gets, Loop,
  new_loop, zero_result, conclude, loop_step, run_loop,
}

abbrev heard_by : List RoundResult → LoopEvent → List RoundResult
heard_by heard (gets r) = r ∷ heard
heard_by heard e = heard

-- The results that the client sent, the last one first.
abbrev pub heard_after : List RoundResult → List LoopEvent → List RoundResult
heard_after heard [] = heard
heard_after heard (e ∷ es) = heard_after (heard_by heard e) es

-- Each result is one that the client sent, or the empty result for round 0; the rounds go down from
-- below `n`.
abbrev pub GoesDown : List RoundResult → ℕ → List RoundResult → Type 0
GoesDown heard n [] = Unit
GoesDown heard n (r ∷ rs) =
    (m : ℕ) × (m < n)
    × (r.round ≡ pos m)
    × (Among r heard ⊎ (r ≡ zero_result))
    × GoesDown heard m rs

GoesDown-more :
    (heard : List RoundResult) (r : RoundResult) (n : ℕ) (rs : List RoundResult)
    → GoesDown heard n rs
    → GoesDown (r ∷ heard) n rs
GoesDown-more heard r n [] h = tt
GoesDown-more heard r n (x ∷ rs) (m, l, e, inl a, h) =
    (m, l, e, inl (inr a), GoesDown-more heard r m rs h)
GoesDown-more heard r n (x ∷ rs) (m, l, e, inr a, h) =
    (m, l, e, inr a, GoesDown-more heard r m rs h)

GoesDown-next :
    (heard : List RoundResult) (n : ℕ) (rs : List RoundResult)
    → GoesDown heard n rs
    → GoesDown heard (suc n) rs
GoesDown-next heard n [] h = tt
GoesDown-next heard n (x ∷ rs) (m, l, e, a, h) = (m, omega (arith, l), e, a, h)

abbrev IsPrinted : List RoundResult → Loop → Type 0
IsPrinted heard l = GoesDown heard l.index l.printed

conclude-IsPrinted :
    (heard : List RoundResult) (l : Loop) (r : RoundResult)
    → Among r heard ⊎ (r ≡ zero_result)
    → IsPrinted heard l
    → IsPrinted heard (conclude l r)
conclude-IsPrinted heard l r a h = elim (Bool-cases (r.round ==ℤ pos l.index)) [
  | inl e ↦ rw e (l.index, omega arith, ground (arith, e), a, h)
  | inr e ↦ rw e h
]

-- What a step does to the list.
abbrev IsSame : Loop → Loop → Type 0
IsSame l l' = (l'.index ≡ l.index) × (l'.printed ≡ l.printed)

abbrev IsNext : Loop → Loop → Type 0
IsNext l l' = (l'.index ≡ suc l.index) × (l'.printed ≡ l.printed)

loop_step-gets :
    (l : Loop) (place : LoopPlace) (r : RoundResult)
    → IsSame l (loop_step l place (gets r)) ⊎ (loop_step l place (gets r) ≡ conclude l r)
unfolding loop_step
loop_step-gets l place r = ground arith

loop_step-sees :
    (l : Loop) (place : LoopPlace) (round : ℕ) (me : Bool)
    → IsSame l (loop_step l place (sees round me))
      ⊎ IsNext l (loop_step l place (sees round me))
      ⊎ (loop_step l place (sees round me) ≡ conclude l zero_result)
unfolding loop_step
loop_step-sees l place round me = ground arith

same-IsPrinted :
    (heard : List RoundResult) (l l' : Loop) → IsSame l l' → IsPrinted heard l → IsPrinted heard l'
same-IsPrinted heard l l' (e, f) h = rw (e, f) h

loop_step-IsPrinted :
    (heard : List RoundResult) (l : Loop) (place : LoopPlace) (e : LoopEvent)
    → IsPrinted heard l
    → IsPrinted (heard_by heard e) (loop_step l place e)
unfolding loop_step
loop_step-IsPrinted heard l place (gets r) h =
    let h' = GoesDown-more heard r l.index l.printed h in
    elim (loop_step-gets l place r) [
      | inl same ↦ same-IsPrinted (r ∷ heard) l (loop_step l place (gets r)) same h'
      | inr e ↦ rw e (conclude-IsPrinted (r ∷ heard) l r (inl (inl refl)) h')
    ]
loop_step-IsPrinted heard l place (sees round me) h = elim (loop_step-sees l place round me) [
  | inl same ↦ same-IsPrinted heard l (loop_step l place (sees round me)) same h
  | inr (inl (e, f)) ↦ rw (e, f) (GoesDown-next heard l.index l.printed h)
  | inr (inr e) ↦ rw e (conclude-IsPrinted heard l zero_result (inr refl) h)
]
loop_step-IsPrinted heard l place timer_fires h =
    same-IsPrinted heard l (loop_step l place timer_fires) (ground arith) h
loop_step-IsPrinted heard l place interrupted h =
    same-IsPrinted heard l (loop_step l place interrupted) (ground arith) h
loop_step-IsPrinted heard l place enters h =
    same-IsPrinted heard l (loop_step l place enters) (ground arith) h
loop_step-IsPrinted heard l place (start_returns b) h =
    same-IsPrinted heard l (loop_step l place (start_returns b)) (ground arith) h
loop_step-IsPrinted heard l place ticks h =
    same-IsPrinted heard l (loop_step l place ticks) (ground arith) h

run_loop-IsPrinted :
    (es : List LoopEvent) (heard : List RoundResult) (l : Loop)
    → IsPrinted heard l
    → IsPrinted (heard_after heard es) (run_loop l es)
unfolding run_loop
run_loop-IsPrinted [] heard l h = h
run_loop-IsPrinted (e ∷ es) heard l h =
    run_loop-IsPrinted es (heard_by heard e) (loop_step l l.place e)
      (loop_step-IsPrinted heard l l.place e h)

-- Whatever the program sees and receives: the rounds that it prints go up, no round comes twice, and
-- what it prints for a round is a result of that round that the client sent; only for round 0 it may
-- be the empty result, which says that the round failed, instead.
pub run_loop-GoesDown :
    (es : List LoopEvent)
    → GoesDown (heard_after [] es) (run_loop new_loop es).index (run_loop new_loop es).printed
run_loop-GoesDown es = run_loop-IsPrinted es [] new_loop tt
