-- ===== src/Client/Once.antt =====
-- What `readUpdates` of anonbcast/client.go does at most once in a round, whatever it is sent.
use eggscrambler.Base.{
  ℕ, ◌≡◌, refl, ◌++◌, List, [], ◌∷◌, Option, none, some, ℤ, pos, negsuc, ◌<ℤ◌, Bool, arith, ◌⊎◌,
  inl, inr, Bool-cases,
}
use eggscrambler.StateMachine.Types.{Phase, Uuid}
use eggscrambler.StateMachine.Machine.{current_round_info}
use eggscrambler.StateMachine.Order.{may_precede}
use eggscrambler.Client.Steps.{Info}
use eggscrambler.Client.Results.{previous}
use eggscrambler.Client.Updates.{
  Locals, initial_locals, Task, report_task, submit_task, encrypt_task, scramble_task, decrypt_task,
  Turn, turn_panic, turned, Input, place_from, checked, on_prepare, on_submit, on_scramble,
  on_reveal, if_involved, on_phase, on_update, tasks_after,
}

-- The round that a task is about, for one kind of task.
abbrev pub scrambles_of : Task → Option ℤ
scrambles_of (scramble_task r ri i ks) = some (pos r)
scrambles_of _ = none

abbrev pub asks_of : Task → Option ℤ
asks_of (submit_task r ri i ks) = some (pos r)
asks_of _ = none

abbrev pub reports_of : Task → Option ℤ
reports_of (report_task r hs hr ms n) = some (previous r)
reports_of _ = none

abbrev pub when_some : Option ℤ → List ℤ → List ℤ
when_some none rs = rs
when_some (some r) rs = r ∷ rs

abbrev pub rounds_of : (Task → Option ℤ) → List Task → List ℤ
rounds_of kind [] = []
rounds_of kind (t ∷ ts) = when_some (kind t) (rounds_of kind ts)

rounds_of-append :
    (kind : Task → Option ℤ) (ts us : List Task)
    → rounds_of kind (ts ++ us) ≡ rounds_of kind ts ++ rounds_of kind us
rounds_of-append kind [] us = refl
rounds_of-append kind (t ∷ ts) us = ground (arith, rounds_of-append kind ts us)

-- A strictly increasing list of rounds, all after the given one.
abbrev pub Increasing : ℤ → List ℤ → Type 0
Increasing last [] = Unit
Increasing last (r ∷ rs) = (last <ℤ r) × Increasing r rs

-- A turn starts at most one task of the kind, for a round after the marked one, and marks it.
abbrev MarksOnce : (Task → Option ℤ) → (Locals → ℤ) → Locals → Turn → Type 0
MarksOnce kind mark l turn_panic = Unit
MarksOnce kind mark l (turned l' ts) =
    ((rounds_of kind ts ≡ []) × (mark l' ≡ mark l))
    ⊎ ((rounds_of kind ts ≡ mark l' ∷ []) × (mark l <ℤ mark l'))

module _ (debug : Bool) (id : Uuid) (max_size : ℕ) (kind : Task → Option ℤ) (mark : Locals → ℤ)
    (turn : (l : Locals) (inp : Input)
      → MarksOnce kind mark l (on_update debug id max_size l inp)) where
  marked_from :
      (inps : List Input) (l : Locals) (t : Turn)
      → MarksOnce kind mark l t
      → Increasing (mark l) (rounds_of kind (tasks_after debug id max_size t inps))
  marked_from inps l turn_panic m = tt
  marked_from [] l (turned l' ts) (inl (e, _)) = rw e tt
  marked_from [] l (turned l' ts) (inr (e, lt)) = rw e (lt, tt)
  marked_from (inp ∷ inps) l (turned l' ts) (inl (e, q)) =
      let next = on_update debug id max_size l' inp in
      let ih = marked_from inps l' next (turn l' inp) in
      rw (rounds_of-append kind ts (tasks_after debug id max_size next inps), e) (rw q at ih)
  marked_from (inp ∷ inps) l (turned l' ts) (inr (e, lt)) =
      let next = on_update debug id max_size l' inp in
      let ih = marked_from inps l' next (turn l' inp) in
      rw (rounds_of-append kind ts (tasks_after debug id max_size next inps), e) (lt, ih)

-- The three kinds of tasks, each with the variable that marks its last round.
abbrev AllMarkOnce : Locals → Turn → Type 0
AllMarkOnce l t =
    MarksOnce scrambles_of (λ l. l.last_scrambled_round) l t
    × MarksOnce asks_of (λ l. l.last_message_round) l t
    × MarksOnce reports_of (λ l. l.last_result_sent) l t

module _ (debug : Bool) (max_size : ℕ) (l : Locals) (inp : Input) (round : ℕ) (ri : Info) where
  prepare-AllMarkOnce : (me : Option ℕ) → AllMarkOnce l (on_prepare debug l inp round ri me)
  unfolding on_prepare
  prepare-AllMarkOnce me = ground arith

  submit-AllMarkOnce : (me : ℕ) → AllMarkOnce l (on_submit max_size l inp round ri me)
  unfolding on_submit
  submit-AllMarkOnce me = ground arith

  scramble-AllMarkOnce : (me : ℕ) → AllMarkOnce l (on_scramble l round ri me)
  unfolding on_scramble
  scramble-AllMarkOnce me = ground arith

  reveal-AllMarkOnce : (me : ℕ) → AllMarkOnce l (on_reveal l round ri me)
  unfolding on_reveal
  reveal-AllMarkOnce me = ground arith

  involved-AllMarkOnce :
      (me : Option ℕ) (f : ℕ → Turn)
      → ((i : ℕ) → AllMarkOnce l (f i))
      → AllMarkOnce l (if_involved inp.active me l f)
  involved-AllMarkOnce none f h = ground arith
  involved-AllMarkOnce (some i) f h = elim (Bool-cases inp.active) [
    | inl e ↦ rw e (h i)
    | inr e ↦ rw e (inl (refl, refl), inl (refl, refl), inl (refl, refl))
  ]

  phase-AllMarkOnce :
      (me : Option ℕ) (ph : Phase) → AllMarkOnce l (on_phase debug max_size l inp round ri me ph)
  phase-AllMarkOnce me Phase.prepare = prepare-AllMarkOnce me
  phase-AllMarkOnce me Phase.submit =
      involved-AllMarkOnce me (on_submit max_size l inp round ri) submit-AllMarkOnce
  phase-AllMarkOnce me Phase.encrypt =
      involved-AllMarkOnce me (λ i. turned l (encrypt_task round ri i l.keys ∷ []))
        (λ i. ground arith)
  phase-AllMarkOnce me Phase.scramble =
      involved-AllMarkOnce me (on_scramble l round ri) scramble-AllMarkOnce
  phase-AllMarkOnce me Phase.decrypt =
      involved-AllMarkOnce me (λ i. turned l (decrypt_task round ri i l.keys ∷ []))
        (λ i. ground arith)
  phase-AllMarkOnce me Phase.reveal =
      involved-AllMarkOnce me (on_reveal l round ri) reveal-AllMarkOnce
  phase-AllMarkOnce me Phase.unset = ground arith
  phase-AllMarkOnce me Phase.done = ground arith
  phase-AllMarkOnce me Phase.failed = ground arith

module _ (debug : Bool) (id : Uuid) (max_size : ℕ) where
  checked-AllMarkOnce :
      (l : Locals) (ok : Bool) (t : Turn) → AllMarkOnce l t → AllMarkOnce l (checked debug ok t)
  checked-AllMarkOnce l ok t h = ground arith

  update-AllMarkOnce :
      (l : Locals) (inp : Input) → AllMarkOnce l (on_update debug id max_size l inp)
  unfolding on_update
  update-AllMarkOnce l inp =
      let ri = current_round_info inp.sm in
      let l' : Locals = record l { last_sm = inp.sm } in
      let me = place_from 0 id ri.participants in
      checked-AllMarkOnce l (may_precede l.last_sm inp.sm)
        (on_phase debug max_size l' inp inp.sm.round ri me ri.phase)
        (phase-AllMarkOnce debug max_size l' inp inp.sm.round ri me ri.phase)

  -- Whatever state machines the client is sent, in whatever order, the rounds for which `readUpdates`
  -- starts to scramble are strictly increasing, and so are the rounds for which it asks the user for
  -- a message and the rounds whose result it reports: each happens at most once in a round.
  pub tasks-Increasing :
      (inps : List Input)
      → let ts = tasks_after debug id max_size (turned initial_locals []) inps in
        Increasing (negsuc 0) (rounds_of scrambles_of ts)
        × Increasing (negsuc 0) (rounds_of asks_of ts)
        × Increasing (negsuc 0) (rounds_of reports_of ts)
  unfolding initial_locals
  tasks-Increasing inps =
      let h = λ (l : Locals) (inp : Input). update-AllMarkOnce l inp in
      let start = turned initial_locals [] in
      (
        marked_from debug id max_size scrambles_of (λ l. l.last_scrambled_round)
            (λ l inp. (h l inp).0) inps initial_locals start (inl (refl, refl)),
        marked_from debug id max_size asks_of (λ l. l.last_message_round) (λ l inp. (h l inp).1)
            inps initial_locals start (inl (refl, refl)),
        marked_from debug id max_size reports_of (λ l. l.last_result_sent) (λ l inp. (h l inp).2)
            inps initial_locals start (inl (refl, refl)),
      )
