-- ===== src/Server/Settled.antt =====
-- The invariant of a server of anonbcast/server.go behind its answers, and that calls of `SubmitOp` and
-- responses keep it.
use eggscrambler.Base.{
  ℕ, suc, ◌≡◌, ◌<◌, refl, Bool, true, false, Option, none, some, List, [], ◌∷◌, ◌⊎◌, inl, inr,
  arith, Option-cases, Bool-cases, map,
}
use eggscrambler.StateMachine.Types.{StateMachine}
use eggscrambler.StateMachine.Ops.{Op}
use eggscrambler.StateMachine.Machine.{apply}
use eggscrambler.StateMachine.Order.{guaranteed_no_effect}
use eggscrambler.StateMachine.Run.{run, MachineInv, current-IsOpen, MachineInv-run}
use eggscrambler.StateMachine.Monotone.{no_effect-later, may_precede-run}
use eggscrambler.Server.RespChannels.{find, delete, get, create, get-create, find-delete}
use eggscrambler.Server.Core.{Err, ok, err_wrong_leader, submit_op, reply_to}
use eggscrambler.Server.Others.{KeepsTables}
use eggscrambler.Server.System.{submits, System, deliver, deliver_all, happen, note_start}

module _ {C : Type 0} where
  abbrev pub IsIn : Op C → List (Op C) → Type 0
  IsIn op [] = ⊥
  IsIn op (x ∷ xs) = (x ≡ op) ⊎ IsIn op xs

  -- An operation answered with `OK` was applied, or it has no effect any more.
  abbrev pub IsSettled : List (Op C) → StateMachine C → Op C → Err → Type 0
  IsSettled ops sm op err_wrong_leader = Unit
  IsSettled ops sm op ok = IsIn op ops ⊎ (guaranteed_no_effect sm op ≡ true)

  abbrev pub AllSettled : List (Op C) → StateMachine C → List (Op C × Err) → Type 0
  AllSettled ops sm [] = Unit
  AllSettled ops sm ((op, e) ∷ rs) = IsSettled ops sm op e × AllSettled ops sm rs

  pub record Sound (started : ℕ → ℕ → Option (Op C)) (ops : List (Op C)) (sys : System C)
      : Type 0 where
    pub machine : MachineInv sys.server.sm
    pub below : (t i ch : ℕ) → get sys.server.resps t i ≡ some ch → ch < sys.server.next_channel
    pub matches :
        (t i ch : ℕ) (op : Op C)
        → get sys.server.resps t i ≡ some ch
        → find ch sys.pending ≡ some op
        → started t i ≡ some op
    pub settled : AllSettled ops sys.server.sm sys.answers

  module _ (sm sm' : StateMachine C) (op : Op C) (b : Bool) (v : MachineInv sm)
      (e : apply sm op ≡ some (sm', b)) where
    one_run : run sm (op ∷ []) ≡ some sm'
    unfolding run
    one_run = rw (e, run) refl

    pub applied-MachineInv : MachineInv sm'
    applied-MachineInv = MachineInv-run sm sm' (op ∷ []) v one_run

    still_no_effect :
        (x : Op C) → guaranteed_no_effect sm x ≡ true → guaranteed_no_effect sm' x ≡ true
    still_no_effect x h =
        no_effect-later sm sm' x (may_precede-run sm sm' (op ∷ []) one_run)
          (current-IsOpen sm' applied-MachineInv) h

    pub applied-AllSettled :
        (ops : List (Op C)) (rs : List (Op C × Err))
        → AllSettled ops sm rs
        → AllSettled (op ∷ ops) sm' rs
    applied-AllSettled ops [] h = tt
    applied-AllSettled ops ((x, err_wrong_leader) ∷ rs) h = (tt, applied-AllSettled ops rs h.1)
    applied-AllSettled ops ((x, ok) ∷ rs) (inl k, h) = (inl (inr k), applied-AllSettled ops rs h)
    applied-AllSettled ops ((x, ok) ∷ rs) (inr k, h) =
        (inr (still_no_effect x k), applied-AllSettled ops rs h)

  module _ (started : ℕ → ℕ → Option (Op C)) (ops : List (Op C)) where
    pub deliver-Sound :
        (sys sys' : System C) (ch : ℕ) (resp : Bool)
        → ((op : Op C)
            → find ch sys.pending ≡ some op
            → IsSettled ops sys.server.sm op (reply_to resp))
        → deliver sys (ch, resp) ≡ some sys'
        → Sound started ops sys
        → (Sound started ops sys') × (sys'.server ≡ sys.server)
    unfolding deliver
    deliver-Sound sys sys' ch resp settles h s = elim (Option-cases (find ch sys.pending)) [
      | inl e ↦ let same : sys ≡ sys' = ground arith in rw (← same) (s, refl)
      | inr (op, e) ↦
          let after : System C = record sys {
            pending = delete ch sys.pending;
            answers = (op, reply_to resp) ∷ sys.answers;
          } in
          let same : after ≡ sys' = ground arith in
          let sound : Sound started ops after = record {
            machine = s.machine;
            below = s.below;
            matches =
                λ t i c x g f. s.matches t i c x g (ground (arith, find-delete c ch sys.pending));
            settled = (settles op e, s.settled);
          } in
          rw (← same) (sound, refl)
    ]

    pub deliver_all-Sound :
        (chs : List ℕ) (sys sys' : System C)
        → deliver_all sys (map (λ ch. (ch, false)) chs) ≡ some sys'
        → Sound started ops sys
        → Sound started ops sys'
    unfolding deliver_all
    deliver_all-Sound [] sys sys' h s = let same : sys ≡ sys' = ground arith in rw (← same) s
    deliver_all-Sound (ch ∷ chs) sys sys' h s = elim (Option-cases (deliver sys (ch, false))) [
      | inl e ↦ absurd (ground (arith, rw (e, deliver_all) at h))
      | inr (sys1, e) ↦
          let (s1, _) = deliver-Sound sys sys1 ch false (λ op f. tt) e s in
          deliver_all-Sound chs sys1 sys' (rw (e, deliver_all) at h) s1
    ]

    pub same-Sound :
        (sys sys' : System C)
        → KeepsTables sys sys'
        → Sound started ops sys
        → Sound started ops sys'
    same-Sound sys sys' (e1, e2, e3, e4, e5) s = record {
      machine = rw e1 s.machine;
      below = rw (e2, e3) s.below;
      matches = rw (e2, e4) s.matches;
      settled = rw (e1, e5) s.settled;
    }

    pub submits-Sound :
        (debug : Bool) (sys sys' : System C) (op : Op C) (term index : ℕ)
        → started term index ≡ none
        → happen debug sys (submits op (some (term, index))) ≡ some sys'
        → Sound started ops sys
        → Sound (note_start started term index op) ops sys'
    unfolding happen submit_op find
    submits-Sound debug sys sys' op term index free h s =
        elim (Bool-cases (guaranteed_no_effect sys.server.sm op)) [
          | inl e ↦
              let after : System C = record sys { answers = (op, ok) ∷ sys.answers } in
              let same : after ≡ sys' = ground arith in
              let sound : Sound (note_start started term index op) ops after = record {
                machine = s.machine;
                below = s.below;
                matches = λ t i c x g f. ground (arith, s.matches t i c x g f);
                settled = (inr e, s.settled);
              } in
              rw (← same) sound
          | inr e ↦
              let n = sys.server.next_channel in
              elim (Option-cases (create debug sys.server.resps term index n)) [
                | inl f ↦ absurd (ground (arith, e, f))
                | inr (r, f) ↦
                    let after : System C = record sys {
                      server = record (sys.server) { resps = r; next_channel = suc n };
                      pending = (n, op) ∷ sys.pending;
                    } in
                    let same : after ≡ sys' = ground arith in
                    let read =
                      λ (t i : ℕ). get-create debug sys.server.resps r term index t i n f in
                    let sound : Sound (note_start started term index op) ops after = record {
                      machine = s.machine;
                      below = λ t i c g. ground (arith, read t i, s.below t i c);
                      matches =
                          λ t i c x g q. ground (arith, read t i, s.below t i c, s.matches t i c x);
                      settled = s.settled;
                    } in
                    rw (← same) sound
              ]
        ]
