-- ===== src/Server/Updates.antt =====
-- The updates that the server of anonbcast/server.go sends on a channel come in order.
use eggscrambler.Base.{
  ℕ, ◌≡◌, Bool, true, false, Option, some, List, [], ◌∷◌, inl, inr, arith, Option-cases,
}
use eggscrambler.StateMachine.Ops.{Op}
use eggscrambler.StateMachine.Machine.{apply, new_state_machine}
use eggscrambler.StateMachine.Order.{may_precede}
use eggscrambler.StateMachine.Copy.{deep_copy_machine}
use eggscrambler.StateMachine.Monotone.{may_precede-apply, may_precede_refl, may_precede_trans}
use eggscrambler.Server.RespChannels.{delete}
use eggscrambler.Server.Core.{
  machine_update, Server, new_server, ApplyMsg, command, raft_update, snapshot, configuration,
  no_message, send_copies, send_state_machine_update, send_configuration_update, get_upd_ch,
  close_upd_ch, apply_msg, submit_op,
}
use eggscrambler.Server.System.{
  Event, submits, receives, opens, closes, System, new_system, deliver_all, happen, run_system,
}
use eggscrambler.Server.Chains.{
  AllChains, AllChains-later, send_copies-AllChains, configuration-AllChains, delete-AllChains,
  copy-may_precede, deliver_all-server,
}

module _ {C : Type 0} where
  abbrev IsOrdered : Server C → Type 0
  IsOrdered s = AllChains s.upd_chs s.sm × (may_precede new_state_machine s.sm ≡ true)

  module _ (debug : Bool) (s s' : Server C) (rs : List (ℕ × Bool)) (o : IsOrdered s) where
    command-IsOrdered :
        (t i : ℕ) (op : Op C) → apply_msg debug s (command t i op) ≡ some (s', rs) → IsOrdered s'
    unfolding apply_msg send_state_machine_update
    command-IsOrdered t i op h = elim (Option-cases (apply s.sm op)) [
      | inl e ↦ absurd (ground arith)
      | inr ((sm', false), e) ↦
          let later = may_precede-apply s.sm sm' op e in
          let same : record s { sm = sm' } ≡ s' = ground arith in
          rw (← same) (
            AllChains-later s.upd_chs s.sm sm' later o.0,
            may_precede_trans new_state_machine s.sm sm' o.1 later,
          )
      | inr ((sm', true), e) ↦
          let later = may_precede-apply s.sm sm' op e in
          elim (Option-cases (send_copies sm' s.upd_chs)) [
            | inl f ↦ absurd (ground arith)
            | inr (chs, f) ↦
                let same : record s { sm = sm'; upd_chs = chs } ≡ s' = ground arith in
                rw (← same) (
                  send_copies-AllChains s.upd_chs chs s.sm sm' later f o.0,
                  may_precede_trans new_state_machine s.sm sm' o.1 later,
                )
          ]
    ]

    other-IsOrdered : (msg : ApplyMsg C) → apply_msg debug s msg ≡ some (s', rs) → IsOrdered s'
    unfolding apply_msg send_configuration_update
    other-IsOrdered (command t i op) h = command-IsOrdered t i op h
    other-IsOrdered (raft_update true) h = let same : s ≡ s' = ground arith in rw (← same) o
    other-IsOrdered (raft_update false) h =
        let e : s'.upd_chs ≡ s.upd_chs = ground arith in
        let f : s'.sm ≡ s.sm = ground arith in rw (e, f) o
    other-IsOrdered snapshot h = let same : s ≡ s' = ground arith in rw (← same) o
    other-IsOrdered (configuration conf) h =
        let same : send_configuration_update s conf ≡ s' = ground arith in
        rw (← same) (configuration-AllChains s.upd_chs s.sm conf o.0, o.1)
    other-IsOrdered no_message h = let same : s ≡ s' = ground arith in rw (← same) o

  submit-IsOrdered :
      (debug : Bool) (sys sys' : System C) (op : Op C) (start : Option (ℕ × ℕ))
      → happen debug sys (submits op start) ≡ some sys'
      → IsOrdered sys.server
      → IsOrdered sys'.server
  unfolding happen submit_op
  submit-IsOrdered debug sys sys' op start h o =
      let e : sys'.server.upd_chs ≡ sys.server.upd_chs = ground arith in
      let f : sys'.server.sm ≡ sys.server.sm = ground arith in rw (e, f) o

  happen-IsOrdered :
      (debug : Bool) (e : Event C) (sys sys' : System C)
      → happen debug sys e ≡ some sys'
      → IsOrdered sys.server
      → IsOrdered sys'.server
  unfolding happen get_upd_ch close_upd_ch
  happen-IsOrdered debug (submits op start) sys sys' h o =
      submit-IsOrdered debug sys sys' op start h o
  happen-IsOrdered debug (receives msg) sys sys' h o =
      elim (Option-cases (apply_msg debug sys.server msg)) [
        | inl e ↦ absurd (ground arith)
        | inr ((s, rs), e) ↦
            let d : deliver_all (record sys { server = s }) rs ≡ some sys' = rw (e, happen) at h in
            rw (deliver_all-server rs (record sys { server = s }) sys' d)
              (other-IsOrdered debug sys.server s rs o msg e)
      ]
  happen-IsOrdered debug opens sys sys' h o =
      elim (Option-cases (deep_copy_machine sys.server.sm)) [
        | inl e ↦ absurd (ground arith)
        | inr (q, e) ↦
            let s = sys.server in
            let chs = (s.upd_ch_index, machine_update q ∷ []) ∷ s.upd_chs in
            let f : sys'.server.upd_chs ≡ chs = ground arith in
            let g : sys'.server.sm ≡ s.sm = ground arith in
            let (to, from) = copy-may_precede s.sm q e in
            rw (f, g) (((may_precede_trans new_state_machine s.sm q o.1 to, from), o.0), o.1)
      ]
  happen-IsOrdered debug (closes i) sys sys' h o =
      let e : sys'.server.upd_chs ≡ delete i sys.server.upd_chs = ground arith in
      let f : sys'.server.sm ≡ sys.server.sm = ground arith in
      rw (e, f) (delete-AllChains sys.server.upd_chs sys.server.sm i o.0, o.1)

  IsOrdered-run :
      (debug : Bool) (es : List (Event C)) (sys sys' : System C)
      → run_system debug sys es ≡ some sys'
      → IsOrdered sys.server
      → IsOrdered sys'.server
  unfolding run_system
  IsOrdered-run debug [] sys sys' h o = let same : sys ≡ sys' = ground arith in rw (← same) o
  IsOrdered-run debug (e ∷ es) sys sys' h o = elim (Option-cases (happen debug sys e)) [
    | inl q ↦ absurd (ground (arith, rw (q, run_system) at h))
    | inr (sys1, q) ↦
        IsOrdered-run debug es sys1 sys' (rw (q, run_system) at h)
          (happen-IsOrdered debug e sys sys1 q o)
  ]

  -- Whatever happens at a new server, in whatever order: on each channel for updates, the states that
  -- were sent follow one another in the sense of `MayPrecede`, from a new state machine, with which a
  -- client starts, to the present one.
  pub run_system-AllChains :
      (debug : Bool) (es : List (Event C)) (sys : System C)
      → run_system debug new_system es ≡ some sys
      → AllChains sys.server.upd_chs sys.server.sm
  unfolding new_server
  run_system-AllChains debug es sys h =
      (IsOrdered-run debug es new_system sys h (tt, may_precede_refl new_state_machine)).0
