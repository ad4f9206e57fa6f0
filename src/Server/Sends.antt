-- ===== src/Server/Sends.antt =====
-- The sends of `applier` of anonbcast/server.go on the channels of calls that wait.
use eggscrambler.Base.{
  ℕ, ◌≡◌, ◌≢◌, Bool, true, false, none, some, List, [], ◌∷◌, ◌++◌, refl, Bool-cases, ◌⊎◌, inl, inr,
  arith, Option-cases,
}
use eggscrambler.StateMachine.Machine.{apply}
use eggscrambler.Server.RespChannels.{find, get, closed_by_clear, new_resp_channels}
use eggscrambler.Server.Core.{
  ApplyMsg, command, raft_update, snapshot, configuration, no_message, apply_msg, response,
  send_copies, send_state_machine_update,
}
use eggscrambler.Server.System.{
  Event, receives, System, new_system, deliver, deliver_all, happen, run_system,
}
use eggscrambler.Server.Waits.{
  delivered_by, IsNew, Waits, deliver_all-closes, happen-Waits, new_system-Waits,
}

module _ {C : Type 0} where
  abbrev pub AllNew : (ℕ → ℕ → Bool) → List (Event C) → Type 0
  AllNew delivered [] = Unit
  AllNew delivered (e ∷ es) = IsNew delivered e × AllNew (delivered_by delivered e) es

  abbrev pub delivered_after : (ℕ → ℕ → Bool) → List (Event C) → ℕ → ℕ → Bool
  delivered_after delivered [] = delivered
  delivered_after delivered (e ∷ es) = delivered_after (delivered_by delivered e) es

  module _ (debug : Bool) where
    unfoldable pub IsAnswered : System C → ApplyMsg C → Type 0
    IsAnswered sys msg =
        (apply_msg debug sys.server msg ≡ none) ⊎ (happen debug sys (receives msg) ≢ none)

    -- The response to a command reaches the call that waits for it.
    response-reaches :
        (delivered : ℕ → ℕ → Bool) (sys sys' : System C) (t i : ℕ)
        → delivered t i ≡ false
        → Waits delivered sys
        → sys'.pending ≡ sys.pending
        → deliver_all sys' (response (get sys.server.resps t i)) ≢ none
    unfolding deliver_all deliver
    response-reaches delivered sys sys' t i new w same =
        elim (Option-cases (get sys.server.resps t i)) [
          | inl e ↦ λ h. ground (arith, rw e at h)
          | inr (ch, e) ↦ elim (Option-cases (find ch sys.pending)) [
            | inl f ↦ absurd (w.owned t i ch e new f)
            | inr (op, f) ↦ λ h. ground (arith, rw (e, deliver_all, deliver, same, f) at h)
          ]
        ]

    pub receives-IsAnswered :
        (delivered : ℕ → ℕ → Bool) (sys : System C) (msg : ApplyMsg C)
        → IsNew delivered (receives msg)
        → Waits delivered sys
        → IsAnswered sys msg
    unfolding IsAnswered happen apply_msg deliver_all send_state_machine_update
    receives-IsAnswered delivered sys (command t i op) new w =
        let reaches = λ (sys' : System C). response-reaches delivered sys sys' t i new w in
        elim (Option-cases (apply sys.server.sm op)) [
          | inl e ↦ inl (ground arith)
          | inr ((sm', false), e) ↦ inr (λ h.
              reaches (record sys { server = record (sys.server) { sm = sm' } }) refl
                (ground (arith, e, h)))
          | inr ((sm', true), e) ↦ elim (Option-cases (send_copies sm' sys.server.upd_chs)) [
            | inl f ↦ inl (ground (arith, e, f))
            | inr (chs, f) ↦ inr (λ h.
                reaches (record sys { server = record (sys.server) { sm = sm'; upd_chs = chs } })
                  refl (ground (arith, e, f, h)))
          ]
        ]
    receives-IsAnswered delivered sys (raft_update true) new w = inr (λ h. ground arith)
    receives-IsAnswered delivered sys (raft_update false) new w =
        let (sys1, q, _) =
          deliver_all-closes (closed_by_clear sys.server.resps)
            (record sys { server = record (sys.server) { resps = new_resp_channels } }) in
        inr (λ h. ground (arith, q))
    receives-IsAnswered delivered sys snapshot new w = elim (Bool-cases debug) [
      | inl e ↦ inl (ground arith)
      | inr e ↦ inr (λ h. ground arith)
    ]
    receives-IsAnswered delivered sys (configuration conf) new w = inr (λ h. ground arith)
    receives-IsAnswered delivered sys no_message new w = elim (Bool-cases debug) [
      | inl e ↦ inl (ground arith)
      | inr e ↦ inr (λ h. ground arith)
    ]

    pub run_system-Waits :
        (es : List (Event C)) (delivered : ℕ → ℕ → Bool) (sys sys' : System C)
        → run_system debug sys es ≡ some sys'
        → Waits delivered sys
        → Waits (delivered_after delivered es) sys'
    unfolding run_system
    run_system-Waits [] delivered sys sys' h w =
        let same : sys ≡ sys' = ground arith in rw (← same) w
    run_system-Waits (e ∷ es) delivered sys sys' h w = elim (Option-cases (happen debug sys e)) [
      | inl q ↦ absurd (ground (arith, rw (q, run_system) at h))
      | inr (sys1, q) ↦
          run_system-Waits es (delivered_by delivered e) sys1 sys' (rw (q, run_system) at h)
            (happen-Waits delivered debug e sys sys1 q w)
    ]

    IsNew-last :
        (es : List (Event C)) (delivered : ℕ → ℕ → Bool) (e : Event C)
        → AllNew delivered (es ++ (e ∷ []))
        → IsNew (delivered_after delivered es) e
    IsNew-last [] delivered e h = h.0
    IsNew-last (x ∷ es) delivered e h = IsNew-last es (delivered_by delivered x) e h.1

    -- Whatever happens at a new server, in whatever order: if Raft commits nothing at one term and
    -- index twice, then what `applier` does with its next message is no send that blocks forever on
    -- a response channel: either the work before the response panics, or every response is taken.
    pub run_system-IsAnswered :
        (es : List (Event C)) (msg : ApplyMsg C) (sys : System C)
        → AllNew (λ t i. false) (es ++ (receives msg ∷ []))
        → run_system debug new_system es ≡ some sys
        → IsAnswered sys msg
    run_system-IsAnswered es msg sys new h =
        receives-IsAnswered (delivered_after (λ t i. false) es) sys msg
          (IsNew-last es (λ t i. false) (receives msg) new)
          (run_system-Waits es (λ t i. false) new_system sys h new_system-Waits)
