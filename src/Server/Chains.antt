-- ===== src/Server/Chains.antt =====
-- Lists of updates of anonbcast/server.go whose states follow one another, and what is sent after them.
use eggscrambler.Base.{
  ℕ, ◌≡◌, refl, ◌∙◌, ◌==◌, Bool, true, some, List, [], ◌∷◌, ◌++◌, map, inl, inr, arith,
  Option-cases, Bool-cases,
}
use eggscrambler.StateMachine.Types.{StateMachine}
use eggscrambler.StateMachine.Machine.{new_state_machine}
use eggscrambler.StateMachine.Copied.{deep_copy_machine-current}
use eggscrambler.StateMachine.Order.{may_precede}
use eggscrambler.StateMachine.Copy.{deep_copy_machine}
use eggscrambler.StateMachine.Monotone.{may_precede_trans}
use eggscrambler.Server.RespChannels.{delete}
use eggscrambler.Server.Core.{UpdateMsg, machine_update, configuration_update, send_copies}
use eggscrambler.Server.System.{System, deliver, deliver_all}

module _ {C : Type 0} where
  -- The states in the updates follow one another from the first state to the last one.
  abbrev pub IsChain : StateMachine C → List (UpdateMsg C) → StateMachine C → Type 0
  IsChain p [] s = may_precede p s ≡ true
  IsChain p (machine_update q ∷ us) s = (may_precede p q ≡ true) × IsChain q us s
  IsChain p (configuration_update conf ∷ us) s = IsChain p us s

  -- On each channel, from a new state machine to the given one.
  abbrev pub AllChains : List (ℕ × List (UpdateMsg C)) → StateMachine C → Type 0
  AllChains [] s = Unit
  AllChains ((i, sent) ∷ chs) s = IsChain new_state_machine sent s × AllChains chs s

  IsChain-later :
      (p : StateMachine C) (us : List (UpdateMsg C)) (s s' : StateMachine C)
      → may_precede s s' ≡ true
      → IsChain p us s
      → IsChain p us s'
  IsChain-later p [] s s' h c = may_precede_trans p s s' c h
  IsChain-later p (machine_update q ∷ us) s s' h c = (c.0, IsChain-later q us s s' h c.1)
  IsChain-later p (configuration_update conf ∷ us) s s' h c = IsChain-later p us s s' h c

  IsChain-append :
      (p : StateMachine C) (us : List (UpdateMsg C)) (s q s' : StateMachine C)
      → may_precede s q ≡ true
      → may_precede q s' ≡ true
      → IsChain p us s
      → IsChain p (us ++ machine_update q ∷ []) s'
  IsChain-append p [] s q s' h k c = (may_precede_trans p s q c h, k)
  IsChain-append p (machine_update x ∷ us) s q s' h k c = (c.0, IsChain-append x us s q s' h k c.1)
  IsChain-append p (configuration_update conf ∷ us) s q s' h k c = IsChain-append p us s q s' h k c

  IsChain-configuration :
      (p : StateMachine C) (us : List (UpdateMsg C)) (s : StateMachine C) (conf : List (ℕ × Bool))
      → IsChain p us s
      → IsChain p (us ++ configuration_update conf ∷ []) s
  IsChain-configuration p [] s conf c = c
  IsChain-configuration p (machine_update q ∷ us) s conf c =
      (c.0, IsChain-configuration q us s conf c.1)
  IsChain-configuration p (configuration_update x ∷ us) s conf c =
      IsChain-configuration p us s conf c

  -- A deep copy is in the same round and phase.
  pub copy-may_precede :
      (sm q : StateMachine C)
      → deep_copy_machine sm ≡ some q
      → (may_precede sm q ≡ true) × (may_precede q sm ≡ true)
  unfolding may_precede
  copy-may_precede sm q h = ground (arith, deep_copy_machine-current sm q h)

  pub AllChains-later :
      (chs : List (ℕ × List (UpdateMsg C))) (s s' : StateMachine C)
      → may_precede s s' ≡ true
      → AllChains chs s
      → AllChains chs s'
  AllChains-later [] s s' h c = tt
  AllChains-later ((i, sent) ∷ chs) s s' h c =
      (IsChain-later new_state_machine sent s s' h c.0, AllChains-later chs s s' h c.1)

  pub send_copies-AllChains :
      (chs chs' : List (ℕ × List (UpdateMsg C))) (s s' : StateMachine C)
      → may_precede s s' ≡ true
      → send_copies s' chs ≡ some chs'
      → AllChains chs s
      → AllChains chs' s'
  unfolding send_copies
  send_copies-AllChains [] chs' s s' h e c = let same : [] ≡ chs' = ground arith in rw (← same) tt
  send_copies-AllChains ((i, sent) ∷ chs) chs' s s' h e c =
      elim (Option-cases (deep_copy_machine s')) [
        | inl f ↦ absurd (ground arith)
        | inr (q, f) ↦ elim (Option-cases (send_copies s' chs)) [
          | inl g ↦ absurd (ground arith)
          | inr (rest, g) ↦
              let same : ((i, sent ++ machine_update q ∷ []) ∷ rest) ≡ chs' = ground arith in
              let (to, from) = copy-may_precede s' q f in
              rw (← same) (
                IsChain-append new_state_machine sent s q s' (may_precede_trans s s' q h to) from
                    c.0,
                send_copies-AllChains chs rest s s' h g c.1,
              )
        ]
      ]

  pub configuration-AllChains :
      (chs : List (ℕ × List (UpdateMsg C))) (s : StateMachine C) (conf : List (ℕ × Bool))
      → AllChains chs s
      → AllChains (map (λ (i, sent). (i, sent ++ configuration_update conf ∷ [])) chs) s
  configuration-AllChains [] s conf c = tt
  configuration-AllChains ((i, sent) ∷ chs) s conf c = (
    IsChain-configuration new_state_machine sent s conf c.0,
    configuration-AllChains chs s conf c.1,
  )

  pub delete-AllChains :
      (chs : List (ℕ × List (UpdateMsg C))) (s : StateMachine C) (j : ℕ)
      → AllChains chs s
      → AllChains (delete j chs) s
  unfolding delete
  delete-AllChains [] s j c = tt
  delete-AllChains ((i, sent) ∷ chs) s j c = elim (Bool-cases (j == i)) [
    | inl e ↦ rw e (delete-AllChains chs s j c.1)
    | inr e ↦ rw e (c.0, delete-AllChains chs s j c.1)
  ]

  pub deliver_all-server :
      (rs : List (ℕ × Bool)) (sys sys' : System C)
      → deliver_all sys rs ≡ some sys'
      → sys'.server ≡ sys.server
  unfolding deliver_all deliver
  deliver_all-server [] sys sys' h = let same : sys ≡ sys' = ground arith in rw (← same) refl
  deliver_all-server (r ∷ rs) sys sys' h = elim (Option-cases (deliver sys r)) [
    | inl e ↦ absurd (ground (arith, rw (e, deliver_all) at h))
    | inr (sys1, e) ↦
        let ih = deliver_all-server rs sys1 sys' (rw (e, deliver_all) at h) in
        let one : sys1.server ≡ sys.server = ground (arith, e) in ih ∙ one
  ]
