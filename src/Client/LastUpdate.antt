-- ===== src/Client/LastUpdate.antt =====
-- anonbcast/laststatemachine.go: the last version of the state machine that a client has seen. The
-- times are natural numbers, and each call is given the time at which it runs.
use eggscrambler.Base.{
  ℕ, ◌≡◌, refl, sym, ap, ◌∙◌, ◌==◌, if◌then◌else◌, ◌||◌, not, Bool, false, List, [], ◌∷◌, ℤ, negsuc,
  ltb_ℤ, arith, inl, inr, ◌⊎◌, Bool-cases, loop,
}
use eggscrambler.StateMachine.Types.{StateMachine}
use eggscrambler.StateMachine.Round.{phase_eq}
use eggscrambler.StateMachine.Machine.{new_state_machine, current_round_info}

pub record LastStateMachine (C : Type 0) : Type 0 where
  pub sm : StateMachine C
  pub version : ℤ
  pub timestamp : ℕ
  pub phase_timestamp : ℕ

-- A call of `set`: its arguments and its time.
pub record Update (C : Type 0) : Type 0 where
  pub new_sm : StateMachine C
  pub new_version : ℤ
  pub now : ℕ

ltb_ℤ_trans : (a b d : ℤ) → ltb_ℤ a b ≡ false → ltb_ℤ b d ≡ false → ltb_ℤ a d ≡ false
ltb_ℤ_trans a b d h k = ground arith

module _ {C : Type 0} where
  unfoldable pub new_last_state_machine : ℕ → LastStateMachine C
  new_last_state_machine now = record {
    sm = new_state_machine;
    version = negsuc 0;
    timestamp = now;
    phase_timestamp = now;
  }

  -- Whether the round or the phase is another one.
  unfoldable pub phase_changed : StateMachine C → StateMachine C → Bool
  phase_changed a b =
      not (a.round == b.round)
      || not (phase_eq ((current_round_info a).phase) ((current_round_info b).phase))

  unfoldable pub set_last : Update C → LastStateMachine C → LastStateMachine C
  set_last u l =
      if ltb_ℤ l.version u.new_version
      then record {
        sm = u.new_sm;
        version = u.new_version;
        timestamp = u.now;
        phase_timestamp = if phase_changed u.new_sm l.sm then u.now else l.phase_timestamp;
      }
      else l

  abbrev pub set_all : List (Update C) → LastStateMachine C → LastStateMachine C
  set_all us l = loop set_last us l

  -- No update of the list is newer than the given version.
  abbrev pub NoneNewer : List (Update C) → ℤ → Type 0
  NoneNewer [] v = Unit
  NoneNewer (u ∷ us) v = (ltb_ℤ v u.new_version ≡ false) × NoneNewer us v

  -- A state machine and a version that were set together.
  abbrev pub IsFrom : List (Update C) → StateMachine C → ℤ → Type 0
  IsFrom [] sm v = ⊥
  IsFrom (u ∷ us) sm v = ((u.new_sm ≡ sm) × (u.new_version ≡ v)) ⊎ IsFrom us sm v

  set_last-grows :
      (u : Update C) (l : LastStateMachine C)
      → (ltb_ℤ ((set_last u l).version) l.version ≡ false)
        × (ltb_ℤ ((set_last u l).version) u.new_version ≡ false)
  unfolding set_last
  set_last-grows u l = ground arith

  set_all-grows :
      (us : List (Update C)) (l : LastStateMachine C)
      → ltb_ℤ ((set_all us l).version) l.version ≡ false
  set_all-grows [] l = ground arith
  set_all-grows (u ∷ us) l =
      ltb_ℤ_trans ((set_all us (set_last u l)).version) ((set_last u l).version) l.version
        (set_all-grows us (set_last u l)) (set_last-grows u l).0

  set_all-NoneNewer :
      (us : List (Update C)) (l : LastStateMachine C) → NoneNewer us ((set_all us l).version)
  set_all-NoneNewer [] l = tt
  set_all-NoneNewer (u ∷ us) l = (
    ltb_ℤ_trans ((set_all us (set_last u l)).version) ((set_last u l).version) u.new_version
        (set_all-grows us (set_last u l)) (set_last-grows u l).1,
    set_all-NoneNewer us (set_last u l),
  )

  set_last-cases :
      (u : Update C) (l : LastStateMachine C)
      → ((u.new_sm ≡ (set_last u l).sm) × (u.new_version ≡ (set_last u l).version))
        ⊎ (set_last u l ≡ l)
  unfolding set_last
  set_last-cases u l = elim (Bool-cases (ltb_ℤ l.version u.new_version)) [
    | inl y ↦ rw y (inl (refl, refl))
    | inr n ↦ rw n (inr refl)
  ]

  set_all-IsFrom :
      (us : List (Update C)) (l : LastStateMachine C)
      → IsFrom us ((set_all us l).sm) ((set_all us l).version) ⊎ (set_all us l ≡ l)
  set_all-IsFrom [] l = inr refl
  set_all-IsFrom (u ∷ us) l = elim (set_all-IsFrom us (set_last u l)) [
    | inl p ↦ inl (inr p)
    | inr q ↦ elim (set_last-cases u l) [
      | inl (s, v) ↦ inl (
          inl (
            s ∙ ap (λ (x : LastStateMachine C). x.sm) (sym q),
            v ∙ ap (λ (x : LastStateMachine C). x.version) (sym q),
          ))
      | inr e ↦ inr (q ∙ e)
    ]
  ]

  -- The calls of `set` may run in any order: after them no update is newer than the version that is
  -- stored, and the stored state machine was set together with that version, or nothing was stored.
  pub set_all-newest :
      (us : List (Update C)) (l : LastStateMachine C)
      → NoneNewer us ((set_all us l).version)
        × (IsFrom us ((set_all us l).sm) ((set_all us l).version) ⊎ (set_all us l ≡ l))
  set_all-newest us l = (set_all-NoneNewer us l, set_all-IsFrom us l)
