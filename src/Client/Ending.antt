-- ===== src/Client/Ending.antt =====
-- The clients of anonbcast/client.go bring every round to its end: whatever the order of their turns,
-- each turn leaves less to do, and while there is something to do some client has a turn.
use eggscrambler.Base.{ℕ, zero, suc, ◌+◌, ◌≡◌, refl, false, List, ℤ, inl, inr, arith, ◌⊎◌}
use eggscrambler.Crypto.Bytes.{Msg, key_is_nil}
use eggscrambler.Crypto.Interface.{CommutativeCrypto}
use eggscrambler.StateMachine.Types.{Phase}
use eggscrambler.Client.Steps.{Keys, Info}
use eggscrambler.Client.Work.{work, IsWorking}
use eggscrambler.Client.Accepted.{
  AcceptedTurn, encrypt_accepted, scramble_accepted, decrypt_accepted, reveal_accepted,
}
use eggscrambler.Client.Completion.{InProgress, turn_follows, turn-InProgress}

module _ (keys_at : ℕ → Keys) (shuffle_at : ℕ → List Msg → List Msg) (r : ℤ) where
  -- A number of turns, one after another, by whichever participants.
  pub data Turns : ℕ → Info → Info → Type 0 where
    rest : {ri : Info} → Turns 0 ri ri
    turn :
        {n : ℕ} {ri ri' ri'' : Info}
        → AcceptedTurn keys_at shuffle_at r ri ri'
        → Turns n ri' ri''
        → Turns (suc n) ri ri''

  module _ (c : CommutativeCrypto)
      (named : (i : ℕ) → key_is_nil (keys_at i).reveal_key ≡ false) where
    next_turn :
        {ri : Info} (ph : Phase)
        → ri.phase ≡ ph
        → IsWorking ph
        → InProgress c ri
        → (ri' : Info) × AcceptedTurn keys_at shuffle_at r ri ri'
    next_turn Phase.unset e w p = absurd w
    next_turn Phase.prepare e w p = absurd w
    next_turn Phase.submit e w p = absurd w
    next_turn {ri} Phase.encrypt e w p =
        encrypt_accepted keys_at shuffle_at r c ri p.sound p.has_crypto e
    next_turn {ri} Phase.scramble e w p =
        scramble_accepted keys_at shuffle_at r c ri p.sound p.has_crypto e
    next_turn {ri} Phase.decrypt e w p =
        decrypt_accepted keys_at shuffle_at r c ri p.sound p.has_crypto e
    next_turn {ri} Phase.reveal e w p =
        reveal_accepted keys_at shuffle_at r c ri p.sound p.has_crypto e (rw e at p.pending)
    next_turn Phase.done e w p = absurd w
    next_turn Phase.failed e w p = absurd w

    done_rests :
        {n : ℕ} {ri ri' : Info}
        → ri.phase ≡ Phase.done
        → Turns n ri ri'
        → (n + work ri' ≡ work ri) × (ri'.phase ≡ Phase.done)
    done_rests e rest = (omega arith, e)
    done_rests {ri = ri} e (turn t ts) = absurd (ground (arith, t.action))

    -- From a round in order in which the clients take turns, whose reveal keys are not nil, after any
    -- `n` turns by whichever participants the work that is left is less by exactly `n`, and the round
    -- is done or a further turn of some participant is accepted.
    pub round_progresses :
        {n : ℕ} {ri ri' : Info}
        → InProgress c ri
        → IsWorking ri.phase
        → Turns n ri ri'
        → (n + work ri' ≡ work ri)
          × ((ri'.phase ≡ Phase.done)
              ⊎ ((ri'' : Info) × AcceptedTurn keys_at shuffle_at r ri' ri''))
    round_progresses {ri = ri} p w rest = (omega arith, inr (next_turn ri.phase refl w p))
    round_progresses p w (turn t ts) =
        let (less, _, _, after) = turn_follows keys_at shuffle_at r c named p t w in
        elim after [
          | inl w' ↦
              let p' = turn-InProgress keys_at shuffle_at r c named p t w in
              let (eq, alt) = round_progresses p' w' ts in (omega arith, alt)
          | inr e ↦ let (eq, last) = done_rests e ts in (omega arith, inl last)
        ]

    completes_by :
        (n : ℕ) {ri : Info}
        → work ri ≡ n
        → InProgress c ri
        → IsWorking ri.phase
        → (k : ℕ) × (ri' : Info) × Turns k ri ri' × (ri'.phase ≡ Phase.done)
    completes_by zero {ri} e p w =
        let (_, t) = next_turn ri.phase refl w p in
        let (less, _, _, _) = turn_follows keys_at shuffle_at r c named p t w in
        absurd (omega arith)
    completes_by (suc n) {ri} e p w =
        let (ri', t) = next_turn ri.phase refl w p in
        let (less, _, _, after) = turn_follows keys_at shuffle_at r c named p t w in
        elim after [
          | inl w' ↦
              let p' = turn-InProgress keys_at shuffle_at r c named p t w in
              let (k, ri'', ts, d) = completes_by n (omega arith) p' w' in
              (suc k, ri'', turn t ts, d)
          | inr d ↦ (1, ri', turn t rest, d)
        ]

    -- A round in order in which the clients take turns, whose reveal keys are not nil, comes to its
    -- end: there is a sequence of accepted turns that ends in the phase done.
    pub round_completes :
        {ri : Info}
        → InProgress c ri
        → IsWorking ri.phase
        → (k : ℕ) × (ri' : Info) × Turns k ri ri' × (ri'.phase ≡ Phase.done)
    round_completes {ri} p w = completes_by (work ri) refl p w
