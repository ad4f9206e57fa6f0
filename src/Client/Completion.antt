-- ===== src/Client/Completion.antt =====
-- A round of clients that follow the protocol of anonbcast/client.go comes to its end.
use eggscrambler.Base.{
  ℕ, suc, ◌≡◌, refl, true, false, some, List, ℤ, get_elem?, set, arith, inl, inr, Option-cases, ◌⊎◌,
  write-eq_set, length-set,
}
use eggscrambler.Crypto.Bytes.{Msg, key_is_nil}
use eggscrambler.Crypto.Interface.{CommutativeCrypto}
use eggscrambler.StateMachine.Types.{Phase}
use eggscrambler.StateMachine.Handlers.{
  dispatch, encrypted, scrambled, decrypted, reveal, close_reveal,
}
use eggscrambler.StateMachine.Lists.{count_true-set, count_true-le-length, index_of-lt-length}
use eggscrambler.StateMachine.Invariant.{Inv, dispatch-Good}
use eggscrambler.Client.Steps.{Keys, Info}
use eggscrambler.Client.Work.{
  missing-set, any_key_nil-missing, missing-any_key_nil, work, KeysPending, IsWorking,
}
use eggscrambler.Client.Phases.{encrypt_loop-some, scramble_loop-some, decrypt_loop-some}
use eggscrambler.Client.Accepted.{AcceptedTurn}

-- What is known of a round in which the clients take turns, with what is left to do.
pub record InProgress (c : CommutativeCrypto) (ri : Info) : Type 0 where
  pub sound : Inv ri
  pub has_crypto : ri.crypto ≡ some c
  pub pending : KeysPending ri ri.phase

module _ (keys_at : ℕ → Keys) (shuffle_at : ℕ → List Msg → List Msg) (r : ℤ) where
  Turn-Inv : {ri ri' : Info} → Inv ri → AcceptedTurn keys_at shuffle_at r ri ri' → Inv ri'
  Turn-Inv {ri} v t = elim t.accepted [
    | inl e ↦ let g = (rw e at (dispatch-Good ri v t.op)) in g.0
    | inr e ↦ let g = (rw e at (dispatch-Good ri v t.op)) in g.0
  ]

  module _ (c : CommutativeCrypto) (named : (i : ℕ) → key_is_nil (keys_at i).reveal_key ≡ false)
      {ri ri' : Info} (p : InProgress c ri) (t : AcceptedTurn keys_at shuffle_at r ri ri') where
    open p use {sound}

    abbrev Follows : Type 0
    Follows =
        (work ri ≡ suc (work ri'))
        × (ri'.crypto ≡ some c)
        × KeysPending ri' ri'.phase
        × (IsWorking ri'.phase ⊎ (ri'.phase ≡ Phase.done))

    encrypt-Follows : ri.phase ≡ Phase.encrypt → Follows
    unfolding dispatch encrypted
    encrypt-Follows ph = ground (
      arith,
      p.has_crypto,
      p.pending,
      t.place,
      t.action,
      t.accepted,
      encrypt_loop-some c (keys_at t.me).encrypt_key t.me 0 ri.messages,
      count_true-set ri.encrypted t.me,
      count_true-le-length (set ri.encrypted t.me true),
      length-set ri.encrypted t.me true,
      sound.encrypted_len,
      sound.progress,
    )

    scramble-Follows : ri.phase ≡ Phase.scramble → Follows
    unfolding dispatch scrambled
    scramble-Follows ph = ground (
      arith,
      p.has_crypto,
      p.pending,
      t.place,
      t.action,
      t.accepted,
      scramble_loop-some c (keys_at t.me) ri.messages,
      count_true-set ri.scrambled t.me,
      count_true-le-length (set ri.scrambled t.me true),
      length-set ri.scrambled t.me true,
      sound.scrambled_len,
      sound.progress,
    )

    decrypt-Follows : ri.phase ≡ Phase.decrypt → Follows
    unfolding dispatch decrypted
    decrypt-Follows ph = ground (
      arith,
      p.has_crypto,
      p.pending,
      t.place,
      t.action,
      t.accepted,
      decrypt_loop-some c (keys_at t.me) ri.messages,
      count_true-set ri.decrypted t.me,
      count_true-le-length (set ri.decrypted t.me true),
      length-set ri.decrypted t.me true,
      sound.decrypted_len,
      sound.keys_len,
      sound.progress,
    )

    reveal-Follows : ri.phase ≡ Phase.reveal → Follows
    unfolding dispatch reveal close_reveal
    reveal-Follows ph =
        let key = (keys_at t.me).reveal_key in
        elim (Option-cases (get_elem? ri.revealed_keys t.me)) [
          | inl e ↦ ground (arith, t.action)
          | inr (k, e) ↦ ground (
            arith,
            p.has_crypto,
            t.place,
            t.action,
            t.accepted,
            named t.me,
            write-eq_set ri.revealed_keys t.me key,
            index_of-lt-length t.id ri.participants t.place,
            sound.keys_len,
            missing-set ri.revealed_keys t.me k key e,
            missing-any_key_nil (set ri.revealed_keys t.me key),
            any_key_nil-missing (set ri.revealed_keys t.me key),
          )
        ]

    turn-Follows : (ph : Phase) → ri.phase ≡ ph → IsWorking ph → Follows
    turn-Follows Phase.unset e w = absurd w
    turn-Follows Phase.prepare e w = absurd w
    turn-Follows Phase.submit e w = absurd w
    turn-Follows Phase.encrypt e w = encrypt-Follows e
    turn-Follows Phase.scramble e w = scramble-Follows e
    turn-Follows Phase.decrypt e w = decrypt-Follows e
    turn-Follows Phase.reveal e w = reveal-Follows e
    turn-Follows Phase.done e w = absurd w
    turn-Follows Phase.failed e w = absurd w

    pub turn_follows : IsWorking ri.phase → Follows
    turn_follows w = turn-Follows ri.phase refl w

    pub turn-InProgress : IsWorking ri.phase → InProgress c ri'
    turn-InProgress w =
        let (_, has, pend, _) = turn_follows w in
        record { sound = Turn-Inv p.sound t; has_crypto = has; pending = pend }
