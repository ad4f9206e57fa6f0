-- ===== src/StateMachine/Legal.antt =====
-- The operations that an honest client submits, and the assertions of `checkRep` under them.
use eggscrambler.Base.{
  ◌≡◌, refl, Bool, true, false, some, List, [], length, arith, inl, inr, Option-cases, ◌∙◌,
}
use eggscrambler.Crypto.Bytes.{Msg, msg_is_nil, is_empty, nil_msg}
use eggscrambler.StateMachine.Types.{Phase, RoundInfo}
use eggscrambler.StateMachine.Ops.{
  Op, join_op, start_op, message_op, encrypted_op, scrambled_op, decrypted_op, reveal_op, abort_op,
  JoinOp, StartOp, MessageOp, EncryptedOp, ScrambledOp, DecryptedOp, RevealOp,
}
use eggscrambler.StateMachine.Round.{Outcome, panic, ignored, updated, ended, index_of, any_msg_nil}
use eggscrambler.StateMachine.Handlers.{
  join, start, message, encrypted, scrambled, decrypted, reveal, abort, dispatch,
}
use eggscrambler.StateMachine.Lists.{
  Paired, Paired-append, Paired-set, Paired-full, any_empty, any_empty-any_msg_nil, length-Paired,
}
use eggscrambler.StateMachine.Invariant.{Inv}
use eggscrambler.StateMachine.Copy.{deep_copy, deep_copy_same}
use eggscrambler.StateMachine.CheckRep.{
  check_rep, is_nil_crypto, check_grows_of_Grows, check_hashes_of_Paired, distinct_loop_self,
}

-- Which phases have a crypto, and all hashes.
abbrev pub Equipped : Phase → (nil_crypto missing_hash : Bool) → Type 0
Equipped Phase.unset c h = Unit
Equipped Phase.prepare c h = c ≡ true
Equipped Phase.submit c h = c ≡ false
Equipped Phase.failed c h = Unit
Equipped _ c h = (c ≡ false) × (h ≡ false)

module _ {C : Type 0} where
  -- What an honest client's operation satisfies in the round that it is for: a crypto is given, a
  -- message comes with the hash of a reveal key, and no message is lost, added or emptied.
  abbrev pub IsLegal : RoundInfo C → Op C → Type 0
  IsLegal ri (start_op op) = is_nil_crypto op.crypto ≡ false
  IsLegal ri (message_op op) = msg_is_nil op.message ≡ is_empty op.reveal_key_hash
  IsLegal ri (encrypted_op op) =
      (length op.messages ≡ length ri.participants) × (any_msg_nil op.messages ≡ false)
  IsLegal ri (scrambled_op op) =
      (length op.messages ≡ length ri.participants) × (any_msg_nil op.messages ≡ false)
  IsLegal ri (decrypted_op op) =
      (length op.messages ≡ length ri.participants) × (any_msg_nil op.messages ≡ false)
  IsLegal ri _ = Unit

  pub record LegalInv (ri : RoundInfo C) : Type 0 where
    pub inv : Inv ri
    pub paired : Paired ri.messages ri.reveal_key_hashes
    pub equipped : Equipped ri.phase (is_nil_crypto ri.crypto) (any_empty ri.reveal_key_hashes)

  abbrev pub Legally : Outcome C → Type 0
  Legally panic = Unit
  Legally ignored = Unit
  Legally (updated ri) =
      Paired ri.messages ri.reveal_key_hashes
      × Equipped ri.phase (is_nil_crypto ri.crypto) (any_empty ri.reveal_key_hashes)
  Legally (ended ri) =
      Paired ri.messages ri.reveal_key_hashes
      × Equipped ri.phase (is_nil_crypto ri.crypto) (any_empty ri.reveal_key_hashes)

  -- The assertions of `checkRep` hold of such a round.
  pub check_rep_of_LegalInv : (ri : RoundInfo C) → LegalInv ri → check_rep ri ≡ true
  unfolding check_rep
  check_rep_of_LegalInv ri v = ground (
    arith,
    length-Paired ri.messages ri.reveal_key_hashes v.paired,
    check_grows_of_Grows ri.scrambled v.inv.grows,
    check_hashes_of_Paired ri.messages ri.reveal_key_hashes v.paired,
    distinct_loop_self ri.participants v.inv.distinct,
  )

  -- And it is copied faithfully.
  pub deep_copy_of_LegalInv : (ri : RoundInfo C) → LegalInv ri → deep_copy ri ≡ some ri
  deep_copy_of_LegalInv ri v =
      deep_copy_same ri v.inv
        (length-Paired ri.messages ri.reveal_key_hashes v.paired ∙ v.inv.hashes_len)

  module _ (ri : RoundInfo C) (v : LegalInv ri) where
    join-Legally : (op : JoinOp) → Legally (join ri op)
    unfolding join
    join-Legally op =
        ground (arith, Paired-append ri.messages ri.reveal_key_hashes nil_msg [] refl v.paired)

    start-Legally : (op : StartOp C) → is_nil_crypto op.crypto ≡ false → Legally (start ri op)
    unfolding start
    start-Legally op h = ground arith

    message-Legally :
        (op : MessageOp)
        → msg_is_nil op.message ≡ is_empty op.reveal_key_hash
        → Legally (message ri op)
    unfolding message
    message-Legally op h = elim (Option-cases (index_of op.id ri.participants)) [
      | inl e ↦ ground arith
      | inr (p, e) ↦
          let paired =
            Paired-set ri.messages ri.reveal_key_hashes p op.message op.reveal_key_hash h
              v.paired in
          ground (arith, paired, any_empty-any_msg_nil _ _ paired)
    ]

    module _ (ms : List Msg) (len : length ms ≡ length ri.participants)
        (full : any_msg_nil ms ≡ false) where
      full-Paired : any_empty ri.reveal_key_hashes ≡ false → Paired ms ri.reveal_key_hashes
      full-Paired h = Paired-full ms ri.reveal_key_hashes (omega (arith, v.inv.hashes_len)) full h

    encrypted-Legally :
        (op : EncryptedOp) → IsLegal ri (encrypted_op op) → Legally (encrypted ri op)
    unfolding encrypted
    encrypted-Legally op h = ground (arith, full-Paired op.messages h.0 h.1)

    scrambled-Legally :
        (op : ScrambledOp) → IsLegal ri (scrambled_op op) → Legally (scrambled ri op)
    unfolding scrambled
    scrambled-Legally op h = ground (arith, full-Paired op.messages h.0 h.1)

    decrypted-Legally :
        (op : DecryptedOp) → IsLegal ri (decrypted_op op) → Legally (decrypted ri op)
    unfolding decrypted
    decrypted-Legally op h = ground (arith, full-Paired op.messages h.0 h.1)

    reveal-Legally : (op : RevealOp) → Legally (reveal ri op)
    unfolding reveal
    reveal-Legally op = ground arith

    pub dispatch-Legally : (op : Op C) → IsLegal ri op → Legally (dispatch ri op)
    unfolding dispatch abort
    dispatch-Legally (join_op op) h = join-Legally op
    dispatch-Legally (start_op op) h = start-Legally op h
    dispatch-Legally (message_op op) h = message-Legally op h
    dispatch-Legally (encrypted_op op) h = encrypted-Legally op h
    dispatch-Legally (scrambled_op op) h = scrambled-Legally op h
    dispatch-Legally (decrypted_op op) h = decrypted-Legally op h
    dispatch-Legally (reveal_op op) h = reveal-Legally op
    dispatch-Legally (abort_op op) h = ground arith
