-- ===== src/StateMachine/Invariant.antt =====
-- What holds of every round, whatever operations are applied to it, those of malicious clients
-- included: the flags have one entry for each participant, and the phase says how many are set.
use eggscrambler.Base.{
  ℕ, ◌<◌, ◌≡◌, Bool, true, false, [], ◌∷◌, ◌++◌, length, set, arith, inl, inr, Option-cases,
  length-snoc, length-set, write-eq_set, get_elem?-some,
}
use eggscrambler.Crypto.Bytes.{nil_msg, nil_private_key}
use eggscrambler.StateMachine.Types.{Phase, RoundInfo}
use eggscrambler.StateMachine.Ops.{
  Op, join_op, start_op, message_op, encrypted_op, scrambled_op, decrypted_op, reveal_op, abort_op,
  JoinOp, StartOp, MessageOp, EncryptedOp, ScrambledOp, DecryptedOp, RevealOp, AbortOp,
}
use eggscrambler.StateMachine.Round.{
  Outcome, panic, ignored, updated, ended, index_of, count_true, any_key_nil,
}
use eggscrambler.StateMachine.Handlers.{
  join, start, message, encrypted, scrambled, decrypted, reveal, abort, dispatch,
}
use eggscrambler.StateMachine.Lists.{
  Distinct, Distinct-append, Grows, Grows-set, Grows-of_zero, index_of-lt-length,
  count_true-le-length, count_true-append_false, count_true-set,
}

-- Of `n` participants with `m` messages, `e` have encrypted, `s` scrambled and `d` decrypted; `k` is
-- whether a reveal key is missing.
abbrev pub Progress : Phase → (n m e s d : ℕ) → (k : Bool) → Type 0
Progress Phase.unset n m e s d k = (n ≡ 0) × (m ≡ 0) × (e ≡ 0) × (s ≡ 0) × (d ≡ 0)
Progress Phase.prepare n m e s d k = (m ≡ n) × (e ≡ 0) × (s ≡ 0) × (d ≡ 0)
Progress Phase.submit n m e s d k = (m ≡ n) × (e ≡ 0) × (s ≡ 0) × (d ≡ 0)
Progress Phase.encrypt n m e s d k = (e < n) × (s ≡ 0) × (d ≡ 0)
Progress Phase.scramble n m e s d k = (e ≡ n) × (s < n) × (d ≡ 0)
Progress Phase.decrypt n m e s d k = (e ≡ n) × (s ≡ n) × (d < n)
Progress Phase.reveal n m e s d k = (e ≡ n) × (s ≡ n) × (d ≡ n) × (0 < n)
Progress Phase.done n m e s d k = (e ≡ n) × (s ≡ n) × (d ≡ n) × (0 < n) × (k ≡ false)
Progress Phase.failed n m e s d k = Unit

module _ {C : Type 0} where
  pub record Inv (ri : RoundInfo C) : Type 0 where
    pub encrypted_len : length ri.encrypted ≡ length ri.participants
    pub scrambled_len : length ri.scrambled ≡ length ri.participants
    pub decrypted_len : length ri.decrypted ≡ length ri.participants
    pub keys_len : length ri.revealed_keys ≡ length ri.participants
    pub hashes_len : length ri.reveal_key_hashes ≡ length ri.participants
    pub distinct : Distinct ri.participants
    pub grows : Grows ri.scrambled
    pub progress :
        Progress ri.phase
          (length ri.participants)
          (length ri.messages)
          (count_true ri.encrypted)
          (count_true ri.scrambled)
          (count_true ri.decrypted)
          (any_key_nil ri.revealed_keys)

-- A round that can still be changed.
abbrev pub IsOpen : Phase → Type 0
IsOpen Phase.unset = ⊥
IsOpen Phase.done = ⊥
IsOpen Phase.failed = ⊥
IsOpen _ = Unit

abbrev pub IsClosed : Phase → Type 0
IsClosed Phase.done = Unit
IsClosed Phase.failed = Unit
IsClosed _ = ⊥

-- A handler that did not panic left a round in order.
abbrev pub Good : {C : Type 0} → Outcome C → Type 0
Good panic = ⊥
Good ignored = Unit
Good (updated ri) = Inv ri × IsOpen ri.phase
Good (ended ri) = Inv ri × IsClosed ri.phase

module _ {C : Type 0} (ri : RoundInfo C) (v : Inv ri) where
  join-Good : (op : JoinOp) → Good (join ri op)
  unfolding join
  join-Good op = elim (Option-cases (index_of op.id ri.participants)) [
    | inr (p, e) ↦ ground arith
    | inl e ↦ ground (
      arith,
      length-snoc ri.participants op.id,
      length-snoc ri.messages nil_msg,
      length-snoc ri.encrypted false,
      length-snoc ri.scrambled false,
      length-snoc ri.decrypted false,
      length-snoc ri.revealed_keys nil_private_key,
      length-snoc ri.reveal_key_hashes [],
      Distinct-append op.id ri.participants e v.distinct,
      count_true-append_false ri.encrypted,
      count_true-append_false ri.scrambled,
      count_true-append_false ri.decrypted,
      Grows-of_zero (ri.scrambled ++ false ∷ []),
    )
  ]

  start-Good : (op : StartOp C) → Good (start ri op)
  unfolding start
  start-Good op = ground arith

  message-Good : (op : MessageOp) → Good (message ri op)
  unfolding message
  message-Good op = elim (Option-cases (index_of op.id ri.participants)) [
    | inl e ↦ ground arith
    | inr (p, e) ↦ ground (
      arith,
      index_of-lt-length op.id ri.participants e,
      write-eq_set ri.messages p op.message,
      write-eq_set ri.reveal_key_hashes p op.reveal_key_hash,
      length-set ri.messages p op.message,
      length-set ri.reveal_key_hashes p op.reveal_key_hash,
    )
  ]

  encrypted-Good : (op : EncryptedOp) → Good (encrypted ri op)
  unfolding encrypted
  encrypted-Good op = elim (Option-cases (index_of op.id ri.participants)) [
    | inl e ↦ ground arith
    | inr (p, e) ↦ ground (
      arith,
      index_of-lt-length op.id ri.participants e,
      get_elem?-some ri.encrypted p,
      length-set ri.encrypted p true,
      count_true-set ri.encrypted p,
      count_true-le-length (set ri.encrypted p true),
    )
  ]

  scrambled-Good : (op : ScrambledOp) → Good (scrambled ri op)
  unfolding scrambled
  scrambled-Good op = elim (Option-cases (index_of op.id ri.participants)) [
    | inl e ↦ ground arith
    | inr (p, e) ↦ ground (
      arith,
      index_of-lt-length op.id ri.participants e,
      get_elem?-some ri.scrambled p,
      length-set ri.scrambled p true,
      count_true-set ri.scrambled p,
      count_true-le-length (set ri.scrambled p true),
      Grows-set ri.scrambled v.grows,
    )
  ]

  decrypted-Good : (op : DecryptedOp) → Good (decrypted ri op)
  unfolding decrypted
  decrypted-Good op = elim (Option-cases (index_of op.id ri.participants)) [
    | inl e ↦ ground arith
    | inr (p, e) ↦ ground (
      arith,
      index_of-lt-length op.id ri.participants e,
      get_elem?-some ri.decrypted p,
      length-set ri.decrypted p true,
      count_true-set ri.decrypted p,
      count_true-le-length (set ri.decrypted p true),
    )
  ]

  reveal-Good : (op : RevealOp) → Good (reveal ri op)
  unfolding reveal
  reveal-Good op = elim (Option-cases (index_of op.id ri.participants)) [
    | inl e ↦ ground arith
    | inr (p, e) ↦ ground (
      arith,
      index_of-lt-length op.id ri.participants e,
      write-eq_set ri.revealed_keys p op.reveal_key,
      length-set ri.revealed_keys p op.reveal_key,
    )
  ]

  abort-Good : (op : AbortOp) → Good (abort ri op)
  unfolding abort
  abort-Good op = ground arith

  -- On a round in order no operation panics, and the round is left in order.
  pub dispatch-Good : (op : Op C) → Good (dispatch ri op)
  unfolding dispatch
  dispatch-Good (join_op op) = join-Good op
  dispatch-Good (start_op op) = start-Good op
  dispatch-Good (message_op op) = message-Good op
  dispatch-Good (encrypted_op op) = encrypted-Good op
  dispatch-Good (scrambled_op op) = scrambled-Good op
  dispatch-Good (decrypted_op op) = decrypted-Good op
  dispatch-Good (reveal_op op) = reveal-Good op
  dispatch-Good (abort_op op) = abort-Good op
