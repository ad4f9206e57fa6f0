-- ===== src/Client/Accepted.antt =====
-- The operation that a client adds in its turn, by the helpers of anonbcast/client.go, is accepted by
-- the handlers of anonbcast/statemachine.go, and some client always has a turn.
use eggscrambler.Base.{
  ℕ, zero, suc, ◌<◌, ◌≡◌, refl, ◌==◌, if◌then◌else◌, Bool, true, false, some, List, [], ◌∷◌, ℤ, pos,
  length, get_elem?, get_elem?-some, set, arith, inl, inr, Bool-cases, map, ◌⊎◌, write-eq_set,
}
use eggscrambler.Crypto.Bytes.{Msg}
use eggscrambler.Crypto.Interface.{CommutativeCrypto}
use eggscrambler.StateMachine.Types.{Phase, Uuid}
use eggscrambler.StateMachine.Ops.{
  RevealOp, reveal_op, Op, encrypted_op, scrambled_op, decrypted_op, EncryptedOp, ScrambledOp,
  DecryptedOp,
}
use eggscrambler.StateMachine.Round.{updated, ended, index_of, count_true, any_key_nil}
use eggscrambler.StateMachine.Handlers.{
  dispatch, encrypted, scrambled, decrypted, reveal, close_reveal,
}
use eggscrambler.StateMachine.Lists.{Distinct, get_elem?-count_true}
use eggscrambler.StateMachine.Invariant.{Inv}
use eggscrambler.Client.Steps.{
  Keys, Info, Action, add, encrypt_step, scramble_step, decrypt_step, reveal_step,
}
use eggscrambler.Client.Work.{missing, first_missing}
use eggscrambler.Client.Phases.{
  encrypt_others, encrypt_loop-some, scramble_loop-some, decrypt_loop-some, scramble_one,
  decrypt_one,
}

index_of-get_elem? :
    (ps : List Uuid) (i : ℕ) (id : Uuid)
    → Distinct ps
    → get_elem? ps i ≡ some id
    → index_of id ps ≡ some i
unfolding index_of
index_of-get_elem? [] i id d e = ground arith
index_of-get_elem? (p ∷ ps) zero id d e = ground arith
index_of-get_elem? (p ∷ ps) (suc i) id d e = ground (arith, index_of-get_elem? ps i id d.1 e)

first_false :
    (bs : List Bool)
    → count_true bs < length bs
    → (i : ℕ) × (get_elem? bs i ≡ some false) × (i < length bs)
unfolding count_true
first_false [] h = absurd (omega arith)
first_false (false ∷ bs) h = (0, refl, omega arith)
first_false (true ∷ bs) h = let (i, e, lt) = first_false bs (omega arith) in (suc i, e, omega arith)

module _ (keys_at : ℕ → Keys) (shuffle_at : ℕ → List Msg → List Msg) (r : ℤ) where
  -- What `readUpdates` has the client at place `me` do in these phases.
  abbrev pub action_in : Phase → Info → Uuid → ℕ → Action
  action_in Phase.encrypt ri id me = encrypt_step id r ri me (keys_at me)
  action_in Phase.scramble ri id me = scramble_step (shuffle_at me) id r ri me (keys_at me)
  action_in Phase.decrypt ri id me = decrypt_step id r ri me (keys_at me)
  action_in Phase.reveal ri id me = reveal_step id r ri me (keys_at me)
  action_in _ ri id me = Action.nothing

  -- A participant takes its turn, and its operation is accepted.
  pub record AcceptedTurn (ri ri' : Info) : Type 0 where
    pub id : Uuid
    pub me : ℕ
    pub op : Op CommutativeCrypto
    pub place : index_of id ri.participants ≡ some me
    pub action : action_in ri.phase ri id me ≡ add op
    pub accepted : (dispatch ri op ≡ updated ri') ⊎ (dispatch ri op ≡ ended ri')

  module _ (c : CommutativeCrypto) (ri : Info) (v : Inv ri) (has : ri.crypto ≡ some c) where
    pub encrypt_accepted : ri.phase ≡ Phase.encrypt → (ri' : Info) × AcceptedTurn ri ri'
    unfolding dispatch encrypted
    encrypt_accepted ph =
        let (me, flag, lt) = first_false ri.encrypted (ground arith) in
        let (id, at) = get_elem?-some ri.participants me (omega (arith, v.encrypted_len)) in
        let xs = encrypt_others c (keys_at me).encrypt_key me 0 ri.messages in
        let op : EncryptedOp = record {
          id = id;
          r = r;
          messages = xs;
          prev = pos (count_true ri.encrypted);
        } in
        let flags = set ri.encrypted me true in
        let ri' : Info = record ri {
          messages = xs;
          encrypted = flags;
          phase = if count_true flags == length flags then Phase.scramble else ri.phase;
        } in
        (
          ri',
          record {
            id = id;
            me = me;
            op = encrypted_op op;
            place = index_of-get_elem? ri.participants me id v.distinct at;
            action = ground (arith, encrypt_loop-some c (keys_at me).encrypt_key me 0 ri.messages);
            accepted = inl (ground (arith, index_of-get_elem? ri.participants me id v.distinct at));
          },
        )

    pub scramble_accepted : ri.phase ≡ Phase.scramble → (ri' : Info) × AcceptedTurn ri ri'
    unfolding dispatch scrambled
    scramble_accepted ph =
        let me = count_true ri.scrambled in
        let lt : me < length ri.scrambled = ground arith in
        let flag = get_elem?-count_true ri.scrambled v.grows lt in
        let (id, at) = get_elem?-some ri.participants me (omega (arith, v.scrambled_len)) in
        let xs = shuffle_at me (map (scramble_one c (keys_at me)) ri.messages) in
        let op : ScrambledOp = record { id = id; r = r; messages = xs } in
        let flags = set ri.scrambled me true in
        let ri' : Info = record ri {
          messages = xs;
          scrambled = flags;
          phase = if count_true flags == length flags then Phase.decrypt else ri.phase;
        } in
        (
          ri',
          record {
            id = id;
            me = me;
            op = scrambled_op op;
            place = index_of-get_elem? ri.participants me id v.distinct at;
            action = ground (arith, scramble_loop-some c (keys_at me) ri.messages);
            accepted = inl (ground (arith, index_of-get_elem? ri.participants me id v.distinct at));
          },
        )

    pub decrypt_accepted : ri.phase ≡ Phase.decrypt → (ri' : Info) × AcceptedTurn ri ri'
    unfolding dispatch decrypted
    decrypt_accepted ph =
        let (me, flag, lt) = first_false ri.decrypted (ground arith) in
        let (id, at) = get_elem?-some ri.participants me (omega (arith, v.decrypted_len)) in
        let xs = map (decrypt_one c (keys_at me)) ri.messages in
        let op : DecryptedOp = record {
          id = id;
          r = r;
          messages = xs;
          prev = pos (count_true ri.decrypted);
        } in
        let flags = set ri.decrypted me true in
        let ri' : Info = record ri {
          messages = xs;
          decrypted = flags;
          phase = if count_true flags == length flags then Phase.reveal else ri.phase;
        } in
        (
          ri',
          record {
            id = id;
            me = me;
            op = decrypted_op op;
            place = index_of-get_elem? ri.participants me id v.distinct at;
            action = ground (arith, decrypt_loop-some c (keys_at me) ri.messages);
            accepted = inl (ground (arith, index_of-get_elem? ri.participants me id v.distinct at));
          },
        )

    pub reveal_accepted :
        ri.phase ≡ Phase.reveal → 0 < missing ri.revealed_keys → (ri' : Info) × AcceptedTurn ri ri'
    unfolding dispatch reveal close_reveal
    reveal_accepted ph some_missing =
        let (me, k, at_key, nil_key, lt) = first_missing ri.revealed_keys some_missing in
        let (id, at) = get_elem?-some ri.participants me (omega (arith, v.keys_len)) in
        let ix = index_of-get_elem? ri.participants me id v.distinct at in
        let key = (keys_at me).reveal_key in
        let op : RevealOp = record { id = id; r = r; reveal_key = key } in
        let ks = set ri.revealed_keys me key in
        let w = write-eq_set ri.revealed_keys me key lt in
        let act : action_in Phase.reveal ri id me ≡ add (reveal_op op) = ground arith in
        elim (Bool-cases (any_key_nil ks)) [
          | inl e ↦ (
            record ri { revealed_keys = ks },
            record {
              id = id;
              me = me;
              op = reveal_op op;
              place = ix;
              action = rw ph act;
              accepted = inl (ground (arith, w, ix));
            },
          )
          | inr e ↦ (
            record ri { revealed_keys = ks; phase = Phase.done },
            record {
              id = id;
              me = me;
              op = reveal_op op;
              place = ix;
              action = rw ph act;
              accepted = inr (ground (arith, w, ix));
            },
          )
        ]
